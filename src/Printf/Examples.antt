-- ===== src/Printf/Examples.antt =====
-- Some numbers and formats through the functions of arch/ia32/printf.c, and a small screen.
use rjk.Base.{
  ℕ, ◌+◌, ◌-◌, ◌*◌, ◌/◌, ◌<◌, ◌≤◌, ◌≡◌, refl, Bool, true, false, not, leb, ltb, All, none, some,
  List, [], ◌∷◌, ◌++◌, u8, u32, length, arith, inr, ◌==◌, if◌then◌else◌,
}
use native.Mathlib.Nat.{div-add-mod', mod-lt, div-lt_iff_lt-mul}
use rjk.Printf.{
  Flags, base_of, shown, is_minus, number_array, write_number_kuint32, write_string,
  write_character, push_digits, push_prefix, push_pad, digit_count, digit_char,
}
use rjk.Printf.Numeral.{IsNumeral}
use rjk.Printf.Number.{layout, write_number_lem, number_array_bound}
use rjk.Printf.Format.{no_flags, Outside, Printed, print_loop, kvsprintf, error_text}
use rjk.Printf.Format.Directive.{zeros, no_precision, precision, no_length, Directive, text, Number}
use rjk.Printf.Format.RoundTrip.{Item, literal, directive, show, render, print_loop-render}
use rjk.Printf.Format.Errors.{print_loop_error}
use rjk.Printf.Float.{
  Floats, IsScaling, IsDigit, scale, float_loop, write_number_kfloat, write_number_kfloat_lem,
}
use rjk.Printf.Screen.{Screen, Prints, scroll, text_of}
use rjk.Printf.Print.{kvprintf, kvprintf-Prints, scroll_lem}

-- `%#0.8x`
abbrev hex_flags : Flags
hex_flags = record no_flags { alternate = true; zero_pad = true; hex = true; unsigned = true }

write_number_lem_example :
    (ds : List ℕ) × IsNumeral (base_of hex_flags) (shown hex_flags 255) ds
    × (write_number_kuint32 255 hex_flags 8 (b'a' ∷ []) ≡ b'a' ∷ [] ++ layout hex_flags 255 8 ds)
write_number_lem_example = write_number_lem 255 hex_flags 8 (omega arith) (b'a' ∷ [])

-- "0x000000ff"
write_number_kuint32_test :
    write_number_kuint32 255 hex_flags 8 []
    ≡ b'0' ∷ b'x' ∷ b'0' ∷ b'0' ∷ b'0' ∷ b'0' ∷ b'0' ∷ b'0' ∷ b'f' ∷ b'f' ∷ []
unfolding write_number_kuint32 number_array shown is_minus base_of push_digits digit_count push_pad
    push_prefix write_string write_character digit_char
write_number_kuint32_test = refl

number_array_bound_example : length (number_array 4294967295 hex_flags 63) ≤ 67
number_array_bound_example = number_array_bound 4294967295 hex_flags 63 (omega arith)

abbrev eight : Number
eight = record {
  first = 8;
  others = [];
  first_pos = omega arith;
  first_le = omega arith;
  others_le = tt;
}

-- `%0.8x`
abbrev hex_directive : Directive
hex_directive = record {
  flags = zeros ∷ [];
  width = none;
  precise = precision eight;
  size = no_length;
  specifier = b'x';
}

abbrev items : List Item
items = literal b'a' ∷ directive hex_directive ∷ []

abbrev outside : Outside
outside = record { string_at = λ p. []; write_number_kfloat = λ w0 w1 w2 width b. some b }

-- The first argument is 255.
abbrev word : ℕ → ℕ
word k = if k == 0 then 255 else 0

abbrev start : Printed
start = record { taken = 0; buffer = [] }

print_loop-render_example :
    print_loop outside word 4 (show items) start ≡ render outside word items start
print_loop-render_example =
    print_loop-render outside word items 4 start (ground arith) (omega arith)

-- `%y`, and a literal that is not printed.
abbrev unknown : Directive
unknown = record {
  flags = [];
  width = none;
  precise = no_precision;
  size = no_length;
  specifier = b'y';
}

print_loop_error_example :
    print_loop outside word 5 (b'%' ∷ (text unknown ++ b'a' ∷ [])) start
    ≡ some (record start { buffer = [] ++ (error_text ++ u8 b'y' ∷ b'>' ∷ []) })
print_loop_error_example =
    print_loop_error outside word unknown (b'a' ∷ []) 4 start (omega arith) refl refl

-- The last line of a screen at 0xB8000 is full; the blank line is at 0x100000.
abbrev screen : Screen
screen = record { memory = λ a. u8 a; video_memory = 0xB8000; video_next = 3998; debug = [] }

kvprintf-Prints_example :
    (b : List ℕ) × (t : Screen) × (kvsprintf outside word 3 (show (literal b'a' ∷ []))
      ≡ some (u32 (length b), b ++ 0 ∷ []))
    × (kvprintf outside word 0x100000 3 (show (literal b'a' ∷ [])) screen
        ≡ (if ltb (length b) 4096 then some (u32 (length b), t) else none))
    × Prints screen t (text_of (b ++ 0 ∷ []))
kvprintf-Prints_example =
    kvprintf-Prints outside word 0x100000 3 (show (literal b'a' ∷ [])) screen (λ k width b e. cc)
      (omega arith) (record { even = omega arith; next_lt = omega arith; memory_lt = omega arith })
      (omega arith, inr (omega arith))

abbrev full_screen : Screen
full_screen = record screen { video_next = 4000 }

scroll_lem_test :
    ((k : ℕ)
      → k < 3840
      → (scroll 0x100000 full_screen).memory (0xB8000 + k) ≡ u8 (0xB8000 + k + 160))
    × ((k : ℕ)
        → k < 160
        → (scroll 0x100000 full_screen).memory (0xB8000 + 3840 + k) ≡ u8 (0x100000 + k))
    × ((scroll 0x100000 full_screen).video_next ≡ 3840)
scroll_lem_test =
    scroll_lem 0x100000 full_screen (omega arith) (omega arith) (omega arith, inr (omega arith))

-- Fractions in place of floating point numbers: -1/4 has no whole part, and 25/2 two digits of it.
abbrev fractions : Floats (Bool × ℕ × ℕ)
fractions = record {
  is_negative = λ x. x.0;
  negate = λ x. (not x.0, x.1, x.2);
  at_least_one = λ x. leb x.2 x.1;
  tenth = λ x. (x.0, x.1, x.2 * 10);
  tenfold = λ x. (x.0, x.1 * 10, x.2);
  whole = λ x. x.1 / x.2;
  minus = λ x k. (x.0, x.1 - k * x.2, x.2);
}

-- Those with a denominator that are not negative.
abbrev IsMagnitude : Bool × ℕ × ℕ → Type 0
IsMagnitude x = (x.0 ≡ false) × (0 < x.2)

fractions-next :
    (x : Bool × ℕ × ℕ)
    → IsMagnitude x
    → leb x.2 x.1 ≡ false
    → (x.1 * 10 / x.2 < 10) × IsMagnitude x × (leb x.2 (x.1 * 10 - x.1 * 10 / x.2 * x.2) ≡ false)
fractions-next (sign, n, d) (plus, pos) small =
    let below : n < d = ground (arith, small) in
    let digit : n * 10 / d < 10 = (div-lt_iff_lt-mul pos).1 (omega (arith, below)) in
    let rest : n * 10 - n * 10 / d * d < d =
      omega (arith, div-add-mod' (n * 10) d, mod-lt (n * 10) pos) in
    (digit, (plus, pos), ground (arith, rest))

fractions-IsScaling : IsScaling fractions IsMagnitude
fractions-IsScaling = record {
  down = λ x (plus, pos). (plus, omega (arith, pos));
  next = fractions-next;
}

scaled : scale fractions 20 0 (false, 25, 2) ≡ some (2, (false, 25, 200))
unfolding scale
scaled = refl

write_number_kfloat_lem_example :
    (whole decimals : List ℕ) × (write_number_kfloat fractions 20 (true, 25, 2) 3 []
      ≡ some ((b'-' ∷ []) ++ (whole ++ ([] ++ b'.' ∷ decimals))))
    × (length whole ≡ 2)
    × (length decimals ≡ 3)
    × All (IsDigit fractions) whole
    × All (IsDigit fractions) decimals
write_number_kfloat_lem_example =
    write_number_kfloat_lem fractions 20 (true, 25, 2) 3 [] 2 (false, 25, 200) fractions-IsScaling
      (refl, omega arith) scaled (omega arith)

-- "-12.500"
write_number_kfloat_test :
    write_number_kfloat fractions 20 (true, 25, 2) 3 []
    ≡ some (b'-' ∷ b'1' ∷ b'2' ∷ b'.' ∷ b'5' ∷ b'0' ∷ b'0' ∷ [])
unfolding write_number_kfloat scale float_loop write_character
write_number_kfloat_test = refl
