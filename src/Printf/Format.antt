-- ===== src/Printf/Format.antt =====
-- kvsprintf of arch/ia32/printf.c. The format is the list of its bytes, with a NUL behind them. The
-- arguments are the 32-bit words on the stack, by index, and how many of them have been taken.
pub mod Directive
pub mod RoundTrip
pub mod Errors
pub mod Termination
use Prim.Native.Nat.{bit_or}
use rjk.Base.{
  ℕ, zero, suc, ◌+◌, ◌-◌, ◌*◌, ◌%◌, ◌^◌, Bool, true, false, ◌&&◌, ◌||◌, not, ◌++◌, Option, none,
  some, List, [], ◌∷◌, ◌==◌, if◌then◌else◌, u8, u32, leb, length,
}
use rjk.Printf.{Flags, write_character, write_string, write_number_kuint32, write_number_kuint64}

abbrev pub no_flags : Flags
no_flags = record {
  kuint8 = false;
  kuint16 = false;
  kuint32 = false;
  kuint64 = false;
  alternate = false;
  zero_pad = false;
  space_pad = false;
  unsigned = false;
  octal = false;
  hex = false;
  uppercase = false;
}

-- `c` and what is left of the format.
abbrev pub Cursor : Type 0
Cursor = ℕ × List ℕ

-- `c = *(format++)`
abbrev pub next : List ℕ → Cursor
next [] = (0, [])
next (c ∷ format) = (c, format)

abbrev pub is_flag : ℕ → Bool
is_flag c = (c == b'#') || (c == b'0') || (c == b' ')

abbrev pub add_flag : ℕ → Flags → Flags
add_flag c f =
    if c == b'#'
    then record f { alternate = true }
    else if c == b'0'
    then record f { zero_pad = true }
    else record f { space_pad = true }

-- The loop over the flags.
unfoldable pub read_flags : (c : ℕ) (format : List ℕ) → Flags → Flags × Cursor
read_flags c [] f = if is_flag c then (add_flag c f, (0, [])) else (f, (c, []))
read_flags c (d ∷ format) f =
    let rest = read_flags d format (add_flag c f) in
    if is_flag c then rest else (f, (c, d ∷ format))

abbrev pub is_digit : ℕ → Bool
is_digit c = leb b'0' c && leb c b'9'

-- The loop over the digits of a width or a precision, from `temp`.
unfoldable pub read_digits : (c : ℕ) (format : List ℕ) (temp : ℕ) → ℕ × Cursor
read_digits c [] temp =
    if is_digit c then (u32 (temp * 10 + (c - b'0')), (0, [])) else (temp, (c, []))
read_digits c (d ∷ format) temp =
    let rest = read_digits d format (u32 (temp * 10 + (c - b'0'))) in
    if is_digit c then rest else (temp, (c, d ∷ format))

-- `case '1': … case '9':`; with another character there is no number.
unfoldable pub read_number : Cursor → ℕ × Cursor
unfolding read_digits
read_number (c, format) =
    if leb b'1' c && leb c b'9' then read_digits c format 0 else (0, (c, format))

unfoldable pub read_precision : Cursor → ℕ × Cursor
unfolding read_number
read_precision (c, format) = if c == b'.' then read_number (next format) else (0, (c, format))

-- The lengths: `h`, `hh`, `l` and `ll`.
unfoldable pub read_length : Cursor → Flags → Flags × Cursor
read_length (c, format) f =
    let (d, rest) = next format in
    if c == b'h'
    then (if d == b'h'
        then (record f { kuint8 = true }, next rest)
        else (record f { kuint16 = true }, next format))
    else if c == b'l'
    then (if d == b'l'
        then (record f { kuint64 = true }, next rest)
        else (record f { kuint32 = true }, next format))
    else (f, (c, format))

-- What stands between the `%` and the specifier: the flags, `width`, and where the specifier is.
unfoldable pub read_directive : (c : ℕ) (format : List ℕ) → Flags × ℕ × Cursor
unfolding read_flags read_number read_precision read_length
read_directive c format =
    let (f1, at1) = read_flags c format no_flags in
    let (wide, at2) = read_number at1 in
    let (precise, at3) = read_precision at2 in
    let (f2, at4) = read_length at3 f1 in (f2, bit_or (u32 (wide * 2 ^ 16)) precise, at4)

-- The memory behind the pointers that `%s` takes, as texts, and write_number_kfloat of the three words of
-- a `kfloat`; `none` when that does not end.
pub record Outside : Type 0 where
  pub string_at : ℕ → List ℕ
  pub write_number_kfloat : (w0 w1 w2 width : ℕ) → List ℕ → Option (List ℕ)

-- The stack words taken so far, and the buffer.
pub record Printed : Type 0 where
  pub taken : ℕ
  pub buffer : List ℕ

abbrev pub numeric : ℕ → Flags → Option Flags
numeric c f =
    if c == b'X'
    then some (record f { uppercase = true; hex = true; unsigned = true })
    else if c == b'x'
    then some (record f { hex = true; unsigned = true })
    else if c == b'o'
    then some (record f { octal = true; unsigned = true })
    else if c == b'u'
    then some (record f { unsigned = true })
    else if (c == b'd') || (c == b'i')
    then some f
    else none

-- "(null)" and "(nil)"
abbrev pub null_text : List ℕ
null_text = b'(' ∷ b'n' ∷ b'u' ∷ b'l' ∷ b'l' ∷ b')' ∷ []

abbrev pub nil_text : List ℕ
nil_text = b'(' ∷ b'n' ∷ b'i' ∷ b'l' ∷ b')' ∷ []

-- "<format error,"
abbrev pub error_text : List ℕ
error_text =
    b'<' ∷ b'f' ∷ b'o' ∷ b'r' ∷ b'm' ∷ b'a' ∷ b't' ∷ b' ' ∷ b'e' ∷ b'r' ∷ b'r' ∷ b'o' ∷ b'r' ∷ b','
    ∷ []

unfoldable pub format_error : ℕ → Printed → Printed
format_error c p = record p {
  buffer = write_character b'>' (write_character c (write_string error_text p.buffer));
}

module _ (outside : Outside) (word : ℕ → ℕ) where
  unfoldable pub write_number : Flags → ℕ → Printed → Printed
  write_number f width p =
      if f.kuint64
      then record {
        taken = p.taken + 2;
        buffer = write_number_kuint64 (word p.taken + 2 ^ 32 * word (p.taken + 1)) f width p.buffer;
      }
      else record {
        taken = p.taken + 1;
        buffer = write_number_kuint32 (word p.taken) f width p.buffer;
      }

  -- The specifiers with no number: `none` when `c` is none of them, and `some none` when a float's
  -- writer does not end.
  unfoldable pub write_other : (c : ℕ) → Flags → ℕ → Printed → Option (Option Printed)
  write_other c f width p =
      let w = word p.taken in
      let took : List ℕ → Option (Option Printed) =
        λ b. some (some (record { taken = p.taken + 1; buffer = b })) in
      if c == b'%'
      then some (some (record p { buffer = write_character c p.buffer }))
      else if c == b'c'
      then took (write_character (u8 w) p.buffer)
      else if c == b's'
      then took (write_string (if w == 0 then null_text else outside.string_at w) p.buffer)
      else if c == b'p'
      then took (
          if w == 0
          then write_string nil_text p.buffer
          else write_number_kuint32 w (record f { alternate = true; hex = true; unsigned = true })
              width p.buffer)
      else if (c == b'f') || (c == b'F')
      then some
          (elim (outside.write_number_kfloat w (word (p.taken + 1)) (word (p.taken + 2)) width
            p.buffer) [ none ↦ none | some b ↦ some (record { taken = p.taken + 3; buffer = b }) ])
      else none

  -- The switch over the specifier.
  unfoldable pub convert : (c : ℕ) → Flags → ℕ → Printed → Option (Option Printed)
  unfolding write_number write_other
  convert c f width p = elim (numeric c f) [
    | none ↦ write_other c f width p
    | some g ↦ some (some (write_number g width p))
  ]

  -- The loop over the format; `none` when it has not ended after `rounds`, or a float's writer never does.
  unfoldable pub print_loop : (rounds : ℕ) (format : List ℕ) → Printed → Option Printed
  unfolding convert read_directive format_error
  print_loop zero format p = none
  print_loop (suc rounds) [] p = some p
  print_loop (suc rounds) (c ∷ format) p =
      let literal = print_loop rounds format (record p { buffer = write_character c p.buffer }) in
      let (d, rest) = next format in
      let (f, width, at) = read_directive d rest in
      let go_on = λ (q : Printed). print_loop rounds at.1 q in
      if c == 0
      then some p
      else if not (c == b'%')
      then literal
      else if d == 0
      then some (format_error d p)
      else elim (convert at.0 f width p) [
        | none ↦ some (format_error at.0 p)
        | some none ↦ none
        | some (some q) ↦ go_on q
      ]

  -- The value returned, and the buffer with the NUL.
  unfoldable pub kvsprintf : (rounds : ℕ) (format : List ℕ) → Option (ℕ × List ℕ)
  unfolding print_loop
  kvsprintf rounds format = elim (print_loop rounds format (record { taken = 0; buffer = [] })) [
    | none ↦ none
    | some p ↦ some (u32 (length p.buffer), p.buffer ++ 0 ∷ [])
  ]
