-- ===== src/Printf/Format/Directive.antt =====
-- The directives that kvsprintf of arch/ia32/printf.c reads, as data, and their text.
use rjk.Base.{
  ℕ, ◌+◌, ◌-◌, ◌*◌, ◌%◌, ◌^◌, ◌≤◌, ◌≡◌, refl, ap, ◌∙◌, Bool, true, false, ◌&&◌, ◌||◌, not, Option,
  none, some, List, [], ◌∷◌, ◌++◌, map, ◌==◌, u32, leb, arith, All,
}
use Prim.Native.Nat.{bit_or}
use rjk.Printf.{Flags}
use rjk.Printf.Numeral.{value_on}
use rjk.Printf.Format.{
  no_flags, Cursor, next, is_flag, add_flag, read_flags, is_digit, read_digits, read_number,
  read_precision, read_length,
}

pub data Flag : Type 0 where
  hash zeros space : Flag

abbrev pub flag_char : Flag → ℕ
flag_char hash = b'#'
flag_char zeros = b'0'
flag_char space = b' '

-- A number without a zero in front.
pub record Number : Type 0 where
  pub first : ℕ
  pub others : List ℕ
  pub first_pos : 1 ≤ first
  pub first_le : first ≤ 9
  pub others_le : All (λ d. d ≤ 9) others

pub data Precision : Type 0 where
  no_precision point : Precision
  precision : Number → Precision

pub data Length : Type 0 where
  no_length half byte long double_long : Length

pub record Directive : Type 0 where
  pub flags : List Flag
  pub width : Option Number
  pub precise : Precision
  pub size : Length
  pub specifier : ℕ

abbrev pub digit_text : List ℕ → List ℕ
digit_text ds = map (λ d. d + b'0') ds

abbrev pub number_text : Number → List ℕ
number_text n = digit_text (n.first ∷ n.others)

abbrev pub width_text : Option Number → List ℕ
width_text none = []
width_text (some n) = number_text n

abbrev pub precision_text : Precision → List ℕ
precision_text no_precision = []
precision_text point = b'.' ∷ []
precision_text (precision n) = b'.' ∷ number_text n

abbrev pub length_text : Length → List ℕ
length_text no_length = []
length_text half = b'h' ∷ []
length_text byte = b'h' ∷ b'h' ∷ []
length_text long = b'l' ∷ []
length_text double_long = b'l' ∷ b'l' ∷ []

-- The text of a directive behind its `%`.
abbrev pub text : Directive → List ℕ
text d =
    map flag_char d.flags
    ++ (width_text d.width
        ++ (precision_text d.precise ++ (length_text d.size ++ d.specifier ∷ [])))

-- A character that ends a directive: it is none of those that may stand before the specifier.
abbrev pub ends : ℕ → Bool
ends c = not (is_flag c || is_digit c || (c == b'.') || (c == b'h') || (c == b'l'))

-- What a directive means: its flags and its number for `width`.
abbrev pub add_flags : List Flag → Flags → Flags
add_flags [] f = f
add_flags (a ∷ fs) f = add_flags fs (add_flag (flag_char a) f)

abbrev pub add_length : Length → Flags → Flags
add_length no_length f = f
add_length half f = record f { kuint16 = true }
add_length byte f = record f { kuint8 = true }
add_length long f = record f { kuint32 = true }
add_length double_long f = record f { kuint64 = true }

abbrev pub number_value : Number → ℕ
number_value n = value_on 10 0 (n.first ∷ n.others) % 2 ^ 32

abbrev pub width_value : Option Number → ℕ
width_value none = 0
width_value (some n) = number_value n

abbrev pub precision_value : Precision → ℕ
precision_value (precision n) = number_value n
precision_value _ = 0

abbrev pub flags_of : Directive → Flags
flags_of d = add_length d.size (add_flags d.flags no_flags)

abbrev pub width_of : Directive → ℕ
width_of d = bit_or (u32 (width_value d.width * 2 ^ 16)) (precision_value d.precise)

flags_stop :
    (c : ℕ) (format : List ℕ) (f : Flags)
    → is_flag c ≡ false
    → read_flags c format f ≡ (f, (c, format))
unfolding read_flags
flags_stop c [] f h = rw h
flags_stop c (d ∷ format) f h = rw h

flags_step :
    (c : ℕ) (format : List ℕ) (f : Flags)
    → is_flag c ≡ true
    → read_flags c format f ≡ read_flags (next format).0 (next format).1 (add_flag c f)
unfolding read_flags
flags_step c [] f h = rw h
flags_step c (d ∷ format) f h = rw h

is_flag-flag_char : (a : Flag) → is_flag (flag_char a) ≡ true
is_flag-flag_char hash = refl
is_flag-flag_char zeros = refl
is_flag-flag_char space = refl

pub read_flags-text :
    (fs : List Flag) (l : List ℕ) (f : Flags)
    → is_flag (next l).0 ≡ false
    → (let (c, format) = next (map flag_char fs ++ l) in read_flags c format f)
      ≡ (add_flags fs f, next l)
read_flags-text [] l f h = flags_stop (next l).0 (next l).1 f h
read_flags-text (a ∷ fs) l f h =
    flags_step (flag_char a) (map flag_char fs ++ l) f (is_flag-flag_char a)
    ∙ read_flags-text fs l (add_flag (flag_char a) f) h

digits_stop :
    (c : ℕ) (format : List ℕ) (temp : ℕ)
    → is_digit c ≡ false
    → read_digits c format temp ≡ (temp, (c, format))
unfolding read_digits
digits_stop c [] temp h = rw h
digits_stop c (d ∷ format) temp h = rw h

digits_step :
    (c : ℕ) (format : List ℕ) (temp : ℕ)
    → is_digit c ≡ true
    → read_digits c format temp
      ≡ read_digits (next format).0 (next format).1 (u32 (temp * 10 + (c - b'0')))
unfolding read_digits
digits_step c [] temp h = rw h
digits_step c (d ∷ format) temp h = rw h

pub read_digits-text :
    (ds l : List ℕ) (temp : ℕ)
    → All (λ d. d ≤ 9) ds
    → is_digit (next l).0 ≡ false
    → (let (c, format) = next (digit_text ds ++ l) in read_digits c format (temp % 2 ^ 32))
      ≡ (value_on 10 temp ds % 2 ^ 32, next l)
read_digits-text [] l temp all h = digits_stop (next l).0 (next l).1 (temp % 2 ^ 32) h
read_digits-text (d ∷ ds) l temp all h =
    let digit : is_digit (d + b'0') ≡ true = ground arith in
    let step : u32 (temp % 2 ^ 32 * 10 + (d + b'0' - b'0')) ≡ (temp * 10 + d) % 2 ^ 32 =
      omega arith in
    digits_step (d + b'0') (digit_text ds ++ l) (temp % 2 ^ 32) digit
    ∙ ap (λ (t : ℕ). let (c, format) = next (digit_text ds ++ l) in read_digits c format t) step
    ∙ read_digits-text ds l (temp * 10 + d) all.1 h

pub read_number-text :
    (n : Number) (l : List ℕ)
    → is_digit (next l).0 ≡ false
    → read_number (next (number_text n ++ l)) ≡ (number_value n, next l)
unfolding read_number
read_number-text n l h =
    let digit : (leb b'1' (n.first + b'0') && leb (n.first + b'0') b'9') ≡ true =
      ground (arith, n.first_pos, n.first_le) in
    rw digit (read_digits-text (n.first ∷ n.others) l 0 (n.first_le, n.others_le) h)

no_number : (at : Cursor) → is_digit at.0 ≡ false → read_number at ≡ (0, at)
unfolding read_number
no_number (c, format) h = ground arith

pub read_width-text :
    (w : Option Number) (l : List ℕ)
    → is_digit (next l).0 ≡ false
    → read_number (next (width_text w ++ l)) ≡ (width_value w, next l)
read_width-text none l h = no_number (next l) h
read_width-text (some n) l h = read_number-text n l h

pub read_precision-text :
    (p : Precision) (l : List ℕ)
    → is_digit (next l).0 ≡ false
    → ((next l).0 == b'.') ≡ false
    → read_precision (next (precision_text p ++ l)) ≡ (precision_value p, next l)
unfolding read_precision
read_precision-text no_precision l h k = rw k
read_precision-text point l h k = no_number (next l) h
read_precision-text (precision n) l h k = read_number-text n l h

pub read_length-text :
    (size : Length) (s : ℕ) (rest : List ℕ) (f : Flags)
    → (s == b'h') ≡ false
    → (s == b'l') ≡ false
    → read_length (next (length_text size ++ s ∷ rest)) f ≡ (add_length size f, (s, rest))
unfolding read_length
read_length-text no_length s rest f h l = rw (h, l)
read_length-text half s rest f h l = rw h
read_length-text byte s rest f h l = refl
read_length-text long s rest f h l = rw l
read_length-text double_long s rest f h l = refl
