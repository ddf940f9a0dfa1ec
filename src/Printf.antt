-- ===== src/Printf.antt =====
-- arch/ia32/printf.c: the writers of characters, strings and numbers. The buffer is the list of the
-- bytes written to it so far. A text is the list of its bytes, without the NUL at its end.
mod Examples
pub mod Numeral
pub mod Number
pub mod Format
pub mod Float
pub mod Screen
pub mod Print
pub mod Start
use Prim.Native.Nat.{bit_and}
use rjk.Base.{
  ℕ, zero, suc, ◌+◌, ◌-◌, ◌/◌, ◌%◌, ◌^◌, Bool, true, false, ◌&&◌, ◌||◌, not, List, [], ◌∷◌, ◌++◌,
  ◌==◌, if◌then◌else◌, u8, u32, sub32, test_bit, bit, ltb,
}

-- The bits of `flags` that the code reads, each a bit of its own.
pub record Flags : Type 0 where
  pub kuint8 : Bool
  pub kuint16 : Bool
  pub kuint32 : Bool
  pub kuint64 : Bool
  pub alternate : Bool
  pub zero_pad : Bool
  pub space_pad : Bool
  pub unsigned : Bool
  pub octal : Bool
  pub hex : Bool
  pub uppercase : Bool

unfoldable pub write_character : ℕ → List ℕ → List ℕ
write_character c buffer = buffer ++ u8 c ∷ []

unfoldable pub write_string : List ℕ → List ℕ → List ℕ
write_string [] buffer = buffer
write_string (c ∷ s) buffer =
    let rest = write_string s (write_character c buffer) in if c == 0 then buffer else rest

-- `lower_digits` and `upper_digits`: the ten digits, then `a` or `A` on.
unfoldable pub digit_char : Bool → ℕ → ℕ
digit_char uppercase d = if ltb d 10 then d + b'0' else if uppercase then d + 55 else d + 87

unfoldable pub base_of : Flags → ℕ
base_of f = if f.hex then 16 else if f.octal then 8 else 10

-- Is the number shown as a negative one?
unfoldable pub is_minus : Flags → ℕ → Bool
is_minus f number = not f.hex && not f.octal && not f.unsigned && test_bit number 31

-- The number whose digits are shown: `(~number) + 1` of a negative one, then cut to its length.
unfoldable pub shown : Flags → ℕ → ℕ
unfolding is_minus
shown f number =
    let n = if is_minus f number then sub32 0 number else number in
    if f.kuint8 then n % 2 ^ 8 else if f.kuint16 then n % 2 ^ 16 else n

-- `do … while((number /= base) > 0)`, onto the array; the array is a list with its end in front. No
-- number has more digits than there are rounds.
unfoldable pub push_digits : (rounds : ℕ) → Bool → (base number : ℕ) → List ℕ → List ℕ
push_digits zero uppercase base number array = array
push_digits (suc rounds) uppercase base number array =
    let pushed = digit_char uppercase (number % base) ∷ array in
    let rest = push_digits rounds uppercase base (number / base) pushed in
    if number / base == 0 then pushed else rest

-- How often that loop runs, which is what it takes off `pad`.
unfoldable pub digit_count : (rounds base number : ℕ) → ℕ
digit_count zero base number = 0
digit_count (suc rounds) base number =
    let rest = digit_count rounds base (number / base) in if number / base == 0 then 1 else suc rest

-- `while(pad-- > 0)`: a `pad` below zero pads nothing, as zero does.
unfoldable pub push_pad : (pad c : ℕ) → List ℕ → List ℕ
push_pad zero c array = array
push_pad (suc pad) c array = push_pad pad c (c ∷ array)

-- `(flags & FLAG_OCTAL) & (!(flags & FLAG_ZERO_PAD))`, of which the second part is 0 or 1.
abbrev pub octal_prefix : Flags → Bool
octal_prefix f = not (bit_and (if f.octal then 0x1000 else 0) (bit (not f.zero_pad)) == 0)

unfoldable pub push_prefix : Flags → List ℕ → List ℕ
push_prefix f array =
    if f.alternate
    then (if f.hex
        then b'0' ∷ (if f.uppercase then b'X' else b'x') ∷ array
        else if octal_prefix f
        then b'0' ∷ array
        else array)
    else array

abbrev pub rounds_of_digits : ℕ
rounds_of_digits = 11

-- The array before it is read back.
unfoldable pub number_array : (number : ℕ) → Flags → (width : ℕ) → List ℕ
unfolding shown is_minus base_of push_digits digit_count push_pad push_prefix
number_array number f width =
    let n = shown f number in
    let uppercase = f.hex && f.uppercase in
    let pad = width % 64 - digit_count rounds_of_digits (base_of f) n in
    let a1 = push_digits rounds_of_digits uppercase (base_of f) n (0 ∷ []) in
    let a2 = if f.zero_pad then push_pad pad b'0' a1 else a1 in
    let a3 = push_prefix f a2 in
    let a4 = if is_minus f number then b'-' ∷ a3 else a3 in
    if f.zero_pad then a4 else push_pad pad b' ' a4

-- The loop `while((c = *(--p)))` reads the array as write_string reads a text.
unfoldable pub write_number_kuint32 : (number : ℕ) → Flags → (width : ℕ) → List ℕ → List ℕ
unfolding number_array
write_number_kuint32 number f width buffer = write_string (number_array number f width) buffer

-- The body is empty.
unfoldable pub write_number_kuint64 : (number : ℕ) → Flags → (width : ℕ) → List ℕ → List ℕ
write_number_kuint64 number f width buffer = buffer
