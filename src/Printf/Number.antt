-- ===== src/Printf/Number.antt =====
-- What write_number_kuint32 of arch/ia32/printf.c writes, and how much of its array it uses.
use Prim.Native.Nat.{bit_and}
use rjk.Base.{
  ℕ, zero, suc, ◌-◌, ◌/◌, ◌%◌, ◌^◌, ◌<◌, ◌≤◌, ◌≡◌, ◌↔◌, refl, ap, sym, ◌∙◌, ◌⊎◌, inl, inr, Bool,
  true, false, ◌&&◌, not, List, [], ◌∷◌, ◌++◌, map, append-nil, append_assoc, ◌==◌, if◌then◌else◌,
  test_bit-pow, bit, arith, length, length-append, All, All-append,
}
use rjk.Printf.{
  Flags, write_character, write_string, digit_char, base_of, is_minus, shown, push_digits,
  digit_count, push_pad, push_prefix, rounds_of_digits, number_array, write_number_kuint32,
}
use rjk.Printf.Numeral.{IsNumeral, Pushed, push_digits-Pushed}

-- A text of bytes other than NUL is written whole; what stands behind a NUL is not.
abbrev pub IsText : List ℕ → Type 0
IsText = All (λ c. (0 < c) × (c < 256))

pub write_string-text :
    (s rest buffer : List ℕ) → IsText s → write_string (s ++ 0 ∷ rest) buffer ≡ buffer ++ s
unfolding write_string write_character
write_string-text [] rest buffer t = sym (append-nil buffer)
write_string-text (c ∷ s) rest buffer t =
    let byte : c % 256 ≡ c = omega arith in
    let ne : (c == 0) ≡ false = ground arith in
    rw (ne, write_string-text s rest (buffer ++ (c % 256) ∷ []) t.1, byte)
      (append_assoc buffer (c ∷ []) s)

abbrev pub replicate : ℕ → ℕ → List ℕ
replicate zero c = []
replicate (suc n) c = c ∷ replicate n c

replicate-cons : (n c : ℕ) (l : List ℕ) → replicate n c ++ c ∷ l ≡ replicate (suc n) c ++ l
replicate-cons zero c l = refl
replicate-cons (suc n) c l = ap (λ t. c ∷ t) (replicate-cons n c l)

push_pad_lem : (pad c : ℕ) (l : List ℕ) → push_pad pad c l ≡ replicate pad c ++ l
unfolding push_pad
push_pad_lem zero c l = refl
push_pad_lem (suc pad) c l = push_pad_lem pad c (c ∷ l) ∙ replicate-cons pad c l

length-replicate : (n c : ℕ) → length (replicate n c) ≡ n
length-replicate zero c = refl
length-replicate (suc n) c = ap suc (length-replicate n c)

replicate-IsText : (n c : ℕ) → 0 < c → c < 256 → IsText (replicate n c)
replicate-IsText zero c p h = tt
replicate-IsText (suc n) c p h = ((p, h), replicate-IsText n c p h)

digits-IsText :
    (uppercase : Bool) (ds : List ℕ) → All (λ d. d < 16) ds → IsText (map (digit_char uppercase) ds)
unfolding digit_char
digits-IsText uppercase [] h = tt
digits-IsText uppercase (d ∷ ds) h = (ground arith, digits-IsText uppercase ds h.1)

-- What stands around the digits: spaces, the sign, `0x` and zeros. `#` has no effect on octal numbers.
abbrev pub prefix_of : Flags → List ℕ
prefix_of f = if f.alternate && f.hex then b'0' ∷ (if f.uppercase then b'X' else b'x') ∷ [] else []

abbrev pub layout : Flags → (number width : ℕ) → (ds : List ℕ) → List ℕ
layout f number width ds =
    let pad = width % 64 - length ds in
    (if f.zero_pad then [] else replicate pad b' ')
    ++ ((if is_minus f number then b'-' ∷ [] else [])
        ++ (prefix_of f
            ++ ((if f.zero_pad then replicate pad b'0' else [])
                ++ map (digit_char (f.hex && f.uppercase)) ds)))

All-weaken : {a b : ℕ} (ds : List ℕ) → a ≤ b → All (λ d. d < a) ds → All (λ d. d < b) ds
All-weaken [] h all = tt
All-weaken (d ∷ ds) h all = (omega arith, All-weaken ds h all.1)

if-IsText : (b : Bool) (x y : List ℕ) → IsText x → IsText y → IsText (if b then x else y)
if-IsText true x y hx hy = hx
if-IsText false x y hx hy = hy

join-IsText : (a b : List ℕ) → IsText a → IsText b → IsText (a ++ b)
join-IsText = All-append (λ c. (0 < c) × (c < 256))

length-map : (g : ℕ → ℕ) (l : List ℕ) → length (map g l) ≡ length l
length-map g [] = refl
length-map g (c ∷ l) = ap suc (length-map g l)

digit_count-le : (rounds base number : ℕ) → digit_count rounds base number ≤ rounds
unfolding digit_count
digit_count-le zero base number = omega arith
digit_count-le (suc rounds) base number = ground (arith, digit_count-le rounds base (number / base))

-- The parts of a layout with one of the two paddings have at most 66 bytes.
parts_bound :
    (zeros minus : Bool) (pad n : ℕ) (pre ds : List ℕ)
    → length ds ≡ n
    → n ≤ 11
    → pad ≤ 63 - n
    → length pre ≤ 2
    → length (
        (if zeros then [] else replicate pad b' ')
        ++ ((if minus then b'-' ∷ [] else [])
            ++ (pre ++ ((if zeros then replicate pad b'0' else []) ++ ds))))
      ≤ 66
parts_bound true true pad n pre ds e a b c = omega (
  arith,
  length-append pre (replicate pad b'0' ++ ds),
  length-append (replicate pad b'0') ds,
  length-replicate pad b'0',
)
parts_bound true false pad n pre ds e a b c = omega (
  arith,
  length-append pre (replicate pad b'0' ++ ds),
  length-append (replicate pad b'0') ds,
  length-replicate pad b'0',
)
parts_bound false true pad n pre ds e a b c = omega (
  arith,
  length-append (replicate pad b' ') (b'-' ∷ (pre ++ ds)),
  length-append pre ds,
  length-replicate pad b' ',
)
parts_bound false false pad n pre ds e a b c = omega (
  arith,
  length-append (replicate pad b' ') (pre ++ ds),
  length-append pre ds,
  length-replicate pad b' ',
)

octal_none : (a b : Bool) → not (bit_and (if a then 0x1000 else 0) (bit (not b)) == 0) ≡ false
octal_none true true = refl
octal_none true false = refl
octal_none false true = refl
octal_none false false = refl

arrange :
    (zeros minus : Bool) (pad : ℕ) (pre ds : List ℕ)
    → (let a1 = ds ++ 0 ∷ [] in
        let a2 = if zeros then replicate pad b'0' ++ a1 else a1 in
        let a3 = pre ++ a2 in
        let a4 = if minus then b'-' ∷ a3 else a3 in if zeros then a4 else replicate pad b' ' ++ a4)
      ≡ ((if zeros then [] else replicate pad b' ')
          ++ ((if minus then b'-' ∷ [] else [])
              ++ (pre ++ ((if zeros then replicate pad b'0' else []) ++ ds))))
        ++ 0 ∷ []
arrange true true pad pre ds = simp append_assoc
arrange true false pad pre ds = simp append_assoc
arrange false true pad pre ds = simp append_assoc
arrange false false pad pre ds = simp append_assoc

module _ (number : ℕ) (f : Flags) (width : ℕ) (h : number < 2 ^ 32) where
  base_cases : (base_of f ≡ 8) ⊎ ((base_of f ≡ 10) ⊎ (base_of f ≡ 16))
  unfolding base_of
  base_cases = ground arith

  shown-lt : shown f number < 2 ^ 32
  unfolding shown
  shown-lt = ground arith

  enough_rounds : (b : ℕ) → (b ≡ 8) ⊎ ((b ≡ 10) ⊎ (b ≡ 16)) → shown f number < b ^ 11
  enough_rounds b (inl e) = rw e (omega (arith, shown-lt))
  enough_rounds b (inr (inl e)) = rw e (omega (arith, shown-lt))
  enough_rounds b (inr (inr e)) = rw e (omega (arith, shown-lt))

  pushed :
      Pushed
        (f.hex && f.uppercase)
        (base_of f)
        (shown f number)
        (digit_count rounds_of_digits (base_of f) (shown f number))
        (0 ∷ [])
        (push_digits rounds_of_digits (f.hex && f.uppercase) (base_of f) (shown f number) (0 ∷ []))
  pushed =
      push_digits-Pushed 10 (f.hex && f.uppercase) (base_of f) (shown f number) (0 ∷ [])
        (ground (arith, base_cases)) (enough_rounds (base_of f) base_cases)

  push_prefix_lem : (l : List ℕ) → push_prefix f l ≡ prefix_of f ++ l
  unfolding push_prefix
  push_prefix_lem l = ground (arith, octal_none f.octal f.zero_pad)

  array_lem : number_array number f width ≡ layout f number width pushed.ds ++ 0 ∷ []
  unfolding number_array
  array_lem =
      simp (push_pad_lem, push_prefix_lem, pushed.result_eq, pushed.count_eq)
        (arrange f.zero_pad (is_minus f number)
          (width % 64 - digit_count rounds_of_digits (base_of f) (shown f number)) (prefix_of f)
          (map (digit_char (f.hex && f.uppercase)) pushed.ds))

  digits-small : All (λ d. d < 16) pushed.ds
  digits-small = All-weaken pushed.ds (ground (arith, base_cases)) pushed.numeral.digits

  layout-IsText : IsText (layout f number width pushed.ds)
  layout-IsText =
      let pad = width % 64 - length pushed.ds in
      let digits = digits-IsText (f.hex && f.uppercase) pushed.ds digits-small in
      let zeros =
        if-IsText f.zero_pad (replicate pad b'0') []
          (replicate-IsText pad b'0' (omega arith) (omega arith)) tt in
      let spaces =
        if-IsText f.zero_pad [] (replicate pad b' ') tt
          (replicate-IsText pad b' ' (omega arith) (omega arith)) in
      let minus = if-IsText (is_minus f number) (b'-' ∷ []) [] (omega arith) tt in
      let pre : IsText (prefix_of f) = ground arith in
      join-IsText _ _ spaces
        (join-IsText _ _ minus (join-IsText _ _ pre (join-IsText _ _ zeros digits)))

  -- For a 32-bit number, write_number_kuint32 writes, behind what the buffer has: spaces or, under the
  -- sign and `0x`, zeros up to the precision (at most 63); a minus sign for a negative number
  -- shown in decimal as signed; `0x` or `0X` for `#` in hexadecimal; and the numeral of the number shown,
  -- in the base asked for, its digits below the base, with no zero in front. 11 rounds are enough.
  pub write_number_lem :
      (buffer : List ℕ)
      → (ds : List ℕ) × IsNumeral (base_of f) (shown f number) ds
        × (write_number_kuint32 number f width buffer ≡ buffer ++ layout f number width ds)
  unfolding write_number_kuint32
  write_number_lem buffer = (
    pushed.ds,
    pushed.numeral,
    rw array_lem (write_string-text (layout f number width pushed.ds) [] buffer layout-IsText),
  )

  -- A number is shown as a negative one just when it is shown in decimal as signed and its top bit is
  -- set; with no length given, the number shown is then its distance from 2 ^ 32.
  pub is_minus_lem :
      f.kuint8 ≡ false
      → f.kuint16 ≡ false
      → ((is_minus f number ≡ true)
          ↔ ((f.hex ≡ false) × (f.octal ≡ false) × (f.unsigned ≡ false) × (2 ^ 31 ≤ number)))
        × (shown f number ≡ (if is_minus f number then 2 ^ 32 - number else number))
  unfolding shown is_minus
  is_minus_lem whole half =
      (ground (arith, test_bit-pow number 31), ground (arith, whole, half, test_bit-pow number 31))

  -- The local array of 68 bytes is never overrun: a number uses at most 67 of them, the NUL included.
  pub number_array_bound : length (number_array number f width) ≤ 67
  number_array_bound =
      let n = digit_count rounds_of_digits (base_of f) (shown f number) in
      let few = digit_count-le rounds_of_digits (base_of f) (shown f number) in
      let pre : length (prefix_of f) ≤ 2 = ground arith in
      let parts =
        parts_bound f.zero_pad (is_minus f number) (width % 64 - length pushed.ds) n (prefix_of f)
          (map (digit_char (f.hex && f.uppercase)) pushed.ds)
          (length-map (digit_char (f.hex && f.uppercase)) pushed.ds ∙ pushed.count_eq) few
          (omega (arith, pushed.count_eq)) pre in
      rw array_lem (omega (arith, parts, length-append (layout f number width pushed.ds) (0 ∷ [])))
