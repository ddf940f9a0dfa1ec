-- ===== src/Printf/Format/Termination.antt =====
-- That the loop of kvsprintf of arch/ia32/printf.c ends.
use rjk.Base.{
  ℕ, zero, suc, ◌+◌, ◌-◌, ◌*◌, ◌<◌, ◌≤◌, ◌≡◌, ◌≢◌, refl, inl, inr, Bool, true, false, ◌&&◌, ◌||◌,
  Option, none, some, List, [], ◌∷◌, ◌++◌, not, ◌==◌, if◌then◌else◌, u32, leb, arith, length,
  Bool-cases,
}
use rjk.Printf.{Flags, write_character}
use rjk.Printf.Format.{
  no_flags, Cursor, next, is_flag, add_flag, is_digit, read_flags, read_digits, read_number,
  read_precision, read_length, read_directive, Outside, Printed, convert, write_number, write_other,
  print_loop, kvsprintf, format_error, numeric,
}

next-length : (l : List ℕ) → length (next l).1 ≤ length l
next-length [] = omega arith
next-length (c ∷ l) = omega arith

read_flags-length : (c : ℕ) (l : List ℕ) (f : Flags) → length (read_flags c l f).1.1 ≤ length l
unfolding read_flags
read_flags-length c [] f = elim (Bool-cases (is_flag c)) [
  | inl e ↦ rw e (omega arith)
  | inr e ↦ rw e (omega arith)
]
read_flags-length c (d ∷ l) f = elim (Bool-cases (is_flag c)) [
  | inl e ↦ rw e (omega (arith, read_flags-length d l (add_flag c f)))
  | inr e ↦ rw e (omega arith)
]

read_digits-length : (c : ℕ) (l : List ℕ) (temp : ℕ) → length (read_digits c l temp).1.1 ≤ length l
unfolding read_digits
read_digits-length c [] temp = elim (Bool-cases (is_digit c)) [
  | inl e ↦ rw e (omega arith)
  | inr e ↦ rw e (omega arith)
]
read_digits-length c (d ∷ l) temp = elim (Bool-cases (is_digit c)) [
  | inl e ↦ rw e (omega (arith, read_digits-length d l (u32 (temp * 10 + (c - b'0')))))
  | inr e ↦ rw e (omega arith)
]

read_number-length : (at : Cursor) → length (read_number at).1.1 ≤ length at.1
unfolding read_number
read_number-length (c, l) = elim (Bool-cases (leb b'1' c && leb c b'9')) [
  | inl e ↦ rw e (read_digits-length c l 0)
  | inr e ↦ rw e (omega arith)
]

read_precision-length : (at : Cursor) → length (read_precision at).1.1 ≤ length at.1
unfolding read_precision
read_precision-length (c, l) = elim (Bool-cases (c == b'.')) [
  | inl e ↦ rw e (omega (arith, read_number-length (next l), next-length l))
  | inr e ↦ rw e (omega arith)
]

read_length-length : (at : Cursor) (f : Flags) → length (read_length at f).1.1 ≤ length at.1
unfolding read_length
read_length-length (c, l) f = ground (arith, next-length l, next-length (next l).1)

read_directive-length : (c : ℕ) (l : List ℕ) → length (read_directive c l).2.1 ≤ length l
unfolding read_directive
read_directive-length c l =
    let a1 = read_flags c l no_flags in
    let a2 = read_number a1.1 in
    let a3 = read_precision a2.1 in
    omega (
      arith,
      read_flags-length c l no_flags,
      read_number-length a1.1,
      read_precision-length a2.1,
      read_length-length a3.1 a1.0,
    )

abbrev Ends : Option Printed → Type 0
Ends r = (q : Printed) × (r ≡ some q)

if-Ends : (b : Bool) {x y : Option Printed} → Ends x → Ends y → Ends (if b then x else y)
if-Ends true ex ey = ex
if-Ends false ex ey = ey

after_convert-Ends :
    {go_on : Printed → Option Printed} (r : Option (Option Printed)) (c : ℕ) (p : Printed)
    → r ≢ some none
    → ((q : Printed) → Ends (go_on q))
    → Ends (elim r [ none ↦ some (format_error c p) | some none ↦ none | some (some q) ↦ go_on q ])
after_convert-Ends none c p ne h = (format_error c p, refl)
after_convert-Ends (some none) c p ne h = absurd (ne refl)
after_convert-Ends (some (some q)) c p ne h = h q

abbrev Done : Option (Option Printed) → Type 0
Done r = r ≢ some none

if-Done : (b : Bool) {x y : Option (Option Printed)} → Done x → Done y → Done (if b then x else y)
if-Done true ex ey = ex
if-Done false ex ey = ey

some-Done : (p : Printed) → Done (some (some p))
some-Done p e = cc

float-Done :
    (b : Option (List ℕ)) (go_on : List ℕ → Printed)
    → b ≢ none
    → Done (some (elim b [ none ↦ none | some l ↦ some (go_on l) ]))
float-Done none go_on ne = absurd (ne refl)
float-Done (some l) go_on ne = some-Done (go_on l)

numeric-Done :
    (r : Option Flags) {other : Option (Option Printed)} (go_on : Flags → Printed)
    → Done other
    → Done (elim r [ none ↦ other | some g ↦ some (some (go_on g)) ])
numeric-Done none go_on d = d
numeric-Done (some g) go_on d = some-Done (go_on g)

module _ (outside : Outside) (word : ℕ → ℕ)
    (floats_end : (k width : ℕ) (b : List ℕ)
      → outside.write_number_kfloat (word k) (word (k + 1)) (word (k + 2)) width b ≢ none) where
  write_other-Done :
      (c : ℕ) (f : Flags) (width : ℕ) (p : Printed) → Done (write_other outside word c f width p)
  unfolding write_other
  write_other-Done c f width p = if-Done (c == b'%') (some-Done _) (
      if-Done (c == b'c') (some-Done _) (
        if-Done (c == b's') (some-Done _) (
          if-Done (c == b'p') (some-Done _) (
            if-Done ((c == b'f') || (c == b'F'))
              (float-Done
                (outside.write_number_kfloat (word p.taken) (word (p.taken + 1))
                  (word (p.taken + 2)) width p.buffer)
                (λ b. record { taken = p.taken + 3; buffer = b })
                (floats_end p.taken width p.buffer))
              (λ e. cc)))))

  convert-Done :
      (c : ℕ) (f : Flags) (width : ℕ) (p : Printed) → Done (convert outside word c f width p)
  unfolding convert
  convert-Done c f width p =
      numeric-Done (numeric c f) (λ g. write_number outside word g width p)
        (write_other-Done c f width p)

  print_loop-Ends :
      (rounds : ℕ) (format : List ℕ) (p : Printed)
      → length format < rounds
      → Ends (print_loop outside word rounds format p)
  unfolding print_loop
  print_loop-Ends (suc rounds) [] p h = (p, refl)
  print_loop-Ends (suc rounds) (c ∷ format) p h =
      let r = read_directive (next format).0 (next format).1 in
      let behind = next-length format in
      let shorter = read_directive-length (next format).0 (next format).1 in
      if-Ends (c == 0) (p, refl)
        (if-Ends (not (c == b'%'))
          (print_loop-Ends rounds format (record p { buffer = write_character c p.buffer })
            (omega arith))
          (if-Ends ((next format).0 == 0) (format_error (next format).0 p, refl)
            (after_convert-Ends (convert outside word r.2.0 r.0 r.1 p) r.2.0 p
              (convert-Done r.2.0 r.0 r.1 p)
              (λ q. print_loop-Ends rounds r.2.1 q (omega (arith, behind, shorter))))))
  print_loop-Ends zero format p h = absurd (omega arith)

  -- When a float's writer runs for ever on no words of the arguments, the loop of kvsprintf ends on every format, after at most
  -- one round more than the format has bytes; the buffer then ends with a NUL, and the value returned is
  -- how many bytes stand before that one, as a 32-bit word.
  pub kvsprintf_ends :
      (rounds : ℕ) (format : List ℕ)
      → length format < rounds
      → (b : List ℕ) × (kvsprintf outside word rounds format ≡ some (u32 (length b), b ++ 0 ∷ []))
  unfolding kvsprintf
  kvsprintf_ends rounds format h =
      let (q, e) = print_loop-Ends rounds format (record { taken = 0; buffer = [] }) h in
      (q.buffer, rw (e, kvsprintf) refl)
