-- ===== src/Printf/Numeral.antt =====
-- The digits that write_number_kuint32 of arch/ia32/printf.c takes a number apart into.
use rjk.Base.{
  ℕ, zero, suc, ◌+◌, ◌*◌, ◌/◌, ◌%◌, ◌^◌, ◌<◌, ◌≤◌, ◌≡◌, ◌≢◌, refl, ap, sym, ◌∙◌, inl, inr, Bool,
  true, false, List, [], ◌∷◌, ◌++◌, map, append_assoc, ◌==◌, arith, length, length-append, All,
  All-append, Bool-cases,
}
use native.Mathlib.Nat.{div-add-mod', mod-lt, div-lt_iff_lt-mul, pow-suc, pow-zero}
use mathlib.Core.List.{map-append}
use mathlib.Core.Path.{subst}
use rjk.Printf.{digit_char, push_digits, digit_count}

-- The number that digits stand for, the first the highest.
abbrev pub value_on : (base acc : ℕ) → List ℕ → ℕ
value_on base acc [] = acc
value_on base acc (d ∷ ds) = value_on base (acc * base + d) ds

-- No zero in front but in the numeral of zero.
abbrev pub IsCanonical : List ℕ → Type 0
IsCanonical [] = ⊥
IsCanonical (d ∷ []) = Unit {0}
IsCanonical (d ∷ e ∷ ds) = d ≢ 0

pub record IsNumeral (base number : ℕ) (ds : List ℕ) : Type 0 where
  pub value : value_on base 0 ds ≡ number
  pub digits : All (λ d. d < base) ds
  pub canonical : IsCanonical ds

value_on-snoc :
    (base acc : ℕ) (ds : List ℕ) (d : ℕ)
    → value_on base acc (ds ++ d ∷ []) ≡ value_on base acc ds * base + d
value_on-snoc base acc [] d = refl
value_on-snoc base acc (e ∷ ds) d = value_on-snoc base (acc * base + e) ds d

IsCanonical-snoc :
    (base : ℕ) (ds : List ℕ) (d : ℕ)
    → IsCanonical ds
    → value_on base 0 ds ≢ 0
    → IsCanonical (ds ++ d ∷ [])
IsCanonical-snoc base [] d c ne = absurd c
IsCanonical-snoc base (e ∷ []) d c ne = λ z. ne (ground (arith, z))
IsCanonical-snoc base (e ∷ f ∷ ds) d c ne = c

pub record Pushed (uppercase : Bool) (base number count : ℕ) (array result : List ℕ) : Type 0 where
  pub ds : List ℕ
  pub result_eq : result ≡ map (digit_char uppercase) ds ++ array
  pub numeral : IsNumeral base number ds
  pub count_eq : length ds ≡ count

-- A number that is not below the base has more digits, and its quotient fits the rounds that are left.
quotient-lt :
    (base number rounds : ℕ) → 0 < base → number < base ^ suc rounds → number / base < base ^ rounds
quotient-lt base number rounds b h =
    (div-lt_iff_lt-mul b).1 (subst (λ t. number < t) (pow-suc base rounds) h)

one_digit :
    (uppercase : Bool) (base number : ℕ) (array : List ℕ)
    → 2 ≤ base
    → (number / base == 0) ≡ true
    → Pushed uppercase base number 1 array (digit_char uppercase (number % base) ∷ array)
one_digit uppercase base number array b last = record {
  ds = (number % base) ∷ [];
  result_eq = refl;
  numeral = record {
    value = ground (arith, div-add-mod' number base);
    digits = (mod-lt number (omega arith), tt);
    canonical = tt;
  };
  count_eq = refl;
}

more_digits :
    {uppercase : Bool} {base number count : ℕ} {array result : List ℕ}
    → 2 ≤ base
    → (number / base == 0) ≡ false
    → Pushed uppercase base
        (number / base)
        count
        (digit_char uppercase (number % base) ∷ array)
        result
    → Pushed uppercase base number (suc count) array result
more_digits {uppercase} {base} {number} {count} {array} b more rest = record {
  ds = rest.ds ++ (number % base) ∷ [];
  result_eq =
      rest.result_eq
      ∙ sym (
          ap (λ l. l ++ array) (map-append (digit_char uppercase) rest.ds ((number % base) ∷ []))
          ∙ append_assoc (map (digit_char uppercase) rest.ds)
              (digit_char uppercase (number % base) ∷ []) array);
  numeral = record {
    value =
        value_on-snoc base 0 rest.ds (number % base)
        ∙ ap (λ (n : ℕ). n * base + number % base) rest.numeral.value
        ∙ div-add-mod' number base;
    digits =
        All-append (λ d. d < base) rest.ds ((number % base) ∷ []) rest.numeral.digits
          (mod-lt number (omega arith), tt);
    canonical =
        IsCanonical-snoc base rest.ds (number % base) rest.numeral.canonical
          (λ z. ground (arith, rest.numeral.value));
  };
  count_eq = omega (arith, length-append rest.ds ((number % base) ∷ []), rest.count_eq);
}

pub push_digits-Pushed :
    (rounds : ℕ) (uppercase : Bool) (base number : ℕ) (array : List ℕ)
    → 2 ≤ base
    → number < base ^ suc rounds
    → Pushed uppercase base number
        (digit_count (suc rounds) base number)
        array
        (push_digits (suc rounds) uppercase base number array)
unfolding push_digits digit_count
push_digits-Pushed zero uppercase base number array b h =
    let small = quotient-lt base number 0 (omega arith) h in
    let last : (number / base == 0) ≡ true = ground (arith, small, pow-zero base) in
    rw last (one_digit uppercase base number array b last)
push_digits-Pushed (suc rounds) uppercase base number array b h =
    elim (Bool-cases (number / base == 0)) [
      | inl last ↦ rw last (one_digit uppercase base number array b last)
      | inr more ↦ rw more (
          more_digits b more (
            push_digits-Pushed rounds uppercase base (number / base)
              (digit_char uppercase (number % base) ∷ array) b
              (quotient-lt base number (suc rounds) (omega arith) h)))
    ]
