-- ===== src/Printf/Float.antt =====
-- write_number_kfloat of arch/ia32/printf.c over any operations on floating point numbers.
use rjk.Base.{
  ℕ, zero, suc, ◌+◌, ◌-◌, ◌%◌, ◌^◌, ◌<◌, ◌≤◌, ◌≡◌, refl, sym, ap, ◌∙◌, inl, inr, Bool, true, false,
  ◌&&◌, ◌||◌, not, Option, none, some, List, [], ◌∷◌, ◌++◌, append-nil, append_assoc, All, ◌==◌,
  if◌then◌else◌, ltb, u8, arith, Bool-cases, length,
}
use mathlib.Core.Path.{subst}
use rjk.Printf.{write_character}

-- The operations of the processor that the function uses: `number < 0.0`, `number * -1.0`, `number >= 1.0`,
-- `number / 10.0`, `number * 10.0`, `(kuint)number` and `number - tmp`.
pub record Floats (F : Type 0) : Type 0 where
  pub is_negative : F → Bool
  pub negate : F → F
  pub at_least_one : F → Bool
  pub tenth : F → F
  pub tenfold : F → F
  pub whole : F → ℕ
  pub minus : F → ℕ → F

module _ {F : Type 0} (ops : Floats F) where
  -- `while(number >= 1.0)`: the count and the number; `none` when it has not ended after `rounds`.
  unfoldable pub scale : (rounds count : ℕ) → F → Option (ℕ × F)
  scale zero count number = none
  scale (suc rounds) count number =
      let rest = scale rounds (count + 1) (ops.tenth number) in
      if ops.at_least_one number then rest else some (count, number)

  -- `count` is a `kint`; `none` stands for -1, below which it does not get.
  abbrev pub goes_on : (count : Option ℕ) (decimal_places : ℕ) → Bool
  goes_on none decimal_places = ltb 0 decimal_places
  goes_on (some count) decimal_places = ltb 0 count || ltb 0 decimal_places

  -- `if(0 == count)`
  abbrev pub write_point : (count : Option ℕ) (written_one : Bool) → List ℕ → List ℕ
  write_point (some zero) written_one buffer =
      write_character b'.' (if written_one then buffer else write_character b'0' buffer)
  write_point _ written_one buffer = buffer

  abbrev pub count_after : Option ℕ → Option ℕ
  count_after (some (suc count)) = some count
  count_after _ = none

  abbrev pub places_after : Option ℕ → ℕ → ℕ
  places_after (some (suc count)) decimal_places = decimal_places
  places_after _ decimal_places = decimal_places - 1

  abbrev pub tmp_of : F → ℕ
  tmp_of number = ops.whole (ops.tenfold number)

  abbrev pub number_after : F → F
  number_after number = ops.minus (ops.tenfold number) (tmp_of number)

  -- `while((count > 0) || (decimal_places > 0))`
  unfoldable pub float_loop :
      (rounds : ℕ)
      → (count : Option ℕ) (decimal_places : ℕ) → F
      → (written_one : Bool) → List ℕ
      → Option (List ℕ)
  float_loop zero count decimal_places number written_one buffer = none
  float_loop (suc rounds) count decimal_places number written_one buffer =
      let rest =
        float_loop rounds (count_after count) (places_after count decimal_places)
          (number_after number) true
          (write_character (tmp_of number + b'0') (write_point count written_one buffer)) in
      if goes_on count decimal_places then rest else some buffer

  abbrev pub decimal_places_of : ℕ → ℕ
  decimal_places_of width = if width % 2 ^ 16 == 0 then 6 else width % 2 ^ 16

  unfoldable pub write_number_kfloat : (rounds : ℕ) → F → (width : ℕ) → List ℕ → Option (List ℕ)
  unfolding scale float_loop
  write_number_kfloat rounds number width buffer =
      let n = if ops.is_negative number then ops.negate number else number in
      let b = if ops.is_negative number then write_character b'-' buffer else buffer in
      elim (scale rounds 0 n) [
        | none ↦ none
        | some (count, m) ↦ float_loop rounds (some count) (decimal_places_of width) m false b
      ]

  -- The next `n` digits of a number below one, and what is left of it.
  abbrev pub digits : ℕ → F → List ℕ
  digits zero number = []
  digits (suc n) number = u8 (tmp_of number + b'0') ∷ digits n (number_after number)

  abbrev pub after : ℕ → F → F
  after zero number = number
  after (suc n) number = after n (number_after number)

  behind_point :
      (rounds d : ℕ) (number : F) (buffer : List ℕ)
      → d < rounds
      → float_loop rounds none d number true buffer ≡ some (buffer ++ digits d number)
  unfolding float_loop write_character
  behind_point zero d number buffer h = absurd (omega arith)
  behind_point (suc rounds) zero number buffer h = ap some (sym (append-nil buffer))
  behind_point (suc rounds) (suc d) number buffer h =
      let more : ltb 0 (suc d) ≡ true = ground arith in
      let less : suc d - 1 ≡ d = omega arith in
      let c = u8 (tmp_of number + b'0') in
      rw (more, less)
        (behind_point rounds d (number_after number) (buffer ++ c ∷ []) (omega arith)
          ∙ ap some (append_assoc buffer (c ∷ []) (digits d (number_after number))))

  before_point :
      (rounds n d : ℕ) (number : F) (written : Bool) (buffer : List ℕ)
      → n + suc d < rounds
      → float_loop rounds (some n) (suc d) number written buffer
        ≡ some (
            buffer
            ++ (digits n number
                ++ ((if (n == 0) && not written then b'0' ∷ [] else [])
                    ++ b'.' ∷ digits (suc d) (after n number))))
  unfolding float_loop write_character
  before_point zero n d number written buffer h = absurd (omega arith)
  before_point (suc rounds) zero d number true buffer h =
      let more : ltb 0 (suc d) ≡ true = ground arith in
      let less : suc d - 1 ≡ d = omega arith in
      let c = u8 (tmp_of number + b'0') in
      rw (more, less)
        (behind_point rounds d (number_after number) ((buffer ++ b'.' ∷ []) ++ c ∷ []) (omega arith)
          ∙ ap some (simp append_assoc))
  before_point (suc rounds) zero d number false buffer h =
      let more : ltb 0 (suc d) ≡ true = ground arith in
      let less : suc d - 1 ≡ d = omega arith in
      let c = u8 (tmp_of number + b'0') in
      rw (more, less)
        (behind_point rounds d (number_after number)
            (((buffer ++ b'0' ∷ []) ++ b'.' ∷ []) ++ c ∷ []) (omega arith)
          ∙ ap some (simp append_assoc))
  before_point (suc rounds) (suc n) d number written buffer h =
      let more : (ltb 0 (suc n) || ltb 0 (suc d)) ≡ true = ground arith in
      let not_zero : (suc n == 0) ≡ false = ground arith in
      let none_written : ◌≡◌ {A = List ℕ} (if (n == 0) && false then b'0' ∷ [] else []) [] =
        ground arith in
      let c = u8 (tmp_of number + b'0') in
      rw (more, not_zero)
        (before_point rounds n d (number_after number) true (buffer ++ c ∷ []) (omega arith)
          ∙ ap some (
              rw none_written (
                append_assoc buffer (c ∷ []) (
                  digits n (number_after number)
                  ++ b'.' ∷ digits (suc d) (after n (number_after number))))))

  -- What the operations promise of finite numbers that are not negative, with IsMagnitude for those: a
  -- tenth of one is one, and the next digit of one below 1 is a digit, and leaves one below 1.
  pub record IsScaling (IsMagnitude : F → Type 0) : Type 0 where
    pub down : (number : F) → IsMagnitude number → IsMagnitude (ops.tenth number)
    pub next :
        (number : F)
        → IsMagnitude number
        → ops.at_least_one number ≡ false
        → (tmp_of number < 10)
          × IsMagnitude (number_after number)
          × (ops.at_least_one (number_after number) ≡ false)

  -- The loop over the whole part ends at a number below one.
  scale-small :
      {IsMagnitude : F → Type 0} (promise : IsScaling IsMagnitude) (rounds count : ℕ) (number : F)
      (n : ℕ) (m : F)
      → IsMagnitude number
      → scale rounds count number ≡ some (n, m)
      → IsMagnitude m × (ops.at_least_one m ≡ false)
  unfolding scale
  scale-small promise zero count number n m fine e = absurd (cc)
  scale-small {IsMagnitude} promise (suc rounds) count number n m fine e =
      elim (Bool-cases (ops.at_least_one number)) [
        | inl big ↦
            let step : scale (suc rounds) count number
                ≡ scale rounds (count + 1) (ops.tenth number) =
              rw (big, scale) refl in
            scale-small promise rounds (count + 1) (ops.tenth number) n m (promise.down number fine)
              (sym step ∙ e)
        | inr small ↦
            let stop : scale (suc rounds) count number ≡ some (count, number) =
              rw (small, scale) refl in
            let same =
              ap (λ (o : Option (ℕ × F)). elim o as (λ _. F) [ none ↦ number | some r ↦ r.1 ])
                (sym stop ∙ e) in
            (subst IsMagnitude same fine, ap ops.at_least_one (sym same) ∙ small)
      ]

  digits-length : (n : ℕ) (number : F) → length (digits n number) ≡ n
  digits-length zero number = refl
  digits-length (suc n) number = ap suc (digits-length n (number_after number))

  abbrev pub IsDigit : ℕ → Type 0
  IsDigit c = (b'0' ≤ c) × (c ≤ b'9')

  digits-IsDigit :
      {IsMagnitude : F → Type 0} (promise : IsScaling IsMagnitude) (n : ℕ) (number : F)
      → IsMagnitude number
      → ops.at_least_one number ≡ false
      → All IsDigit (digits n number)
        × IsMagnitude (after n number)
        × (ops.at_least_one (after n number) ≡ false)
  digits-IsDigit promise zero number fine small = (tt, fine, small)
  digits-IsDigit promise (suc n) number fine small =
      let (below, fine', small') = promise.next number fine small in
      let (rest, fine1, last) = digits-IsDigit promise n (number_after number) fine' small' in
      ((omega arith, rest), fine1, last)

  -- Where the loop over the whole part ends within the rounds, after `count` of them, the number or its
  -- negation is finite and not negative, and the operations keep their promise for such numbers:
  -- write_number_kfloat ends, and writes a minus sign for a negative number, `count` decimal digits or else
  -- a zero, a point, and as many decimal digits as the precision says, 6 if it is 0.
  pub write_number_kfloat_lem :
      {IsMagnitude : F → Type 0} (rounds : ℕ) (number : F) (width : ℕ) (buffer : List ℕ) (count : ℕ)
      (m : F)
      → IsScaling IsMagnitude
      → IsMagnitude (if ops.is_negative number then ops.negate number else number)
      → scale rounds 0 (if ops.is_negative number then ops.negate number else number)
        ≡ some (count, m)
      → count + decimal_places_of width < rounds
      → (whole decimals : List ℕ) × (write_number_kfloat rounds number width buffer
          ≡ some (
              (if ops.is_negative number then buffer ++ b'-' ∷ [] else buffer)
              ++ (whole
                  ++ ((if (count == 0) && not false then b'0' ∷ [] else []) ++ b'.' ∷ decimals))))
        × (length whole ≡ count)
        × (length decimals ≡ decimal_places_of width)
        × All IsDigit whole
        × All IsDigit decimals
  unfolding write_number_kfloat write_character
  write_number_kfloat_lem rounds number width buffer count m promise fine scaled enough =
      let p : decimal_places_of width ≡ suc (decimal_places_of width - 1) = ground arith in
      let b = if ops.is_negative number then buffer ++ b'-' ∷ [] else buffer in
      let (fine0, small0) = scale-small promise rounds 0 _ count m fine scaled in
      let (whole, fine1, small) = digits-IsDigit promise count m fine0 small0 in
      let (decimals, _, _) =
        digits-IsDigit promise (suc (decimal_places_of width - 1)) (after count m) fine1 small in
      (
        digits count m,
        digits (suc (decimal_places_of width - 1)) (after count m),
        rw (scaled, write_number_kfloat)
            (ap (λ d. float_loop rounds (some count) d m false b) p
              ∙ before_point rounds count (decimal_places_of width - 1) m false b
                  (omega (arith, enough, p))),
        digits-length count m,
        digits-length (suc (decimal_places_of width - 1)) (after count m) ∙ sym p,
        whole,
        decimals,
      )
