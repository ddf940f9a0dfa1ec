-- ===== src/Atomic/Laws.antt =====
-- What the operations of arch/ia32/atomic.c do to the word they name and to every other word.
use rjk.Base.{
  ℕ, ◌-◌, ◌%◌, ◌^◌, ◌<◌, ◌≡◌, ◌≢◌, refl, ◌↔◌, true, false, arith, ◌==◌, if◌then◌else◌, bit,
  test_bit, set_bit, test_bit-set_bit_self, test_bit-set_bit_ne, clear_bit-set_bit, update_self,
  update_ne, Bool-cases, ==_iff, inl, inr, ap,
}
use rjk.Atomic.{
  Mem, bit_word, katomic_add, katomic_sub, katomic_dec_and_test, katomic_compare,
  katomic_compare_and_set_if_equal, compare_and_set_386, katomic_bit_test_and_set,
  katomic_bit_test_and_reset,
}

-- Subtracting what was added gives back every word of the memory.
pub katomic_sub-katomic_add :
    (m : Mem) (p value : ℕ)
    → m p < 2 ^ 32
    → value < 2 ^ 32
    → (q : ℕ) → katomic_sub (katomic_add m p value) p value q ≡ m q
unfolding katomic_sub katomic_add
katomic_sub-katomic_add m p value hm hv q = ground arith

-- Counting down from n by katomic_dec_and_test reports 1 exactly at the step that reaches zero,
-- and the step leaves the predecessor (2 ^ 32 - 1 at zero) in the word and every other word alone.
pub katomic_dec_and_test_lem :
    (m : Mem) (p : ℕ)
    → m p < 2 ^ 32
    → (q : ℕ) → q ≢ p
    → (((katomic_dec_and_test m p).0 ≡ 1) ↔ (m p ≡ 1))
      × ((katomic_dec_and_test m p).1 p ≡ (if m p == 0 then 2 ^ 32 - 1 else m p - 1))
      × ((katomic_dec_and_test m p).1 q ≡ m q)
unfolding katomic_dec_and_test
katomic_dec_and_test_lem m p h q ne = (ground arith, ground arith, ground arith)

-- katomic_compare answers 1 exactly when the word equals the operand (both 32-bit words). It also
-- stores the difference, so the word survives exactly when the operand is 0; other words survive.
pub katomic_compare_lem :
    (m : Mem) (p compare : ℕ)
    → m p < 2 ^ 32
    → compare < 2 ^ 32
    → (q : ℕ) → q ≢ p
    → (((katomic_compare m p compare).0 ≡ 1) ↔ (m p ≡ compare))
      × (((katomic_compare m p compare).1 p ≡ m p) ↔ (compare ≡ 0))
      × ((katomic_compare m p compare).1 q ≡ m q)
unfolding katomic_compare
katomic_compare_lem m p compare hm hc q ne = (ground arith, ground arith, ground arith)

-- The selected compare-and-set writes memory just as the CPU == 386 variant does, but it always
-- answers 1: the two answers agree exactly when the word equals the operand.
pub compare_and_set_lem :
    (m : Mem) (p compare value q : ℕ)
    → ((katomic_compare_and_set_if_equal m p compare value).1 q
        ≡ (compare_and_set_386 m p compare value).1 q)
      × ((katomic_compare_and_set_if_equal m p compare value).0 ≡ 1)
      × (((katomic_compare_and_set_if_equal m p compare value).0
            ≡ (compare_and_set_386 m p compare value).0)
          ↔ (m p ≡ compare))
unfolding katomic_compare_and_set_if_equal compare_and_set_386
compare_and_set_lem m p compare value q = (ground arith, ground arith, ground arith)

module _ (m : Mem) (p offset : ℕ) where
  abbrev word : ℕ
  word = m (bit_word p offset)

  abbrev after : ℕ
  after = (katomic_bit_test_and_set m p offset).1 (bit_word p offset)

  -- katomic_bit_test_and_set answers the old bit, sets that bit of the word that the offset names,
  -- and leaves the other bits of it and the other words alone.
  pub bit_test_and_set_lem :
      (k q : ℕ)
      → offset % 32 ≢ k
      → q ≢ bit_word p offset
      → ((katomic_bit_test_and_set m p offset).0 ≡ bit (test_bit word (offset % 32)))
        × (test_bit after (offset % 32) ≡ true)
        × (test_bit after k ≡ test_bit word k)
        × ((katomic_bit_test_and_set m p offset).1 q ≡ m q)
  unfolding katomic_bit_test_and_set
  bit_test_and_set_lem k q nek neq = (
    refl,
    rw (update_self m (bit_word p offset) _) (test_bit-set_bit_self word (offset % 32)),
    rw (update_self m (bit_word p offset) _) (test_bit-set_bit_ne word (offset % 32) k nek),
    update_ne m (bit_word p offset) q _ neq,
  )

  -- If the bit was clear, katomic_bit_test_and_reset after katomic_bit_test_and_set answers 1 and
  -- gives back the whole memory.
  pub bit_test_and_reset-set :
      test_bit word (offset % 32) ≡ false
      → ((katomic_bit_test_and_reset (katomic_bit_test_and_set m p offset).1 p offset).0 ≡ 1)
        × ((q : ℕ)
            → (katomic_bit_test_and_reset (katomic_bit_test_and_set m p offset).1 p offset).1 q
              ≡ m q)
  unfolding katomic_bit_test_and_set katomic_bit_test_and_reset
  bit_test_and_reset-set clear = (
    rw (
      update_self m (bit_word p offset) (set_bit word (offset % 32)),
      test_bit-set_bit_self word (offset % 32),
    ),
    λ q. elim (Bool-cases (q == bit_word p offset)) [
      | inl same ↦
          rw (same, update_self m (bit_word p offset) (set_bit word (offset % 32)))
            (omega (
              arith,
              ap m ((==_iff q (bit_word p offset)).0 same),
              clear_bit-set_bit word (offset % 32) clear,
            ))
      | inr other ↦ rw other
    ],
  )
