-- ===== src/Atomic/Examples.antt =====
-- The laws of arch/ia32/atomic.c at one memory, and runs of its operations.
use rjk.Base.{ℕ, ◌≡◌, refl, ◌↔◌, true, false, arith, ◌==◌, if◌then◌else◌, test_bit}
use rjk.Atomic.{
  Mem, invalid_opcode, katomic_add, katomic_sub, katomic_dec_and_test, katomic_compare,
  katomic_compare_and_set_if_equal, katomic_bit_get, katomic_bit_test_and_set,
  katomic_bit_test_and_reset, compare_and_set_386,
}
use rjk.Atomic.Laws.{
  katomic_sub-katomic_add, katomic_dec_and_test_lem, katomic_compare_lem, bit_test_and_set_lem,
  bit_test_and_reset-set, compare_and_set_lem,
}

abbrev memory : Mem
memory p = if p == 3 then 7 else 1

katomic_sub-katomic_add_test : katomic_sub (katomic_add memory 3 5) 3 5 3 ≡ 7
katomic_sub-katomic_add_test = katomic_sub-katomic_add memory 3 5 (omega arith) (omega arith) 3

katomic_dec_and_test_lem_test :
    (((katomic_dec_and_test memory 2).0 ≡ 1) ↔ (memory 2 ≡ 1))
    × ((katomic_dec_and_test memory 2).1 2 ≡ 0)
    × ((katomic_dec_and_test memory 2).1 3 ≡ 7)
katomic_dec_and_test_lem_test = katomic_dec_and_test_lem memory 2 (omega arith) 3 (omega arith)

katomic_compare_lem_test :
    (((katomic_compare memory 3 7).0 ≡ 1) ↔ (memory 3 ≡ 7))
    × (((katomic_compare memory 3 7).1 3 ≡ memory 3) ↔ (◌≡◌ {A = ℕ} 7 0))
    × ((katomic_compare memory 3 7).1 2 ≡ 1)
katomic_compare_lem_test =
    katomic_compare_lem memory 3 7 (omega arith) (omega arith) 2 (omega arith)

compare_and_set_lem_test :
    ((katomic_compare_and_set_if_equal memory 3 0 9).1 3 ≡ (compare_and_set_386 memory 3 0 9).1 3)
    × ((katomic_compare_and_set_if_equal memory 3 0 9).0 ≡ 1)
    × (((katomic_compare_and_set_if_equal memory 3 0 9).0 ≡ (compare_and_set_386 memory 3 0 9).0)
        ↔ (memory 3 ≡ 0))
compare_and_set_lem_test = compare_and_set_lem memory 3 0 9 3

bit_test_and_set_lem_test :
    ((katomic_bit_test_and_set memory 2 35).0 ≡ 0)
    × (test_bit ((katomic_bit_test_and_set memory 2 35).1 3) 3 ≡ true)
    × (test_bit ((katomic_bit_test_and_set memory 2 35).1 3) 4 ≡ false)
    × ((katomic_bit_test_and_set memory 2 35).1 2 ≡ 1)
unfolding test_bit
bit_test_and_set_lem_test = bit_test_and_set_lem memory 2 35 4 2 (omega arith) (omega arith)

bit_test_and_reset-set_test :
    (katomic_bit_test_and_reset (katomic_bit_test_and_set memory 2 35).1 2 35).0 ≡ 1
unfolding test_bit
bit_test_and_reset-set_test = (bit_test_and_reset-set memory 2 35 refl).0

locked_test : katomic_bit_get memory 3 0 ≡ invalid_opcode
unfolding katomic_bit_get
locked_test = refl
