-- ===== src/Atomic.antt =====
-- arch/ia32/atomic.c: the operations on a `volatile kuint`.
-- The memory is a function from the index of an aligned 32-bit word (its address / 4) to the word.
-- Each operation is one locked instruction, or one plain access, so it is one step on the memory.
-- A `lock` prefix on an instruction that does not write its memory operand raises #UD, which the
-- processor delivers in place of the operation: `invalid_opcode`.
pub mod Laws
mod Examples
use rjk.Base.{
  ℕ, ◌+◌, ◌-◌, ◌/◌, ◌%◌, ◌^◌, Bool, true, false, ◌==◌, if◌then◌else◌, ltb, u32, sub32, bit,
  test_bit, set_bit, clear_bit, update,
}

abbrev pub Mem : Type 0
Mem = ℕ → ℕ

pub data Outcome (A : Type 0) : Type 0 where
  done : A → Mem → Outcome A
  invalid_opcode : Outcome A

abbrev pub katomic_get : Mem → ℕ → ℕ
katomic_get m p = m p

unfoldable pub katomic_set : Mem → ℕ → ℕ → Mem
katomic_set m p value = update m p value

unfoldable pub katomic_inc : Mem → ℕ → Mem
katomic_inc m p = update m p (u32 (m p + 1))

unfoldable pub katomic_dec : Mem → ℕ → Mem
katomic_dec m p = update m p (sub32 (m p) 1)

unfoldable pub katomic_add : Mem → ℕ → ℕ → Mem
katomic_add m p value = update m p (u32 (m p + value))

unfoldable pub katomic_sub : Mem → ℕ → ℕ → Mem
katomic_sub m p value = update m p (sub32 (m p) value)

-- `sete` stores the zero flag that `decl` left.
unfoldable pub katomic_dec_and_test : Mem → ℕ → ℕ × Mem
katomic_dec_and_test m p = let v = sub32 (m p) 1 in (bit (v == 0), update m p v)

unfoldable pub katomic_inc_and_test : Mem → ℕ → ℕ × Mem
katomic_inc_and_test m p = let v = u32 (m p + 1) in (bit (v == 0), update m p v)

-- The instruction is `subl`, not `cmpl`: the difference is stored.
unfoldable pub katomic_compare : Mem → ℕ → ℕ → ℕ × Mem
katomic_compare m p compare = let v = sub32 (m p) compare in (bit (v == 0), update m p v)

-- `cmpxchgl` compares eax with the word and sets ZF by it; `xor %eax, %eax` then clears eax and sets
-- ZF, and `sete` stores that ZF.
abbrev pub cmpxchgl : Mem → ℕ → ℕ → ℕ → Bool × Mem
cmpxchgl m p compare value = if m p == compare then (true, update m p value) else (false, m)

abbrev xor_self_zf : Bool → Bool
xor_self_zf _ = true

unfoldable pub katomic_compare_and_set_if_equal : Mem → ℕ → ℕ → ℕ → ℕ × Mem
katomic_compare_and_set_if_equal m p compare value =
    let (zf, m') = cmpxchgl m p compare value in (bit (xor_self_zf zf), m')

-- The branch for CPU == 386, which the build does not select: with interrupts off the whole is one
-- step.
unfoldable pub compare_and_set_386 : Mem → ℕ → ℕ → ℕ → ℕ × Mem
compare_and_set_386 m p compare value = if m p == compare then (1, update m p value) else (0, m)

-- `orl (%0), %1` and `andl (%0), %1` write the register; with `lock` they raise #UD.
unfoldable pub katomic_mask_set : Mem → ℕ → ℕ → Outcome (Unit {0})
katomic_mask_set m p mask = invalid_opcode

unfoldable pub katomic_mask_clear : Mem → ℕ → ℕ → Outcome (Unit {0})
katomic_mask_clear m p mask = invalid_opcode

-- `bt` only reads, so `lock ; btl` raises #UD.
unfoldable pub katomic_bit_get : Mem → ℕ → ℕ → Outcome ℕ
katomic_bit_get m p bit_index = invalid_opcode

-- With a register for the bit offset, the offset is signed and reaches past the word: the word
-- touched is `offset / 32` words away, and word indices wrap at 2 ^ 30.
abbrev pub bit_word : ℕ → ℕ → ℕ
bit_word p offset =
    if ltb offset (2 ^ 31)
    then (p + offset / 32) % 2 ^ 30
    else (p + offset / 32 + 2 ^ 30 - 2 ^ 27) % 2 ^ 30

unfoldable pub katomic_bit_set : Mem → ℕ → ℕ → Mem
katomic_bit_set m p offset = let q = bit_word p offset in update m q (set_bit (m q) (offset % 32))

unfoldable pub katomic_bit_reset : Mem → ℕ → ℕ → Mem
katomic_bit_reset m p offset =
    let q = bit_word p offset in update m q (clear_bit (m q) (offset % 32))

-- `setc` stores the carry, which is the old bit.
unfoldable pub katomic_bit_test_and_set : Mem → ℕ → ℕ → ℕ × Mem
katomic_bit_test_and_set m p offset =
    let q = bit_word p offset in
    (bit (test_bit (m q) (offset % 32)), update m q (set_bit (m q) (offset % 32)))

unfoldable pub katomic_bit_test_and_reset : Mem → ℕ → ℕ → ℕ × Mem
katomic_bit_test_and_reset m p offset =
    let q = bit_word p offset in
    (bit (test_bit (m q) (offset % 32)), update m q (clear_bit (m q) (offset % 32)))
