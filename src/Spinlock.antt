-- ===== src/Spinlock.antt =====
-- arch/ia32/spinlock.c: bit 31 of a word as a lock, and threads that contend for it.
-- `lock ; btsl` is one step: it reads the old bit and sets it. The loop `jc 0b` repeats the step
-- until the old bit was clear.
pub mod Threads
pub mod Safety
mod Examples
use rjk.Base.{
  ℕ, zero, suc, Bool, true, false, Option, none, some, if◌then◌else◌, test_bit, set_bit, clear_bit,
}

-- One round of the loop: does the thread leave it, and the word after the round.
unfoldable pub kspinlock_try : ℕ → Bool × ℕ
kspinlock_try w = (if test_bit w 31 then false else true, set_bit w 31)

-- `kspinlock_lock` alone on a word that nobody else changes; `none` when it still spins after the
-- rounds given.
unfoldable pub kspinlock_lock : ℕ → ℕ → Option ℕ
kspinlock_lock zero w = none
kspinlock_lock (suc rounds) w =
    let again = kspinlock_lock rounds (set_bit w 31) in
    if test_bit w 31 then again else some (set_bit w 31)

unfoldable pub kspinlock_unlock : ℕ → ℕ
kspinlock_unlock w = clear_bit w 31

-- The processor's flags, of which these functions use the interrupt flag, bit 9.
pub record Flagged : Type 0 where
  pub word : ℕ
  pub eflags : ℕ

-- `pushfl ; popl (%1) ; cli`, then the loop. The result is the state and `*irqsave`.
unfoldable pub kspinlock_lock_irqsave : ℕ → Flagged → Option (Flagged × ℕ)
unfolding kspinlock_lock
kspinlock_lock_irqsave rounds s = elim (kspinlock_lock rounds s.word) [
  | none ↦ none
  | some w ↦ some (record { word = w; eflags = clear_bit s.eflags 9 }, s.eflags)
]

unfoldable pub kspinlock_unlock_irqrestore : Flagged → ℕ → Flagged
unfolding kspinlock_unlock
kspinlock_unlock_irqrestore s irqsave = record { word = kspinlock_unlock s.word; eflags = irqsave }
