-- ===== src/Spinlock/Examples.antt =====
-- A run of two threads that contend for a lock of arch/ia32/spinlock.c, and the lock used alone.
use rjk.Base.{ℕ, ◌+◌, ◌^◌, ◌≡◌, refl, true, false, none, some, arith, update, test_bit, set_bit}
use rjk.Spinlock.{Flagged, kspinlock_try, kspinlock_lock_irqsave, kspinlock_unlock_irqrestore}
use rjk.Spinlock.Threads.{
  outside, spinning, holding, System, Reach, arrive, enter, spin, start, later,
}
use rjk.Spinlock.Safety.{
  spinlock_exclusion, spinlock_keeps_word, lock_irqsave_lem, lock_irqsave_hangs,
}

-- Thread 0 holds the lock and thread 1 has found it taken. The word counts 5 in its other bits.
abbrev contended : System
contended = record {
  word = 2 ^ 31 + 5;
  pc = update (update (update (λ _. outside) 0 spinning) 0 holding) 1 spinning;
}

contended-Reach : Reach 5 contended
unfolding kspinlock_try test_bit set_bit
contended-Reach =
    later (later (later (later start (arrive 0 refl)) (enter 0 refl refl)) (arrive 1 refl))
      (spin 1 refl refl)

spinlock_exclusion_example : ◌≡◌ {A = ℕ} 0 0
spinlock_exclusion_example = spinlock_exclusion contended-Reach 0 0 refl refl

spinlock_keeps_word_test : test_bit contended.word 2 ≡ test_bit 5 2
spinlock_keeps_word_test = spinlock_keeps_word contended-Reach 2 (omega arith)

abbrev open_lock : Flagged
open_lock = record { word = 0; eflags = 0x202 }

abbrev taken_lock : Flagged
taken_lock = record { word = 2 ^ 31; eflags = 0x202 }

lock_irqsave_lem_test :
    (t : Flagged) × (kspinlock_lock_irqsave 1 open_lock ≡ some (t, 0x202))
    × (test_bit t.word 31 ≡ true)
    × (test_bit t.eflags 9 ≡ false)
    × (kspinlock_unlock_irqrestore t 0x202 ≡ open_lock)
unfolding test_bit
lock_irqsave_lem_test = lock_irqsave_lem 0 open_lock refl

lock_irqsave_hangs_test : kspinlock_lock_irqsave 4 taken_lock ≡ none
unfolding test_bit
lock_irqsave_hangs_test = lock_irqsave_hangs 4 taken_lock refl
