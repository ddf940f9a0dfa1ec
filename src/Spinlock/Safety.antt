-- ===== src/Spinlock/Safety.antt =====
-- Mutual exclusion of the spinlock, and what it does to the word.
use rjk.Base.{
  ℕ, zero, suc, ◌≡◌, ◌≢◌, refl, true, false, some, none, arith, ap, ◌∙◌, test_bit, set_bit,
  clear_bit, test_bit-set_bit_self, test_bit-set_bit_ne, test_bit-clear_bit_self,
  test_bit-clear_bit_ne, set_bit_of_set, clear_bit-set_bit,
}
use rjk.Spinlock.{
  kspinlock_try, kspinlock_lock, kspinlock_unlock, Flagged, kspinlock_lock_irqsave,
  kspinlock_unlock_irqrestore,
}
use rjk.Spinlock.Threads.{holding, System, Step, arrive, spin, enter, leave}
use rjk.Spinlock.Threads.{Reach, start, later}

-- The lock bit is set while a thread holds the lock, and at most one thread does.
record Inv (w : ℕ) (s : System) : Type 0 where
  taken : (i : ℕ) → s.pc i ≡ holding → test_bit s.word 31 ≡ true
  unique : (i j : ℕ) → s.pc i ≡ holding → s.pc j ≡ holding → i ≡ j
  others : (k : ℕ) → 31 ≢ k → test_bit s.word k ≡ test_bit w k

Step-Inv : {w : ℕ} {s t : System} → Step s t → Inv w s → Inv w t
unfolding kspinlock_try kspinlock_unlock
Step-Inv (arrive i e) inv = record {
  taken = λ a p. ground (arith, inv.taken a);
  unique = λ a b p q. ground (arith, inv.unique a b);
  others = inv.others;
}
Step-Inv {s} (spin i e f) inv = record {
  taken = λ a p. test_bit-set_bit_self s.word 31;
  unique = inv.unique;
  others = λ k ne. test_bit-set_bit_ne s.word 31 k ne ∙ inv.others k ne;
}
Step-Inv {s} (enter i e f) inv = record {
  taken = λ a p. test_bit-set_bit_self s.word 31;
  unique = λ a b p q. ground (arith, inv.taken a, inv.taken b);
  others = λ k ne. test_bit-set_bit_ne s.word 31 k ne ∙ inv.others k ne;
}
Step-Inv {s} (leave i e) inv = record {
  taken = λ a p. ground (arith, inv.unique a i);
  unique = λ a b p q. ground (arith, inv.unique a b);
  others = λ k ne. test_bit-clear_bit_ne s.word 31 k ne ∙ inv.others k ne;
}

Reach-Inv : {w : ℕ} {s : System} → Reach w s → Inv w s
Reach-Inv start = record { taken = λ i p. cc; unique = λ i j p q. cc; others = λ k ne. refl }
Reach-Inv (later r st) = Step-Inv st (Reach-Inv r)

-- However many threads contend and however they interleave, no two hold the lock together.
pub spinlock_exclusion :
    {w : ℕ} {s : System} (r : Reach w s) (i j : ℕ) → s.pc i ≡ holding → s.pc j ≡ holding → i ≡ j
spinlock_exclusion r i j = (Reach-Inv r).unique i j

-- However many threads contend, the bits of the word but the lock bit stay what they were.
pub spinlock_keeps_word :
    {w : ℕ} {s : System} (r : Reach w s) (k : ℕ) → 31 ≢ k → test_bit s.word k ≡ test_bit w k
spinlock_keeps_word r k = (Reach-Inv r).others k

lock_of_taken : (rounds w : ℕ) → test_bit w 31 ≡ true → kspinlock_lock rounds w ≡ none
unfolding kspinlock_lock
lock_of_taken zero w h = refl
lock_of_taken (suc rounds) w h = rw (h, set_bit_of_set w 31 h) (lock_of_taken rounds w h)

-- Alone and with the lock free, kspinlock_lock_irqsave returns in its first round with the lock taken
-- and interrupts off, and kspinlock_unlock_irqrestore then gives back the word and the flags.
pub lock_irqsave_lem :
    (rounds : ℕ) (s : Flagged)
    → test_bit s.word 31 ≡ false
    → (t : Flagged) × (kspinlock_lock_irqsave (suc rounds) s ≡ some (t, s.eflags))
      × (test_bit t.word 31 ≡ true)
      × (test_bit t.eflags 9 ≡ false)
      × (kspinlock_unlock_irqrestore t s.eflags ≡ s)
unfolding kspinlock_lock_irqsave kspinlock_unlock_irqrestore
lock_irqsave_lem rounds s h = (
  record { word = set_bit s.word 31; eflags = clear_bit s.eflags 9 },
  rw (h, kspinlock_lock_irqsave),
  test_bit-set_bit_self s.word 31,
  test_bit-clear_bit_self s.eflags 9,
  ap (λ (t : ℕ). record { word = t; eflags = s.eflags }) (clear_bit-set_bit s.word 31 h),
)

-- Alone and with the lock taken, kspinlock_lock_irqsave has not returned after any number of rounds.
pub lock_irqsave_hangs :
    (rounds : ℕ) (s : Flagged) → test_bit s.word 31 ≡ true → kspinlock_lock_irqsave rounds s ≡ none
unfolding kspinlock_lock_irqsave
lock_irqsave_hangs rounds s h = rw (lock_of_taken rounds s.word h, kspinlock_lock_irqsave)
