-- ===== src/Spinlock/Threads.antt =====
-- Threads that use one spinlock of arch/ia32/spinlock.c, interleaved in any order.
use rjk.Base.{ℕ, ◌≡◌, true, false, update}
use rjk.Spinlock.{kspinlock_try, kspinlock_unlock}

pub data Pc : Type 0 where
  outside : Pc
  spinning : Pc  -- in the loop of `kspinlock_lock`
  holding : Pc  -- between the return of `kspinlock_lock` and `kspinlock_unlock`

pub record System : Type 0 where
  pub word : ℕ
  pub pc : ℕ → Pc

-- The holder may write the other bits of the word: `krwlock` keeps its counters in it.
pub data Step (s : System) : System → Type 0 where
  arrive : (i : ℕ) → s.pc i ≡ outside → Step s (record s { pc = update s.pc i spinning })
  spin :
      (i : ℕ)
      → s.pc i ≡ spinning
      → (kspinlock_try s.word).0 ≡ false
      → Step s (record s { word = (kspinlock_try s.word).1 })
  enter :
      (i : ℕ)
      → s.pc i ≡ spinning
      → (kspinlock_try s.word).0 ≡ true
      → Step s (record { word = (kspinlock_try s.word).1; pc = update s.pc i holding })
  leave :
      (i : ℕ)
      → s.pc i ≡ holding
      → Step s (record { word = kspinlock_unlock s.word; pc = update s.pc i outside })

-- From any word whose lock bit is clear, with every thread outside.
pub data Reach (w : ℕ) : System → Type 0 where
  start : Reach w (record { word = w; pc = λ _. outside })
  later : {s t : System} → Reach w s → Step s t → Reach w t
