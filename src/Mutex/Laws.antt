-- ===== src/Mutex/Laws.antt =====
-- What locking, testing and unlocking a mutex of arch/ia32/mutex.c do.
use rjk.Base.{ℕ, suc, ◌+◌, ◌-◌, ◌^◌, ◌<◌, ◌≡◌, ◌≢◌, refl, some, ◌==◌, if◌then◌else◌, u32, arith}
use rjk.Atomic.{Mem, katomic_set, katomic_compare, katomic_compare_and_set_if_equal}
use rjk.Mutex.{count_of, add_count, kmutex_lock, kmutex_test, kmutex_unlock}

-- The memory when kmutex_lock has returned.
abbrev pub locked : Mem → (mutex current : ℕ) → Mem
locked m mutex current = add_count (katomic_compare_and_set_if_equal m mutex 0 current).1 mutex

-- Whoever has the mutex, kmutex_lock returns 0 in its first round with one more in the count; the
-- thread is entered only if the mutex was free. So a second thread is let in while the first has it.
pub kmutex_lock_lem :
    (rounds : ℕ) (m : Mem) (mutex current : ℕ)
    → (kmutex_lock (suc rounds) m mutex current ≡ some (0, locked m mutex current))
      × (locked m mutex current (count_of mutex) ≡ u32 (m (count_of mutex) + 1))
      × (locked m mutex current mutex ≡ (if m mutex == 0 then current else m mutex))
unfolding kmutex_lock add_count katomic_compare_and_set_if_equal
kmutex_lock_lem rounds m mutex current = (refl, ground arith, ground arith)

-- On a free mutex, kmutex_unlock by the thread that has locked it answers 0 and gives back every word of
-- the memory as it was.
pub kmutex_unlock-kmutex_lock :
    (m : Mem) (mutex current : ℕ)
    → m mutex ≡ 0
    → m (count_of mutex) < 2 ^ 32
    → current < 2 ^ 32
    → (q : ℕ)
    → ((kmutex_unlock (locked m mutex current) mutex current).0 ≡ 0)
      × ((kmutex_unlock (locked m mutex current) mutex current).1 q ≡ m q)
unfolding kmutex_unlock add_count katomic_compare_and_set_if_equal katomic_compare katomic_set
kmutex_unlock-kmutex_lock m mutex current free small h q = (ground arith, ground arith)

-- A thread that has a mutex loses it by asking: kmutex_test answers 1, and a second kmutex_test answers
-- 0, so that kmutex_unlock then refuses with -1.
pub kmutex_test_lem :
    (m : Mem) (mutex current : ℕ)
    → m mutex ≡ current
    → current ≢ 0
    → current < 2 ^ 32
    → let m' = (kmutex_test m mutex current).1 in
      ((kmutex_test m mutex current).0 ≡ 1)
      × ((kmutex_test m' mutex current).0 ≡ 0)
      × ((kmutex_unlock m' mutex current).0 ≡ 2 ^ 32 - 1)
unfolding kmutex_unlock kmutex_test katomic_compare
kmutex_test_lem m mutex current mine nz small = (ground arith, ground arith, ground arith)
