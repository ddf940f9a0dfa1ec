-- ===== src/Mutex/Examples.antt =====
-- A mutex of arch/ia32/mutex.c at word 10, and two threads.
use rjk.Base.{◌-◌, ◌^◌, ◌≡◌, refl, some, arith, ◌==◌, if◌then◌else◌}
use rjk.Atomic.{Mem}
use rjk.Mutex.{kmutex_lock, kmutex_test, kmutex_unlock}
use rjk.Mutex.Laws.{locked, kmutex_lock_lem, kmutex_unlock-kmutex_lock, kmutex_test_lem}

abbrev free_mutex : Mem
free_mutex q = 0

-- Thread 3 has it once.
abbrev taken_mutex : Mem
taken_mutex q = if q == 10 then 3 else if q == 11 then 1 else 0

kmutex_lock_lem_example :
    (kmutex_lock 1 taken_mutex 10 5 ≡ some (0, locked taken_mutex 10 5))
    × (locked taken_mutex 10 5 11 ≡ 2)
    × (locked taken_mutex 10 5 10 ≡ 3)
kmutex_lock_lem_example = kmutex_lock_lem 0 taken_mutex 10 5

kmutex_unlock-kmutex_lock_test :
    ((kmutex_unlock (locked free_mutex 10 5) 10 5).0 ≡ 0)
    × ((kmutex_unlock (locked free_mutex 10 5) 10 5).1 11 ≡ 0)
kmutex_unlock-kmutex_lock_test =
    kmutex_unlock-kmutex_lock free_mutex 10 5 refl (omega arith) (omega arith) 11

kmutex_test_lem_example :
    let m' = (kmutex_test taken_mutex 10 3).1 in
    ((kmutex_test taken_mutex 10 3).0 ≡ 1)
    × ((kmutex_test m' 10 3).0 ≡ 0)
    × ((kmutex_unlock m' 10 3).0 ≡ 2 ^ 32 - 1)
kmutex_test_lem_example = kmutex_test_lem taken_mutex 10 3 refl (omega arith) (omega arith)
