-- ===== src/Mutex.antt =====
-- arch/ia32/mutex.c over the operations of arch/ia32/atomic.c. A mutex is two words of the memory: the
-- thread that has it, or 0, at `mutex`, and the count behind it. `current` is kthread_current().
pub mod Laws
pub mod Create
mod Examples
use rjk.Base.{
  ℕ, zero, suc, ◌+◌, ◌-◌, ◌^◌, Option, none, some, ◌==◌, if◌then◌else◌, u32, sub32, update,
}
use rjk.Atomic.{Mem, katomic_set, katomic_compare, katomic_compare_and_set_if_equal}

abbrev pub count_of : ℕ → ℕ
count_of mutex = mutex + 1

unfoldable pub add_count : Mem → ℕ → Mem
add_count m mutex = update m (count_of mutex) (u32 (m (count_of mutex) + 1))

-- The loop with `rounds` left; `none` when it has not ended by then. Between two rounds it yields, and
-- alone it finds the memory as it left it.
unfoldable pub kmutex_lock : (rounds : ℕ) → Mem → (mutex current : ℕ) → Option (ℕ × Mem)
unfolding add_count
kmutex_lock zero m mutex current = none
kmutex_lock (suc rounds) m mutex current =
    let (taken, m1) = katomic_compare_and_set_if_equal m mutex 0 current in
    let (mine, m2) = katomic_compare m1 mutex current in
    let again = kmutex_lock rounds m2 mutex current in
    if taken == 0
    then (if mine == 0 then again else some (0, add_count m2 mutex))
    else some (0, add_count m1 mutex)

unfoldable pub kmutex_test : Mem → (mutex current : ℕ) → ℕ × Mem
kmutex_test m mutex current = katomic_compare m mutex current

-- `return -1` is 2 ^ 32 - 1 in a `kuint`.
unfoldable pub kmutex_unlock : Mem → (mutex current : ℕ) → ℕ × Mem
unfolding kmutex_test
kmutex_unlock m mutex current =
    let (mine, m1) = kmutex_test m mutex current in
    let left = sub32 (m1 (count_of mutex)) 1 in
    let m2 = update m1 (count_of mutex) left in
    if mine == 0 then (2 ^ 32 - 1, m1) else (0, if left == 0 then katomic_set m2 mutex 0 else m2)
