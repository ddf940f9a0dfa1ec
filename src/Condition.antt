-- ===== src/Condition.antt =====
-- arch/ia32/condition.c over kthread_resume of arch/ia32/thread.c and the operations of arch/ia32/mutex.c. What
-- the condition's lock protects is one step; `none` is a page fault.
pub mod Wait
pub mod Create
mod Examples
use rjk.Base.{
  ℕ, zero, suc, ◌+◌, ◌-◌, ◌^◌, Bool, true, false, ◌&&◌, Option, none, some, List, [], ◌∷◌, ◌==◌,
  if◌then◌else◌, u32, sub32, test_bit, set_bit, update,
}
use rjk.Atomic.{Mem, katomic_set}
use rjk.Mutex.{kmutex_lock, kmutex_test, count_of}
use rjk.Thread.{Threads, Regs, kthread_resume}

pub record Entry : Type 0 where
  pub thread : ℕ
  pub mutex_count : ℕ
  pub flags : ℕ

-- `entry_array` by index; nothing checks that an index is below MAX_CONDITION_ENTRY_COUNT.
pub record Condition : Type 0 where
  pub entry_next : ℕ
  pub entry_array : ℕ → Entry

-- CONDITION_FLAG_SIGNALLED
abbrev pub signalled_bit : ℕ
signalled_bit = 0

-- The flag is set, and the entry's thread resumed.
unfoldable pub signal_entry :
    (fuel : ℕ) → Condition → Threads → Regs → (index : ℕ) → Option (Condition × Threads × Regs)
signal_entry fuel c s regs index =
    let entry = c.entry_array index in
    let c' = record c {
      entry_array =
          update c.entry_array index (record entry { flags = set_bit entry.flags signalled_bit });
    } in
    elim (kthread_resume fuel s regs entry.thread) [
      | none ↦ none
      | some (s', regs') ↦ some (c', s', regs')
    ]

unfoldable pub kcondition_signal :
    (fuel : ℕ) → Condition → Threads → Regs → Option (ℕ × Condition × Threads × Regs)
unfolding signal_entry
kcondition_signal fuel c s regs =
    if c.entry_next == 0 then some (0, c, s, regs) else elim (signal_entry fuel c s regs 0) [
      | none ↦ none
      | some (c', s', regs') ↦ some (0, c', s', regs')
    ]

-- The loop of kcondition_broadcast, with `entry_next - index` rounds left.
unfoldable pub broadcast_loop :
    (rounds fuel : ℕ)
    → Condition
    → Threads
    → Regs
    → (index : ℕ) → Option (Condition × Threads × Regs)
unfolding signal_entry
broadcast_loop zero fuel c s regs index = some (c, s, regs)
broadcast_loop (suc rounds) fuel c s regs index = elim (signal_entry fuel c s regs index) [
  | none ↦ none
  | some (c', s', regs') ↦ broadcast_loop rounds fuel c' s' regs' (index + 1)
]

unfoldable pub kcondition_broadcast :
    (fuel : ℕ) → Condition → Threads → Regs → Option (ℕ × Condition × Threads × Regs)
unfolding broadcast_loop
kcondition_broadcast fuel c s regs = elim (broadcast_loop c.entry_next fuel c s regs 0) [
  | none ↦ none
  | some (c', s', regs') ↦ some (0, c', s', regs')
]

-- kcondition_wait up to its first kthread_suspend: an entry for the thread, and the mutex given up. False when it
-- returns -1 at once.
unfoldable pub wait_enter : Condition → Mem → (mutex current : ℕ) → Bool × Condition × Mem
unfolding kmutex_test katomic_set
wait_enter c m mutex current =
    let (mine, m1) = kmutex_test m mutex current in
    let entry : Entry = record { thread = current; mutex_count = m1 (count_of mutex); flags = 0 } in
    let m2 = katomic_set (update m1 (count_of mutex) 0) mutex 0 in
    if mine == 0 then (false, c, m1) else (
      true,
      record {
        entry_next = u32 (c.entry_next + 1);
        entry_array = update c.entry_array c.entry_next entry;
      },
      m2,
    )

abbrev pub is_signalled : (current : ℕ) → Entry → Bool
is_signalled current entry = (entry.thread == current) && test_bit entry.flags signalled_bit

-- `while(index < condition->entry_next)`, with `entry_next - index` rounds left.
unfoldable pub find_signalled : (rounds : ℕ) → (ℕ → Entry) → (current index : ℕ) → Option ℕ
find_signalled zero array current index = none
find_signalled (suc rounds) array current index =
    let rest = find_signalled rounds array current (index + 1) in
    if is_signalled current (array index) then some index else rest

-- `while((index + 1) < condition->entry_next)`, with `entry_next - 1 - index` rounds left.
unfoldable pub shift_entries : (rounds : ℕ) → (index : ℕ) → (ℕ → Entry) → ℕ → Entry
shift_entries zero index array = array
shift_entries (suc rounds) index array =
    shift_entries rounds (index + 1) (update array index (array (index + 1)))

-- From the signalled entry to the return: the mutex is locked again, with the count that it had. `none`
-- when kmutex_lock has not ended after `rounds`.
unfoldable pub wait_leave :
    (rounds : ℕ) → Condition → Mem → (mutex current index : ℕ) → Option (Condition × Mem)
unfolding kmutex_lock shift_entries
wait_leave rounds c m mutex current index = elim (kmutex_lock rounds m mutex current) [
  | none ↦ none
  | some (_, m1) ↦ some (
    record {
      entry_next = sub32 c.entry_next 1;
      entry_array = shift_entries (c.entry_next - 1 - index) index c.entry_array;
    },
    update m1 (count_of mutex) (c.entry_array index).mutex_count,
  )
]

-- The loop of kcondition_wait over the states in which kthread_suspend returns, one after the other; `none`
-- while it goes on.
unfoldable pub wait_loop :
    (rounds : ℕ) → (mutex current : ℕ) → List (Condition × Mem) → Option (Condition × Mem)
unfolding find_signalled wait_leave
wait_loop rounds mutex current [] = none
wait_loop rounds mutex current ((c, m) ∷ later) =
    elim (find_signalled c.entry_next c.entry_array current 0) [
      | none ↦ wait_loop rounds mutex current later
      | some index ↦ wait_leave rounds c m mutex current index
    ]

-- `return -1`
unfoldable pub kcondition_timedwait : ℕ
kcondition_timedwait = 2 ^ 32 - 1
