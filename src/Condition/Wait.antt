-- ===== src/Condition/Wait.antt =====
-- What kcondition_wait of arch/ia32/condition.c finds, and what it leaves behind; and which signals fault.
use rjk.Base.{
  ℕ, zero, suc, ◌+◌, ◌-◌, ◌^◌, ◌<◌, ◌≤◌, ◌≡◌, ◌≢◌, refl, ap, ◌∙◌, inl, inr, true, false, Option,
  none, some, ◌==◌, if◌then◌else◌, sub32, update, update_self, update_ne, arith, Bool-cases, ltb,
}
use mathlib.Core.Path.{subst}
use rjk.Atomic.{Mem, katomic_compare}
use rjk.Mutex.{kmutex_test, count_of}
use rjk.Mutex.Laws.{locked, kmutex_lock_lem}
use rjk.Thread.{Threads, Regs, kthread_resume, kthread_current, find_thread, find_loop, at_thread}
use rjk.Condition.{
  Entry, Condition, is_signalled, find_signalled, shift_entries, wait_enter, wait_leave,
  kcondition_signal, signal_entry,
}

-- The first signalled entry of the thread from `index` on, if there is one.
abbrev pub IsFirst : (array : ℕ → Entry) (current index next : ℕ) → Option ℕ → Type 0
IsFirst array current index next none =
    (i : ℕ) → index ≤ i → i < next → is_signalled current (array i) ≡ false
IsFirst array current index next (some k) =
    (index ≤ k)
    × (k < next)
    × (is_signalled current (array k) ≡ true)
    × ((i : ℕ) → index ≤ i → i < k → is_signalled current (array i) ≡ false)

later-IsFirst :
    (array : ℕ → Entry) (current index next : ℕ) (r : Option ℕ)
    → is_signalled current (array index) ≡ false
    → IsFirst array current (index + 1) next r
    → IsFirst array current index next r
later-IsFirst array current index next none e h = λ i low high. elim (Bool-cases (i == index)) [
  | inl same ↦ ap (λ (j : ℕ). is_signalled current (array j)) (ground (arith, same)) ∙ e
  | inr other ↦ h i (ground (arith, other)) high
]
later-IsFirst array current index next (some k) e (a, b, c, h) = (
  omega (arith, a),
  b,
  c,
  λ i low high. elim (Bool-cases (i == index)) [
    | inl same ↦ ap (λ (j : ℕ). is_signalled current (array j)) (ground (arith, same)) ∙ e
    | inr other ↦ h i (ground (arith, other)) high
  ],
)

-- The scan of kcondition_wait finds the thread's first signalled entry, and nothing only when it has none.
pub find_signalled-IsFirst :
    (rounds : ℕ) (array : ℕ → Entry) (current index : ℕ)
    → IsFirst array current index (index + rounds) (find_signalled rounds array current index)
unfolding find_signalled
find_signalled-IsFirst zero array current index = λ i low high. absurd (omega (arith, low, high))
find_signalled-IsFirst (suc rounds) array current index =
    elim (Bool-cases (is_signalled current (array index))) [
      | inl e ↦ rw e (omega arith, omega arith, e, λ i low high. absurd (omega (arith, low, high)))
      | inr e ↦ rw e (
          later-IsFirst array current index (index + suc rounds)
            (find_signalled rounds array current (index + 1)) e
            (subst
              (λ n.
                IsFirst array current (index + 1) n
                  (find_signalled rounds array current (index + 1)))
              (omega arith) (find_signalled-IsFirst rounds array current (index + 1))))
    ]

shift_entries_lem :
    (rounds index : ℕ) (array : ℕ → Entry) (i : ℕ)
    → i < index + rounds
    → shift_entries rounds index array i ≡ (if ltb i index then array i else array (i + 1))
unfolding shift_entries
shift_entries_lem zero index array i h = ground arith
shift_entries_lem (suc rounds) index array i h = ground (
  arith,
  shift_entries_lem rounds (index + 1) (update array index (array (index + 1))) i (omega arith),
)

-- What wait_enter keeps of the mutex: its count, in the new entry.
wait_enter-count :
    (c0 : Condition) (m0 : Mem) (mutex current : ℕ)
    → (wait_enter c0 m0 mutex current).0 ≡ true
    → ((wait_enter c0 m0 mutex current).1.entry_array c0.entry_next).mutex_count
      ≡ m0 (count_of mutex)
unfolding wait_enter kmutex_test katomic_compare
wait_enter-count c0 m0 mutex current waits = ground arith

module _ (rounds : ℕ) (c0 : Condition) (m0 : Mem) (c : Condition) (m : Mem)
    (mutex current index : ℕ) (waits : (wait_enter c0 m0 mutex current).0 ≡ true)
    (entry : (c.entry_array index).mutex_count
      ≡ ((wait_enter c0 m0 mutex current).1.entry_array c0.entry_next).mutex_count)
    (queued : index < c.entry_next) (next_lt : c.entry_next < 2 ^ 32) where
  -- A thread that began to wait in kcondition_wait, and finds its entry, with the count stored then, at
  -- `index` later, leaves: just this entry is taken out of the queue, those in front stay, those behind move
  -- up by one, and there is one less. The mutex has the count that it had before the wait, and is the
  -- thread's if it was free.
  pub wait_leave_lem :
      (c' : Condition) × (m' : Mem) × (wait_leave (suc rounds) c m mutex current index
        ≡ some (c', m'))
      × (c'.entry_next + 1 ≡ c.entry_next)
      × ((i : ℕ)
          → i < c'.entry_next
          → c'.entry_array i ≡ (if ltb i index then c.entry_array i else c.entry_array (i + 1)))
      × (m' (count_of mutex) ≡ m0 (count_of mutex))
      × (m' mutex ≡ (if m mutex == 0 then current else m mutex))
  unfolding wait_leave
  wait_leave_lem =
      let (runs, _, owner) = kmutex_lock_lem rounds m mutex current in
      (
        record {
          entry_next = sub32 c.entry_next 1;
          entry_array = shift_entries (c.entry_next - 1 - index) index c.entry_array;
        },
        update (locked m mutex current) (count_of mutex) (c.entry_array index).mutex_count,
        rw (runs, wait_leave) refl,
        omega arith,
        λ i h.
            shift_entries_lem (c.entry_next - 1 - index) index c.entry_array i (omega (arith, h)),
        update_self (locked m mutex current) (count_of mutex) (c.entry_array index).mutex_count
            ∙ entry
            ∙ wait_enter-count c0 m0 mutex current waits,
        update_ne (locked m mutex current) (count_of mutex) mutex (c.entry_array index).mutex_count
              (omega arith)
            ∙ owner,
      )

no_thread :
    (fuel : ℕ) (s : Threads) (tid : ℕ)
    → s.thread_list ≡ 0
    → tid ≢ kthread_current s
    → find_thread (suc fuel) s tid ≡ some 0
unfolding find_thread find_loop kthread_current
no_thread fuel s tid empty other =
    let e : ((s.heap s.current).tid == tid) ≡ false = ground (arith, other) in
    let z : (s.thread_list == 0) ≡ true = ground (arith, empty) in
    rw (e, find_thread) (rw (z, find_loop) refl)

resume_fault :
    (fuel : ℕ) (s : Threads) (regs : Regs) (tid : ℕ)
    → s.thread_list ≡ 0
    → tid ≢ kthread_current s
    → kthread_resume (suc fuel) s regs tid ≡ none
unfolding kthread_resume at_thread
resume_fault fuel s regs tid empty other =
    rw (no_thread fuel s tid empty other, kthread_resume, at_thread) refl

-- The list of threads that find_thread walks through is empty, since no code enters a thread in it. Then a
-- signal to a condition whose first waiting thread is not the one that runs ends in a page fault.
pub kcondition_signal_fault :
    (fuel : ℕ) (c : Condition) (s : Threads) (regs : Regs)
    → s.thread_list ≡ 0
    → c.entry_next ≢ 0
    → (c.entry_array 0).thread ≢ kthread_current s
    → kcondition_signal (suc fuel) c s regs ≡ none
unfolding kcondition_signal signal_entry
kcondition_signal_fault fuel c s regs empty waiting other =
    let e : (c.entry_next == 0) ≡ false = ground (arith, waiting) in
    rw
      (
        e,
        resume_fault fuel s regs (c.entry_array 0).thread empty other,
        kcondition_signal,
        signal_entry,
      )
      refl
