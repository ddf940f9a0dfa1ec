-- ===== src/Thread.antt =====
-- arch/ia32/thread.c: thread records on a heap, the ring that `next` makes of them, the scheduler.
-- `none` is a page fault: an access through the null pointer that `find_thread` may return.
-- What the spinlock `kthread_spinlock` and the interrupt gates protect is one step.
pub mod Frame
pub mod Ring
pub mod Schedule
pub mod Switch
pub mod Create
pub mod Control
mod Examples
use rjk.Base.{
  ℕ, zero, suc, ◌+◌, ◌-◌, ◌*◌, ◌%◌, ◌^◌, Bool, true, false, ◌&&◌, ◌||◌, Option, none, some, ◌==◌,
  if◌then◌else◌, u32, u64, sub32, slt64, sle32, test_bit, set_bit, clear_bit, update,
}

-- `struct thread`; `fpu` stands for the 108 bytes of FPU state.
pub record Thread : Type 0 where
  pub next : ℕ
  pub tid : ℕ
  pub status : ℕ
  pub priority : ℕ
  pub data_ptr : ℕ
  pub key : ℕ
  pub stack : ℕ
  pub stack_size : ℕ
  pub esp : ℕ
  pub second : ℕ
  pub nanosecond : ℕ
  pub fpu : ℕ

-- Bits of `status`: STATUS_ALIVE, STATUS_SLEEP, STATUS_SUSPEND.
abbrev pub alive_bit : ℕ
alive_bit = 0

abbrev pub sleep_bit : ℕ
sleep_bit = 1

abbrev pub suspend_bit : ℕ
suspend_bit = 2

-- The globals of thread.c, the thread records by address, and the clock that `ktime_get` reads.
-- `thread_list` is a global that no code assigns.
pub record Threads : Type 0 where
  pub heap : ℕ → Thread
  pub current : ℕ
  pub thread_list : ℕ
  pub tid_counter : ℕ
  pub clock_second : ℕ
  pub clock_nanosecond : ℕ

-- What `thread_switch` reads and writes of the processor.
pub record Regs : Type 0 where
  pub esp : ℕ
  pub fpu : ℕ

abbrev pub page_size : ℕ
page_size = 4096

-- `page` is what kmemory_linear_page_allocate(1, 1) returned. The page is not cleared, so the
-- fields that are not assigned keep what was in it.
unfoldable pub kthread_setup : ℕ → Threads → ℕ × Threads
kthread_setup page s =
    let tid = u32 (s.tid_counter + 1) in
    let top = u32 (page + page_size) in
    let t = record (s.heap page) {
      tid = tid;
      status = 1;
      priority = 2 ^ 32 - 1;
      key = 0;
      stack = 0;
      stack_size = 0;
      next = page;
      esp = top;
    } in
    (top, record s { heap = update s.heap page t; current = page; tid_counter = tid })

-- The walk of `find_thread` along `thread_list`.
unfoldable pub find_loop : ℕ → (ℕ → Thread) → ℕ → ℕ → Option ℕ
find_loop zero heap ntp tid = none
find_loop (suc fuel) heap ntp tid =
    let rest = find_loop fuel heap (heap ntp).next tid in
    if ntp == 0 then some 0 else if (heap ntp).tid == tid then some ntp else rest

-- `none` when the walk has not ended after `fuel` rounds.
unfoldable pub find_thread : ℕ → Threads → ℕ → Option ℕ
find_thread fuel s tid =
    if (s.heap s.current).tid == tid
    then some s.current
    else find_loop fuel s.heap s.thread_list tid

-- An access through the pointer that `find_thread` returned: a null pointer faults.
unfoldable pub at_thread : ℕ → Threads → ℕ → (Thread → Thread) → Option (ℕ × Threads)
at_thread fuel s tid f = elim (find_thread fuel s tid) [
  | none ↦ none
  | some p ↦ if p == 0 then none else some (p, record s { heap = update s.heap p (f (s.heap p)) })
]

abbrev pub result_of {ℓ} : {A : Type ℓ} → Option (ℕ × Threads) → (ℕ → Threads → A) → Option A
result_of none f = none
result_of (some (p, s)) f = some (f p s)

unfoldable pub kthread_current : Threads → ℕ
kthread_current s = (s.heap s.current).tid

-- May `schedule_thread` stop at this thread, at the given time?
unfoldable pub has_expired : ℕ → ℕ → Thread → Bool
has_expired second nanosecond t =
    slt64 t.second second || ((t.second == second) && sle32 t.nanosecond nanosecond)

unfoldable pub stops : ℕ → ℕ → Thread → Bool
unfolding has_expired
stops second nanosecond t =
    if test_bit t.status sleep_bit
    then has_expired second nanosecond t
    else if test_bit t.status suspend_bit
    then false
    else test_bit t.status alive_bit

-- What the scheduler leaves in the thread that it stops at.
unfoldable pub wake : Thread → Thread
wake t =
    if test_bit t.status sleep_bit
    then record t { second = 0; nanosecond = 0; status = clear_bit t.status sleep_bit }
    else t

-- The loop of `schedule_thread`; `none` when it has not ended after `fuel` rounds.
unfoldable pub schedule_loop : ℕ → Threads → ℕ → Option (ℕ × Threads)
schedule_loop zero s ntp = none
schedule_loop (suc fuel) s ntp =
    let rest = schedule_loop fuel s (s.heap ntp).next in
    if ntp == 0
    then some (0, s)
    else if stops s.clock_second s.clock_nanosecond (s.heap ntp)
    then some (ntp, record s { heap = update s.heap ntp (wake (s.heap ntp)) })
    else rest

unfoldable pub schedule_thread : ℕ → Threads → Option (ℕ × Threads)
schedule_thread fuel s = schedule_loop fuel s (s.heap s.current).next

-- `fnsave` and the save of esp, the choice, and the load of esp and `frstor`.
unfoldable pub thread_switch : ℕ → Threads → Regs → Option (Threads × Regs)
thread_switch fuel s regs =
    let saved = record s {
      heap = update s.heap s.current (record (s.heap s.current) { fpu = regs.fpu; esp = regs.esp });
    } in
    elim (schedule_thread fuel saved) [
      | none ↦ none
      | some (p, t) ↦
          if p == 0
          then none
          else some
              (record t { current = p }, record { esp = (t.heap p).esp; fpu = (t.heap p).fpu })
    ]

-- `int $0x30`
unfoldable pub kthread_yield : ℕ → Threads → Regs → Option (Threads × Regs)
kthread_yield fuel s regs = thread_switch fuel s regs

-- The end of the functions that change a status: a switch if the thread is the current one.
abbrev pub switch_if_current : ℕ → Regs → Option (ℕ × Threads) → Option (Threads × Regs)
switch_if_current fuel regs none = none
switch_if_current fuel regs (some (p, s)) =
    if p == s.current then kthread_yield fuel s regs else some (s, regs)

-- What kthread_sleep stores in the thread.
unfoldable pub asleep : Threads → ℕ → ℕ → Thread → Thread
asleep s second nanosecond t = record t {
  second = u64 (s.clock_second + second);
  nanosecond = u32 (s.clock_nanosecond + nanosecond);
  status = set_bit t.status sleep_bit;
}

unfoldable pub kthread_sleep : ℕ → Threads → Regs → ℕ → ℕ → ℕ → Option (Threads × Regs)
kthread_sleep fuel s regs tid second nanosecond =
    switch_if_current fuel regs (at_thread fuel s tid (asleep s second nanosecond))

unfoldable pub kthread_kill : ℕ → Threads → Regs → ℕ → Option (Threads × Regs)
kthread_kill fuel s regs tid =
    switch_if_current fuel regs
      (at_thread fuel s tid λ t. record t { status = clear_bit t.status alive_bit })

unfoldable pub kthread_kill_current : ℕ → Threads → Regs → Option (Threads × Regs)
kthread_kill_current fuel s regs = kthread_kill fuel s regs (s.heap s.current).tid

unfoldable pub kthread_suspend : ℕ → Threads → Regs → ℕ → Option (Threads × Regs)
kthread_suspend fuel s regs tid =
    switch_if_current fuel regs
      (at_thread fuel s tid λ t. record t { status = set_bit t.status suspend_bit })

unfoldable pub kthread_resume : ℕ → Threads → Regs → ℕ → Option (Threads × Regs)
kthread_resume fuel s regs tid =
    switch_if_current fuel regs
      (at_thread fuel s tid λ t. record t { status = clear_bit t.status suspend_bit })

unfoldable pub kthread_priority_set : ℕ → Threads → ℕ → ℕ → Option Threads
kthread_priority_set fuel s tid priority =
    result_of (at_thread fuel s tid (λ t. record t { priority = priority })) (λ p s'. s')

unfoldable pub kthread_priority_get : ℕ → Threads → ℕ → Option ℕ
kthread_priority_get fuel s tid =
    result_of (at_thread fuel s tid (λ t. t)) (λ p s'. (s.heap p).priority)

-- The old value comes back.
unfoldable pub kthread_key_set : ℕ → Threads → ℕ → ℕ → Option (ℕ × Threads)
kthread_key_set fuel s tid value =
    result_of (at_thread fuel s tid (λ t. record t { key = value })) (λ p s'. ((s.heap p).key, s'))

unfoldable pub kthread_key_get : ℕ → Threads → ℕ → Option ℕ
kthread_key_get fuel s tid = result_of (at_thread fuel s tid (λ t. t)) (λ p s'. (s.heap p).key)
