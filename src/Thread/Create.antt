-- ===== src/Thread/Create.antt =====
-- kthread_create of arch/ia32/thread.c, with the pointers that its two page allocations return, the
-- address of kthread_kill_current, and the FPU state that `fnsave` leaves behind as arguments.
pub mod Laws
use rjk.Base.{
  ℕ, ◌+◌, ◌-◌, ◌*◌, ◌/◌, ◌%◌, ◌^◌, Option, none, some, List, [], ◌∷◌, ◌==◌, ◌&&◌, not,
  if◌then◌else◌, u32, sub32, update,
}
use rjk.Thread.{Thread, Threads, Regs, page_size, kthread_yield}
use rjk.Thread.Frame.{Stack, write_frame}

-- The arguments of the call, and what the machine supplies.
pub record Call : Type 0 where
  pub function : ℕ
  pub data_ptr : ℕ
  pub stack_size : ℕ
  pub page : ℕ  -- kmemory_virtual_page_allocate(1, 1), cleared; 0 if that failed
  pub stack_page : ℕ  -- kmemory_virtual_page_allocate(stack_size, 0); 0 if that failed
  pub kill : ℕ
  pub fpu_init : ℕ

-- The returned tid, which is read from the thread's page again after the switch, the threads and registers after the switch, the stacks, and the pages given back.
pub record Created : Type 0 where
  pub tid : ℕ
  pub threads : Threads
  pub regs : Regs
  pub stacks : Stack
  pub freed : List ℕ

unfoldable pub stack_top : Call → ℕ
stack_top a =
    if a.stack_size == 0
    then u32 (a.page + page_size)
    else u32 (a.stack_page + a.stack_size * page_size)

unfoldable pub new_thread : Threads → Call → Thread
new_thread s a = record {
  next = (s.heap s.current).next;
  tid = u32 (s.tid_counter + 1);
  status = 1;
  priority = 0;
  data_ptr = a.data_ptr;
  key = 0;
  stack = if a.stack_size == 0 then 0 else a.stack_page;
  stack_size = a.stack_size;
  esp = sub32 (stack_top a) ((1 + 1 + 3 + 1 + 7) * 4);
  second = 0;
  nanosecond = 0;
  fpu = a.fpu_init;
}

-- The two `fnsave`, the link behind the current thread, and the new tid.
unfoldable pub insert_thread : Threads → Regs → Call → Threads
insert_thread s regs a = record s {
  heap =
      update (update s.heap s.current (record (s.heap s.current) { fpu = regs.fpu; next = a.page }))
        a.page (new_thread s a);
  tid_counter = u32 (s.tid_counter + 1);
}

unfoldable pub kthread_create : ℕ → Threads → Regs → Stack → Call → Option Created
kthread_create fuel s regs m a =
    if a.page == 0
    then some (record { tid = 0; threads = s; regs = regs; stacks = m; freed = [] })
    else if not (a.stack_size == 0) && (a.stack_page == 0)
    then some (record { tid = 0; threads = s; regs = regs; stacks = m; freed = a.page ∷ [] })
    else elim (kthread_yield fuel (insert_thread s regs a) regs) [
      | none ↦ none
      | some (t, r) ↦ some (record {
        tid = (t.heap a.page).tid;
        threads = t;
        regs = r;
        stacks = write_frame (stack_top a / 4) a.kill a.function a.data_ptr m;
        freed = [];
      })
    ]
