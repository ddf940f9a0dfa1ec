-- ===== src/Timer/Start.antt =====
-- ktimer_init of arch/ia32/timer.c: the thread that runs timer_thread, on a stack in its own page.
use rjk.Base.{ℕ, Option}
use rjk.Thread.{Threads, Regs}
use rjk.Thread.Frame.{Stack}
use rjk.Thread.Create.{Created, kthread_create}

-- `timer_thread` is its address; the page and what the machine supplies are as for kthread_create.
unfoldable pub ktimer_init :
    (fuel : ℕ) → Threads → Regs → Stack → (timer_thread page kill fpu_init : ℕ) → Option Created
unfolding kthread_create
ktimer_init fuel s regs m timer_thread page kill fpu_init = kthread_create fuel s regs m (record {
  function = timer_thread;
  data_ptr = 0;
  stack_size = 0;
  page = page;
  stack_page = 0;
  kill = kill;
  fpu_init = fpu_init;
})
