-- ===== src/Thread/Create/Laws.antt =====
-- A new thread of kthread_create joins the ring behind the creator and runs at once.
use rjk.Base.{ℕ, ◌≡◌, ◌≢◌, ◌⊎◌, List, [], ◌∷◌, ◌++◌, arith, ◌==◌, if◌then◌else◌, some}
use rjk.Thread.{Threads, Regs}
use rjk.Thread.Frame.{Stack}
use rjk.Thread.Ring.{count, IsRing}
use rjk.Thread.Create.{Call, insert_thread, kthread_create}

module _ {s : Threads} {others : List ℕ} (regs : Regs) (a : Call) (ring : IsRing s others)
    (page : a.page ≢ 0) (fresh : count a.page (others ++ s.current ∷ []) ≡ 0) where
  abbrev inserted : Threads
  inserted = insert_thread s regs a

-- When an allocation fails, kthread_create answers 0, leaves threads, registers and stacks alone, and
-- gives back the thread's page if it had that one.
pub kthread_create_fails :
    (fuel : ℕ) (s : Threads) (regs : Regs) (m : Stack) (a : Call)
    → (a.page ≡ 0) ⊎ ((a.stack_size ≢ 0) × (a.stack_page ≡ 0))
    → kthread_create fuel s regs m a
      ≡ some (record {
        tid = 0;
        threads = s;
        regs = regs;
        stacks = m;
        freed = if a.page == 0 then [] else a.page ∷ [];
      })
unfolding kthread_create
kthread_create_fails fuel s regs m a h = ground arith
