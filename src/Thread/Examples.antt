-- ===== src/Thread/Examples.antt =====
-- A ring of two threads, and what the functions of arch/ia32/thread.c do on it.
use rjk.Base.{
  ℕ, ◌+◌, ◌*◌, ◌<◌, ◌≤◌, ◌≡◌, ◌↔◌, ◌⊎◌, refl, inl, inr, true, false, none, some, [], ◌∷◌, arith,
  ◌==◌, if◌then◌else◌, test_bit,
}
use rjk.Thread.{
  Thread, Threads, Regs, stops, schedule_thread, thread_switch, kthread_current, kthread_kill,
  kthread_priority_get, kthread_key_set, kthread_key_get, kthread_kill_current, asleep,
}
use rjk.Thread.Frame.{write_frame, frame_start, resume, resume-write_frame}
use rjk.Thread.Ring.{IsRing}
use rjk.Timer.Order.{instant}
use rjk.Thread.Schedule.{with_awake, schedule_thread_lem}
use rjk.Thread.Switch.{Switched, switched, loaded, thread_switch_lem, thread_switch_hangs}
use rjk.Thread.Create.{Call, kthread_create}
use rjk.Thread.Create.Laws.{kthread_create_fails}
use rjk.Thread.Control.{
  killed, other_tid_faults, key_set_lem, killed_never_runs, kill_current_lem, kill_current_hangs,
  sleep_lem,
}

abbrev thread : (next tid status : ℕ) → Thread
thread next tid status = record {
  next = next;
  tid = tid;
  status = status;
  priority = 0;
  data_ptr = 0;
  key = 5;
  stack = 0;
  stack_size = 0;
  esp = tid * 100;
  second = 9;
  nanosecond = 0;
  fpu = tid;
}

-- Thread 1 at 4096 runs; thread 2 at 8192 has the status given.
abbrev two : ℕ → Threads
two status = record {
  heap = λ p. if p == 4096 then thread 8192 1 1 else thread 4096 2 status;
  current = 4096;
  thread_list = 0;
  tid_counter = 2;
  clock_second = 7;
  clock_nanosecond = 0;
}

two-IsRing : (status : ℕ) → IsRing (two status) (8192 ∷ [])
two-IsRing status = record {
  closed = (refl, omega arith, (refl, omega arith, refl));
  distinct = λ a. ground arith;
}

abbrev regs : Regs
regs = record { esp = 3900; fpu = 77 }

resume-write_frame_example :
    let m' = write_frame 100 11 22 33 (λ q. q) in
    let r = resume m' (frame_start 100) in
    (r.eip ≡ 22)
    × (r.cs ≡ 0x10)
    × (r.eflags ≡ 0x200)
    × (r.eax ≡ 0)
    × (r.ebx ≡ 0)
    × (r.ecx ≡ 0)
    × (r.edx ≡ 0)
    × (m' r.esp ≡ 11)
    × (m' (r.esp + 1) ≡ 33)
    × (m' 85 ≡ 85)
resume-write_frame_example =
    resume-write_frame 100 11 22 33 (λ q. q) (omega arith) 85 (inr (omega arith))

-- Thread 2 slept until the second 9; the clock shows 10, and thread 2 sleeps no more.
abbrev late : Threads
late = record (two 3) { clock_second = 10 }

late-IsRing : IsRing late (8192 ∷ [])
late-IsRing = record {
  closed = (refl, omega arith, (refl, omega arith, refl));
  distinct = λ a. ground arith;
}

schedule_thread_lem_example : schedule_thread 2 late ≡ some (8192, with_awake late 8192)
unfolding instant
schedule_thread_lem_example =
    schedule_thread_lem 2 late-IsRing (omega arith) (omega arith, omega arith)
      ((omega arith, omega arith), ((omega arith, omega arith), tt))

thread_switch_lem_example :
    (thread_switch 2 (two 1) regs ≡ some (switched (two 1) regs 8192, loaded (two 1) regs 8192))
    × Switched (two 1) (8192 ∷ []) (switched (two 1) regs 8192)
unfolding stops test_bit
thread_switch_lem_example = thread_switch_lem 2 regs (two-IsRing 1) (omega arith) 8192 refl

-- Both threads are suspended.
abbrev stuck : Threads
stuck = record (two 5) { heap = λ p. if p == 4096 then thread 8192 1 5 else thread 4096 2 5 }

stuck-IsRing : IsRing stuck (8192 ∷ [])
stuck-IsRing = record {
  closed = (refl, omega arith, (refl, omega arith, refl));
  distinct = λ a. ground arith;
}

thread_switch_hangs_example : thread_switch 2 stuck regs ≡ none
unfolding stops test_bit
thread_switch_hangs_example = thread_switch_hangs 2 regs stuck-IsRing (omega arith) refl

killed_never_runs_test : stops 100 0 ((killed (two 1)).heap 4096) ≡ false
unfolding test_bit
killed_never_runs_test = killed_never_runs 2 regs (two-IsRing 1) (omega arith) refl 100 0

kill_current_lem_test :
    (kthread_kill_current 2 (two 1) regs
      ≡ some (switched (killed (two 1)) regs 8192, loaded (killed (two 1)) regs 8192))
    × Switched (killed (two 1)) (8192 ∷ []) (switched (killed (two 1)) regs 8192)
unfolding stops test_bit
kill_current_lem_test = kill_current_lem 2 regs (two-IsRing 1) (omega arith) refl 8192 refl

kill_current_hangs_test : kthread_kill_current 2 (two 5) regs ≡ none
unfolding stops test_bit
kill_current_hangs_test = kill_current_hangs 2 regs (two-IsRing 5) (omega arith) refl refl

other_tid_faults_test : kthread_kill 4 (two 1) regs 2 ≡ none
unfolding kthread_current
other_tid_faults_test = (other_tid_faults 3 (two 1) regs 2 0 0 refl (omega arith)).0

key_set_lem_test :
    (t : Threads) × (kthread_key_set 3 (two 1) (kthread_current (two 1)) 6 ≡ some (5, t))
    × (kthread_key_get 3 t (kthread_current (two 1)) ≡ some 6)
    × (kthread_priority_get 3 t (kthread_current (two 1))
        ≡ kthread_priority_get 3 (two 1) (kthread_current (two 1)))
    × ((p : ℕ) → (t.heap p).next ≡ ((two 1).heap p).next)
key_set_lem_test = key_set_lem 3 (two 1) 6 (omega arith)

sleep_lem_test :
    (stops 10 0 (asleep (two 1) 3 0 (thread 8192 1 1)) ≡ true)
    ↔ ((7 + 3 < 10) ⊎ ((7 + 3 ≡ 10) × (0 + 0 ≤ 0)))
sleep_lem_test =
    sleep_lem (two 1) (thread 8192 1 1) 3 0 10 0 (omega arith) (omega arith) (omega arith)
      (omega arith)

abbrev call : ℕ → Call
call page = record {
  function = 500;
  data_ptr = 600;
  stack_size = 0;
  page = page;
  stack_page = 0;
  kill = 700;
  fpu_init = 0;
}

kthread_create_fails_test :
    kthread_create 3 (two 1) regs (λ q. 0) (call 0)
    ≡ some (record { tid = 0; threads = two 1; regs = regs; stacks = λ q. 0; freed = [] })
kthread_create_fails_test = kthread_create_fails 3 (two 1) regs (λ q. 0) (call 0) (inl refl)
