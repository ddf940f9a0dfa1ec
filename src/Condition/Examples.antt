-- ===== src/Condition/Examples.antt =====
-- A condition of arch/ia32/condition.c with two waiting threads, 5 and 7; thread 7 is signalled.
use rjk.Base.{ℕ, ◌+◌, ◌<◌, ◌≡◌, ◌≢◌, refl, none, some, ◌==◌, if◌then◌else◌, ltb, arith, test_bit}
use rjk.Atomic.{Mem, katomic_compare}
use rjk.Mutex.{kmutex_test}
use rjk.Thread.{Threads, Thread, Regs, kthread_current}
use rjk.Condition.{Condition, find_signalled, wait_enter, wait_leave, kcondition_signal}
use rjk.Condition.Wait.{wait_leave_lem, kcondition_signal_fault}

abbrev condition : Condition
condition = record {
  entry_next = 2;
  entry_array = λ i.
      if i == 0
      then record { thread = 5; mutex_count = 1; flags = 0 }
      else record { thread = 7; mutex_count = 3; flags = 1 };
}

abbrev free_mutex : Mem
free_mutex q = 0

find_signalled_test : find_signalled 2 condition.entry_array 7 0 ≡ some 1
unfolding find_signalled test_bit
find_signalled_test = refl

-- Before thread 7, which has the mutex at 10 with a count of 3, begins to wait.
abbrev before : Condition
before = record condition { entry_next = 1 }

abbrev its_mutex : Mem
its_mutex q = if q == 10 then 7 else if q == 11 then 3 else 0

wait_leave_lem_example :
    (c' : Condition) × (m' : Mem) × (wait_leave 1 condition free_mutex 10 7 1 ≡ some (c', m'))
    × (c'.entry_next + 1 ≡ 2)
    × ((i : ℕ)
        → i < c'.entry_next
        → c'.entry_array i
          ≡ (if ltb i 1 then condition.entry_array i else condition.entry_array (i + 1)))
    × (m' 11 ≡ 3)
    × (m' 10 ≡ 7)
unfolding wait_enter kmutex_test katomic_compare
wait_leave_lem_example =
    wait_leave_lem 0 before its_mutex condition free_mutex 10 7 1 refl refl (omega arith)
      (omega arith)

abbrev thread : Thread
thread = record {
  next = 0x8000;
  tid = 3;
  status = 1;
  priority = 0;
  data_ptr = 0;
  key = 0;
  stack = 0;
  stack_size = 0;
  esp = 0;
  second = 0;
  nanosecond = 0;
  fpu = 0;
}

-- Thread 3 runs.
abbrev threads : Threads
threads = record {
  heap = λ p. thread;
  current = 0x8000;
  thread_list = 0;
  tid_counter = 7;
  clock_second = 0;
  clock_nanosecond = 0;
}

abbrev regs : Regs
regs = record { esp = 0; fpu = 0 }

waits : 5 ≢ kthread_current threads
unfolding kthread_current
waits = omega arith

kcondition_signal_fault_example : kcondition_signal 1 condition threads regs ≡ none
kcondition_signal_fault_example =
    kcondition_signal_fault 0 condition threads regs refl (omega arith) waits
