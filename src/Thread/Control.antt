-- ===== src/Thread/Control.antt =====
-- The operations of arch/ia32/thread.c that name a thread by its tid.
use rjk.Base.{
  ℕ, suc, ◌+◌, ◌^◌, ◌<◌, ◌≤◌, ◌≡◌, ◌≢◌, ◌⊎◌, ◌↔◌, true, false, ◌==◌, List, [], ◌∷◌, ◌++◌, Bool,
  length, ◌∙◌, none, some, arith, test_bit, clear_bit, update, test_bit-set_bit_self,
  test_bit-clear_bit_self, test_bit-clear_bit_ne,
}
use rjk.Thread.{
  Thread, Threads, Regs, alive_bit, sleep_bit, has_expired, stops, asleep, kthread_kill_current,
  find_loop, find_thread, at_thread, kthread_yield, kthread_current, kthread_kill, thread_switch,
  kthread_suspend, kthread_resume, kthread_sleep, kthread_priority_set, kthread_priority_get,
  kthread_key_set, kthread_key_get,
}
use rjk.Thread.Ring.{IsRing, IsRing-frame, current_ne_zero}
use rjk.Thread.Schedule.{find, eligible}
use rjk.Thread.Switch.{Switched, switched, loaded, thread_switch_lem, thread_switch_hangs}

-- No function assigns `thread_list`, so it is null whenever these run.
find_other :
    (fuel : ℕ) (s : Threads) (tid : ℕ)
    → s.thread_list ≡ 0
    → tid ≢ kthread_current s
    → (find_thread (suc fuel) s tid ≡ some 0)
unfolding find_thread find_loop kthread_current
find_other fuel s tid list ne = ground arith

at_other :
    (fuel : ℕ) (s : Threads) (tid : ℕ) (f : Thread → Thread)
    → s.thread_list ≡ 0
    → tid ≢ kthread_current s
    → at_thread (suc fuel) s tid f ≡ none
unfolding at_thread
at_other fuel s tid f list ne = rw (find_other fuel s tid list ne, at_thread)

-- With the null `thread_list`, every operation on the tid of another thread than the current one
-- faults: nothing can kill, suspend, resume or put to sleep another thread, nor read or write its
-- priority or key.
pub other_tid_faults :
    (fuel : ℕ) (s : Threads) (regs : Regs) (tid v w : ℕ)
    → s.thread_list ≡ 0
    → tid ≢ kthread_current s
    → (kthread_kill (suc fuel) s regs tid ≡ none)
      × (kthread_suspend (suc fuel) s regs tid ≡ none)
      × (kthread_resume (suc fuel) s regs tid ≡ none)
      × (kthread_sleep (suc fuel) s regs tid v w ≡ none)
      × (kthread_priority_set (suc fuel) s tid v ≡ none)
      × (kthread_priority_get (suc fuel) s tid ≡ none)
      × (kthread_key_set (suc fuel) s tid v ≡ none)
      × (kthread_key_get (suc fuel) s tid ≡ none)
unfolding kthread_kill kthread_suspend kthread_resume kthread_sleep kthread_priority_set
    kthread_priority_get kthread_key_set kthread_key_get
other_tid_faults fuel s regs tid v w list ne =
    let e = λ (f : Thread → Thread). at_other fuel s tid f list ne in
    (rw e, rw e, rw e, rw e, rw e, rw e, rw e, rw e)

find_current : (fuel : ℕ) (s : Threads) → find_thread fuel s (kthread_current s) ≡ some s.current
unfolding find_thread kthread_current
find_current fuel s = ground arith

at_current :
    (fuel : ℕ) (s : Threads) (f : Thread → Thread)
    → s.current ≢ 0
    → at_thread fuel s (kthread_current s) f
      ≡ some (s.current, record s { heap = update s.heap s.current (f (s.heap s.current)) })
unfolding at_thread
at_current fuel s f ne =
    let n : (s.current == 0) ≡ false = ground arith in rw (find_current fuel s, at_thread, n)

-- On the current thread's own tid, kthread_key_set answers the old key and stores the new one:
-- kthread_key_get then answers it, the priority stays, and the ring's pointers stay.
pub key_set_lem :
    (fuel : ℕ) (s : Threads) (value : ℕ)
    → s.current ≢ 0
    → (t : Threads) × (kthread_key_set fuel s (kthread_current s) value
        ≡ some ((s.heap s.current).key, t))
      × (kthread_key_get fuel t (kthread_current s) ≡ some value)
      × (kthread_priority_get fuel t (kthread_current s)
          ≡ kthread_priority_get fuel s (kthread_current s))
      × ((p : ℕ) → (t.heap p).next ≡ (s.heap p).next)
unfolding kthread_key_set kthread_key_get kthread_priority_get
key_set_lem fuel s value ne =
    let t : Threads = record s {
      heap = update s.heap s.current (record (s.heap s.current) { key = value });
    } in
    let same : kthread_current s ≡ kthread_current t = unfold kthread_current in ground arith in
    let at_t : at_thread fuel t (kthread_current s) (λ x. x)
        ≡ some (t.current, record t { heap = update t.heap t.current (t.heap t.current) }) =
      rw same (at_current fuel t (λ x. x) ne) in
    (
      t,
      rw (at_current fuel s (λ x. record x { key = value }) ne),
      rw at_t (ground arith),
      rw (at_t, at_current fuel s (λ x. x) ne) (ground arith),
      λ p. ground arith,
    )

abbrev pub killed : Threads → Threads
killed s = record s {
  heap =
      update s.heap s.current
        (record (s.heap s.current) { status = clear_bit (s.heap s.current).status alive_bit });
}

find-append : (f : ℕ → Bool) (xs : List ℕ) (x : ℕ) → f x ≡ false → find f (xs ++ x ∷ []) ≡ find f xs
find-append f [] x e = rw e
find-append f (y ∷ xs) x e = rw (find-append f xs x e)

module _ {s : Threads} {others : List ℕ} (fuel : ℕ) (regs : Regs) (ring : IsRing s others)
    (enough : length others < fuel)
    (awake : test_bit (s.heap s.current).status sleep_bit ≡ false) where
  never_again :
      (second nanosecond : ℕ) → stops second nanosecond ((killed s).heap s.current) ≡ false
  unfolding stops
  never_again second nanosecond =
      let old = (s.heap s.current).status in
      ground (
        arith,
        awake,
        test_bit-clear_bit_self old alive_bit,
        test_bit-clear_bit_ne old alive_bit sleep_bit,
      )

  kill_switches : kthread_kill_current fuel s regs ≡ thread_switch fuel (killed s) regs
  unfolding kthread_kill_current kthread_kill kthread_yield kthread_current
  kill_switches =
      let self : (s.current == s.current) ≡ true = ground arith in
      rw (
        at_current fuel s (λ t. record t { status = clear_bit t.status alive_bit })
            (current_ne_zero ring),
        self,
      )

  killed-IsRing : IsRing (killed s) others
  killed-IsRing = IsRing-frame s (killed s).heap others (λ a. ground arith) ring

  only_others :
      find (eligible (killed s)) (others ++ s.current ∷ []) ≡ find (eligible (killed s)) others
  only_others =
      find-append (eligible (killed s)) others s.current
        (never_again s.clock_second s.clock_nanosecond)

  -- A thread that is awake and kills itself is never taken by the scheduler again, at any time.
  pub killed_never_runs :
      (second nanosecond : ℕ) → stops second nanosecond ((killed s).heap s.current) ≡ false
  killed_never_runs = never_again

  -- kthread_kill_current of a thread that is awake switches to the first of the other threads that
  -- may run and keeps the ring's threads.
  pub kill_current_lem :
      (c : ℕ)
      → find (eligible (killed s)) others ≡ some c
      → (kthread_kill_current fuel s regs
          ≡ some (switched (killed s) regs c, loaded (killed s) regs c))
        × Switched (killed s) others (switched (killed s) regs c)
  kill_current_lem c e =
      let (run, ring') = thread_switch_lem fuel regs killed-IsRing enough c (only_others ∙ e) in
      (kill_switches ∙ run, ring')

  -- kthread_kill_current does not return when no other thread may run.
  pub kill_current_hangs :
      find (eligible (killed s)) others ≡ none → kthread_kill_current fuel s regs ≡ none
  kill_current_hangs e =
      kill_switches ∙ thread_switch_hangs fuel regs killed-IsRing enough (only_others ∙ e)

-- A thread that puts itself to sleep for a time, with no overflow of the sums, may run again just
-- when the clock, read as a pair of seconds and nanoseconds, has reached the sum. Bit patterns below
-- half the range are the non-negative times.
pub sleep_lem :
    (s : Threads) (t : Thread) (second nanosecond later_second later_nanosecond : ℕ)
    → s.clock_second + second < 2 ^ 63
    → s.clock_nanosecond + nanosecond < 2 ^ 31
    → later_second < 2 ^ 63
    → later_nanosecond < 2 ^ 31
    → (stops later_second later_nanosecond (asleep s second nanosecond t) ≡ true) ↔ (
        (s.clock_second + second < later_second)
        ⊎ ((s.clock_second + second ≡ later_second)
            × (s.clock_nanosecond + nanosecond ≤ later_nanosecond)))
unfolding stops has_expired asleep
sleep_lem s t second nanosecond later_second later_nanosecond a b c d =
    ground (arith, test_bit-set_bit_self t.status sleep_bit)
