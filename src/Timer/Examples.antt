-- ===== src/Timer/Examples.antt =====
-- Two timers of arch/ia32/timer.c: one is due, one is not.
use rjk.Base.{ℕ, ◌≡◌, ◌≤◌, ◌==◌, if◌then◌else◌, refl, some, [], ◌∷◌, arith}
use rjk.Timer.{Timer, Timers, ktimer_add, timer_rounds, link}
use rjk.Timer.Order.{instant}
use rjk.Timer.Add.{Linked, IsValid, ktimer_add_lem, ktimer_add_fails}
use rjk.Timer.Fire.{Fired, now_of, IsQuiet, timer_rounds_lem}

abbrev at_second : (timer second : ℕ) → Timer
at_second timer second = record {
  timer = timer;
  function = 1;
  data_ptr = 2;
  second = second;
  nanosecond = 0;
}

abbrev pending : Timers
pending = record {
  timer_list = at_second 1 4 ∷ at_second 2 9 ∷ [];
  timer_count = 2;
  clock_second = 5;
  clock_nanosecond = 0;
}

pending-IsValid : IsValid pending
unfolding instant
pending-IsValid = record {
  sorted = ((omega arith, tt), (tt, tt));
  times = ((omega arith, omega arith), ((omega arith, omega arith), tt));
  clock = (omega arith, omega arith);
}

ktimer_add_lem_example :
    ((ktimer_add 4096 pending 3 4 2 0).0 ≡ 3)
    × Linked
        (record { timer = 3; function = 3; data_ptr = 4; second = 7; nanosecond = 0 })
        pending.timer_list
        (ktimer_add 4096 pending 3 4 2 0).1.timer_list
    × IsValid (ktimer_add 4096 pending 3 4 2 0).1
ktimer_add_lem_example = ktimer_add_lem 4096 3 4 2 0 pending-IsValid (omega arith)

ktimer_add_fails_test : ktimer_add 0 pending 3 4 2 0 ≡ (0, pending)
ktimer_add_fails_test = ktimer_add_fails 0 3 4 2 0 pending-IsValid refl

-- A function that takes three seconds.
abbrev slow : Timer → Timers → Timers
slow c s = record s { clock_second = if s.clock_second == 5 then 8 else s.clock_second }

slow-IsQuiet : IsQuiet slow
unfolding instant
slow-IsQuiet = record {
  keeps = λ c s. refl;
  clock = λ c s h. ground arith;
  later = λ c s. ground arith;
}

timer_rounds_lem_example :
    (t : Timers) × (f : Fired (now_of t) pending.timer_list) × (timer_rounds slow 3 pending
      ≡ some (f.fired, t))
    × (t.timer_list ≡ f.left)
    × (now_of pending ≤ now_of t)
timer_rounds_lem_example = timer_rounds_lem slow slow-IsQuiet 3 pending-IsValid (omega arith)

-- Of two timers due at the same time the younger fires first.
younger_test : link (at_second 3 4) pending.timer_list ≡ at_second 3 4 ∷ pending.timer_list
unfolding link
younger_test = refl
