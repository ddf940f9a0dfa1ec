-- ===== src/Timer.antt =====
-- arch/ia32/timer.c: the list behind `timer_list`, as the timers in the order of their `next`
-- pointers. What `ktimer_spinlock` protects is one step.
pub mod Start
pub mod Order
pub mod Add
pub mod Fire
mod Examples
use rjk.Base.{
  ℕ, zero, suc, ◌+◌, ◌%◌, ◌^◌, Bool, true, false, ◌&&◌, ◌||◌, Option, none, some, List, [], ◌∷◌,
  ◌==◌, if◌then◌else◌, u32, u64, slt64, sle32,
}

-- `struct timer`, less its `next`
pub record Timer : Type 0 where
  pub timer : ℕ
  pub function : ℕ
  pub data_ptr : ℕ
  pub second : ℕ
  pub nanosecond : ℕ

-- The globals, and the clock that `ktime_get` reads.
pub record Timers : Type 0 where
  pub timer_list : List Timer
  pub timer_count : ℕ
  pub clock_second : ℕ
  pub clock_nanosecond : ℕ

-- The comparison of both loops: (second, nanosecond) is at most (second', nanosecond').
abbrev pub not_after : ℕ → ℕ → ℕ → ℕ → Bool
not_after second nanosecond second' nanosecond' =
    slt64 second second' || ((second == second') && sle32 nanosecond nanosecond')

-- The walk of `ktimer_add` to the first timer that is not earlier than the new one, and the link.
unfoldable pub link : Timer → List Timer → List Timer
link n [] = n ∷ []
link n (c ∷ cs) =
    if not_after n.second n.nanosecond c.second c.nanosecond then n ∷ c ∷ cs else c ∷ link n cs

-- `page` is what kmemory_virtual_page_allocate(1, 0) returns. The result is the timer's number, 0
-- if there was no page.
unfoldable pub ktimer_add : ℕ → Timers → (function data_ptr second nanosecond : ℕ) → ℕ × Timers
ktimer_add page s function data_ptr second nanosecond = if page == 0 then (0, s) else (
  u32 (s.timer_count + 1),
  record s {
    timer_list =
        link
          (record {
            timer = u32 (s.timer_count + 1);
            function = function;
            data_ptr = data_ptr;
            second = u64 (s.clock_second + second);
            nanosecond = u32 (s.clock_nanosecond + nanosecond);
          })
          s.timer_list;
    timer_count = u32 (s.timer_count + 1);
  },
)

-- The body is empty.
unfoldable pub ktimer_remove : ℕ → Timers → Timers
ktimer_remove timer s = s

abbrev pub is_due : Timers → Timer → Bool
is_due s c = not_after c.second c.nanosecond s.clock_second s.clock_nanosecond

-- One round of the loop of `timer_thread`: the timer that it takes off the list and whose function
-- it then calls; with `none` it yields.
unfoldable pub round_on : Timers → List Timer → Option Timer × Timers
round_on s [] = (none, s)
round_on s (c ∷ cs) = if is_due s c then (some c, record s { timer_list = cs }) else (none, s)

unfoldable pub timer_round : Timers → Option Timer × Timers
unfolding round_on
timer_round s = round_on s s.timer_list

abbrev pub fired_first : Timer → Option (List Timer × Timers) → Option (List Timer × Timers)
fired_first c none = none
fired_first c (some (fired, s)) = some (c ∷ fired, s)

-- Rounds of `timer_thread` until it yields: the timers fired, in order, and the state. `call` is what
-- happens from one reading of the clock to the next: `function(data)`, which may set timers, and the time
-- that passes. The fuel bounds the rounds.
unfoldable pub timer_rounds :
    (call : Timer → Timers → Timers) → ℕ → Timers → Option (List Timer × Timers)
unfolding timer_round
timer_rounds call zero s = none
timer_rounds call (suc fuel) s = elim (timer_round s).0 [
  | none ↦ some ([], s)
  | some c ↦ fired_first c (timer_rounds call fuel (call c (timer_round s).1))
]
