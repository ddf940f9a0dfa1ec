-- ===== src/Timer/Fire.antt =====
-- What timer_thread of arch/ia32/timer.c fires.
use rjk.Base.{
  ℕ, zero, suc, ◌<◌, ◌≤◌, ◌≡◌, refl, ap, ◌∙◌, true, false, List, [], ◌∷◌, ◌++◌, All, arith, leb,
  Bool-cases, inl, inr, leb→le, length, Option, none, some,
}
use rjk.Timer.{Timer, Timers, is_due, timer_round, round_on, timer_rounds, fired_first}
use rjk.Timer.Order.{IsTime, instant, not_after_lem, deadline, HasTime, IsSorted}
use rjk.Timer.Add.{IsValid}

-- The timers fired and those left, of a list in order of deadline.
pub record Fired (now : ℕ) (ts : List Timer) : Type 0 where
  pub fired : List Timer
  pub left : List Timer
  pub split : ts ≡ fired ++ left
  pub due : All (λ t. deadline t ≤ now) fired
  pub not_due : All (λ t. now < deadline t) left

All-later :
    (now d : ℕ) (ts : List Timer)
    → now < d
    → All (λ t. d ≤ deadline t) ts
    → All (λ t. now < deadline t) ts
All-later now d [] h all = tt
All-later now d (t ∷ ts) h all = (omega (arith, all.0), All-later now d ts h all.1)

abbrev pub now_of : Timers → ℕ
now_of s = instant s.clock_second s.clock_nanosecond

-- A function that sets no timer, while the clock goes on: it shows a time, no earlier than before.
pub record IsQuiet (call : Timer → Timers → Timers) : Type 0 where
  pub keeps : (c : Timer) (s : Timers) → (call c s).timer_list ≡ s.timer_list
  pub clock :
      (c : Timer) (s : Timers)
      → IsTime s.clock_second s.clock_nanosecond
      → IsTime (call c s).clock_second (call c s).clock_nanosecond
  pub later : (c : Timer) (s : Timers) → now_of s ≤ now_of (call c s)

-- The rounds from the outcome of the first.
abbrev after_round :
    (call : Timer → Timers → Timers)
    → Timers
    → ℕ
    → Option Timer × Timers
    → Option (List Timer × Timers)
after_round call s fuel r = elim r.0 [
  | none ↦ some ([], s)
  | some c ↦ fired_first c (timer_rounds call fuel (call c r.1))
]

module _ (s : Timers) (c : Timer) (cs : List Timer) where
  round_due : is_due s c ≡ true → round_on s (c ∷ cs) ≡ (some c, record s { timer_list = cs })
  unfolding round_on
  round_due e = rw e refl

  round_idle : is_due s c ≡ false → round_on s (c ∷ cs) ≡ (none, s)
  unfolding round_on
  round_idle e = rw e refl

module _ (call : Timer → Timers → Timers) (s : Timers) (fuel : ℕ) (c : Timer) (cs : List Timer)
    (here : s.timer_list ≡ c ∷ cs) where
  rounds_due :
      is_due s c ≡ true
      → timer_rounds call (suc fuel) s
        ≡ fired_first c (timer_rounds call fuel (call c (record s { timer_list = cs })))
  unfolding timer_rounds timer_round
  rounds_due e =
      let first : timer_round s ≡ (some c, record s { timer_list = cs }) =
        ap (round_on s) here ∙ round_due s c cs e in
      ap (after_round call s fuel) first

  rounds_idle : is_due s c ≡ false → timer_rounds call (suc fuel) s ≡ some ([], s)
  unfolding timer_rounds timer_round
  rounds_idle e =
      let first : timer_round s ≡ (none, s) = ap (round_on s) here ∙ round_idle s c cs e in
      ap (after_round call s fuel) first

rounds_none :
    (call : Timer → Timers → Timers) (s : Timers) (fuel : ℕ)
    → s.timer_list ≡ []
    → timer_rounds call (suc fuel) s ≡ some ([], s)
unfolding timer_rounds timer_round
rounds_none call s fuel here =
    let first : timer_round s ≡ (none, s) = ap (round_on s) here ∙ (unfold round_on in refl) in
    ap (after_round call s fuel) first

module _ (call : Timer → Timers → Timers) (quiet : IsQuiet call) where
  rounds_lem :
      (fuel : ℕ) (s : Timers) (ts : List Timer)
      → s.timer_list ≡ ts
      → IsTime s.clock_second s.clock_nanosecond
      → All HasTime ts
      → IsSorted ts
      → length ts < fuel
      → (t : Timers) × (f : Fired (now_of t) ts) × (timer_rounds call fuel s ≡ some (f.fired, t))
        × (t.timer_list ≡ f.left)
        × (now_of s ≤ now_of t)
  rounds_lem zero s ts here clock times sorted enough = absurd (omega arith)
  rounds_lem (suc fuel) s [] here clock times sorted enough = (
    s,
    record { fired = []; left = []; split = refl; due = tt; not_due = tt },
    rounds_none call s fuel here,
    here,
    omega arith,
  )
  rounds_lem (suc fuel) s (c ∷ cs) here clock times sorted enough =
      let test =
        not_after_lem c.second c.nanosecond s.clock_second s.clock_nanosecond times.0 clock in
      elim (Bool-cases (leb (deadline c) (now_of s))) [
        | inl y ↦
            let s1 = record s { timer_list = cs } in
            let (t, f, run, left, late) =
              rounds_lem fuel (call c s1) cs (quiet.keeps c s1) (quiet.clock c s1 clock) times.1
                sorted.1 (omega arith) in
            let due : deadline c ≤ now_of s = leb→le _ _ y in
            let on : now_of s ≤ now_of (call c s1) = quiet.later c s1 in
            (
              t,
              record {
                fired = c ∷ f.fired;
                left = f.left;
                split = ap (λ l. c ∷ l) f.split;
                due = (omega (arith, due, on, late), f.due);
                not_due = f.not_due;
              },
              rounds_due call s fuel c cs here (test ∙ y) ∙ ap (fired_first c) run,
              left,
              omega (arith, on, late),
            )
        | inr n ↦ (
          s,
          record {
            fired = [];
            left = c ∷ cs;
            split = refl;
            due = tt;
            not_due = (ground arith, All-later (now_of s) (deadline c) cs (ground arith) sorted.0);
          },
          rounds_idle call s fuel c cs here (test ∙ n),
          here,
          omega arith,
        )
      ]

  -- In a valid state, where the functions called set no timer and the clock does not go back,
  -- timer_thread comes to its yield after at most one round more than there are timers. It has fired, in
  -- the order of the list, which is that of their deadlines, exactly the timers whose deadline has come
  -- at the yield; the others are left in the list.
  pub timer_rounds_lem :
      {s : Timers} (fuel : ℕ)
      → IsValid s
      → length s.timer_list < fuel
      → (t : Timers) × (f : Fired (now_of t) s.timer_list) × (timer_rounds call fuel s
          ≡ some (f.fired, t))
        × (t.timer_list ≡ f.left)
        × (now_of s ≤ now_of t)
  timer_rounds_lem {s} fuel v enough =
      rounds_lem fuel s s.timer_list refl v.clock v.times v.sorted enough
