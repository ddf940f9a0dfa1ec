-- ===== src/Timer/Add.antt =====
-- What ktimer_add of arch/ia32/timer.c does to the list.
use rjk.Base.{
  ℕ, ◌+◌, ◌<◌, ◌≤◌, ◌≡◌, ◌≢◌, refl, ap, false, List, [], ◌∷◌, ◌++◌, All, arith, ◌==◌, leb, u32, u64,
  Bool-cases, inl, inr, leb→le,
}
use mathlib.Core.Path.{subst, sym}
use rjk.Timer.{Timer, Timers, link, ktimer_add}
use rjk.Timer.Order.{IsTime, not_after_lem, deadline, HasTime, IsSorted}

-- Where a timer goes: behind those that are earlier, before the first that is not.
pub record Linked (n : Timer) (old new : List Timer) : Type 0 where
  pub earlier : List Timer
  pub others : List Timer
  pub split : old ≡ earlier ++ others
  pub result : new ≡ earlier ++ n ∷ others
  pub before : All (λ t. deadline t < deadline n) earlier
  pub behind : All (λ t. deadline n ≤ deadline t) others

All-le :
    (a b : ℕ) (ts : List Timer)
    → a ≤ b
    → All (λ t. b ≤ deadline t) ts
    → All (λ t. a ≤ deadline t) ts
All-le a b [] h all = tt
All-le a b (t ∷ ts) h all = (omega (arith, all.0), All-le a b ts h all.1)

link-Linked :
    (n : Timer) (ts : List Timer)
    → HasTime n
    → All HasTime ts
    → IsSorted ts
    → Linked n ts (link n ts)
unfolding link
link-Linked n [] hn times sorted = record {
  earlier = [];
  others = [];
  split = refl;
  result = refl;
  before = tt;
  behind = tt;
}
link-Linked n (c ∷ cs) hn times sorted =
    let test = not_after_lem n.second n.nanosecond c.second c.nanosecond hn times.0 in
    elim (Bool-cases (leb (deadline n) (deadline c))) [
      | inl y ↦
          rw (test, y)
            (record {
              earlier = [];
              others = c ∷ cs;
              split = refl;
              result = refl;
              before = tt;
              behind = (leb→le _ _ y, All-le (deadline n) (deadline c) cs (leb→le _ _ y) sorted.0);
            })
      | inr no_ ↦
          let rest = link-Linked n cs hn times.1 sorted.1 in
          rw (test, no_)
            (record {
              earlier = c ∷ rest.earlier;
              others = rest.others;
              split = ap (λ l. c ∷ l) rest.split;
              result = ap (λ l. c ∷ l) rest.result;
              before = (ground arith, rest.before);
              behind = rest.behind;
            })
    ]

All-link :
    (P : Timer → Type 0) (n : Timer) (xs ys : List Timer)
    → P n
    → All P (xs ++ ys)
    → All P (xs ++ n ∷ ys)
All-link P n [] ys p all = (p, all)
All-link P n (x ∷ xs) ys p all = (all.0, All-link P n xs ys p all.1)

IsSorted-link :
    (n : Timer) (xs ys : List Timer)
    → IsSorted (xs ++ ys)
    → All (λ t. deadline t < deadline n) xs
    → All (λ t. deadline n ≤ deadline t) ys
    → IsSorted (xs ++ n ∷ ys)
IsSorted-link n [] ys sorted before behind = (behind, sorted)
IsSorted-link n (x ∷ xs) ys sorted before behind = (
  All-link (λ u. deadline x ≤ deadline u) n xs ys (omega (arith, before.0)) sorted.0,
  IsSorted-link n xs ys sorted.1 before.1 behind,
)

-- The list is sorted by deadline, and every time in it, and the clock's, fits its type.
pub record IsValid (s : Timers) : Type 0 where
  pub sorted : IsSorted s.timer_list
  pub times : All HasTime s.timer_list
  pub clock : IsTime s.clock_second s.clock_nanosecond

Linked-IsSorted :
    {n : Timer} {old new : List Timer} → Linked n old new → IsSorted old → IsSorted new
Linked-IsSorted {n} l sorted =
    subst IsSorted (sym l.result)
      (IsSorted-link n l.earlier l.others (subst IsSorted l.split sorted) l.before l.behind)

Linked-times :
    {n : Timer} {old new : List Timer}
    → Linked n old new
    → HasTime n
    → All HasTime old
    → All HasTime new
Linked-times {n} l hn times =
    subst (All HasTime) (sym l.result)
      (All-link HasTime n l.earlier l.others hn (subst (All HasTime) l.split times))

module _ (page : ℕ) {s : Timers} (function data_ptr second nanosecond : ℕ) (v : IsValid s) where
  abbrev new_timer : Timer
  new_timer = record {
    timer = u32 (s.timer_count + 1);
    function = function;
    data_ptr = data_ptr;
    second = u64 (s.clock_second + second);
    nanosecond = u32 (s.clock_nanosecond + nanosecond);
  }

  abbrev added : ℕ × Timers
  added = ktimer_add page s function data_ptr second nanosecond

  new_link : Linked new_timer s.timer_list (link new_timer s.timer_list)
  new_link = link-Linked new_timer s.timer_list (omega arith) v.times v.sorted

  -- With a page, ktimer_add answers the next number and puts the new timer, due at the clock plus the
  -- delay, behind the timers that are due earlier and before all others: of two timers due at the same
  -- time the younger stands first. The list stays sorted.
  pub ktimer_add_lem :
      page ≢ 0
      → (added.0 ≡ u32 (s.timer_count + 1))
        × Linked new_timer s.timer_list added.1.timer_list
        × IsValid added.1
  unfolding ktimer_add
  ktimer_add_lem ne =
      let n : (page == 0) ≡ false = ground arith in
      (
        rw n,
        rw n new_link,
        rw n (record {
          sorted = Linked-IsSorted new_link v.sorted;
          times = Linked-times new_link (omega arith) v.times;
          clock = v.clock;
        }),
      )

  -- Without a page, ktimer_add answers 0 and changes nothing.
  pub ktimer_add_fails : page ≡ 0 → added ≡ (0, s)
  unfolding ktimer_add
  ktimer_add_fails e = ground arith
