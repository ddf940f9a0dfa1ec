-- ===== src/Thread/Schedule.antt =====
-- What the scheduler of arch/ia32/thread.c chooses.
use rjk.Base.{
  ℕ, zero, suc, ◌-◌, ◌/◌, ◌%◌, ◌&&◌, leb, All, ap, ◌∙◌, test_bit, clear_bit, clear_bit-add, ◌≤◌,
  ◌<◌, ◌≡◌, ◌≢◌, refl, List, [], ◌∷◌, ◌++◌, arith, ◌==◌, if◌then◌else◌, Bool, false, length, update,
  Option, none, some, Bool-cases, inl, inr, length-append,
}
use rjk.Timer.Order.{IsTime, instant, not_after_lem}
use rjk.Thread.{Thread, Threads, has_expired, stops, wake, schedule_loop, schedule_thread}
use rjk.Thread.Ring.{Chain, IsRing}

abbrev pub find : (ℕ → Bool) → List ℕ → Option ℕ
find p [] = none
find p (x ∷ xs) = if p x then some x else find p xs

abbrev pub eligible : Threads → ℕ → Bool
eligible s p = stops s.clock_second s.clock_nanosecond (s.heap p)

-- The state when the scheduler has stopped at `c`.
abbrev pub woken : Threads → ℕ → Threads
woken s c = record s { heap = update s.heap c (wake (s.heap c)) }

module _ (s : Threads) where
  loop-suc :
      (fuel x : ℕ)
      → x ≢ 0
      → schedule_loop (suc fuel) s x
        ≡ (if eligible s x then some (x, woken s x) else schedule_loop fuel s (s.heap x).next)
  unfolding schedule_loop
  loop-suc fuel x ne = let n : (x == 0) ≡ false = ground arith in rw n

  found_lem :
      (fuel p : ℕ) (xs : List ℕ) (q c : ℕ)
      → Chain s.heap p xs q
      → length xs ≤ fuel
      → find (eligible s) xs ≡ some c
      → schedule_loop fuel s p ≡ some (c, woken s c)
  found_lem fuel p [] q c ch h e = cc
  found_lem zero p (x ∷ xs) q c ch h e = absurd (omega arith)
  found_lem (suc fuel) p (x ∷ xs) q c ch h e =
      rw (ch.0, loop-suc fuel x ch.1)
        (elim (Bool-cases (eligible s x)) [
          | inl y ↦ let same : x ≡ c = ground arith in rw (y, same)
          | inr n ↦ rw n (found_lem fuel (s.heap x).next xs q c ch.2 (omega arith) (rw n at e))
        ])

  -- If no thread of the ring is eligible, the loop goes round for ever.
  none_lem :
      (fuel p : ℕ) (xs : List ℕ) (first r : ℕ) (ring : List ℕ)
      → Chain s.heap p xs r
      → Chain s.heap r (first ∷ ring) r
      → find (eligible s) xs ≡ none
      → find (eligible s) (first ∷ ring) ≡ none
      → schedule_loop fuel s p ≡ none
  none_lem zero p xs first r ring ch closed e f = unfold schedule_loop in refl
  none_lem (suc fuel) p [] first r ring ch closed e f =
      rw (ch, closed.0, loop-suc fuel first closed.1)
        (elim (Bool-cases (eligible s first)) [
          | inl y ↦ absurd (ground arith)
          | inr n ↦
              rw n
                (none_lem fuel (s.heap first).next ring first r ring closed.2 closed (rw n at f) f)
        ])
  none_lem (suc fuel) p (x ∷ xs) first r ring ch closed e f =
      rw (ch.0, loop-suc fuel x ch.1)
        (elim (Bool-cases (eligible s x)) [
          | inl y ↦ absurd (ground arith)
          | inr n ↦ rw n (none_lem fuel (s.heap x).next xs first r ring ch.2 closed (rw n at e) f)
        ])

abbrev pub chosen : Threads → Option ℕ → Option (ℕ × Threads)
chosen s none = none
chosen s (some c) = some (c, woken s c)

schedule_split :
    (s : Threads) (ring : List ℕ) (x : ℕ) (fuel : ℕ) (o : Option ℕ)
    → Chain s.heap (s.heap s.current).next (ring ++ x ∷ []) (s.heap s.current).next
    → length (ring ++ x ∷ []) ≤ fuel
    → find (eligible s) (ring ++ x ∷ []) ≡ o
    → schedule_loop fuel s (s.heap s.current).next ≡ chosen s o
schedule_split s ring x fuel (some c) ch h e = found_lem s fuel _ (ring ++ x ∷ []) _ c ch h e
schedule_split s [] x fuel none ch h e = none_lem s fuel _ (x ∷ []) x _ [] ch ch e e
schedule_split s (y ∷ ring) x fuel none ch h e =
    none_lem s fuel _ (y ∷ ring ++ x ∷ []) y _ (ring ++ x ∷ []) ch ch e e

pub schedule_eligible :
    {s : Threads} {others : List ℕ} (fuel : ℕ)
    → IsRing s others
    → length others < fuel
    → schedule_thread fuel s ≡ chosen s (find (eligible s) (others ++ s.current ∷ []))
unfolding schedule_thread
schedule_eligible {s} {others} fuel ring h =
    schedule_split s others s.current fuel _ ring.closed
      (omega (arith, length-append others (s.current ∷ []))) refl

-- May a thread run? The lowest bit of its status says that it is alive, the next that it sleeps, the third that
-- it is suspended; a sleeper waits until the clock shows its time.
abbrev pub may_run : Threads → ℕ → Bool
may_run s p =
    let t = s.heap p in
    if t.status / 2 % 2 == 1
    then leb (instant t.second t.nanosecond) (instant s.clock_second s.clock_nanosecond)
    else (t.status % 2 == 1) && (t.status / 4 % 2 == 0)

-- The state when the thread at c has been chosen: one that slept does not sleep any more, and has no time.
abbrev pub with_awake : Threads → ℕ → Threads
with_awake s c =
    let t = s.heap c in
    record s {
      heap = update s.heap c (
          if t.status / 2 % 2 == 1
          then record t { second = 0; nanosecond = 0; status = t.status - 2 }
          else t);
    }

abbrev pub runs : Threads → Option ℕ → Option (ℕ × Threads)
runs s none = none
runs s (some c) = some (c, with_awake s c)

abbrev pub HasTime : Threads → ℕ → Type 0
HasTime s p = IsTime (s.heap p).second (s.heap p).nanosecond

wake_lem :
    (t : Thread)
    → wake t ≡ (
        if t.status / 2 % 2 == 1
        then record t { second = 0; nanosecond = 0; status = t.status - 2 }
        else t)
unfolding wake test_bit
wake_lem t = elim (Bool-cases (t.status / 2 % 2 == 1)) [
  | inr awake ↦ rw awake refl
  | inl asleep ↦
      let less : clear_bit t.status 1 ≡ t.status - 2 =
        omega (arith, clear_bit-add t.status 1 asleep) in
      rw asleep (ap (λ (n : ℕ). record t { second = 0; nanosecond = 0; status = n }) less)
]

module _ (s : Threads) where
  eligible-may_run :
      (p : ℕ) → IsTime s.clock_second s.clock_nanosecond → HasTime s p → eligible s p ≡ may_run s p
  unfolding stops has_expired test_bit
  eligible-may_run p clock time =
      let t = s.heap p in
      rw (not_after_lem t.second t.nanosecond s.clock_second s.clock_nanosecond time clock)
        (ground arith)

  find-may_run :
      (ps : List ℕ)
      → IsTime s.clock_second s.clock_nanosecond
      → All (HasTime s) ps
      → find (eligible s) ps ≡ find (may_run s) ps
  find-may_run [] clock times = refl
  find-may_run (p ∷ ps) clock times =
      rw (eligible-may_run p clock times.0, find-may_run ps clock times.1) refl

  woken-with_awake : (p : ℕ) → woken s p ≡ with_awake s p
  woken-with_awake p =
      ap (λ (t : Thread). record s { heap = update s.heap p t }) (wake_lem (s.heap p))

  chosen-runs : (o : Option ℕ) → chosen s o ≡ runs s o
  chosen-runs none = refl
  chosen-runs (some c) = ap (λ (t : Threads). some (c, t)) (woken-with_awake c)

-- schedule_thread takes the first thread behind the current one that may run at the time read: a sleeper
-- whose time has come, which then sleeps no more, or a thread that is alive and not suspended. The
-- current thread comes last. If no thread may run, the loop ends after no number of rounds. The times of
-- the threads and of the clock are words of 64 and 32 bits, in their signed order.
pub schedule_thread_lem :
    {s : Threads} {others : List ℕ} (fuel : ℕ)
    → IsRing s others
    → length others < fuel
    → IsTime s.clock_second s.clock_nanosecond
    → All (HasTime s) (others ++ s.current ∷ [])
    → schedule_thread fuel s ≡ runs s (find (may_run s) (others ++ s.current ∷ []))
schedule_thread_lem {s} {others} fuel ring h clock times =
    schedule_eligible fuel ring h
    ∙ chosen-runs s (find (eligible s) (others ++ s.current ∷ []))
    ∙ ap (runs s) (find-may_run s (others ++ s.current ∷ []) clock times)
