-- ===== src/Thread/Switch.antt =====
-- A thread switch of arch/ia32/thread.c goes to the scheduler's choice and keeps the ring.
use rjk.Base.{
  ℕ, ◌<◌, ◌≡◌, ◌≢◌, ap, sym, ◌∙◌, List, [], ◌∷◌, ◌++◌, arith, ◌==◌, Bool, false, length, update,
  Option, none, some, Bool-cases, inl, inr,
}
use mathlib.Core.Path.{fun_ext, subst}
use rjk.Thread.{Thread, Threads, Regs, stops, wake, schedule_thread, thread_switch}
use rjk.Thread.Ring.{Chain, IsRing, count, count-swap, IsRing-rotate, IsRing-frame}
use rjk.Thread.Schedule.{find, eligible, woken, chosen, schedule_eligible}

-- The state once the current thread's registers are saved.
abbrev pub saved : Threads → Regs → Threads
saved s regs = record s {
  heap = update s.heap s.current (record (s.heap s.current) { fpu = regs.fpu; esp = regs.esp });
}

abbrev pub switched : Threads → Regs → ℕ → Threads
switched s regs c = record (woken (saved s regs) c) { current = c }

abbrev pub loaded : Threads → Regs → ℕ → Regs
loaded s regs c = let t = (switched s regs c).heap c in record { esp = t.esp; fpu = t.fpu }

saved-next : (s : Threads) (regs : Regs) (a : ℕ) → ((saved s regs).heap a).next ≡ (s.heap a).next
saved-next s regs a = ground arith

saved-eligible : (s : Threads) (regs : Regs) (p : ℕ) → eligible (saved s regs) p ≡ eligible s p
unfolding stops
saved-eligible s regs p = elim (Bool-cases (p == s.current)) [
  | inl same ↦ let e : p ≡ s.current = ground arith in ground arith
  | inr other ↦ rw other
]

switched-next :
    (s : Threads) (regs : Regs) (c a : ℕ) → ((switched s regs c).heap a).next ≡ (s.heap a).next
unfolding wake
switched-next s regs c a = ground arith

-- Where the scheduler stops: at the current thread, or at one of the others.
data Place (others : List ℕ) (x c : ℕ) : Type 0 where
  at_end : c ≡ x → Place others x c
  among : (before behind : List ℕ) → others ≡ before ++ c ∷ behind → Place others x c

find-Place :
    (f : ℕ → Bool) (others : List ℕ) (x c : ℕ)
    → find f (others ++ x ∷ []) ≡ some c
    → Place others x c
find-Place f [] x c e = at_end (ground arith)
find-Place f (y ∷ others) x c e = elim (Bool-cases (f y)) [
  | inl t ↦ let same : y ≡ c = ground arith in among [] others (ap (λ a. a ∷ others) same)
  | inr n ↦ elim (find-Place f others x c (rw n at e)) [
    | at_end q ↦ at_end q
    | among before behind q ↦ among (y ∷ before) behind (ap (λ l. y ∷ l) q)
  ]
]

find-ne-zero :
    (h : ℕ → Thread) (f : ℕ → Bool) (p : ℕ) (xs : List ℕ) (q c : ℕ)
    → Chain h p xs q
    → find f xs ≡ some c
    → c ≢ 0
find-ne-zero h f p [] q c ch e = cc
find-ne-zero h f p (x ∷ xs) q c ch e = elim (Bool-cases (f x)) [
  | inl y ↦ let same : x ≡ c = ground arith in λ z. ch.1 (same ∙ z)
  | inr n ↦ find-ne-zero h f (h x).next xs q c ch.2 (rw n at e)
]

-- The threads of two rings are the same.
abbrev pub SameThreads : Threads → List ℕ → Threads → List ℕ → Type 0
SameThreads s others t ring =
    (a : ℕ) → count a (ring ++ t.current ∷ []) ≡ count a (others ++ s.current ∷ [])

pub record Switched (s : Threads) (others : List ℕ) (t : Threads) : Type 0 where
  pub ring : List ℕ
  pub is_ring : IsRing t ring
  pub same : SameThreads s others t ring

switched-Place :
    (s : Threads) (regs : Regs) (others : List ℕ) (c : ℕ)
    → IsRing s others
    → Place others s.current c
    → Switched s others (switched s regs c)
switched-Place s regs others c ring (at_end e) = record {
  ring = others;
  is_ring =
      let g = (switched s regs c).heap in
      subst (λ t. IsRing (record s { heap = g; current = t }) others) (sym e)
        (IsRing-frame s g others (switched-next s regs c) ring);
  same = λ a. rw e;
}
switched-Place s regs others c ring (among before behind e) = record {
  ring = behind ++ s.current ∷ before;
  is_ring =
      IsRing-rotate s (switched s regs c).heap before c behind (switched-next s regs c)
        (subst (IsRing s) e ring);
  same = λ a. rw e (omega (arith, count-swap a c s.current before behind));
}

module _ {s : Threads} {others : List ℕ} (fuel : ℕ) (regs : Regs) (ring : IsRing s others)
    (enough : length others < fuel) where
  found_in_saved :
      (o : Option ℕ)
      → find (eligible s) (others ++ s.current ∷ []) ≡ o
      → schedule_thread fuel (saved s regs) ≡ chosen (saved s regs) o
  found_in_saved o e =
      schedule_eligible fuel (IsRing-frame s (saved s regs).heap others (saved-next s regs) ring)
        enough
      ∙ ap (λ (f : ℕ → Bool). chosen (saved s regs) (find f (others ++ s.current ∷ [])))
          (fun_ext (saved-eligible s regs))
      ∙ ap (chosen (saved s regs)) e

  switches :
      (c : ℕ)
      → find (eligible s) (others ++ s.current ∷ []) ≡ some c
      → thread_switch fuel s regs ≡ some (switched s regs c, loaded s regs c)
  unfolding thread_switch
  switches c e =
      let ne = find-ne-zero s.heap (eligible s) _ (others ++ s.current ∷ []) _ c ring.closed e in
      let n : (c == 0) ≡ false = ground arith in rw (found_in_saved (some c) e, thread_switch, n)

  -- thread_switch saves the registers of the current thread, makes current the scheduler's choice
  -- and loads its registers; the threads of the ring stay the same.
  pub thread_switch_lem :
      (c : ℕ)
      → find (eligible s) (others ++ s.current ∷ []) ≡ some c
      → (thread_switch fuel s regs ≡ some (switched s regs c, loaded s regs c))
        × Switched s others (switched s regs c)
  thread_switch_lem c e = (
    switches c e,
    switched-Place s regs others c ring (find-Place (eligible s) others s.current c e),
  )

  -- With no thread that may run, thread_switch does not return.
  pub thread_switch_hangs :
      find (eligible s) (others ++ s.current ∷ []) ≡ none → thread_switch fuel s regs ≡ none
  unfolding thread_switch
  thread_switch_hangs e = rw (found_in_saved none e, thread_switch)
