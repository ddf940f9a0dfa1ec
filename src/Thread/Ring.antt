-- ===== src/Thread/Ring.antt =====
-- The ring that the `next` pointers of arch/ia32/thread.c make.
use rjk.Base.{
  ℕ, ◌+◌, ◌≤◌, ◌<◌, ◌≡◌, ◌≢◌, refl, sym, List, [], ◌∷◌, ◌++◌, append_assoc, arith, ◌==◌,
  if◌then◌else◌,
}
use mathlib.Core.Path.{subst}
use rjk.Thread.{Thread, Threads}

-- From `p` the `next` pointers lead through `xs`, none of them null, to `q`.
abbrev pub Chain : (ℕ → Thread) → ℕ → List ℕ → ℕ → Type 0
Chain h p [] q = p ≡ q
Chain h p (x ∷ xs) q = (p ≡ x) × (x ≢ 0) × Chain h (h x).next xs q

abbrev pub count : ℕ → List ℕ → ℕ
count a [] = 0
count a (x ∷ xs) = (if x == a then 1 else 0) + count a xs

pub count-append :
    (p : ℕ) (ring behind : List ℕ) → count p (ring ++ behind) ≡ count p ring + count p behind
count-append p [] behind = omega arith
count-append p (q ∷ ring) behind = omega (arith, count-append p ring behind)

-- Behind the current thread come the others, each once, and then the current thread again.
pub record IsRing (s : Threads) (others : List ℕ) : Type 0 where
  pub closed :
      Chain s.heap (s.heap s.current).next (others ++ s.current ∷ []) (s.heap s.current).next
  pub distinct : (a : ℕ) → count a (others ++ s.current ∷ []) ≤ 1

pub Chain-append :
    (h : ℕ → Thread) (p : ℕ) (xs ys : List ℕ) (q r : ℕ)
    → Chain h p xs q
    → Chain h q ys r
    → Chain h p (xs ++ ys) r
Chain-append h p [] ys q r c d = subst (λ t. Chain h t ys r) (sym c) d
Chain-append h p (x ∷ xs) ys q r c d = (c.0, c.1, Chain-append h (h x).next xs ys q r c.2 d)

-- A chain through `x` splits behind it.
pub Chain-split :
    (h : ℕ → Thread) (p : ℕ) (xs : List ℕ) (x : ℕ) (ys : List ℕ) (r : ℕ)
    → Chain h p (xs ++ x ∷ ys) r
    → Chain h p (xs ++ x ∷ []) (h x).next × Chain h (h x).next ys r
Chain-split h p [] x ys r c = ((c.0, c.1, refl), c.2)
Chain-split h p (y ∷ xs) x ys r c =
    let (a, b) = Chain-split h (h y).next xs x ys r c.2 in ((c.0, c.1, a), b)

-- A change that spares the `next` pointers keeps every chain.
pub Chain-frame :
    (h g : ℕ → Thread) (p : ℕ) (xs : List ℕ) (q : ℕ)
    → ((a : ℕ) → (g a).next ≡ (h a).next)
    → Chain h p xs q
    → Chain g p xs q
Chain-frame h g p [] q same c = c
Chain-frame h g p (x ∷ xs) q same c = (
  c.0,
  c.1,
  subst (λ t. Chain g t xs q) (sym (same x)) (Chain-frame h g (h x).next xs q same c.2),
)

-- If the thread `x` at the end is given another successor, the chain leads there.
pub Chain-redirect :
    (h g : ℕ → Thread) (p : ℕ) (xs : List ℕ) (x q r : ℕ)
    → ((a : ℕ) → 0 < count a xs → (g a).next ≡ (h a).next)
    → (g x).next ≡ r
    → Chain h p (xs ++ x ∷ []) q
    → Chain g p (xs ++ x ∷ []) r
Chain-redirect h g p [] x q r same e c = (c.0, c.1, e)
Chain-redirect h g p (y ∷ xs) x q r same e c = (
  c.0,
  c.1,
  subst (λ t. Chain g t (xs ++ x ∷ []) r) (sym (same y (ground arith)))
      (Chain-redirect h g (h y).next xs x q r (λ a k. same a (ground arith)) e c.2),
)

-- Two arcs of a ring, in either order.
pub count-swap :
    (a c x : ℕ) (xs ys : List ℕ)
    → count a ((xs ++ c ∷ ys) ++ x ∷ []) ≡ count a ((ys ++ x ∷ xs) ++ c ∷ [])
count-swap a c x xs ys = omega (
  arith,
  count-append a (xs ++ c ∷ ys) (x ∷ []),
  count-append a xs (c ∷ ys),
  count-append a (ys ++ x ∷ xs) (c ∷ []),
  count-append a ys (x ∷ xs),
)

Chain-swap :
    (h : ℕ → Thread) (f c x : ℕ) (xs ys : List ℕ)
    → Chain h f ((xs ++ c ∷ ys) ++ x ∷ []) f
    → Chain h (h c).next ((ys ++ x ∷ xs) ++ c ∷ []) (h c).next
Chain-swap h f c x xs ys ch =
    let same : (xs ++ c ∷ ys) ++ x ∷ [] ≡ xs ++ c ∷ (ys ++ x ∷ []) = simp append_assoc in
    let (a, b) = Chain-split h f xs c (ys ++ x ∷ []) f (subst (λ l. Chain h f l f) same ch) in
    let flip : (ys ++ x ∷ []) ++ (xs ++ c ∷ []) ≡ (ys ++ x ∷ xs) ++ c ∷ [] = simp append_assoc in
    subst (λ l. Chain h (h c).next l (h c).next) flip
      (Chain-append h (h c).next (ys ++ x ∷ []) (xs ++ c ∷ []) f (h c).next b a)

-- The same ring, seen from another of its threads, when only other fields have changed.
pub IsRing-rotate :
    (s : Threads) (g : ℕ → Thread) (before : List ℕ) (c : ℕ) (behind : List ℕ)
    → ((a : ℕ) → (g a).next ≡ (s.heap a).next)
    → IsRing s (before ++ c ∷ behind)
    → IsRing (record s { heap = g; current = c }) (behind ++ s.current ∷ before)
IsRing-rotate s g before c behind same ring = record {
  closed =
      subst (λ f. Chain g f ((behind ++ s.current ∷ before) ++ c ∷ []) f) (sym (same c))
        (Chain-frame s.heap g _ ((behind ++ s.current ∷ before) ++ c ∷ []) _ same
          (Chain-swap s.heap _ c s.current before behind ring.closed));
  distinct = λ a. omega (arith, count-swap a c s.current before behind, ring.distinct a);
}

-- The same ring when only fields other than `next` have changed.
pub IsRing-frame :
    (s : Threads) (g : ℕ → Thread) (others : List ℕ)
    → ((a : ℕ) → (g a).next ≡ (s.heap a).next)
    → IsRing s others
    → IsRing (record s { heap = g }) others
IsRing-frame s g others same ring = record {
  closed =
      subst (λ f. Chain g f (others ++ s.current ∷ []) f) (sym (same s.current))
        (Chain-frame s.heap g _ (others ++ s.current ∷ []) _ same ring.closed);
  distinct = ring.distinct;
}

Chain-last : (h : ℕ → Thread) (p : ℕ) (xs : List ℕ) (x q : ℕ) → Chain h p (xs ++ x ∷ []) q → x ≢ 0
Chain-last h p [] x q c = c.1
Chain-last h p (y ∷ xs) x q c = Chain-last h (h y).next xs x q c.2

pub current_ne_zero : {s : Threads} {others : List ℕ} → IsRing s others → s.current ≢ 0
current_ne_zero {s} {others} ring = Chain-last s.heap _ others s.current _ ring.closed
