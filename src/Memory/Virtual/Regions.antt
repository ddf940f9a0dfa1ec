-- ===== src/Memory/Virtual/Regions.antt =====
-- The regions of the records of virtual_block in arch/ia32/memory.c.
use rjk.Base.{
  ℕ, ◌+◌, ◌*◌, ◌≤◌, ◌≡◌, ◌⊎◌, inl, inr, Option, none, some, List, [], ◌∷◌, ◌==◌, leb, arith, All,
  Bool-cases, leb→le, ==_iff,
}
use rjk.Memory.Virtual.{VmPage}
use rjk.Memory.Virtual.Allocate.{take_free}
use rjk.Memory.Virtual.Unallocate.{take_used}

-- Behind each region there is a page that no region has.
abbrev pub Before : VmPage → VmPage → Type 0
Before p q = p.page + (p.count + 1) * 4096 ≤ q.page

abbrev pub Apart : VmPage → VmPage → Type 0
Apart p q = Before p q ⊎ Before q p

abbrev pub Below : ℕ → VmPage → Type 0
Below address p = p.page + (p.count + 1) * 4096 ≤ address

abbrev pub Pairwise : List VmPage → Type 0
Pairwise [] = Unit {0}
Pairwise (p ∷ ps) = All (Apart p) ps × Pairwise ps

-- The regions of two lists of records.
pub record Disjoint (ps qs : List VmPage) : Type 0 where
  pub first : Pairwise ps
  pub second : Pairwise qs
  pub cross : All (λ p. All (Apart p) qs) ps

-- A record unlinked from a list.
pub data Unlinked : VmPage → List VmPage → List VmPage → Type 0 where
  here : {p : VmPage} {ps : List VmPage} → Unlinked p (p ∷ ps) ps
  there : {p q : VmPage} {ps qs : List VmPage} → Unlinked p ps qs → Unlinked p (q ∷ ps) (q ∷ qs)

Apart-sym : (p q : VmPage) → Apart p q → Apart q p
Apart-sym p q (inl h) = inr h
Apart-sym p q (inr h) = inl h

pub Unlinked-All :
    (P : VmPage → Type 0) {p : VmPage} {ps rest : List VmPage}
    → Unlinked p ps rest
    → All P ps
    → P p × All P rest
Unlinked-All P here a = a
Unlinked-All P (there u) (h, a) = let (b, c) = Unlinked-All P u a in (b, (h, c))

Unlinked-Pairwise :
    {p : VmPage} {ps rest : List VmPage}
    → Unlinked p ps rest
    → Pairwise ps
    → All (Apart p) rest × Pairwise rest
Unlinked-Pairwise here w = w
Unlinked-Pairwise {p} (there {q = q} u) (a, w) =
    let (b, c) = Unlinked-Pairwise u w in
    let (d, e) = Unlinked-All (Apart q) u a in ((Apart-sym q p d, b), (e, c))

cross-cons :
    (p : VmPage) (qs rest : List VmPage)
    → All (Apart p) rest
    → All (λ q. All (Apart q) qs) rest
    → All (λ q. All (Apart q) (p ∷ qs)) rest
cross-cons p qs [] a c = tt
cross-cons p qs (q ∷ rest) (h, a) (k, c) = ((Apart-sym p q h, k), cross-cons p qs rest a c)

-- A record that goes from one list to the front of the other leaves the regions disjoint.
pub move-Disjoint :
    {p : VmPage} {ps qs rest : List VmPage}
    → Unlinked p ps rest
    → Disjoint ps qs
    → Disjoint rest (p ∷ qs)
move-Disjoint {p} {ps} {qs} {rest} u d =
    let (a, w) = Unlinked-Pairwise u d.first in
    let (k, c) = Unlinked-All _ u d.cross in
    record { first = w; second = (k, d.second); cross = cross-cons p qs rest a c }

none-cross : (ps : List VmPage) → All (λ p. All (Apart p) []) ps
none-cross [] = tt
none-cross (p ∷ ps) = (tt, none-cross ps)

All-head :
    (p : VmPage) (qs ps : List VmPage) → All (λ q. All (Apart q) (p ∷ qs)) ps → All (Apart p) ps
All-head p qs [] c = tt
All-head p qs (q ∷ ps) ((h, _), c) = (Apart-sym q p h, All-head p qs ps c)

All-tail :
    (p : VmPage) (qs ps : List VmPage)
    → All (λ q. All (Apart q) (p ∷ qs)) ps
    → All (λ q. All (Apart q) qs) ps
All-tail p qs [] c = tt
All-tail p qs (q ∷ ps) ((_, k), c) = (k, All-tail p qs ps c)

transpose : (ps qs : List VmPage) → All (λ p. All (Apart p) qs) ps → All (λ q. All (Apart q) ps) qs
transpose ps [] c = tt
transpose ps (q ∷ qs) c = (All-head q qs ps c, transpose ps qs (All-tail q qs ps c))

pub Disjoint-sym : {ps qs : List VmPage} → Disjoint ps qs → Disjoint qs ps
Disjoint-sym {ps} {qs} d = record {
  first = d.second;
  second = d.first;
  cross = transpose ps qs d.cross;
}

pub Disjoint-tail : {ps qs : List VmPage} {q : VmPage} → Disjoint ps (q ∷ qs) → Disjoint ps qs
Disjoint-tail {ps} {qs} {q} d = record {
  first = d.first;
  second = d.second.1;
  cross = All-tail q qs ps d.cross;
}

-- A region behind all others.
Below-Apart : (p : VmPage) (ps : List VmPage) → All (Below p.page) ps → All (Apart p) ps
Below-Apart p [] b = tt
Below-Apart p (q ∷ ps) (h, b) = (inr h, Below-Apart p ps b)

pub fresh-Disjoint :
    {ps qs : List VmPage} (p : VmPage)
    → Disjoint ps qs
    → All (Below p.page) ps
    → All (Below p.page) qs
    → Disjoint ps (p ∷ qs)
fresh-Disjoint {ps} {qs} p d a b = record {
  first = d.first;
  second = (Below-Apart p qs b, d.second);
  cross = cross-cons p qs ps (Below-Apart p ps a) d.cross;
}

pub Below-le : {a b : ℕ} (ps : List VmPage) → a ≤ b → All (Below a) ps → All (Below b) ps
Below-le [] h all = tt
Below-le (p ∷ ps) h all = (omega arith, Below-le ps h all.1)

-- What take_free and take_used find.
abbrev pub Found : (VmPage → Type 0) → List VmPage → Option (VmPage × List VmPage) → Type 0
Found P ps none = All (λ p. P p → ⊥) ps
Found P ps (some (p, rest)) = P p × Unlinked p ps rest

Found-cons :
    (P : VmPage → Type 0) (q : VmPage) (ps : List VmPage) (r : Option (VmPage × List VmPage))
    → (P q → ⊥)
    → Found P ps r
    → Found P (q ∷ ps) (elim r as (λ _. Option (VmPage × List VmPage)) [
      | none ↦ none
      | some (p, rest) ↦ some (p, q ∷ rest)
    ])
Found-cons P q ps none n f = (n, f)
Found-cons P q ps (some (p, rest)) n f = (f.0, there f.1)

pub take_free-Found :
    (count : ℕ) (ps : List VmPage) → Found (λ p. count ≤ p.count) ps (take_free count ps)
unfolding take_free
take_free-Found count [] = tt
take_free-Found count (p ∷ ps) = elim (Bool-cases (leb count p.count)) [
  | inl e ↦ rw e (leb→le count p.count e, here)
  | inr e ↦ rw e (
      Found-cons (λ p. count ≤ p.count) p ps (take_free count ps) (λ h. ground arith)
        (take_free-Found count ps))
]

pub take_used-Found :
    (pointer : ℕ) (ps : List VmPage) → Found (λ p. p.page ≡ pointer) ps (take_used pointer ps)
unfolding take_used
take_used-Found pointer [] = tt
take_used-Found pointer (p ∷ ps) = elim (Bool-cases (p.page == pointer)) [
  | inl e ↦ rw e ((==_iff p.page pointer).0 e, here)
  | inr e ↦ rw e (
      Found-cons (λ p. p.page ≡ pointer) p ps (take_used pointer ps) (λ h. ground (arith, h))
        (take_used-Found pointer ps))
]
