-- ===== src/Memory/Virtual/Invariant.antt =====
-- kmemory_virtual_page_allocate and kmemory_virtual_page_unallocate of arch/ia32/memory.c keep the regions
-- of all records apart.
use rjk.Base.{
  ℕ, ◌+◌, ◌-◌, ◌*◌, ◌^◌, ◌<◌, ◌≤◌, ◌≡◌, ◌≢◌, refl, sym, ap, ◌∙◌, ◌⊎◌, inl, inr, Bool, true, false,
  Option, none, some, List, ◌∷◌, u32, arith, All,
}
use mathlib.Core.Path.{subst}
use rjk.Memory.{directory_index, table_index}
use rjk.Memory.Virtual.{VmPage, VmBlock, Space}
use rjk.Memory.Virtual.Allocate.{
  take_free, fresh_page, records_page, find_page, fill_directory, kmemory_virtual_page_allocate,
  assign_flags, link_used,
}
use rjk.Memory.Virtual.Unallocate.{take_used, clear_directory, kmemory_virtual_page_unallocate}
use rjk.Memory.Virtual.Regions.{
  Apart, Below, Disjoint, Unlinked, Found, take_free-Found, take_used-Found, move-Disjoint,
  Unlinked-All, Disjoint-sym, Disjoint-tail, fresh-Disjoint, Below-le,
}
use rjk.Memory.Virtual.Frame.{
  Same, Holds, At, records_page-Same, fill_directory-Same, clear_directory-Same,
}

-- The regions of the used and of the free records are disjoint, and below virtual_address.
pub record IsRegions (block : VmBlock) (address : ℕ) : Type 0 where
  pub disjoint : Disjoint block.free block.used
  pub free_below : All (Below address) block.free
  pub used_below : All (Below address) block.used

-- What find_page finds for a request: a record with as many pages, apart from all others.
abbrev Chosen : Space → ℕ → Option VmPage × Space → Type 0
Chosen s count (none, t) = Same s t
Chosen s count (some p, t) =
    (count ≤ p.count)
    × (t.virtual_block.used ≡ s.virtual_block.used)
    × Disjoint t.virtual_block.free (p ∷ t.virtual_block.used)
    × All (Below t.virtual_address) t.virtual_block.free
    × All (Below t.virtual_address) (p ∷ t.virtual_block.used)

pub Same-IsRegions :
    (s t : Space)
    → Same s t
    → IsRegions s.virtual_block s.virtual_address
    → IsRegions t.virtual_block t.virtual_address
Same-IsRegions s t (a, b, c) r = record {
  disjoint = rw (a, b) r.disjoint;
  free_below = rw (a, c) r.free_below;
  used_below = rw (b, c) r.used_below;
}

-- The records of a result with a pointer are still apart.
Chosen-Same :
    (s t : Space) (count : ℕ) (p : VmPage)
    → Chosen s count (some p, t)
    → (u : Space) → Same t u
    → IsRegions (link_used p u).virtual_block u.virtual_address
Chosen-Same s t count p (_, _, d, f, g) u (a, b, c) = record {
  disjoint = rw (a, b) d;
  free_below = rw (a, c) f;
  used_below =
      subst (λ a. All (Below a) (p ∷ u.virtual_block.used)) (sym c)
        (subst (λ l. All (Below t.virtual_address) (p ∷ l)) (sym b) g);
}

-- What an allocation answers: no page, or a region of enough pages that is apart from those in use, and
-- becomes one of them.
abbrev pub Allocated : Space → ℕ → ℕ × Space → Type 0
Allocated s count (pointer, t) =
    IsRegions t.virtual_block t.virtual_address
    × ((pointer ≡ 0)
        ⊎ ((p : VmPage) × (p.page ≡ pointer)
            × (count ≤ p.count)
            × All (Apart p) s.virtual_block.used
            × (t.virtual_block.used ≡ p ∷ s.virtual_block.used)))

module _ (rounds : ℕ) (s : Space) (count : ℕ)
    (regions : IsRegions s.virtual_block s.virtual_address)
    (room : s.virtual_address + (count + 1) * 4096 < 2 ^ 32) where
  fresh-Chosen :
      (t : Space) → Same s t → Chosen s count (some (fresh_page t count).0, (fresh_page t count).1)
  unfolding fresh_page
  fresh-Chosen t same =
      let r = Same-IsRegions s t same regions in
      let address : u32 (t.virtual_address + (count * 4096 + 4096))
          ≡ t.virtual_address + (count * 4096 + 4096) =
        omega (arith, same.2) in
      let p : VmPage = record { count = count; page = t.virtual_address } in
      (
        omega arith,
        same.1,
        fresh-Disjoint p r.disjoint r.free_below r.used_below,
        Below-le t.virtual_block.free (omega (arith, address)) r.free_below,
        (
          omega (arith, address),
          Below-le t.virtual_block.used (omega (arith, address)) r.used_below,
        ),
      )

  free-Chosen :
      (p : VmPage) (rest : List VmPage)
      → (count ≤ p.count) × Unlinked p s.virtual_block.free rest
      → Chosen s count (some p, record s { virtual_block = record s.virtual_block { free = rest } })
  free-Chosen p rest (enough, u) =
      let (b, f) = Unlinked-All (Below s.virtual_address) u regions.free_below in
      (enough, refl, move-Disjoint u regions.disjoint, f, (b, regions.used_below))

  records-Chosen :
      (o : Option (Bool × Space))
      → Holds (At s Bool) o
      → Holds (Chosen s count) (elim o as (λ _. Option (Option VmPage × Space)) [
        | none ↦ none
        | some (false, t) ↦ some (none, t)
        | some (true, t) ↦ some (some (fresh_page t count).0, (fresh_page t count).1)
      ])
  records-Chosen none h = tt
  records-Chosen (some (false, t)) h = h
  records-Chosen (some (true, t)) h = fresh-Chosen t h

  take-Chosen :
      (found : Option (VmPage × List VmPage)) (o : Option (Option VmPage × Space))
      → Found (λ p. count ≤ p.count) s.virtual_block.free found
      → Holds (Chosen s count) o
      → Holds (Chosen s count) (elim found as (λ _. Option (Option VmPage × Space)) [
        | none ↦ o
        | some (p, rest) ↦
            some (some p, record s { virtual_block = record s.virtual_block { free = rest } })
      ])
  take-Chosen none o f h = h
  take-Chosen (some (p, rest)) o f h = free-Chosen p rest f

  find_page-Chosen : Holds (Chosen s count) (find_page rounds s count)
  unfolding find_page
  find_page-Chosen =
      take-Chosen (take_free count s.virtual_block.free) _
        (take_free-Found count s.virtual_block.free)
        (records-Chosen (records_page rounds s) (records_page-Same rounds s))

  fill-Allocated :
      (p : VmPage) (t : Space)
      → Chosen s count (some p, t)
      → (o : Option (Bool × Space)) → Holds (At t Bool) o
      → Holds (Allocated s count) (elim o as (λ _. Option (ℕ × Space)) [
        | none ↦ none
        | some (false, u) ↦ some (0, u)
        | some (true, u) ↦ some (p.page, link_used p u)
      ])
  fill-Allocated p t c none h = tt
  fill-Allocated p t c (some (false, u)) h = (
    Same-IsRegions t u h
        (record { disjoint = Disjoint-tail c.2; free_below = c.3; used_below = c.4.1 }),
    inl refl,
  )
  fill-Allocated p t c (some (true, u)) h = (
    Chosen-Same s t count p c u h,
    inr (p, refl, c.0, rw (sym c.1) c.2.second.0, ap (λ l. p ∷ l) (h.1 ∙ c.1)),
  )

  Chosen-Allocated :
      (zeroed : Bool) (o : Option (Option VmPage × Space))
      → Holds (Chosen s count) o
      → Holds (Allocated s count) (elim o as (λ _. Option (ℕ × Space)) [
        | none ↦ none
        | some (none, t) ↦ some (0, t)
        | some (some p, t) ↦
            elim (fill_directory
              (1024 - directory_index p.page)
              rounds
              t
              (directory_index p.page)
              (table_index p.page)
              count
              (assign_flags zeroed)) [
                | none ↦ none
                | some (false, u) ↦ some (0, u)
                | some (true, u) ↦ some (p.page, link_used p u)
              ]
      ])
  Chosen-Allocated zeroed none h = tt
  Chosen-Allocated zeroed (some (none, t)) h = (Same-IsRegions s t h regions, inl refl)
  Chosen-Allocated zeroed (some (some p, t)) h =
      fill-Allocated p t h
        (fill_directory (1024 - directory_index p.page) rounds t (directory_index p.page)
          (table_index p.page) count (assign_flags zeroed))
        (fill_directory-Same (1024 - directory_index p.page) rounds t (directory_index p.page)
          (table_index p.page) count (assign_flags zeroed))

  -- When virtual_address has room for the region and a page behind it, an allocation that does not end in the
  -- endless loop of get_free_pages keeps the regions of all records disjoint and below
  -- virtual_address. It answers KNULL, or a region of at least as many pages as asked for that is apart, by one
  -- page at least, from every region in use, and is put in front of the used ones.
  pub kmemory_virtual_page_allocate-Allocated :
      (zeroed : Bool)
      → Holds (Allocated s count) (kmemory_virtual_page_allocate rounds s count zeroed)
  unfolding kmemory_virtual_page_allocate
  kmemory_virtual_page_allocate-Allocated zeroed =
      Chosen-Allocated zeroed (find_page rounds s count) find_page-Chosen

-- What an unallocation does to the records.
abbrev pub Unallocated : Space → ℕ → Space → Type 0
Unallocated s pointer t =
    IsRegions t.virtual_block t.virtual_address
    × (((t ≡ s) × All (λ p. p.page ≢ pointer) s.virtual_block.used)
        ⊎ ((p : VmPage) × (p.page ≡ pointer)
            × Unlinked p s.virtual_block.used t.virtual_block.used
            × (t.virtual_block.free ≡ p ∷ s.virtual_block.free)))

Unlinked-IsRegions :
    (s u : Space) (p : VmPage) (rest : List VmPage)
    → IsRegions s.virtual_block s.virtual_address
    → Unlinked p s.virtual_block.used rest
    → Same (record s { virtual_block = record s.virtual_block { used = rest } }) u
    → IsRegions (record u.virtual_block { free = p ∷ u.virtual_block.free }) u.virtual_address
Unlinked-IsRegions s u p rest r l (a, b, c) =
    let (q, f) = Unlinked-All (Below s.virtual_address) l r.used_below in
    record {
      disjoint = rw (a, b) (Disjoint-sym (move-Disjoint l (Disjoint-sym r.disjoint)));
      free_below =
          subst (λ a. All (Below a) (p ∷ u.virtual_block.free)) (sym c)
            (subst (λ l. All (Below s.virtual_address) (p ∷ l)) (sym a) (q, r.free_below));
      used_below = rw (b, c) f;
    }

Found-Unallocated :
    (s : Space) (pointer : ℕ)
    → IsRegions s.virtual_block s.virtual_address
    → (found : Option (VmPage × List VmPage))
    → Found (λ p. p.page ≡ pointer) s.virtual_block.used found
    → (t : VmPage → List VmPage → Space)
    → ((p : VmPage) (rest : List VmPage)
        → Same (record s { virtual_block = record s.virtual_block { used = rest } }) (t p rest))
    → Unallocated s pointer (elim found as (λ _. Space) [
      | none ↦ s
      | some (p, rest) ↦ record (t p rest) {
        virtual_block = record (t p rest).virtual_block {
          free = p ∷ (t p rest).virtual_block.free;
        };
      }
    ])
Found-Unallocated s pointer r none f t h = (r, inl (refl, f))
Found-Unallocated s pointer r (some (p, rest)) (e, l) t h = (
  Unlinked-IsRegions s (t p rest) p rest r l (h p rest),
  inr (
    p,
    e,
    subst (λ x. Unlinked p s.virtual_block.used x) (sym (h p rest).1) l,
    ap (λ x. p ∷ x) (h p rest).0,
  ),
)

-- Unallocating keeps the regions disjoint and below virtual_address. Either no used record has the
-- pointer and nothing at all changes, or one that has it goes from the used to the front of the free ones.
pub kmemory_virtual_page_unallocate-Unallocated :
    (s : Space) (pointer : ℕ)
    → IsRegions s.virtual_block s.virtual_address
    → Unallocated s pointer (kmemory_virtual_page_unallocate s pointer)
unfolding kmemory_virtual_page_unallocate
kmemory_virtual_page_unallocate-Unallocated s pointer r =
    Found-Unallocated s pointer r (take_used pointer s.virtual_block.used)
      (take_used-Found pointer s.virtual_block.used)
      (λ p rest.
        clear_directory (1024 - directory_index p.page)
          (record s { virtual_block = record s.virtual_block { used = rest } })
          (directory_index p.page) (table_index p.page) p.count)
      (λ p rest.
        clear_directory-Same (1024 - directory_index p.page)
          (record s { virtual_block = record s.virtual_block { used = rest } })
          (directory_index p.page) (table_index p.page) p.count)
