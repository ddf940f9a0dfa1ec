-- ===== src/Memory/Pages.antt =====
-- What get_free_pages of arch/ia32/memory.c answers and marks.
use rjk.Base.{
  ℕ, zero, suc, ◌+◌, ◌-◌, ◌*◌, ◌/◌, ◌%◌, ◌^◌, ◌<◌, ◌≤◌, ◌≡◌, ◌≢◌, refl, true, false, Option, none,
  some, ◌==◌, arith, Bool-cases, inl, inr, test_bit, u32, update, ◌⊎◌, ◌↔◌, ap, sym, update_self,
  update_ne, ==_iff, ℕ_discrete,
}
use mathlib.Core.Path.{subst}
use rjk.Memory.{
  Memory, Zone, Run, found, open_run, is_available, scan_zone, table_word, linear_allocated,
  linear_allocated_bit, linear_available_bit, take_run, zone_loop, get_free_pages, directory_entry,
}
use rjk.Memory.Scan.{IsAvailable, IsFound, IsOpen, InZone, scan_zone-IsFound, scan_zone-open}

-- A free page: bit 8 of its directory entry says that its table is there, and bit 9 of its entry in that
-- table that it is available.
abbrev pub IsFree : Memory → (k j : ℕ) → Type 0
IsFree m k j =
    let entry = m.words (m.linear_directory / 4 + k) in
    (entry / 256 % 2 ≡ 1) × (m.words (entry / 4096 * 1024 + j) / 512 % 2 ≡ 1) × (j < 1024)

bit8 : (w : ℕ) → (test_bit w linear_allocated_bit ≡ true) ↔ (w / 256 % 2 ≡ 1)
unfolding test_bit
bit8 w = (λ h. ground (arith, h), λ h. ground (arith, h))

bit9 : (w : ℕ) → (test_bit w linear_available_bit ≡ true) ↔ (w / 512 % 2 ≡ 1)
unfolding test_bit
bit9 w = (λ h. ground (arith, h), λ h. ground (arith, h))

IsFree-IsAvailable : (m : Memory) (k j : ℕ) → IsAvailable m k j ↔ IsFree m k j
unfolding is_available
IsFree-IsAvailable m k j = (
  λ (there, free, in_table). ((bit8 _).0 there, (bit9 _).0 free, in_table),
  λ (there, free, in_table). ((bit8 _).1 there, (bit9 _).1 free, in_table),
)

-- The outcome of a successful call: the last page of the run, a free one, was marked as allocated, no
-- other word of memory was written, the address is that of a free page, of the same one for a run of one,
-- and the zone goes on behind the run.
pub record Taken (m : Memory) (count : ℕ) (result : Option (ℕ × Memory)) : Type 0 where
  pub address : ℕ
  pub after : Memory
  pub i1 : ℕ
  pub i2 : ℕ
  pub zone : ℕ
  pub returns : result ≡ some (address, after)
  pub was_free : IsFree m i1 i2
  pub marked :
      after.words ≡ update m.words (m.words (m.linear_directory / 4 + i1) / 4096 * 1024 + i2) 256
  pub goes_on : (after.zones zone).next ≡ u32 (address + count * 4096)
  pub first_free : (k : ℕ) × (j : ℕ) × IsFree m k j × (address ≡ k * 1024 * 4096 + j * 4096)
  pub one_page : count ≡ 1 → address ≡ i1 * 1024 * 4096 + i2 * 4096
  pub same_directory : after.linear_directory ≡ m.linear_directory

-- No zone from `zone` on, of those left, has a free page.
abbrev pub Exhausted : Memory → (rounds zone : ℕ) → Type 0
Exhausted m rounds zone =
    (q k j : ℕ)
    → zone ≤ q
    → q < zone + rounds
    → (m.zones q).next ≢ 0
    → InZone m (m.zones q) k j
    → is_available m k j ≡ false

data Loop (m : Memory) (rounds count zone : ℕ) (result : Option (ℕ × Memory)) : Type 0 where
  taken : Taken m count result → Loop m rounds count zone result
  hangs : result ≡ none → (count ≡ 1 → Exhausted m rounds zone) → Loop m rounds count zone result

-- One zone more: it is skipped, or has no free page.
Loop-suc :
    (m : Memory) (rounds count zone : ℕ) (r : Option (ℕ × Memory))
    → Loop m rounds count (zone + 1) r
    → (count ≡ 1
        → (m.zones zone).next ≢ 0
        → (k j : ℕ) → InZone m (m.zones zone) k j
        → is_available m k j ≡ false)
    → Loop m (suc rounds) count zone r
Loop-suc m rounds count zone r (taken t) this = taken t
Loop-suc m rounds count zone r (hangs e none_free) this = hangs e (λ one q k j a b ne v.
    elim (ℕ_discrete zone q) [
      | yes same ↦
          this one (λ z. ne (subst (λ t. (m.zones t).next ≡ 0) same z)) k j
            (subst (λ t. InZone m (m.zones t) k j) (sym same) v)
      | no other ↦ none_free one q k j (omega arith) (omega arith) ne v
    ])

take_run-Taken :
    (m : Memory) (count zone address i1 i2 : ℕ)
    → IsFound m count (found address i1 i2)
    → Taken m count (some (take_run m zone count address i1 i2))
unfolding take_run
take_run-Taken m count zone address i1 i2 f = record {
  address = address;
  after = (take_run m zone count address i1 i2).1;
  i1 = i1;
  i2 = i2;
  zone = zone;
  returns = refl;
  was_free = (IsFree-IsAvailable m i1 i2).0 f.0;
  marked = refl;
  goes_on = ap (λ (z : Zone). z.next) (update_self m.zones zone _);
  first_free =
      let (k, j, free, at) = f.1 in (k, j, (IsFree-IsAvailable m k j).0 free, omega (arith, at));
  one_page = λ one. omega (arith, f.2 one);
  same_directory = refl;
}

zone_loop-Loop :
    (m : Memory) (rounds count zone : ℕ) → Loop m rounds count zone (zone_loop rounds m count zone)
unfolding zone_loop
zone_loop-Loop m zero count zone = hangs refl (λ one q k j a b. absurd (omega arith))
zone_loop-Loop m (suc rounds) count zone =
    let rest = zone_loop-Loop m rounds count (zone + 1) in
    elim (Bool-cases ((m.zones zone).next == 0)) [
      | inl y ↦
          rw y (Loop-suc m rounds count zone _ rest (λ one ne. absurd (ne ((==_iff _ 0).0 y))))
      | inr n ↦ rw n (
          go (scan_zone m (m.zones zone) count) (scan_zone-IsFound m (m.zones zone) count)
            (λ one o.
              scan_zone-open m (m.zones zone)
                (subst (λ t. IsOpen (scan_zone m (m.zones zone) t)) one o))
            rest)
    ]
  where
    go :
        (r : Run)
        → IsFound m count r
        → (count ≡ 1
            → IsOpen r
            → (k j : ℕ) → InZone m (m.zones zone) k j
            → is_available m k j ≡ false)
        → Loop m rounds count (zone + 1) (zone_loop rounds m count (zone + 1))
        → Loop m (suc rounds) count zone (elim r [
          | found address i1 i2 ↦ some (take_run m zone count address i1 i2)
          | open_run c address ↦ zone_loop rounds m count (zone + 1)
        ])
    go (found address i1 i2) f none_free rest = taken (take_run-Taken m count zone address i1 i2 f)
    go (open_run c address) f none_free rest =
        Loop-suc m rounds count zone _ rest (λ one ne. none_free one tt)

search_lem :
    (m : Memory) (count zone : ℕ) {r : Option (ℕ × Memory)}
    → Loop m (3 - zone) count zone r
    → Taken m count r ⊎ ((r ≡ none) × (count ≡ 1 → Exhausted m (3 - zone) zone))
search_lem m count zone (taken t) = inl t
search_lem m count zone (hangs e none_free) = inr (e, none_free)

-- No zone from `zone` on that has pages has a free one, from its start to the end of the table of its end.
abbrev pub NoneFree : Memory → (zone : ℕ) → Type 0
NoneFree m zone =
    (q k j : ℕ)
    → zone ≤ q
    → q < 3
    → (m.zones q).next ≢ 0
    → (m.zones q).start / 2 ^ 22 ≤ k
    → k ≤ (m.zones q).end / 2 ^ 22
    → (k ≡ (m.zones q).start / 2 ^ 22 → (m.zones q).start / 2 ^ 12 % 2 ^ 10 ≤ j)
    → ¬ (IsFree m k j)

-- When get_free_pages does not return on a call for a single page, no page of a zone that it may use
-- (from the one asked for to the last, those that have pages) is free.
pub get_free_pages_exhausted :
    (m : Memory) (zone : ℕ)
    → get_free_pages m 1 zone ≡ none
    → (q k j : ℕ) → zone ≤ q
    → q < 3
    → (m.zones q).next ≢ 0
    → InZone m (m.zones q) k j
    → is_available m k j ≡ false
unfolding get_free_pages
get_free_pages_exhausted m zone e q k j a b ne v =
    elim (search_lem m 1 zone (zone_loop-Loop m (3 - zone) 1 zone)) [
      | inl t ↦ absurd (ground (arith, t.returns, e))
      | inr n ↦ n.1 refl q k j a (omega arith) ne v
    ]

-- Where the marked word is not one of the directory, for the tables of the pages named, exactly one page stops being free,
-- whatever the count: it cannot be answered again, and every other page is as free as it was, the
-- other pages of a longer run included.
pub taken_one_page :
    (m : Memory) (count zone : ℕ) (t : Taken m count (get_free_pages m count zone))
    → m.linear_directory / 4 + t.i1 ≢ table_word m t.i1 t.i2
    → (k j : ℕ) → m.linear_directory / 4 + k ≢ table_word m t.i1 t.i2
    → table_word m k j ≢ table_word m t.i1 t.i2
    → (is_available t.after t.i1 t.i2 ≡ false) × (is_available t.after k j ≡ is_available m k j)
unfolding is_available
taken_one_page m count zone t apart k j apart_k ne = (
  rw (word_at t.i1 t.i2 apart, update_self m.words (table_word m t.i1 t.i2) linear_allocated)
      (unfold test_bit in refl),
  rw (word_at k j apart_k, update_ne m.words _ (table_word m k j) linear_allocated ne),
)
  where
    entry :
        (k : ℕ)
        → m.linear_directory / 4 + k ≢ table_word m t.i1 t.i2
        → directory_entry t.after k ≡ directory_entry m k
    entry k apart =
        rw (t.marked, t.same_directory)
          (update_ne m.words (table_word m t.i1 t.i2) (m.linear_directory / 4 + k) linear_allocated
            apart)

    word_at :
        (k j : ℕ)
        → m.linear_directory / 4 + k ≢ table_word m t.i1 t.i2
        → t.after.words (table_word t.after k j)
          ≡ update m.words (table_word m t.i1 t.i2) linear_allocated (table_word m k j)
    word_at k j apart = rw (entry k apart, t.marked)
