-- ===== src/Memory/Setup/Taken.antt =====
-- That the pages which kmemory_linear_setup of arch/ia32/memory.c takes for itself are the first ones
-- behind the tables.
use rjk.Base.{
  ℕ, suc, ◌+◌, ◌-◌, ◌*◌, ◌/◌, ◌%◌, ◌^◌, ◌<◌, ◌≤◌, ◌≡◌, ◌≢◌, refl, ap, ◌∙◌, true, false, some, ◌==◌,
  u32, arith, update_ne, update_self, test_bit, Bool-cases, inl, inr,
}
use rjk.Memory.{
  Memory, Zone, found, is_available, scan_table, scan_entry, scan_directory, scan_zone, take_run,
  zone_loop, get_free_pages, linear_allocated_bit, linear_allocated, table_word, directory_index,
  table_index, directory_entry, page_address,
}
use rjk.Memory.Virtual.{clear_pages}
use rjk.Memory.Virtual.Table.{within, clear_pages-words}
use rjk.Memory.Setup.{setup_pages}
use rjk.Memory.Setup.Keep.{clear_pages-directory}
use mathlib.Core.Path.{subst}
use rjk.Memory.Setup.Marked.{Marks, among, linear_block-Marks}
use rjk.Memory.Setup.Layout.{Layout, update-Layout, page_word, linear_block-Kept}

pub scan_table_first :
    (r : ℕ) (m : Memory) (i1 i2 : ℕ)
    → is_available m i1 i2 ≡ true
    → scan_table (suc r) m 1 i1 i2 0 0 ≡ found (page_address i1 i2) i1 i2
unfolding scan_table
scan_table_first r m i1 i2 e = rw e refl

pub scan_table_pair :
    (r : ℕ) (m : Memory) (i1 i2 : ℕ)
    → is_available m i1 i2 ≡ true
    → is_available m i1 (i2 + 1) ≡ true
    → scan_table (suc (suc r)) m 2 i1 i2 0 0 ≡ found (page_address i1 i2) i1 (i2 + 1)
unfolding scan_table
scan_table_pair r m i1 i2 e f = rw (e, f) refl

pub scan_zone_found :
    (m : Memory) (z : Zone) (count a j1 j2 : ℕ)
    → test_bit (directory_entry m (directory_index z.next)) linear_allocated_bit ≡ true
    → directory_index z.next ≤ directory_index z.end
    → scan_table
        (1024 - table_index z.next)
        m
        count
        (directory_index z.next)
        (table_index z.next)
        0
        0
      ≡ found a j1 j2
    → scan_zone m z count ≡ found a j1 j2
unfolding scan_zone scan_directory scan_entry
scan_zone_found m z count a j1 j2 there le e =
    let rounds : directory_index z.end + 1 - directory_index z.next
        ≡ suc (directory_index z.end - directory_index z.next) =
      omega arith in
    let entry : scan_entry m count (directory_index z.next) (table_index z.next) 0 0
        ≡ found a j1 j2 =
      rw (there, scan_entry) e in
    let scan =
      λ (k : ℕ). scan_directory k m count (directory_index z.next) (table_index z.next) 0 0 in
    let one : scan (suc (directory_index z.end - directory_index z.next)) ≡ found a j1 j2 =
      rw (entry, scan_directory) refl in
    rw (ap scan rounds ∙ one, scan_zone) refl

get_free_pages_found :
    (m : Memory) (count a j1 j2 : ℕ)
    → (m.zones 1).next ≢ 0
    → scan_zone m (m.zones 1) count ≡ found a j1 j2
    → get_free_pages m count 1 ≡ some (take_run m 1 count a j1 j2)
unfolding get_free_pages zone_loop
get_free_pages_found m count a j1 j2 ne e =
    let nonzero : ((m.zones 1).next == 0) ≡ false = ground (arith, ne) in rw nonzero (rw e refl)

-- The pages from `first` on, `count` of them, taken: the memory behind the call, their entries and the zone.
pub record TakenAt (before : ℕ → ℕ) (d n first count hi address : ℕ) (m t : Memory) : Type 0 where
  pub layout : Layout before d n (first + count) hi t
  pub marks : Marks d n first count m t
  pub next : (t.zones 1).next ≡ address
  pub end : (t.zones 1).end ≡ (m.zones 1).end

clear_pages-zones : (m : Memory) (address count : ℕ) → (clear_pages m address count).zones ≡ m.zones
unfolding clear_pages
clear_pages-zones m address count = refl

module _ (before : ℕ → ℕ) (d n lo hi : ℕ) where
  clear-Layout :
      (m : Memory) (address count : ℕ)
      → Layout before d n lo hi m
      → hi ≤ n * 1024
      → d + (n + 1) * 4096 ≤ address
      → address % 4096 ≡ 0
      → address + count * 4096 < 2 ^ 32
      → Layout before d n lo hi (clear_pages m address count)
  clear-Layout m address count l inside behind aligned small =
      let cleared = clear_pages-words m address count (omega arith) small in
      let apart : (w : ℕ) → w < address / 4 → (clear_pages m address count).words w ≡ m.words w =
        λ w h.
          let out : within (address / 4) (count * 1024) w ≡ false = ground (arith, h) in
          cleared w ∙ rw out refl in
      update-Layout before d n lo lo hi m (clear_pages m address count) l
        (clear_pages-directory m address count)
        (λ w h. apart w (omega (arith, l.aligned, l.tables))) (omega arith)
        λ p a b. apart (page_word d p) (omega (arith, l.aligned))

  take-Layout :
      (m : Memory) (count i1 i2 address : ℕ)
      → Layout before d n lo hi m
      → 1 ≤ count
      → table_word m i1 i2 ≡ page_word d (lo + count - 1)
      → Layout before d n (lo + count) hi (take_run m 1 count address i1 i2).1
  unfolding take_run
  take-Layout m count i1 i2 address l pos at =
      let word = table_word m i1 i2 in
      update-Layout before d n lo (lo + count) hi m (take_run m 1 count address i1 i2).1 l refl
        (λ w h. update_ne m.words word w linear_allocated (omega (arith, at, l.tables)))
        (omega arith)
        λ p a b. update_ne m.words word (page_word d p) linear_allocated (omega (arith, at))

take_run-next :
    (m : Memory) (count address i1 i2 : ℕ)
    → ((take_run m 1 count address i1 i2).1.zones 1).next ≡ u32 (address + count * 4096)
unfolding take_run
take_run-next m count address i1 i2 =
    let zone : Zone = record (m.zones 1) { next = u32 (address + count * 4096) } in
    ap (λ (z : Zone). z.next) (update_self m.zones 1 zone)

take_run-end :
    (m : Memory) (count address i1 i2 : ℕ)
    → ((take_run m 1 count address i1 i2).1.zones 1).end ≡ (m.zones 1).end
unfolding take_run
take_run-end m count address i1 i2 =
    let zone : Zone = record (m.zones 1) { next = u32 (address + count * 4096) } in
    ap (λ (z : Zone). z.end) (update_self m.zones 1 zone)

-- The entries, when the pages are taken, cleared and marked.
taken-Marks :
    (before : ℕ → ℕ) (d n lo count hi : ℕ) (m t : Memory) (i1 i2 : ℕ)
    → Layout before d n lo hi m
    → 1 ≤ count
    → d + (n + 1) * 4096 ≤ lo * 4096
    → lo * 4096 + count * 4096 < 2 ^ 32
    → table_word m i1 i2 ≡ page_word d (lo + count - 1)
    → Marks d n lo count (clear_pages (take_run m 1 count (lo * 4096) i1 i2).1 (lo * 4096) count) t
    → Marks d n lo count m t
unfolding take_run
taken-Marks before d n lo count hi m t i1 i2 l pos behind small at marks p h =
    elim (Bool-cases (among lo count p)) [
      | inl e ↦ let word = marks p h in rw e (rw e at word)
      | inr e ↦
          let word = marks p h in
          let m1 = (take_run m 1 count (lo * 4096) i1 i2).1 in
          let out : within (lo * 4096 / 4) (count * 1024) (page_word d p) ≡ false =
            ground (arith, h, behind, l.aligned) in
          let uncleared =
            clear_pages-words m1 (lo * 4096) count (omega arith) small (page_word d p) in
          rw e (
            (rw e at word)
            ∙ uncleared
            ∙ rw out refl
            ∙ update_ne m.words (table_word m i1 i2) (page_word d p) linear_allocated
                (ground (arith, at, e)))
    ]

-- setup_pages, when the scan of the DMA zone finds its pages behind the tables.
pub setup_pages-TakenAt :
    (rounds count : ℕ) (before : ℕ → ℕ) (d n lo hi : ℕ) (m : Memory) (i1 i2 : ℕ)
    → Layout before d n lo hi m
    → 1 ≤ count
    → count < rounds
    → hi ≤ n * 1024
    → lo + count ≤ hi
    → d + (n + 1) * 4096 ≤ lo * 4096
    → hi * 4096 < 2 ^ 32
    → table_word m i1 i2 ≡ page_word d (lo + count - 1)
    → (m.zones 1).next ≢ 0
    → scan_zone m (m.zones 1) count ≡ found (lo * 4096) i1 i2
    → (t : Memory) × (setup_pages rounds m count ≡ some (lo * 4096, t))
      × TakenAt before d n lo count hi ((lo + count) * 4096) m t
unfolding setup_pages take_run
setup_pages-TakenAt rounds count before d n lo hi m i1 i2 l pos enough inside room behind small at
      ne scanned =
    let address = lo * 4096 in
    let got = get_free_pages_found m count address i1 i2 ne scanned in
    let m1 = (take_run m 1 count address i1 i2).1 in
    let l1 = take-Layout before d n lo hi m count i1 i2 address l pos at in
    let m2 = clear_pages m1 address count in
    let l2 =
      clear-Layout before d n (lo + count) hi m1 address count l1 inside behind (omega arith)
        (omega arith) in
    let (t, blocked, kept) =
      linear_block-Kept rounds count before d n (lo + count) (lo + count) hi m2 address l2 enough
        pos (omega arith) (omega arith) (omega arith) (omega arith) (omega arith) in
    let block_marks =
      linear_block-Marks rounds count before d n (lo + count) hi m2 address t l2 pos (omega arith)
        (omega arith) (omega arith) (omega arith) blocked in
    let page : address / 4096 ≡ lo = omega arith in
    let zones : t.zones ≡ m1.zones = kept.zones ∙ clear_pages-zones m1 address count in
    (
      t,
      rw (got, setup_pages) (rw (blocked) refl),
      record {
        layout = kept.layout;
        marks =
            taken-Marks before d n lo count hi m t i1 i2 l pos behind (omega arith) at
              (subst (λ f. Marks d n f count m2 t) page block_marks);
        next =
            ap (λ (f : ℕ → Zone). (f 1).next) zones
            ∙ take_run-next m count address i1 i2
            ∙ omega arith;
        end = ap (λ (f : ℕ → Zone). (f 1).end) zones ∙ take_run-end m count address i1 i2;
      },
    )
