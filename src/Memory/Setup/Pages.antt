-- ===== src/Memory/Setup/Pages.antt =====
-- That the scan of the DMA zone finds the page that the zone goes on with, when it is available, in the
-- layout that kmemory_linear_setup of arch/ia32/memory.c builds.
use mathlib.Core.Path.{subst}
use rjk.Base.{
  ℕ, suc, ◌+◌, ◌-◌, ◌*◌, ◌/◌, ◌%◌, ◌<◌, ◌≤◌, ◌≡◌, ap, ◌∙◌, true, arith, test_bit, test_bit-pow,
}
use rjk.Memory.{
  Memory, Zone, found, is_available, scan_zone, linear_allocated_bit, table_word, directory_index,
  table_index, directory_entry, page_address,
}
use rjk.Memory.Setup.Layout.{Layout, page_word}
use rjk.Memory.Setup.Taken.{scan_table_first, scan_table_pair, scan_zone_found}

pub entry_bit : (a : ℕ) → a % 4096 ≡ 0 → test_bit (a + 256) linear_allocated_bit ≡ true
entry_bit a h = ground (arith, test_bit-pow (a + 256) 8)

module _ (before : ℕ → ℕ) (d n lo hi : ℕ) (m : Memory) (l : Layout before d n lo hi m) where
  pub page_table_word : (p : ℕ) → p / 1024 < n → table_word m (p / 1024) (p % 1024) ≡ page_word d p
  page_table_word p lt = rw (l.directory, l.entries (p / 1024) lt) (omega (arith, l.aligned))

  page_available :
      (p : ℕ) → lo ≤ p → p < hi → p / 1024 < n → is_available m (p / 1024) (p % 1024) ≡ true
  unfolding is_available
  page_available p a b lt = rw (page_table_word p lt) (l.available p a b)

  directory_there : (i : ℕ) → i < n → test_bit (directory_entry m i) linear_allocated_bit ≡ true
  directory_there i lt =
      rw (l.directory, l.entries i lt) (entry_bit (d + (i + 1) * 4096) (omega (arith, l.aligned)))

  module _ (z : Zone) (next : z.next ≡ lo * 4096) (room : lo * 4096 ≤ z.end)
      (inside : lo / 1024 < n) (free : lo < hi) where
    at_table : directory_index z.next ≡ lo / 1024
    at_table = omega (arith, next)

    at_entry : table_index z.next ≡ lo % 1024
    at_entry = omega (arith, next)

    pub one_found : scan_zone m z 1 ≡ found (lo * 4096) (lo / 1024) (lo % 1024)
    one_found =
        let page : page_address (lo / 1024) (lo % 1024) ≡ lo * 4096 = omega arith in
        let left : 1024 - lo % 1024 ≡ suc (1023 - lo % 1024) = omega arith in
        scan_zone_found m z 1 (lo * 4096) (lo / 1024) (lo % 1024)
          (rw at_table (directory_there (lo / 1024) inside)) (omega (arith, next, room))
          (rw (at_entry, at_table, left)
            (scan_table_first (1023 - lo % 1024) m (lo / 1024) (lo % 1024)
                (page_available lo (omega arith) free inside)
              ∙ ap (λ (a : ℕ). found a (lo / 1024) (lo % 1024)) page))

    pub two_found :
        lo + 1 < hi
        → lo % 1024 < 1023
        → scan_zone m z 2 ≡ found (lo * 4096) (lo / 1024) (lo % 1024 + 1)
    two_found free2 same =
        let page : page_address (lo / 1024) (lo % 1024) ≡ lo * 4096 = omega arith in
        let left : 1024 - lo % 1024 ≡ suc (suc (1022 - lo % 1024)) = omega arith in
        let table : (lo + 1) / 1024 ≡ lo / 1024 = omega arith in
        let entry : (lo + 1) % 1024 ≡ lo % 1024 + 1 = omega arith in
        let second : is_available m (lo / 1024) (lo % 1024 + 1) ≡ true =
          subst (λ i. is_available m i (lo % 1024 + 1) ≡ true) table
            (subst (λ j. is_available m ((lo + 1) / 1024) j ≡ true) entry
              (page_available (lo + 1) (omega arith) free2 (omega arith))) in
        scan_zone_found m z 2 (lo * 4096) (lo / 1024) (lo % 1024 + 1)
          (rw at_table (directory_there (lo / 1024) inside)) (omega (arith, next, room))
          (rw (at_entry, at_table, left)
            (scan_table_pair (1022 - lo % 1024) m (lo / 1024) (lo % 1024)
                (page_available lo (omega arith) free inside) second
              ∙ ap (λ (a : ℕ). found a (lo / 1024) (lo % 1024 + 1)) page))
