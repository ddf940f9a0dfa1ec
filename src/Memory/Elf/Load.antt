-- ===== src/Memory/Elf/Load.antt =====
-- The pages that read_elf of arch/ia32/memory.c takes for a segment.
use rjk.Base.{
  ℕ, zero, suc, ◌+◌, ◌-◌, ◌*◌, ◌%◌, ◌^◌, ◌<◌, ◌≤◌, ◌≡◌, refl, inl, inr, true, false, Option, none,
  ◌==◌, arith, Bool-cases, test_bit,
}
use rjk.Memory.{
  Memory, Zone, Run, found, open_run, is_available, scan_table, scan_entry, scan_directory,
  scan_zone, zone_loop, get_free_pages, directory_entry, linear_allocated_bit, directory_index,
  table_index,
}
use rjk.Memory.Virtual.{Space}
use rjk.Memory.Elf.{ProgramHeader, segment_start, segment_count, load_segment, is_load}

-- The pages of a segment with at least one byte, that ends in front of the last page of the address space,
-- hold all its bytes, and none of them is without one.
pub segment_count_lem :
    (p : ProgramHeader)
    → 1 ≤ p.p_memsz
    → p.p_vaddr + p.p_memsz ≤ 0xFFFFF000
    → (segment_start p ≤ p.p_vaddr)
      × (p.p_vaddr < segment_start p + 4096)
      × (p.p_vaddr + p.p_memsz ≤ segment_start p + segment_count p * 4096)
      × (segment_start p + segment_count p * 4096 < p.p_vaddr + p.p_memsz + 4096)
unfolding segment_start segment_count
segment_count_lem p one small = omega arith

-- A search that finds no run.
abbrev IsOpenRun : Run → Type 0
IsOpenRun (found a i1 i2) = ⊥
IsOpenRun (open_run c a) = Unit {0}

module _ (m : Memory) where
  scan_table-none : (rounds i1 i2 c a : ℕ) → IsOpenRun (scan_table rounds m 0 i1 i2 c a)
  unfolding scan_table
  scan_table-none zero i1 i2 c a = tt
  scan_table-none (suc rounds) i1 i2 c a =
      let never : (c + 1 == 0) ≡ false = ground arith in
      elim (Bool-cases (is_available m i1 i2)) [
        | inl e ↦ rw (e, never) (scan_table-none rounds i1 (i2 + 1) (c + 1) _)
        | inr e ↦ rw e (scan_table-none rounds i1 (i2 + 1) 0 0)
      ]

  scan_entry-none : (i1 i2 c a : ℕ) → IsOpenRun (scan_entry m 0 i1 i2 c a)
  unfolding scan_entry
  scan_entry-none i1 i2 c a =
      elim (Bool-cases (test_bit (directory_entry m i1) linear_allocated_bit)) [
        | inl e ↦ rw e (scan_table-none (1024 - i2) i1 i2 c a)
        | inr e ↦ rw e tt
      ]

  goes_on-none :
      (r : Run) (k : ℕ → ℕ → Run)
      → IsOpenRun r
      → ((c a : ℕ) → IsOpenRun (k c a))
      → IsOpenRun (elim r [ found b j1 j2 ↦ found b j1 j2 | open_run c a ↦ k c a ])
  goes_on-none (found b j1 j2) k f rest = f
  goes_on-none (open_run c a) k f rest = rest c a

  scan_directory-none : (rounds i1 i2 c a : ℕ) → IsOpenRun (scan_directory rounds m 0 i1 i2 c a)
  unfolding scan_directory
  scan_directory-none zero i1 i2 c a = tt
  scan_directory-none (suc rounds) i1 i2 c a =
      goes_on-none (scan_entry m 0 i1 i2 c a) (λ c' a'. scan_directory rounds m 0 (i1 + 1) 0 c' a')
        (scan_entry-none i1 i2 c a) (λ c' a'. scan_directory-none rounds (i1 + 1) 0 c' a')

  scan_zone-none : (z : Zone) → IsOpenRun (scan_zone m z 0)
  unfolding scan_zone
  scan_zone-none z =
      goes_on-none
        (scan_directory (directory_index z.end + 1 - directory_index z.next) m 0
          (directory_index z.next) (table_index z.next) 0 0)
        (λ c a.
          scan_directory (directory_index z.next + 1 - directory_index z.start) m 0
            (directory_index z.start) (table_index z.start) c a)
        (scan_directory-none _ (directory_index z.next) (table_index z.next) 0 0)
        (λ c a. scan_directory-none _ (directory_index z.start) (table_index z.start) c a)

  open-none :
      {A : Type 0} (r : Run) (k : ℕ → ℕ → ℕ → Option A) (rest : Option A)
      → IsOpenRun r
      → rest ≡ none
      → ◌≡◌ {A = Option A} (elim r [ found a j1 j2 ↦ k a j1 j2 | open_run c a ↦ rest ]) none
  open-none (found a j1 j2) k rest f e = absurd f
  open-none (open_run c a) k rest f e = e

  zone_loop-none : (rounds zone : ℕ) → zone_loop rounds m 0 zone ≡ none
  unfolding zone_loop
  zone_loop-none zero zone = refl
  zone_loop-none (suc rounds) zone =
      let rest = zone_loop-none rounds (zone + 1) in
      elim (Bool-cases ((m.zones zone).next == 0)) [
        | inl e ↦ rw e rest
        | inr e ↦ rw e (
            open-none (scan_zone m (m.zones zone) 0) _ (zone_loop rounds m 0 (zone + 1))
              (scan_zone-none (m.zones zone)) rest)
      ]

  no_pages : (zone : ℕ) → get_free_pages m 0 zone ≡ none
  unfolding get_free_pages
  no_pages zone = zone_loop-none (3 - zone) zone

empty_segment_count :
    (p : ProgramHeader)
    → p.p_memsz ≡ 0
    → p.p_vaddr % 4096 ≡ 0
    → p.p_vaddr < 2 ^ 32
    → segment_count p ≡ 0
unfolding segment_start segment_count
empty_segment_count p empty aligned small = omega (arith, empty)

-- A loadable segment of no bytes at the start of a page asks get_free_pages for no page, which never
-- returns: the file is not loaded.
pub load_segment_empty :
    (rounds : ℕ) (s : Space) (p : ProgramHeader)
    → p.p_type ≡ 1
    → p.p_memsz ≡ 0
    → p.p_vaddr % 4096 ≡ 0
    → p.p_vaddr < 2 ^ 32
    → load_segment rounds s p ≡ none
unfolding load_segment
load_segment_empty rounds s p load empty aligned small =
    let e : is_load p ≡ true = ground (arith, load) in
    rw (e, load_segment) (rw (empty_segment_count p empty aligned small, no_pages s.memory 0) refl)
