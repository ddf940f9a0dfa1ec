-- ===== src/Memory/Virtual/Examples.antt =====
-- A small address space, and what the functions of arch/ia32/memory.c on bytes and on virtual pages do to it.
use rjk.Base.{
  ℕ, ◌+◌, ◌-◌, ◌*◌, ◌/◌, ◌%◌, ◌≡◌, ◌≢◌, refl, true, false, ◌&&◌, none, some, [], ◌∷◌, u8, u32,
  arith, inl, ◌==◌, if◌then◌else◌, leb, ltb, test_bit,
}
use Prim.Native.Nat.{bit_or}
use rjk.Memory.{
  Memory, get_free_pages, scan_zone, scan_directory, scan_entry, scan_table, zone_loop, take_run,
  is_available, linear_allocated,
}
use rjk.Memory.Bytes.{kmemory_virtual_copy, kmemory_virtual_fill}
use rjk.Memory.Bytes.Copy.{kmemory_virtual_copy_lem}
use rjk.Memory.Bytes.Fill.{kmemory_virtual_fill_lem}
use rjk.Memory.Virtual.{VmPage, Space, words, virtual_mapped}
use rjk.Memory.Virtual.Allocate.{take_free, kmemory_virtual_page_allocate}
use rjk.Memory.Virtual.Unallocate.{take_used, kmemory_virtual_page_unallocate}
use rjk.Memory.Virtual.Frame.{Holds}
use rjk.Memory.Virtual.Invariant.{
  IsRegions, Allocated, Unallocated, kmemory_virtual_page_allocate-Allocated,
  kmemory_virtual_page_unallocate-Unallocated,
}
use rjk.Memory.Virtual.Table.{within, kmemory_virtual_page_allocate_fresh}
use rjk.Memory.Virtual.Release.{kmemory_virtual_page_unallocate-words}
use rjk.Memory.Virtual.Fault.{handle_page_fault, handle_page_fault_lem}

abbrev bytes : ℕ → ℕ
bytes a = u8 a

kmemory_virtual_copy_lem_example : kmemory_virtual_copy 0x100 0x104 7 bytes 0x102 ≡ (
    if leb 0x100 0x102 && ltb 0x102 (0x100 + 7)
    then bytes (0x104 + (0x102 - 0x100))
    else bytes 0x102)
kmemory_virtual_copy_lem_example =
    kmemory_virtual_copy_lem 0x100 0x104 7 bytes (inl (omega arith)) (omega arith) (omega arith)
      0x102

kmemory_virtual_fill_lem_example : kmemory_virtual_fill 0 0x100 7 32 bytes 0x106 ≡ (
    if leb 0x100 0x106 && ltb 0x106 (0x100 + 7)
    then (if (0x106 - 0x100) % 2 == 0 then 0 else u8 32)
    else bytes 0x106)
kmemory_virtual_fill_lem_example = kmemory_virtual_fill_lem 0 0x100 7 32 bytes (omega arith) 0x106

-- The linear directory at 0x1000 with its table at 0x2000, where the page at 0x3FE000 is free; the virtual
-- directory at 0x3000, whose entry for 0x10000000 is the table at 0x4000. Its first entry is assigned, to be
-- cleared.
abbrev memory : Memory
memory = record {
  words = λ p.
      if p == 0x400
      then 0x2100
      else if p == 0x800 + 1022
      then 0x200
      else if p == 0xC00 + 64
      then 0x4207
      else if p == 0x1000
      then 0x600
      else 0;
  linear_directory = 0x1000;
  zones = λ z.
      if z == 0
      then record { next = 0x3FC000; start = 0x3FC000; end = 0x3FF000 }
      else record { next = 0; start = 0; end = 0 };
}

abbrev one_page : VmPage
one_page = record { count = 1; page = 0x10000000 }

abbrev space : Space
space = record {
  memory = memory;
  virtual_page_table_directory = 0x3000;
  virtual_block = record { block = 0; pages = 0; free = []; used = one_page ∷ []; pages_index = 1 };
  virtual_address = 0x10002000;
}

regions : IsRegions space.virtual_block space.virtual_address
regions = record {
  disjoint = record { first = tt; second = (tt, tt); cross = tt };
  free_below = tt;
  used_below = (omega arith, tt);
}

kmemory_virtual_page_allocate-Allocated_example :
    Holds (Allocated space 2) (kmemory_virtual_page_allocate 2 space 2 false)
kmemory_virtual_page_allocate-Allocated_example =
    kmemory_virtual_page_allocate-Allocated 2 space 2 regions (omega arith) false

kmemory_virtual_page_unallocate-Unallocated_example :
    Unallocated space 0x10000000 (kmemory_virtual_page_unallocate space 0x10000000)
kmemory_virtual_page_unallocate-Unallocated_example =
    kmemory_virtual_page_unallocate-Unallocated space 0x10000000 regions

no_fit : take_free 2 space.virtual_block.free ≡ none
unfolding take_free
no_fit = refl

kmemory_virtual_page_allocate_fresh_example :
    (u : Space) × (kmemory_virtual_page_allocate 1 space 2 true ≡ some (0x10002000, u))
    × (u.virtual_block.used ≡ record { count = 2; page = 0x10002000 } ∷ one_page ∷ [])
    × (u.virtual_block.free ≡ [])
    × (u.virtual_address ≡ u32 (0x10002000 + (2 + 1) * 4096))
    × ((w : ℕ) → words u w ≡ (if within (0x4000 / 4 + 2) 2 w then 0x600 else words space w))
kmemory_virtual_page_allocate_fresh_example =
    kmemory_virtual_page_allocate_fresh 1 space 2 true no_fit (omega arith) (omega arith)
      (omega arith) (omega arith) (omega arith)

in_use : take_used 0x10000000 space.virtual_block.used ≡ some (one_page, [])
unfolding take_used
in_use = refl

kmemory_virtual_page_unallocate-words_example :
    words (kmemory_virtual_page_unallocate space 0x10000000) 0x1000 ≡ 0
kmemory_virtual_page_unallocate-words_example =
    kmemory_virtual_page_unallocate-words space 0x10000000 one_page [] in_use (omega arith)
      (omega arith) (omega arith) (omega arith) refl 0x1000 (omega arith)

page_free : get_free_pages memory 1 0 ≡ some (0x3FE000, (take_run memory 0 1 0x3FE000 0 1022).1)
unfolding get_free_pages zone_loop scan_zone scan_directory scan_entry scan_table take_run
    is_available test_bit
page_free = refl

handle_page_fault_lem_example :
    (t : Space) × (handle_page_fault space 0x10000004 ≡ some (true, t))
    × (words t 0x1000 ≡ bit_or 0x3FE000 virtual_mapped)
    × (words t (0x800 + 1022) ≡ bit_or 0x10000000 linear_allocated)
    × ((w : ℕ)
        → w ≢ 0x1000
        → w ≢ 0x800 + 1022
        → words t w ≡ (
            if true && within (0x3FE000 / 4) 1024 w
            then 0
            else (take_run memory 0 1 0x3FE000 0 1022).1.words w))
unfolding take_run test_bit
handle_page_fault_lem_example =
    handle_page_fault_lem space 0x10000004 0x3FE000 (take_run memory 0 1 0x3FE000 0 1022).1
      page_free (omega arith) refl (omega arith) (omega arith) (omega arith) true refl refl refl
