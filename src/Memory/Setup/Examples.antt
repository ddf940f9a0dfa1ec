-- ===== src/Memory/Setup/Examples.antt =====
-- A memory of 4 MB for kmemory_linear_setup of arch/ia32/memory.c.
use rjk.Base.{
  ◌<◌, ◌*◌, ◌≤◌, ℕ, ◌≡◌, ◌≤◌, ◌+◌, ◌/◌, arith, refl, Option, true, none, some, [], ◌==◌,
  if◌then◌else◌, test_bit,
}
use rjk.Memory.{
  Memory, Zone, get_free_pages, zone_loop, scan_zone, scan_directory, scan_entry, scan_table,
  take_run, is_available, set_linear_entry,
}
use rjk.Memory.Virtual.{Space, clear_pages, rep_stosl, map_page, set_virtual_entry}
use rjk.Memory.Virtual.Allocate.{
  kmemory_virtual_page_allocate, find_page, take_free, records_page, fresh_page, fill_directory,
  table_of, table_page, fill_table,
}
use rjk.Memory.Virtual.Invariant.{IsRegions}
use rjk.Memory.Setup.Layout.{Layout, page_word}
use rjk.Memory.Setup.Whole.{tables_end, kmemory_linear_setup_lem}
use rjk.Memory.Setup.Reach.{linear_setup, allocate, Reach-IsRegions}
use rjk.Memory.Setup.{
  linear_available, available_loop, linear_block, block_loop, setup_zones, tables_loop,
  block_tables, setup_pages, kmemory_linear_setup, build_tables, page_behind,
}

-- The table for the page behind the memory gets an available entry all the same.
behind_memory_test :
    (available_loop 1024 (λ w. 0) 0x5000 0 0x400000 0x400000).0 0x1400 ≡ linear_available
unfolding available_loop
behind_memory_test = refl

abbrev no_zones : ℕ → Zone
no_zones z = record { next = 0; start = 0; end = 0 }

dma_zone_test :
    setup_zones no_zones 0x103000 0x400000 1
    ≡ record { next = 0x103000; start = 0x100000; end = 0x400000 }
unfolding setup_zones
dma_zone_test = refl

-- Tables that end at 16 MB: the zone goes on at 1 MB.
high_tables_test :
    setup_zones no_zones 0x1000000 0x1800000 1
    ≡ record { next = 0x100000; start = 0x100000; end = 0x1000000 }
unfolding setup_zones
high_tables_test = refl

-- Page 0x2000 in the table at 0x5000.
abbrev memory : Memory
memory = record {
  words = λ w. if w == 0x400 then 0x5100 else 0;
  linear_directory = 0x1000;
  zones = no_zones;
}

marked_test :
    (m : Memory) × (linear_block 3 memory 0x2004 0x2010 ≡ some m) × (m.words 0x1402 ≡ 0x2100)
unfolding linear_block block_loop
marked_test =
    (record memory { words = λ w. if w == 0x1402 then 0x2100 else memory.words w }, refl, refl)

-- A memory of 1088 kB behind a kernel that ends at 0x101000.
abbrev blank : Memory
blank = record { words = λ w. 0; linear_directory = 0; zones = no_zones }

abbrev or_blank : Option Space → Space
or_blank none = record {
  memory = blank;
  virtual_page_table_directory = 0;
  virtual_block = record { block = 0; pages = 0; free = []; used = []; pages_index = 0 };
  virtual_address = 0;
}
or_blank (some s) = s

booted :
    kmemory_linear_setup 4 blank 0x110000 0x101000
    ≡ some (or_blank (kmemory_linear_setup 4 blank 0x110000 0x101000))
unfolding kmemory_linear_setup build_tables tables_loop linear_block block_loop block_tables
    setup_zones setup_pages clear_pages rep_stosl available_loop get_free_pages zone_loop scan_zone
    scan_directory scan_entry scan_table take_run is_available test_bit
booted = refl

abbrev space : Space
space = or_blank (kmemory_linear_setup 4 blank 0x110000 0x101000)

-- One page is allocated; its table is made in the first page that is free.
abbrev answer : Option (ℕ × Space) → ℕ × Space
answer none = (0, space)
answer (some r) = r

allocated :
    kmemory_virtual_page_allocate 3 space 1 true
    ≡ some (answer (kmemory_virtual_page_allocate 3 space 1 true))
unfolding kmemory_virtual_page_allocate find_page take_free records_page fresh_page fill_directory
    table_of table_page fill_table map_page set_virtual_entry set_linear_entry kmemory_linear_setup
    tables_loop linear_block block_loop block_tables setup_zones setup_pages clear_pages rep_stosl
    available_loop get_free_pages zone_loop scan_zone scan_directory scan_entry scan_table take_run
    is_available test_bit
allocated = refl

first_address : space.virtual_address ≡ 0x10000000
unfolding kmemory_linear_setup build_tables tables_loop linear_block block_loop block_tables
    setup_zones setup_pages clear_pages rep_stosl available_loop get_free_pages zone_loop scan_zone
    scan_directory scan_entry scan_table take_run is_available test_bit
first_address = refl

first_pointer_test : (answer (kmemory_virtual_page_allocate 3 space 1 true)).0 ≡ 0x10000000
unfolding kmemory_virtual_page_allocate find_page take_free records_page fresh_page fill_directory
    table_of table_page fill_table map_page set_virtual_entry set_linear_entry kmemory_linear_setup
    tables_loop linear_block block_loop block_tables setup_zones setup_pages clear_pages rep_stosl
    available_loop get_free_pages zone_loop scan_zone scan_directory scan_entry scan_table take_run
    is_available test_bit
first_pointer_test = refl

Reach-IsRegions_example :
    IsRegions
      (answer (kmemory_virtual_page_allocate 3 space 1 true)).1.virtual_block
      (answer (kmemory_virtual_page_allocate 3 space 1 true)).1.virtual_address
Reach-IsRegions_example =
    Reach-IsRegions (answer (kmemory_virtual_page_allocate 3 space 1 true)).1 (
      allocate 3 1 (answer (kmemory_virtual_page_allocate 3 space 1 true)).0 true
        (linear_setup 4 blank 0x110000 0x101000 booted) (omega (arith, first_address)) allocated)

kmemory_linear_setup_lem_example :
    (s : Space) × (kmemory_linear_setup 3 blank 0x400000 0x107800 ≡ some s)
    × (s.virtual_page_table_directory ≡ tables_end 0x400000 0x107800)
    × (s.virtual_block
        ≡ record { block = 0x10C000; pages = 0x10D000; free = []; used = []; pages_index = 0 })
    × ((p : ℕ) → 0x10B ≤ p → p < 0x10E → s.memory.words (page_word 0x108000 p) ≡ p * 4096 + 256)
    × (0x107800 ≤ page_behind 0x107800)
    × Layout blank.words
        (page_behind 0x107800)
        2
        (tables_end 0x400000 0x107800 / 4096 + 1 + 2)
        1024
        s.memory
kmemory_linear_setup_lem_example =
    kmemory_linear_setup_lem 3 blank 0x400000 0x107800 (omega arith) (record {
      pos = omega arith;
      low = omega arith;
      above = omega arith;
      dma = omega arith;
      room = omega arith;
      top = omega arith;
      one_table = omega arith;
    })
