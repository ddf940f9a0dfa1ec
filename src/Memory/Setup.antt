-- ===== src/Memory/Setup.antt =====
-- kmemory_linear_setup, kmemory_virtual_setup and linear_block of arch/ia32/memory.c.
pub mod Tables
pub mod Keep
pub mod Build
pub mod Built
pub mod Layout
pub mod Marked
pub mod Taken
pub mod Pages
pub mod Begun
pub mod Whole
pub mod Reach
mod Examples
use Prim.Native.Nat.{bit_or}
use rjk.Base.{
  ℕ, zero, suc, ◌+◌, ◌-◌, ◌*◌, ◌/◌, ◌%◌, ◌^◌, Bool, true, false, ◌&&◌, Option, none, some, List, [],
  ◌==◌, if◌then◌else◌, ltb, leb, u32, sub32, test_bit, update,
}
use rjk.Memory.{
  Memory, Zone, get_free_pages, set_linear_entry, linear_allocated, linear_allocated_bit,
  directory_index, table_index, table_word, directory_entry,
}
use rjk.Memory.Virtual.{Space, VmBlock, clear_pages, page_of, map_page}

-- LINEAR_AVAILABLE
abbrev pub linear_available : ℕ
linear_available = 0x00000200

-- `((address - 1) & 0xFFFFF000) + KPAGESIZE`
abbrev pub page_behind : ℕ → ℕ
page_behind address = u32 (page_of (sub32 address 1) + 4096)

-- The loop of linear_block; `none` when it has not ended after `rounds`.
unfoldable pub block_loop : (rounds : ℕ) → Memory → (address end : ℕ) → Option Memory
block_loop zero m address end = none
block_loop (suc rounds) m address end =
    let marked = record m {
      words =
          update m.words (table_word m (directory_index address) (table_index address))
            (bit_or address linear_allocated);
    } in
    let rest = block_loop rounds marked (u32 (address + 4096)) end in
    if ltb address end then rest else some m

unfoldable pub linear_block : (rounds : ℕ) → Memory → (start end : ℕ) → Option Memory
unfolding block_loop
linear_block rounds m start end = block_loop rounds m (page_of start) (page_behind end)

-- `for(i2 = 0; i2 < 1024; i2++)` with its `break`, with `1024 - i2` rounds left: the words, and `mem`.
unfoldable pub available_loop : (rounds : ℕ) → (ℕ → ℕ) → (pt i2 mem mem_upper : ℕ) → (ℕ → ℕ) × ℕ
available_loop zero w pt i2 mem mem_upper = (w, mem)
available_loop (suc rounds) w pt i2 mem mem_upper =
    let marked = update w (pt / 4 + i2) linear_available in
    let rest = available_loop rounds marked pt (i2 + 1) (u32 (mem + 4096)) mem_upper in
    if leb mem_upper (u32 (mem + 4096)) then (marked, u32 (mem + 4096)) else rest

-- `for(i1 = 0; i1 <= mem_end; i1++)`, with `mem_end + 1 - i1` rounds left: the memory, and linear_address.
unfoldable pub tables_loop :
    (rounds : ℕ) → Memory → (i1 linear_address mem mem_upper : ℕ) → Memory × ℕ
unfolding available_loop clear_pages
tables_loop zero m i1 linear_address mem mem_upper = (m, linear_address)
tables_loop (suc rounds) m i1 linear_address mem mem_upper =
    let m1 = clear_pages m linear_address 1 in
    let entered =
      update m1.words (m1.linear_directory / 4 + i1) (bit_or linear_address linear_allocated) in
    let (w, mem') = available_loop 1024 entered linear_address 0 mem mem_upper in
    tables_loop rounds (record m1 { words = w }) (i1 + 1) (u32 (linear_address + 4096)) mem'
      mem_upper

-- The second loop over the directory: each table's own page.
unfoldable pub block_tables : (rounds left : ℕ) → Memory → (i1 : ℕ) → Option Memory
unfolding linear_block
block_tables rounds zero m i1 = some m
block_tables rounds (suc left) m i1 =
    let addr = page_of (directory_entry m i1) in
    elim (test_bit (directory_entry m i1) linear_allocated_bit) [
      | false ↦ block_tables rounds left m (i1 + 1)
      | true ↦ elim (linear_block rounds m addr (u32 (addr + 4096))) [
        | none ↦ none
        | some t ↦ block_tables rounds left t (i1 + 1)
      ]
    ]

-- The zones: normal 0, DMA 1, kernel 2; the first as it was when the memory ends below it.
unfoldable pub setup_zones : (zones : ℕ → Zone) → (linear_address mem_upper : ℕ) → ℕ → Zone
setup_zones zones linear_address mem_upper =
    let normal =
      if ltb 0x01000000 mem_upper
      then update zones 0 (record {
        next = if ltb 0x01000000 linear_address then linear_address else 0x01000000;
        start = 0x01000000;
        end = mem_upper;
      })
      else zones in
    let dma = update normal 1 (record {
      next =
          if ltb 0x00100000 linear_address && ltb linear_address 0x01000000
          then linear_address
          else 0x00100000;
      start = 0x00100000;
      end = if ltb 0x01000000 mem_upper then 0x01000000 else mem_upper;
    }) in
    update dma 2 (record { next = 0x00001000; start = 0x00001000; end = 0x00100000 })

-- Pages from the DMA zone, cleared and marked.
unfoldable pub setup_pages : (rounds : ℕ) → Memory → (count : ℕ) → Option (ℕ × Memory)
unfolding clear_pages linear_block
setup_pages rounds m count = elim (get_free_pages m count 1) [
  | none ↦ none
  | some (address, m1) ↦
      elim (linear_block rounds (clear_pages m1 address count) address
        (u32 (address + count * 4096))) [ none ↦ none | some t ↦ some (address, t) ]
]

-- The directory, cleared, and the tables behind it: the memory, and linear_address.
unfoldable pub build_tables : Memory → (mem_upper kernel_max : ℕ) → Memory × ℕ
unfolding tables_loop clear_pages
build_tables m mem_upper kernel_max =
    let directory = page_behind kernel_max in
    let mem_end = mem_upper / 2 ^ 22 in
    let m1 = clear_pages (record m { linear_directory = directory }) directory 1 in
    tables_loop (mem_end + 1) m1 0 (u32 (directory + 4096)) 0 mem_upper

-- `mem_lower` is not used.
unfoldable pub kmemory_linear_setup :
    (rounds : ℕ) → Memory → (mem_upper kernel_max : ℕ) → Option Space
unfolding build_tables linear_block block_tables setup_zones setup_pages
kmemory_linear_setup rounds m mem_upper kernel_max =
    let directory = page_behind kernel_max in
    let mem_end = mem_upper / 2 ^ 22 in
    let (m2, linear_address) = build_tables m mem_upper kernel_max in
    elim (linear_block rounds m2 directory (u32 (directory + 4096))) [
      | none ↦ none
      | some m3 ↦ elim (block_tables rounds (mem_end + 1) m3 0) [
        | none ↦ none
        | some m4 ↦
            elim (setup_pages rounds
              (record m4 { zones = setup_zones m4.zones linear_address mem_upper }) 1) [
                | none ↦ none
                | some (virtual_directory, m5) ↦ elim (setup_pages rounds m5 2) [
                  | none ↦ none
                  | some (block, m6) ↦ some (record {
                    memory = m6;
                    virtual_page_table_directory = virtual_directory;
                    virtual_block = record {
                      block = block;
                      pages = u32 (block + 4096);
                      free = [];
                      used = [];
                      pages_index = 0;
                    };
                    virtual_address = 0x10000000;
                  })
                ]
              ]
      ]
    ]

-- The loop over the entries of one table, with `left` entries left.
unfoldable pub map_entries : (rounds left : ℕ) → Space → (pt i2 : ℕ) → Option Space
unfolding map_page
map_entries rounds zero s pt i2 = some s
map_entries rounds (suc left) s pt i2 =
    elim (test_bit (s.memory.words (pt / 4 + i2)) linear_allocated_bit) [
      | false ↦ map_entries rounds left s pt (i2 + 1)
      | true ↦ elim (map_page rounds s (page_of (s.memory.words (pt / 4 + i2)))) [
        | none ↦ none
        | some t ↦ map_entries rounds left t pt (i2 + 1)
      ]
    ]

-- The loop over the directory, with `left` entries left.
unfoldable pub map_tables : (rounds left : ℕ) → Space → (i1 : ℕ) → Option Space
unfolding map_page map_entries
map_tables rounds zero s i1 = some s
map_tables rounds (suc left) s i1 =
    let pt = page_of (directory_entry s.memory i1) in
    elim (test_bit (directory_entry s.memory i1) linear_allocated_bit) [
      | false ↦ map_tables rounds left s (i1 + 1)
      | true ↦ elim (map_page rounds s pt) [
        | none ↦ none
        | some t ↦ elim (map_entries rounds 1024 t pt 0) [
          | none ↦ none
          | some u ↦ map_tables rounds left u (i1 + 1)
        ]
      ]
    ]

unfoldable pub kmemory_virtual_setup : (rounds : ℕ) → Space → Option Space
unfolding map_tables
kmemory_virtual_setup rounds s = map_tables rounds 1024 s 0
