-- ===== src/Memory.antt =====
-- arch/ia32/memory.c: the linear page tables and the allocator of free pages.
-- Physical memory is a function from the index of an aligned word (its address / 4) to the word.
pub mod Scan
pub mod Pages
pub mod Bytes
pub mod Words
pub mod Virtual
pub mod Elf
pub mod Setup
pub mod Report
mod Examples
use Prim.Native.Nat.{bit_or}
use rjk.Base.{
  ℕ, zero, suc, ◌+◌, ◌-◌, ◌*◌, ◌/◌, ◌%◌, ◌^◌, Bool, true, false, Option, none, some, ◌==◌,
  if◌then◌else◌, u32, test_bit, update,
}

pub record Zone : Type 0 where
  pub next : ℕ
  pub start : ℕ
  pub end : ℕ

-- The memory, linear_page_table_directory, and `zones` by index: normal 0, DMA 1, kernel 2.
pub record Memory : Type 0 where
  pub words : ℕ → ℕ
  pub linear_directory : ℕ
  pub zones : ℕ → Zone

-- Bits of an entry of a linear page table.
abbrev pub linear_allocated_bit : ℕ
linear_allocated_bit = 8

abbrev pub linear_available_bit : ℕ
linear_available_bit = 9

abbrev pub linear_allocated : ℕ
linear_allocated = 0x00000100

-- `address >> 22` and `(address << 10) >> 22`
abbrev pub directory_index : ℕ → ℕ
directory_index address = address / 2 ^ 22

abbrev pub table_index : ℕ → ℕ
table_index address = address / 2 ^ 12 % 2 ^ 10

-- `linear_page_table_directory[i1]`
abbrev pub directory_entry : Memory → ℕ → ℕ
directory_entry m i1 = m.words (m.linear_directory / 4 + i1)

-- The index of the word `((kuint*)(linear_page_table_directory[i1] & 0xFFFFF000))[i2]`.
abbrev pub table_word : Memory → ℕ → ℕ → ℕ
table_word m i1 i2 = directory_entry m i1 / 2 ^ 12 * 2 ^ 10 + i2

-- `(i1 << 22) | (i2 << 12)`
abbrev pub page_address : ℕ → ℕ → ℕ
page_address i1 i2 = i1 * 2 ^ 22 + i2 * 2 ^ 12

unfoldable pub set_linear_entry : Memory → (vaddr laddr flags : ℕ) → Memory
set_linear_entry m vaddr laddr flags = record m {
  words =
      update m.words (table_word m (directory_index laddr) (table_index laddr))
        (bit_or vaddr flags);
}

-- What a loop of get_free_pages has when it ends: the run's first address and the place of its last
-- page, or the length and first address of the run that it is in.
pub data Run : Type 0 where
  found : (address i1 i2 : ℕ) → Run
  open_run : (c address : ℕ) → Run

-- Is the page free?
unfoldable pub is_available : Memory → ℕ → ℕ → Bool
is_available m i1 i2 = test_bit (m.words (table_word m i1 i2)) linear_available_bit

-- `while(i2 < 1024)`, with `1024 - i2` rounds left.
unfoldable pub scan_table : ℕ → Memory → (count i1 i2 c address : ℕ) → Run
scan_table zero m count i1 i2 c address = open_run c address
scan_table (suc rounds) m count i1 i2 c address =
    let first = if c == 0 then page_address i1 i2 else address in
    let more = scan_table rounds m count i1 (i2 + 1) (c + 1) first in
    let skip = scan_table rounds m count i1 (i2 + 1) 0 0 in
    if is_available m i1 i2 then (if c + 1 == count then found first i1 i2 else more) else skip

-- The table of one round of the outer loop, if there is one.
unfoldable pub scan_entry : Memory → (count i1 i2 c address : ℕ) → Run
scan_entry m count i1 i2 c address =
    if test_bit (directory_entry m i1) linear_allocated_bit
    then scan_table (1024 - i2) m count i1 i2 c address
    else open_run c address

-- `while(i1 <= outer_end)`, with `outer_end + 1 - i1` rounds left.
unfoldable pub scan_directory : ℕ → Memory → (count i1 i2 c address : ℕ) → Run
scan_directory zero m count i1 i2 c address = open_run c address
scan_directory (suc rounds) m count i1 i2 c address = elim (scan_entry m count i1 i2 c address) [
  | found a j1 j2 ↦ found a j1 j2
  | open_run c' address' ↦ scan_directory rounds m count (i1 + 1) 0 c' address'
]

-- Both passes over a zone: from `next` to the end, then from the start to `next`. The second goes on
-- with the run that the first was in.
unfoldable pub scan_zone : Memory → Zone → ℕ → Run
scan_zone m z count =
    elim (scan_directory (directory_index z.end + 1 - directory_index z.next) m count
      (directory_index z.next) (table_index z.next) 0 0) [
        | found a j1 j2 ↦ found a j1 j2
        | open_run c address ↦
            scan_directory (directory_index z.next + 1 - directory_index z.start) m count
              (directory_index z.start) (table_index z.start) c address
      ]

-- The page at the end of the run is marked, and the zone goes on behind the run.
unfoldable pub take_run : Memory → ℕ → ℕ → (address i1 i2 : ℕ) → ℕ × Memory
take_run m zone count address i1 i2 = (
  address,
  record m {
    words = update m.words (table_word m i1 i2) linear_allocated;
    zones = update m.zones zone (record (m.zones zone) { next = u32 (address + count * 4096) });
  },
)

-- The loop over the zones, with `ZONE_COUNT - zone` rounds left. When they are used up the source
-- prints a message and loops for ever: `none`.
unfoldable pub zone_loop : ℕ → Memory → ℕ → ℕ → Option (ℕ × Memory)
zone_loop zero m count zone = none
zone_loop (suc rounds) m count zone =
    let rest = zone_loop rounds m count (zone + 1) in
    if (m.zones zone).next == 0 then rest else elim (scan_zone m (m.zones zone) count) [
      | found address i1 i2 ↦ some (take_run m zone count address i1 i2)
      | open_run c address ↦ rest
    ]

unfoldable pub get_free_pages : Memory → (count zone : ℕ) → Option (ℕ × Memory)
get_free_pages m count zone = zone_loop (3 - zone) m count zone
