-- ===== src/Memory/Virtual.antt =====
-- arch/ia32/memory.c: the virtual page tables, the pages assigned in them, and page faults. Each operation
-- holds kmemory_spinlock from its first access to its last. `none` stands for the endless loop at the
-- end of get_free_pages. The tables are where they are mapped: their virtual address is the linear one.
mod Examples
pub mod Allocate
pub mod Unallocate
pub mod Regions
pub mod Frame
pub mod Invariant
pub mod Table
pub mod Release
pub mod Fault
use Prim.Native.Nat.{bit_or}
use rjk.Base.{
  ℕ, zero, suc, ◌+◌, ◌-◌, ◌*◌, ◌/◌, ◌%◌, ◌^◌, Bool, true, false, Option, none, some, List, [], ◌∷◌,
  ◌==◌, if◌then◌else◌, u32, sub32, leb, test_bit, update,
}
use rjk.Memory.{
  Memory, get_free_pages, set_linear_entry, directory_index, table_index, linear_allocated,
}

pub record VmPage : Type 0 where
  pub count : ℕ
  pub page : ℕ

-- `virtual_block` and what it points to: its lists, the page of its records, and how many of those are taken.
pub record VmBlock : Type 0 where
  pub block : ℕ
  pub pages : ℕ
  pub free : List VmPage
  pub used : List VmPage
  pub pages_index : ℕ

pub record Space : Type 0 where
  pub memory : Memory
  pub virtual_page_table_directory : ℕ
  pub virtual_block : VmBlock
  pub virtual_address : ℕ

-- VIRTUAL_ALLOCATED | VIRTUAL_READWRITE | VIRTUAL_USERSUPER | VIRTUAL_LINEAR
abbrev pub virtual_mapped : ℕ
virtual_mapped = 0x00000207

-- The bits of VIRTUAL_ALLOCATED, VIRTUAL_ASSIGNED and VIRTUAL_ZERO.
abbrev pub virtual_allocated_bit : ℕ
virtual_allocated_bit = 0

abbrev pub virtual_assigned_bit : ℕ
virtual_assigned_bit = 9

abbrev pub virtual_zero_bit : ℕ
virtual_zero_bit = 10

-- VM_BLOCK_PAGES_COUNT: a record has 16 bytes.
abbrev pub vm_block_pages_count : ℕ
vm_block_pages_count = 256

abbrev pub virtual_linear_available : ℕ
virtual_linear_available = 0x00000200

abbrev pub words : Space → ℕ → ℕ
words s = s.memory.words

abbrev pub write_word : Space → (word value : ℕ) → Space
write_word s word value = record s {
  memory = record s.memory { words = update s.memory.words word value };
}

-- The index of the word `virtual_page_table_directory[i1]`.
abbrev pub virtual_directory_word : Space → ℕ → ℕ
virtual_directory_word s i1 = s.virtual_page_table_directory / 4 + i1

-- The index of the word `((kuint*)(virtual_page_table_directory[i1] & 0xFFFFF000))[i2]`.
abbrev pub virtual_word : Space → ℕ → ℕ → ℕ
virtual_word s i1 i2 = words s (virtual_directory_word s i1) / 2 ^ 12 * 2 ^ 10 + i2

-- `address & 0xFFFFF000`
abbrev pub page_of : ℕ → ℕ
page_of address = address / 2 ^ 12 * 2 ^ 12

-- `rep stosl` of zero.
unfoldable pub rep_stosl : (ecx edi : ℕ) → (ℕ → ℕ) → ℕ → ℕ
rep_stosl zero edi m = m
rep_stosl (suc ecx) edi m = rep_stosl ecx (u32 (edi + 4)) (update m (edi / 4) 0)

unfoldable pub clear_pages : Memory → (address count : ℕ) → Memory
clear_pages m address count = record m { words = rep_stosl (count * 1024) address m.words }

abbrev pub with_memory : Space → Memory → Space
with_memory s m = record s { memory = m }

-- The call of itself for a new table is the recursion; `rounds` bounds it.
unfoldable pub set_virtual_entry : (rounds : ℕ) → Space → (vaddr laddr flags : ℕ) → Option Space
set_virtual_entry zero s vaddr laddr flags = none
set_virtual_entry (suc rounds) s vaddr laddr flags =
    let pt = virtual_directory_word s (directory_index vaddr) in
    let write = λ (t : Space).
      write_word t (virtual_word t (directory_index vaddr) (table_index vaddr))
        (bit_or laddr flags) in
    let mapped = λ (t : Space) (temp : ℕ).
      set_virtual_entry rounds (write_word t pt (bit_or temp virtual_mapped)) temp temp
        virtual_mapped in
    elim (words s pt == 0) [
      | false ↦ some (write s)
      | true ↦ elim (get_free_pages s.memory 1 0) [
        | none ↦ none
        | some (temp, m) ↦ elim (mapped (with_memory s m) temp) [
          | none ↦ none
          | some t ↦ some (
              write (
                with_memory t
                  (clear_pages (set_linear_entry t.memory temp temp linear_allocated) temp 1)))
        ]
      ]
    ]

-- `set_virtual_entry(page, page, …); set_linear_entry(page, page, …)`
unfoldable pub map_page : (rounds : ℕ) → Space → ℕ → Option Space
unfolding set_virtual_entry
map_page rounds s page = elim (set_virtual_entry rounds s page page virtual_mapped) [
  | none ↦ none
  | some t ↦ some (with_memory t (set_linear_entry t.memory page page linear_allocated))
]

-- The loop `for(i = 0; i < count; i++)` of kmemory_linear_page_allocate and kmemory_linear_page_map.
unfoldable pub map_pages : (rounds : ℕ) → (count : ℕ) → Space → (local : ℕ) → Option Space
unfolding map_page
map_pages rounds zero s local = some s
map_pages rounds (suc count) s local = elim (map_page rounds s local) [
  | none ↦ none
  | some t ↦ map_pages rounds count t (u32 (local + 4096))
]

unfoldable pub kmemory_linear_page_map :
    (rounds : ℕ) → Space → (address count : ℕ) → Option (ℕ × Space)
unfolding map_pages
kmemory_linear_page_map rounds s address count = elim (map_pages rounds count s address) [
  | none ↦ none
  | some t ↦ some (address, t)
]

unfoldable pub kmemory_linear_page_allocate :
    (rounds : ℕ) → Space → (count : ℕ) (dma : Bool) → Option (ℕ × Space)
unfolding map_pages
kmemory_linear_page_allocate rounds s count dma =
    elim (get_free_pages s.memory count (if dma then 1 else 0)) [
      | none ↦ none
      | some (address, m) ↦ elim (address == 0) [
        | true ↦ some (address, with_memory s m)
        | false ↦ elim (map_pages rounds count (with_memory s m) address) [
          | none ↦ none
          | some t ↦ some (address, t)
        ]
      ]
    ]
