-- ===== src/Memory/Virtual/Unallocate.antt =====
-- kmemory_virtual_page_unallocate of arch/ia32/memory.c.
use rjk.Base.{
  ℕ, zero, suc, ◌+◌, ◌-◌, ◌/◌, Option, none, some, List, [], ◌∷◌, ◌==◌, if◌then◌else◌, sub32,
  test_bit, update,
}
use rjk.Memory.{Memory, set_linear_entry, directory_index, table_index}
use rjk.Memory.Virtual.{
  VmPage, Space, words, virtual_directory_word, with_memory, page_of, virtual_allocated_bit,
  virtual_linear_available,
}

-- The first record of `used` at the pointer, unlinked.
unfoldable pub take_used : (pointer : ℕ) → List VmPage → Option (VmPage × List VmPage)
take_used pointer [] = none
take_used pointer (p ∷ ps) =
    let rest : Option (VmPage × List VmPage) = elim (take_used pointer ps) [
      | none ↦ none
      | some (q, qs) ↦ some (q, p ∷ qs)
    ] in
    if p.page == pointer then some (p, ps) else rest

-- One entry: `set_linear_entry((*entry & 0xFFFFF000), 0, (LINEAR_AVAILABLE))` for a mapped page, then 0.
unfoldable pub clear_entry : Memory → (entry : ℕ) → Memory
unfolding set_linear_entry
clear_entry m entry =
    let m' =
      if test_bit (m.words entry) virtual_allocated_bit
      then set_linear_entry m (page_of (m.words entry)) 0 virtual_linear_available
      else m in
    record m' { words = update m'.words entry 0 }

-- `while(i2 < 1024)`, with `1024 - i2` rounds left.
unfoldable pub clear_table : (rounds : ℕ) → (pt i2 count_local : ℕ) → Memory → Option ℕ × Memory
unfolding clear_entry
clear_table zero pt i2 count_local m = (some count_local, m)
clear_table (suc rounds) pt i2 count_local m =
    let cleared = clear_entry m (pt / 4 + i2) in
    let rest = clear_table rounds pt (i2 + 1) (sub32 count_local 1) cleared in
    if sub32 count_local 1 == 0 then (none, cleared) else rest

-- `while(i1 < 1024)`, with `1024 - i1` tables left.
unfoldable pub clear_directory : (tables : ℕ) → Space → (i1 i2 count_local : ℕ) → Space
unfolding clear_table
clear_directory zero s i1 i2 count_local = s
clear_directory (suc tables) s i1 i2 count_local =
    let pt = page_of (words s (virtual_directory_word s i1)) in
    let (left, m) = clear_table (1024 - i2) pt i2 count_local s.memory in
    elim left [
      | none ↦ with_memory s m
      | some count' ↦ clear_directory tables (with_memory s m) (i1 + 1) 0 count'
    ]

-- A pointer that no used record has is reported, and nothing changes.
unfoldable pub kmemory_virtual_page_unallocate : Space → (pointer : ℕ) → Space
unfolding take_used clear_directory
kmemory_virtual_page_unallocate s pointer = elim (take_used pointer s.virtual_block.used) [
  | none ↦ s
  | some (p, rest) ↦
      let t =
        clear_directory (1024 - directory_index p.page)
          (record s { virtual_block = record s.virtual_block { used = rest } })
          (directory_index p.page) (table_index p.page) p.count in
      record t { virtual_block = record t.virtual_block { free = p ∷ t.virtual_block.free } }
]
