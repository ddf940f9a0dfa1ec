-- ===== src/Memory/Virtual/Allocate.antt =====
-- kmemory_virtual_page_allocate of arch/ia32/memory.c. Its result is the pointer, 0 for KNULL.
use Prim.Native.Nat.{bit_or}
use rjk.Base.{
  ℕ, zero, suc, ◌+◌, ◌-◌, ◌*◌, ◌/◌, ◌^◌, Bool, true, false, Option, none, some, List, [], ◌∷◌, ◌==◌,
  if◌then◌else◌, u32, sub32, leb, update,
}
use rjk.Memory.{get_free_pages, directory_index, table_index}
use rjk.Memory.Virtual.{
  VmPage, Space, words, write_word, virtual_directory_word, virtual_mapped, vm_block_pages_count,
  clear_pages, with_memory, map_page,
}

-- The first record of `free` with as many pages, unlinked.
unfoldable pub take_free : (count : ℕ) → List VmPage → Option (VmPage × List VmPage)
take_free count [] = none
take_free count (p ∷ ps) =
    let rest : Option (VmPage × List VmPage) = elim (take_free count ps) [
      | none ↦ none
      | some (q, qs) ↦ some (q, p ∷ qs)
    ] in
    if leb count p.count then some (p, ps) else rest

-- A page from get_free_pages, mapped and cleared: 0 when the allocator answers 0.
unfoldable pub table_page : (rounds : ℕ) → Space → Option (ℕ × Space)
unfolding map_page clear_pages
table_page rounds s = elim (get_free_pages s.memory 1 0) [
  | none ↦ none
  | some (page, m) ↦ elim (page == 0) [
    | true ↦ some (page, with_memory s m)
    | false ↦ elim (map_page rounds (with_memory s m) page) [
      | none ↦ none
      | some t ↦ some (page, with_memory t (clear_pages t.memory page 1))
    ]
  ]
]

-- Whether a page for records is there, made if none is left; `pages_index` starts again in a new one.
unfoldable pub records_page : (rounds : ℕ) → Space → Option (Bool × Space)
unfolding table_page
records_page rounds s = elim (leb vm_block_pages_count s.virtual_block.pages_index) [
  | false ↦ some (true, s)
  | true ↦ elim (table_page rounds s) [
    | none ↦ none
    | some (page, t) ↦ elim (page == 0) [
      | true ↦ some (false, t)
      | false ↦ some (
        true,
        record t { virtual_block = record t.virtual_block { pages = page; pages_index = 0 } },
      )
    ]
  ]
]

-- A new record, behind all that there are: its region, and a page that no record has.
unfoldable pub fresh_page : Space → (count : ℕ) → VmPage × Space
fresh_page s count = (
  record { count = count; page = s.virtual_address },
  record s {
    virtual_block = record s.virtual_block { pages_index = s.virtual_block.pages_index + 1 };
    virtual_address = u32 (s.virtual_address + (count * 4096 + 4096));
  },
)

-- The record for a request, unlinked from `free` or new; `none` in the pair when there is no page for one.
unfoldable pub find_page : (rounds : ℕ) → Space → (count : ℕ) → Option (Option VmPage × Space)
unfolding take_free records_page fresh_page
find_page rounds s count = elim (take_free count s.virtual_block.free) [
  | some (p, rest) ↦
      some (some p, record s { virtual_block = record s.virtual_block { free = rest } })
  | none ↦ elim (records_page rounds s) [
    | none ↦ none
    | some (false, t) ↦ some (none, t)
    | some (true, t) ↦ let (p, t') = fresh_page t count in some (some p, t')
  ]
]

-- `while(i2 < 1024)`, with `1024 - i2` rounds left: the memory, and `count_local` when the table ends first.
unfoldable pub fill_table :
    (rounds : ℕ) → (pt i2 count_local flags : ℕ) → (ℕ → ℕ) → Option ℕ × (ℕ → ℕ)
fill_table zero pt i2 count_local flags m = (some count_local, m)
fill_table (suc rounds) pt i2 count_local flags m =
    let written = update m (pt / 4 + i2) flags in
    let rest = fill_table rounds pt (i2 + 1) (sub32 count_local 1) flags written in
    if sub32 count_local 1 == 0 then (none, written) else rest

-- The table of directory entry `i1`, made if there is none; 0 when there is no page for it.
unfoldable pub table_of : (rounds : ℕ) → Space → (i1 : ℕ) → Option (ℕ × Space)
unfolding table_page
table_of rounds s i1 =
    let pt = words s (virtual_directory_word s i1) / 2 ^ 12 * 2 ^ 12 in
    elim (pt == 0) [
      | false ↦ some (pt, s)
      | true ↦ elim (table_page rounds s) [
        | none ↦ none
        | some (page, t) ↦ elim (page == 0) [
          | true ↦ some (page, t)
          | false ↦
              some (page, write_word t (virtual_directory_word t i1) (bit_or page virtual_mapped))
        ]
      ]
    ]

-- `while(i1 < 1024)`, with `1024 - i1` tables left; false when it goes to `end`.
unfoldable pub fill_directory :
    (tables : ℕ) → (rounds : ℕ) → Space → (i1 i2 count_local flags : ℕ) → Option (Bool × Space)
unfolding table_of fill_table
fill_directory zero rounds s i1 i2 count_local flags = some (true, s)
fill_directory (suc tables) rounds s i1 i2 count_local flags = elim (table_of rounds s i1) [
  | none ↦ none
  | some (pt, t) ↦ elim (pt == 0) [
    | true ↦ some (false, t)
    | false ↦
        let (left, m) = fill_table (1024 - i2) pt i2 count_local flags (words t) in
        let u = with_memory t (record t.memory { words = m }) in
        elim left [
          | none ↦ some (true, u)
          | some count' ↦ fill_directory tables rounds u (i1 + 1) 0 count' flags
        ]
  ]
]

-- VIRTUAL_ASSIGNED, with VIRTUAL_ZERO for a page to be cleared.
abbrev pub assign_flags : Bool → ℕ
assign_flags zeroed = if zeroed then 0x600 else 0x200

-- `current->next = virtual_block->used; virtual_block->used = current`
abbrev pub link_used : VmPage → Space → Space
link_used p s = record s {
  virtual_block = record s.virtual_block { used = p ∷ s.virtual_block.used };
}

unfoldable pub kmemory_virtual_page_allocate :
    (rounds : ℕ) → Space → (count : ℕ) (zeroed : Bool) → Option (ℕ × Space)
unfolding find_page fill_directory
kmemory_virtual_page_allocate rounds s count zeroed = elim (find_page rounds s count) [
  | none ↦ none
  | some (none, t) ↦ some (0, t)
  | some (some p, t) ↦
      elim (fill_directory (1024 - directory_index p.page) rounds t (directory_index p.page)
        (table_index p.page) count (assign_flags zeroed)) [
          | none ↦ none
          | some (false, u) ↦ some (0, u)
          | some (true, u) ↦ some (p.page, link_used p u)
        ]
]
