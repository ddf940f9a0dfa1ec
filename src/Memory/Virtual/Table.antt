-- ===== src/Memory/Virtual/Table.antt =====
-- What kmemory_virtual_page_allocate and kmemory_virtual_page_unallocate of arch/ia32/memory.c write in a
-- page table.
use rjk.Base.{
  ℕ, zero, suc, ◌+◌, ◌-◌, ◌*◌, ◌/◌, ◌%◌, ◌^◌, ◌<◌, ◌≤◌, ◌≡◌, ◌≢◌, refl, inl, inr, Bool, true, false,
  ◌&&◌, none, some, ◌∷◌, ◌==◌, if◌then◌else◌, u32, sub32, leb, ltb, arith, Bool-cases, update,
}
use rjk.Memory.{Memory, directory_index, table_index}
use rjk.Memory.Virtual.{
  Space, words, virtual_directory_word, rep_stosl, clear_pages, page_of, with_memory,
  vm_block_pages_count,
}
use rjk.Memory.Virtual.Allocate.{
  take_free, fresh_page, find_page, records_page, table_of, fill_table, fill_directory,
  kmemory_virtual_page_allocate, assign_flags, link_used,
}

-- The words from `first` on, `count` of them.
abbrev pub within : (first count w : ℕ) → Bool
within first count w = leb first w && ltb w (first + count)

rep_stosl-words :
    (n edi : ℕ) (m : ℕ → ℕ)
    → edi % 4 ≡ 0
    → edi + 4 * n < 2 ^ 32
    → (w : ℕ) → rep_stosl n edi m w ≡ (if within (edi / 4) n w then 0 else m w)
unfolding rep_stosl
rep_stosl-words zero edi m z h w = ground arith
rep_stosl-words (suc n) edi m z h w =
    let next : u32 (edi + 4) ≡ edi + 4 = omega arith in
    let fourth : (edi + 4) / 4 ≡ edi / 4 + 1 = omega arith in
    rw next (
      ground (
        arith,
        fourth,
        rep_stosl-words n (edi + 4) (update m (edi / 4) 0) (omega arith) (omega arith) w,
      ))

-- The pages that clear_pages is given, when they do not reach the end of memory, are cleared, and no other word is
-- written.
pub clear_pages-words :
    (m : Memory) (address count : ℕ)
    → address % 4 ≡ 0
    → address + count * 4096 < 2 ^ 32
    → (w : ℕ)
    → (clear_pages m address count).words w
      ≡ (if within (address / 4) (count * 1024) w then 0 else m.words w)
unfolding clear_pages
clear_pages-words m address count z h w =
    rep_stosl-words (count * 1024) address m.words z (omega arith) w

-- A table that has room for all entries that are left.
pub fill_table-words :
    (rounds pt i2 count flags : ℕ) (m : ℕ → ℕ)
    → 1 ≤ count
    → count ≤ rounds
    → count < 2 ^ 32
    → ((fill_table rounds pt i2 count flags m).0 ≡ none)
      × ((w : ℕ)
          → (fill_table rounds pt i2 count flags m).1 w
            ≡ (if within (pt / 4 + i2) count w then flags else m w))
unfolding fill_table
fill_table-words zero pt i2 count flags m one h k = absurd (omega arith)
fill_table-words (suc rounds) pt i2 count flags m one h k =
    let less : sub32 count 1 ≡ count - 1 = omega arith in
    rw less (elim (Bool-cases (count - 1 == 0)) [
      | inl last ↦ rw last (refl, λ w. ground (arith, last))
      | inr more ↦
          let rest =
            fill_table-words rounds pt (i2 + 1) (count - 1) flags (update m (pt / 4 + i2) flags)
              (ground (arith, more)) (omega arith) (omega arith) in
          rw more (rest.0, λ w. ground (arith, rest.1 w, more))
    ])

table_there :
    (rounds : ℕ) (s : Space) (i1 : ℕ)
    → (page_of (words s (virtual_directory_word s i1)) == 0) ≡ false
    → table_of rounds s i1 ≡ some (page_of (words s (virtual_directory_word s i1)), s)
unfolding table_of
table_there rounds s i1 there_is = rw (there_is, table_of) refl

-- The table is there and has room: one round of the loop over the tables.
fill_one_table :
    (tables rounds : ℕ) (s : Space) (i1 i2 count flags : ℕ)
    → (page_of (words s (virtual_directory_word s i1)) == 0) ≡ false
    → (fill_table
        (1024 - i2)
        (page_of (words s (virtual_directory_word s i1)))
        i2
        count
        flags
        (words s)).0
      ≡ none
    → fill_directory (suc tables) rounds s i1 i2 count flags
      ≡ some (
        true,
        with_memory s (record s.memory {
          words =
              (fill_table
                (1024 - i2)
                (page_of (words s (virtual_directory_word s i1)))
                i2
                count
                flags
                (words s)).1;
        }),
      )
unfolding fill_directory
fill_one_table tables rounds s i1 i2 count flags there_is all =
    rw (table_there rounds s i1 there_is, there_is, all, fill_directory) refl

module _ (rounds : ℕ) (s : Space) (count : ℕ) (zeroed : Bool)
    (no_fit : take_free count s.virtual_block.free ≡ none)
    (records_left : s.virtual_block.pages_index < 256) (one : 1 ≤ count)
    (fits : table_index s.virtual_address + count ≤ 1024) (address_lt : s.virtual_address < 2 ^ 32)
    (present : page_of (words s (virtual_directory_word s (directory_index s.virtual_address)))
      ≢ 0) where
  abbrev i1 : ℕ
  i1 = directory_index s.virtual_address

  abbrev i2 : ℕ
  i2 = table_index s.virtual_address

  abbrev pt : ℕ
  pt = page_of (words s (virtual_directory_word s i1))

  find_fresh : find_page rounds s count ≡ some (some (fresh_page s count).0, (fresh_page s count).1)
  unfolding find_page records_page
  find_fresh =
      let e : leb vm_block_pages_count s.virtual_block.pages_index ≡ false = ground arith in
      rw (no_fit, find_page) (rw (e, records_page) refl)

  filled :
      ((fill_table (1024 - i2) pt i2 count (assign_flags zeroed) (words s)).0 ≡ none)
      × ((w : ℕ)
          → (fill_table (1024 - i2) pt i2 count (assign_flags zeroed) (words s)).1 w
            ≡ (if within (pt / 4 + i2) count w then assign_flags zeroed else words s w))
  filled =
      fill_table-words (1024 - i2) pt i2 count (assign_flags zeroed) (words s) one (omega arith)
        (omega arith)

  -- A request for at least one page that no free record fits, while the last page of records has room and
  -- the table of the next virtual address is there with enough entries left, always gets a pointer: that
  -- address. Just the entries of its pages are written, each with VIRTUAL_ASSIGNED and, for cleared pages,
  -- VIRTUAL_ZERO; the new record is at the front of the used ones, and virtual_address goes on one page
  -- behind the region.
  pub kmemory_virtual_page_allocate_fresh :
      (u : Space) × (kmemory_virtual_page_allocate rounds s count zeroed
        ≡ some (s.virtual_address, u))
      × (u.virtual_block.used
          ≡ record { count = count; page = s.virtual_address } ∷ s.virtual_block.used)
      × (u.virtual_block.free ≡ s.virtual_block.free)
      × (u.virtual_address ≡ u32 (s.virtual_address + (count + 1) * 4096))
      × ((w : ℕ)
          → words u w ≡ (if within (pt / 4 + i2) count w then assign_flags zeroed else words s w))
  unfolding kmemory_virtual_page_allocate fresh_page
  kmemory_virtual_page_allocate_fresh =
      let t = (fresh_page s count).1 in
      let e : 1024 - i1 ≡ suc (1023 - i1) = omega arith in
      let there_is : (pt == 0) ≡ false = ground (arith, present) in
      let step =
        fill_one_table (1023 - i1) rounds t i1 i2 count (assign_flags zeroed) there_is filled.0 in
      (
        link_used (fresh_page s count).0 (
            with_memory t (record t.memory {
              words = (fill_table (1024 - i2) pt i2 count (assign_flags zeroed) (words s)).1;
            })),
        rw (find_fresh, kmemory_virtual_page_allocate) (rw (e, step) refl),
        refl,
        refl,
        omega arith,
        filled.1,
      )
