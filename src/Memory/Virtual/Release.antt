-- ===== src/Memory/Virtual/Release.antt =====
-- What kmemory_virtual_page_unallocate of arch/ia32/memory.c writes.
use rjk.Base.{
  ℕ, zero, suc, ◌+◌, ◌-◌, ◌*◌, ◌/◌, ◌^◌, ◌<◌, ◌≤◌, ◌≡◌, ◌≢◌, refl, sym, ap, ◌∙◌, inl, inr, false,
  none, some, List, ◌==◌, if◌then◌else◌, sub32, arith, Bool-cases, test_bit,
}
use rjk.Memory.{Memory, directory_index, table_index, table_word, set_linear_entry}
use rjk.Memory.Virtual.{
  VmPage, Space, words, virtual_directory_word, page_of, with_memory, virtual_allocated_bit,
}
use rjk.Memory.Virtual.Table.{within}
use rjk.Memory.Virtual.Unallocate.{
  take_used, clear_entry, clear_table, clear_directory, kmemory_virtual_page_unallocate,
}

-- One entry is cleared, and of the other words only the linear entry of page 0 may change.
pub record Cleared (m m' : Memory) (entry : ℕ) : Type 0 where
  pub directory_eq : m'.linear_directory ≡ m.linear_directory
  pub words_eq : (w : ℕ) → w ≢ table_word m 0 0 → m'.words w ≡ (if w == entry then 0 else m.words w)

clear_entry-Cleared : (m : Memory) (entry : ℕ) → Cleared m (clear_entry m entry) entry
unfolding clear_entry set_linear_entry
clear_entry-Cleared m entry = elim (Bool-cases (test_bit (m.words entry) virtual_allocated_bit)) [
  | inl mapped ↦ rw mapped (record { directory_eq = refl; words_eq = λ w ne. ground (arith, ne) })
  | inr other ↦ rw other (record { directory_eq = refl; words_eq = λ w ne. refl })
]

-- The linear entry of page 0 stays where it is when its directory word is not cleared.
table_word-Cleared :
    (m m' : Memory) (entry : ℕ)
    → Cleared m m' entry
    → m.linear_directory / 4 ≢ table_word m 0 0
    → m.linear_directory / 4 ≢ entry
    → table_word m' 0 0 ≡ table_word m 0 0
table_word-Cleared m m' entry c apart other =
    let e : (m.linear_directory / 4 == entry) ≡ false = ground (arith, other) in
    let z : m.linear_directory / 4 + 0 ≡ m.linear_directory / 4 = omega arith in
    let word : m'.words (m'.linear_directory / 4 + 0) ≡ m.words (m.linear_directory / 4 + 0) =
      ap m'.words (ap (λ (d : ℕ). d / 4 + 0) c.directory_eq ∙ z)
      ∙ c.words_eq (m.linear_directory / 4) apart
      ∙ rw e (ap m.words (sym z)) in
    ap (λ (x : ℕ). x / 2 ^ 12 * 2 ^ 10 + 0) word

clear_table-words :
    (rounds pt i2 count : ℕ) (m : Memory)
    → 1 ≤ count
    → count ≤ rounds
    → count < 2 ^ 32
    → m.linear_directory / 4 ≢ table_word m 0 0
    → within (pt / 4 + i2) count (m.linear_directory / 4) ≡ false
    → ((clear_table rounds pt i2 count m).0 ≡ none)
      × ((w : ℕ)
          → w ≢ table_word m 0 0
          → (clear_table rounds pt i2 count m).1.words w
            ≡ (if within (pt / 4 + i2) count w then 0 else m.words w))
unfolding clear_table
clear_table-words zero pt i2 count m one h k apart out = absurd (omega arith)
clear_table-words (suc rounds) pt i2 count m one h k apart out =
    let less : sub32 count 1 ≡ count - 1 = omega arith in
    let m' = clear_entry m (pt / 4 + i2) in
    let c = clear_entry-Cleared m (pt / 4 + i2) in
    let other : m.linear_directory / 4 ≢ pt / 4 + i2 = λ e. ground (arith, out, e) in
    let same = table_word-Cleared m m' (pt / 4 + i2) c apart other in
    rw less (elim (Bool-cases (count - 1 == 0)) [
      | inl last ↦ rw last (refl, λ w ne. ground (arith, last, c.words_eq w ne))
      | inr more ↦
          let rest =
            clear_table-words rounds pt (i2 + 1) (count - 1) m' (ground (arith, more)) (omega arith)
              (omega arith) (rw (same, c.directory_eq) apart)
              (rw (c.directory_eq) (ground (arith, out, other, more))) in
          rw more (rest.0, λ w ne. ground (arith, rest.1 w (rw same ne), c.words_eq w ne, more))
    ])

clear_one_table :
    (tables : ℕ) (s : Space) (i1 i2 count : ℕ)
    → (clear_table
        (1024 - i2)
        (page_of (words s (virtual_directory_word s i1)))
        i2
        count
        s.memory).0
      ≡ none
    → clear_directory (suc tables) s i1 i2 count
      ≡ with_memory s
          (clear_table
            (1024 - i2)
            (page_of (words s (virtual_directory_word s i1)))
            i2
            count
            s.memory).1
unfolding clear_directory
clear_one_table tables s i1 i2 count all = rw (all, clear_directory) refl

module _ (s : Space) (pointer : ℕ) (p : VmPage) (rest : List VmPage)
    (in_use : take_used pointer s.virtual_block.used ≡ some (p, rest)) (one : 1 ≤ p.count)
    (fits : table_index p.page + p.count ≤ 1024) (page_lt : p.page < 2 ^ 32) where
  abbrev entries : ℕ
  entries =
      page_of (words s (virtual_directory_word s (directory_index p.page))) / 4 + table_index p.page

  abbrev linear_word : ℕ
  linear_word = s.memory.linear_directory / 4

  -- Unallocating a region that lies in one table clears the entries of all its pages. When the first word
  -- of the linear directory is neither one of those entries nor the linear entry of page 0, every other
  -- word of the memory stays as it was, but for that linear entry: so no page is made available
  -- again but page 0.
  pub kmemory_virtual_page_unallocate-words :
      linear_word ≢ table_word s.memory 0 0
      → within entries p.count linear_word ≡ false
      → (w : ℕ) → w ≢ table_word s.memory 0 0
      → words (kmemory_virtual_page_unallocate s pointer) w
        ≡ (if within entries p.count w then 0 else words s w)
  unfolding kmemory_virtual_page_unallocate
  kmemory_virtual_page_unallocate-words apart out w ne =
      let e : 1024 - directory_index p.page ≡ suc (1023 - directory_index p.page) = omega arith in
      let pt = page_of (words s (virtual_directory_word s (directory_index p.page))) in
      let (all, same) =
        clear_table-words (1024 - table_index p.page) pt (table_index p.page) p.count s.memory one
          (omega arith) (omega arith) apart out in
      let t = record s { virtual_block = record s.virtual_block { used = rest } } in
      rw (in_use, kmemory_virtual_page_unallocate)
        (rw
          (
            e,
            clear_one_table (1023 - directory_index p.page) t (directory_index p.page)
                (table_index p.page) p.count all,
          )
          (same w ne))
