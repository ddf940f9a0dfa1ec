-- ===== src/Memory/Virtual/Fault.antt =====
-- handle_page_fault of arch/ia32/memory.c, from the lock to the return: false when the thread is killed,
-- after the messages.
use Prim.Native.Nat.{bit_or}
use rjk.Base.{
  ℕ, ◌+◌, ◌/◌, ◌%◌, ◌^◌, ◌<◌, ◌≡◌, ◌≢◌, refl, ap, ◌∙◌, Bool, true, false, ◌&&◌, Option, none, some,
  ◌==◌, if◌then◌else◌, arith, update, update_self, update_ne, test_bit,
}
use rjk.Memory.{
  Memory, get_free_pages, set_linear_entry, directory_index, table_index, table_word,
  linear_allocated,
}
use rjk.Memory.Virtual.{
  Space, words, write_word, virtual_directory_word, virtual_word, page_of, with_memory, clear_pages,
  virtual_mapped, virtual_assigned_bit, virtual_zero_bit,
}
use rjk.Memory.Virtual.Table.{within, clear_pages-words}

-- A page for the assigned entry at word `page`. The clearing at `cr2_local` goes to the page just mapped there.
unfoldable pub map_fault : Space → (cr2 page : ℕ) → Option Space
unfolding set_linear_entry clear_pages
map_fault s cr2 page =
    let page_local = words s page in
    elim (get_free_pages s.memory 1 0) [
      | none ↦ none
      | some (address, m) ↦
          let s1 = write_word (with_memory s m) page (bit_or address virtual_mapped) in
          let m1 = set_linear_entry s1.memory (page_of cr2) address linear_allocated in
          some (
            with_memory s1
              (if test_bit page_local virtual_zero_bit then clear_pages m1 address 1 else m1))
    ]

unfoldable pub handle_page_fault : Space → (cr2 : ℕ) → Option (Bool × Space)
unfolding map_fault
handle_page_fault s cr2 =
    let page_table = page_of (words s (virtual_directory_word s (directory_index cr2))) in
    let page = virtual_word s (directory_index cr2) (table_index cr2) in
    if page_table == 0
    then some (false, s)
    else if test_bit (words s page) virtual_assigned_bit
    then elim (map_fault s cr2 page) [ none ↦ none | some t ↦ some (true, t) ]
    else some (false, s)

cleared-words :
    (b : Bool) (m : Memory) (address : ℕ)
    → address % 4096 ≡ 0
    → address + 4096 < 2 ^ 32
    → (w : ℕ)
    → (if b then clear_pages m address 1 else m).words w
      ≡ (if b && within (address / 4) 1024 w then 0 else m.words w)
cleared-words true m address aligned small w =
    clear_pages-words m address 1 (omega arith) (omega arith) w
cleared-words false m address aligned small w = refl

outside :
    (b : Bool) (first count w v : ℕ)
    → within first count w ≡ false
    → (if b && within first count w then 0 else v) ≡ v
outside true first count w v e = rw e refl
outside false first count w v e = refl

module _ (s : Space) (cr2 address : ℕ) (m : Memory)
    (page_free : get_free_pages s.memory 1 0 ≡ some (address, m))
    (present : page_of (words s (virtual_directory_word s (directory_index cr2))) ≢ 0)
    (assigned : test_bit
        (words s (virtual_word s (directory_index cr2) (table_index cr2)))
        virtual_assigned_bit
      ≡ true) where
  abbrev page : ℕ
  page = virtual_word s (directory_index cr2) (table_index cr2)

  abbrev written : ℕ → ℕ
  written = update m.words page (bit_or address virtual_mapped)

  -- The word of the linear entry of the page found.
  abbrev linear_word : ℕ
  linear_word =
      table_word (record m { words = written }) (directory_index address) (table_index address)

  -- The memory with both entries written.
  abbrev both : Memory
  both = set_linear_entry (record m { words = written }) (page_of cr2) address linear_allocated

  both_page : page ≢ linear_word → both.words page ≡ bit_or address virtual_mapped
  unfolding set_linear_entry
  both_page apart =
      update_ne written linear_word page _ apart
      ∙ update_self m.words page (bit_or address virtual_mapped)

  both_linear : both.words linear_word ≡ bit_or (page_of cr2) linear_allocated
  unfolding set_linear_entry
  both_linear = update_self written linear_word (bit_or (page_of cr2) linear_allocated)

  both_other : (w : ℕ) → w ≢ page → w ≢ linear_word → both.words w ≡ m.words w
  unfolding set_linear_entry
  both_other w p l =
      update_ne written linear_word w (bit_or (page_of cr2) linear_allocated) l
      ∙ update_ne m.words page w (bit_or address virtual_mapped) p

  abbrev fault_space : Bool → Space
  fault_space cleared = with_memory s (if cleared then clear_pages both address 1 else both)

  map_fault_lem :
      (cleared : Bool)
      → test_bit (words s page) virtual_zero_bit ≡ cleared
      → map_fault s cr2 page ≡ some (fault_space cleared)
  unfolding map_fault
  map_fault_lem cleared zeroes = rw (page_free, zeroes, map_fault) refl

  -- A fault at an address whose entry has VIRTUAL_ASSIGNED, while get_free_pages finds a page at a
  -- page's address, is handled: the entry maps the page found, writable and for users, and the page's linear
  -- entry says that it is allocated for the faulting page; the whole page is cleared when the entry
  -- had VIRTUAL_ZERO, and apart from those three nothing is written that get_free_pages has not. Both
  -- entries are outside the page found, and they are not one word.
  pub handle_page_fault_lem :
      address % 4096 ≡ 0
      → address + 4096 < 2 ^ 32
      → page ≢ linear_word
      → (cleared : Bool) → test_bit (words s page) virtual_zero_bit ≡ cleared
      → within (address / 4) 1024 page ≡ false
      → within (address / 4) 1024 linear_word ≡ false
      → (t : Space) × (handle_page_fault s cr2 ≡ some (true, t))
        × (words t page ≡ bit_or address virtual_mapped)
        × (words t linear_word ≡ bit_or (page_of cr2) linear_allocated)
        × ((w : ℕ)
            → w ≢ page
            → w ≢ linear_word
            → words t w ≡ (if cleared && within (address / 4) 1024 w then 0 else m.words w))
  unfolding handle_page_fault
  handle_page_fault_lem aligned small apart cleared zeroes out_page out_linear =
      let there_is : (page_of (words s (virtual_directory_word s (directory_index cr2))) == 0)
          ≡ false =
        ground (arith, present) in
      let after = cleared-words cleared both address aligned small in
      (
        fault_space cleared,
        rw (there_is, assigned, map_fault_lem cleared zeroes) refl,
        after page
            ∙ outside cleared (address / 4) 1024 page (both.words page) out_page
            ∙ both_page apart,
        after linear_word
            ∙ outside cleared (address / 4) 1024 linear_word (both.words linear_word) out_linear
            ∙ both_linear,
        λ w p l.
            after w
            ∙ ap (λ (v : ℕ). if cleared && within (address / 4) 1024 w then 0 else v)
                (both_other w p l),
      )
