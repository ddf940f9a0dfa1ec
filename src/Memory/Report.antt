-- ===== src/Memory/Report.antt =====
-- print_page_table and copy_pages of arch/ia32/memory.c, which the kernel only keeps for debugging. What
-- is printed is a list of the calls of kprintf, each by its format and the words behind it.
pub mod Copied
use rjk.Base.{
  ℕ, zero, suc, ◌+◌, ◌*◌, ◌/◌, ◌%◌, ◌^◌, Bool, true, false, ◌||◌, List, [], ◌∷◌, ◌++◌,
  if◌then◌else◌, u32, test_bit, update, length, Line,
}
use rjk.Memory.{Memory, linear_allocated_bit, page_address}
use rjk.Memory.Virtual.{Space, words, page_of, virtual_allocated_bit, virtual_assigned_bit}

-- The loop over the entries of the table at `pt`, with `left` of them left: those with `is_shown`.
unfoldable pub entry_lines :
    (left : ℕ) → (words : ℕ → ℕ) → (is_shown : ℕ → Bool) → (pt i1 i2 : ℕ) → List Line
entry_lines zero words is_shown pt i1 i2 = []
entry_lines (suc left) words is_shown pt i1 i2 =
    let entry = words (pt / 4 + i2) in
    let rest = entry_lines left words is_shown pt i1 (i2 + 1) in
    let line : Line = (
      " %0.8x %0.8x %0.8x %0.8x %0.8x\n",
      i1 ∷ i2 ∷ page_address i1 i2 ∷ entry ∷ u32 (pt + 4 * i2) ∷ [],
    ) in
    if is_shown entry then line ∷ rest else rest

-- The loop over the directory at `ptd`, with `left` of its entries left: those with `has_table`.
unfoldable pub directory_lines :
    (left : ℕ) → (words : ℕ → ℕ) → (has_table is_shown : ℕ → Bool) → (ptd i1 : ℕ) → List Line
unfolding entry_lines
directory_lines zero words has_table is_shown ptd i1 = []
directory_lines (suc left) words has_table is_shown ptd i1 =
    let entry = words (ptd / 4 + i1) in
    let rest = directory_lines left words has_table is_shown ptd (i1 + 1) in
    let line : Line =
      ("%0.8x %0.8x %0.8x %0.8x\n", i1 ∷ i1 * 2 ^ 22 ∷ entry ∷ u32 (ptd + 4 * i1) ∷ []) in
    let table = entry_lines 1024 words is_shown (page_of entry) i1 0 in
    if has_table entry then (line ∷ table) ++ rest else rest

abbrev pub is_linear : ℕ → Bool
is_linear entry = test_bit entry linear_allocated_bit

abbrev pub is_virtual : ℕ → Bool
is_virtual entry = test_bit entry virtual_allocated_bit

-- `VIRTUAL_ALLOCATED | VIRTUAL_ASSIGNED`
abbrev pub is_virtual_page : ℕ → Bool
is_virtual_page entry = test_bit entry virtual_allocated_bit || test_bit entry virtual_assigned_bit

-- The lines of the zones from z on, with `left` of them left.
unfoldable pub zone_lines : (left : ℕ) → Memory → (z : ℕ) → List Line
zone_lines zero m z = []
zone_lines (suc left) m z =
    let zone = m.zones z in
    ("%0.8x %0.8x %0.8x\n", zone.next ∷ zone.start ∷ zone.end ∷ []) ∷ zone_lines left m (z + 1)

-- No code assigns `free_count` and `used_count`, and kmemory_linear_setup clears the page that they lie in.
unfoldable pub print_page_table : Space → List Line
unfolding zone_lines directory_lines
print_page_table s =
    let head : Line =
      ("Virtual Memory Info\n%#0.8x %#0.8x %#0.8x\n", s.virtual_address ∷ 0 ∷ 0 ∷ []) in
    let linear = directory_lines 1024 (words s) is_linear is_linear s.memory.linear_directory 0 in
    let virtual =
      directory_lines 1024 (words s) is_virtual is_virtual_page s.virtual_page_table_directory 0 in
    head
    ∷ ("Zones\n", [])
    ∷ (zone_lines 3 s.memory 0
        ++ (("Linear Page Tables\n", []) ∷ (linear ++ (("Virtual Page Tables\n", []) ∷ virtual))))

-- `rep movsl`
unfoldable pub rep_movsl : (ecx edi esi : ℕ) → (ℕ → ℕ) → ℕ → ℕ
rep_movsl zero edi esi m = m
rep_movsl (suc ecx) edi esi m =
    rep_movsl ecx (u32 (edi + 4)) (u32 (esi + 4)) (update m (edi / 4) (m (esi / 4)))

unfoldable pub copy_pages : Memory → (destination source count : ℕ) → Memory
unfolding rep_movsl
copy_pages m destination source count = record m {
  words = rep_movsl (count * 1024) destination source m.words;
}
