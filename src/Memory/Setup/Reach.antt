-- ===== src/Memory/Setup/Reach.antt =====
-- The address spaces that the functions of arch/ia32/memory.c reach from kmemory_linear_setup on.
use rjk.Base.{
  [], ℕ, zero, suc, ◌+◌, ◌/◌, ◌*◌, ◌^◌, ◌<◌, ◌≡◌, refl, Bool, true, false, Option, none, some, ◌==◌,
  if◌then◌else◌, u32, test_bit,
}
use mathlib.Core.Path.{subst}
use rjk.Memory.{
  Memory, get_free_pages, directory_index, table_index, directory_entry, linear_allocated_bit,
}
use rjk.Memory.Virtual.{
  Space, VmBlock, words, virtual_directory_word, virtual_word, virtual_assigned_bit, page_of,
  map_page, map_pages, kmemory_linear_page_map, kmemory_linear_page_allocate, with_memory,
  clear_pages,
}
use rjk.Memory.Virtual.Allocate.{kmemory_virtual_page_allocate}
use rjk.Memory.Virtual.Unallocate.{kmemory_virtual_page_unallocate}
use rjk.Memory.Virtual.Frame.{
  Same, Same-trans, Holds, any-Holds, then-Holds, case-Holds, map_page-Same, At,
}
use rjk.Memory.Virtual.Invariant.{
  Allocated, Unallocated, IsRegions, Same-IsRegions, kmemory_virtual_page_allocate-Allocated,
  kmemory_virtual_page_unallocate-Unallocated,
}
use rjk.Memory.Virtual.Fault.{handle_page_fault, map_fault}
use rjk.Memory.Setup.{
  page_behind, setup_zones, kmemory_linear_setup, kmemory_virtual_setup, setup_pages, linear_block,
  block_tables, tables_loop, map_entries, map_tables,
}

-- Each function when it returns, in any order. An allocation has room behind virtual_address.
pub data Reach : Space → Type 0 where
  linear_setup :
      {s : Space} (rounds : ℕ) (m : Memory) (mem_upper kernel_max : ℕ)
      → kmemory_linear_setup rounds m mem_upper kernel_max ≡ some s
      → Reach s
  virtual_setup :
      {s t : Space} (rounds : ℕ) → Reach s → kmemory_virtual_setup rounds s ≡ some t → Reach t
  linear_map :
      {s t : Space} (rounds address count result : ℕ)
      → Reach s
      → kmemory_linear_page_map rounds s address count ≡ some (result, t)
      → Reach t
  linear_allocate :
      {s t : Space} (rounds count result : ℕ) (dma : Bool)
      → Reach s
      → kmemory_linear_page_allocate rounds s count dma ≡ some (result, t)
      → Reach t
  allocate :
      {s t : Space} (rounds count pointer : ℕ) (zeroed : Bool)
      → Reach s
      → s.virtual_address + (count + 1) * 4096 < 2 ^ 32
      → kmemory_virtual_page_allocate rounds s count zeroed ≡ some (pointer, t)
      → Reach t
  unallocate :
      {s t : Space} (pointer : ℕ)
      → Reach s
      → kmemory_virtual_page_unallocate s pointer ≡ t
      → Reach t
  fault :
      {s t : Space} (cr2 : ℕ) (handled : Bool)
      → Reach s
      → handle_page_fault s cr2 ≡ some (handled, t)
      → Reach t

self_Same : (s : Space) → Same s s
self_Same s = (refl, refl, refl)

map_fault-Same : (s : Space) (cr2 page : ℕ) → Holds (Same s) (map_fault s cr2 page)
unfolding map_fault
map_fault-Same s cr2 page =
    then-Holds (λ _. Unit {0}) (Same s) (get_free_pages s.memory 1 0) _
      (any-Holds (get_free_pages s.memory 1 0)) (λ r _. (refl, refl, refl))

if-Holds :
    {A : Type 0} (P : A → Type 0) (b : Bool) (x y : Option A)
    → Holds P x
    → Holds P y
    → Holds P (if b then x else y)
if-Holds P true x y hx hy = hx
if-Holds P false x y hx hy = hy

handle_page_fault-Same : (s : Space) (cr2 : ℕ) → Holds (At s Bool) (handle_page_fault s cr2)
unfolding handle_page_fault
handle_page_fault-Same s cr2 =
    let page = virtual_word s (directory_index cr2) (table_index cr2) in
    if-Holds (At s Bool) (page_of (words s (virtual_directory_word s (directory_index cr2))) == 0) _
      _ (refl, refl, refl)
      (if-Holds (At s Bool) (test_bit (words s page) virtual_assigned_bit) _ _
        (then-Holds (Same s) (At s Bool) (map_fault s cr2 page) _ (map_fault-Same s cr2 page)
          (λ t h. h))
        (refl, refl, refl))

trans-Holds : (s t : Space) (o : Option Space) → Same s t → Holds (Same t) o → Holds (Same s) o
trans-Holds s t none h a = tt
trans-Holds s t (some r) h a = Same-trans s t r h a

map_pages-Same :
    (rounds count : ℕ) (s : Space) (local : ℕ) → Holds (Same s) (map_pages rounds count s local)
unfolding map_pages
map_pages-Same rounds zero s local = (refl, refl, refl)
map_pages-Same rounds (suc count) s local =
    then-Holds (Same s) (Same s) (map_page rounds s local) _ (map_page-Same rounds s local) (λ t h.
      trans-Holds s t (map_pages rounds count t (u32 (local + 4096))) h
        (map_pages-Same rounds count t (u32 (local + 4096))))

linear_map-Same :
    (rounds : ℕ) (s : Space) (address count : ℕ)
    → Holds (At s ℕ) (kmemory_linear_page_map rounds s address count)
unfolding kmemory_linear_page_map
linear_map-Same rounds s address count =
    then-Holds (Same s) (At s ℕ) (map_pages rounds count s address) _
      (map_pages-Same rounds count s address) (λ t h. h)

linear_allocate-Same :
    (rounds : ℕ) (s : Space) (count : ℕ) (dma : Bool)
    → Holds (At s ℕ) (kmemory_linear_page_allocate rounds s count dma)
unfolding kmemory_linear_page_allocate
linear_allocate-Same rounds s count dma =
    let o = get_free_pages s.memory count (if dma then 1 else 0) in
    then-Holds (λ _. Unit {0}) (At s ℕ) o _ (any-Holds o)
      (λ r _.
        case-Holds (At s ℕ) (r.0 == 0) _ _
          (then-Holds (Same s) (At s ℕ) (map_pages rounds count (with_memory s r.1) r.0) _
            (map_pages-Same rounds count (with_memory s r.1) r.0) (λ t h. h))
          (refl, refl, refl))

map_entries-Same :
    (rounds left : ℕ) (s : Space) (pt i2 : ℕ) → Holds (Same s) (map_entries rounds left s pt i2)
unfolding map_entries
map_entries-Same rounds zero s pt i2 = (refl, refl, refl)
map_entries-Same rounds (suc left) s pt i2 =
    let entry = s.memory.words (pt / 4 + i2) in
    case-Holds (Same s) (test_bit entry linear_allocated_bit) _ _
      (map_entries-Same rounds left s pt (i2 + 1))
      (then-Holds (Same s) (Same s) (map_page rounds s (page_of entry)) _
        (map_page-Same rounds s (page_of entry))
        (λ t h.
          trans-Holds s t (map_entries rounds left t pt (i2 + 1)) h
            (map_entries-Same rounds left t pt (i2 + 1))))

map_tables-Same :
    (rounds left : ℕ) (s : Space) (i1 : ℕ) → Holds (Same s) (map_tables rounds left s i1)
unfolding map_tables
map_tables-Same rounds zero s i1 = (refl, refl, refl)
map_tables-Same rounds (suc left) s i1 =
    let pt = page_of (directory_entry s.memory i1) in
    case-Holds (Same s) (test_bit (directory_entry s.memory i1) linear_allocated_bit) _ _
      (map_tables-Same rounds left s (i1 + 1))
      (then-Holds (Same s) (Same s) (map_page rounds s pt) _ (map_page-Same rounds s pt) (λ t h.
        then-Holds (Same s) (Same s) (map_entries rounds 1024 t pt 0) _
          (trans-Holds s t (map_entries rounds 1024 t pt 0) h (map_entries-Same rounds 1024 t pt 0))
          (λ u k.
            trans-Holds s u (map_tables rounds left u (i1 + 1)) k
              (map_tables-Same rounds left u (i1 + 1)))))

virtual_setup-Same : (rounds : ℕ) (s : Space) → Holds (Same s) (kmemory_virtual_setup rounds s)
unfolding kmemory_virtual_setup
virtual_setup-Same rounds s = map_tables-Same rounds 1024 s 0

abbrev RegionsOf : Space → Type 0
RegionsOf s = IsRegions s.virtual_block s.virtual_address

-- What kmemory_linear_setup makes of virtual_block.
abbrev start : (block : ℕ) → VmBlock
start block = record {
  block = block;
  pages = u32 (block + 4096);
  free = [];
  used = [];
  pages_index = 0;
}

empty : (block : ℕ) → IsRegions (start block) 0x10000000
empty block = record {
  disjoint = record { first = tt; second = tt; cross = tt };
  free_below = tt;
  used_below = tt;
}

linear_setup-IsRegions :
    (rounds : ℕ) (m : Memory) (mem_upper kernel_max : ℕ)
    → Holds RegionsOf (kmemory_linear_setup rounds m mem_upper kernel_max)
unfolding kmemory_linear_setup
linear_setup-IsRegions rounds m mem_upper kernel_max =
    let directory = page_behind kernel_max in
    let m1 = clear_pages (record m { linear_directory = directory }) directory 1 in
    let r = tables_loop (mem_upper / 2 ^ 22 + 1) m1 0 (u32 (directory + 4096)) 0 mem_upper in
    then-Holds (λ _. Unit {0}) RegionsOf
      (linear_block rounds r.0 directory (u32 (directory + 4096))) _ (any-Holds _)
      (λ m3 _.
        then-Holds (λ _. Unit {0}) RegionsOf (block_tables rounds (mem_upper / 2 ^ 22 + 1) m3 0) _
          (any-Holds _)
          (λ m4 _.
            let m5 = record m4 { zones = setup_zones m4.zones r.1 mem_upper } in
            then-Holds (λ _. Unit {0}) RegionsOf (setup_pages rounds m5 1) _ (any-Holds _)
              (λ p _.
                then-Holds (λ _. Unit {0}) RegionsOf (setup_pages rounds p.1 2)
                  (λ q. some (record {
                    memory = q.1;
                    virtual_page_table_directory = p.0;
                    virtual_block = start q.0;
                    virtual_address = 0x10000000;
                  }))
                  (any-Holds _) (λ q _. empty q.0))))

-- From the end of kmemory_linear_setup on, over any sequence of kmemory_virtual_setup, page mappings,
-- allocations of linear and virtual pages, unallocations and page faults, each allocation with room for its
-- region and a page behind it: the regions of all records, used and free, are disjoint, with a page at
-- least between two of them, and end below virtual_address.
pub Reach-IsRegions : (s : Space) → Reach s → IsRegions s.virtual_block s.virtual_address
Reach-IsRegions s (linear_setup rounds m mem_upper kernel_max e) =
    subst (Holds RegionsOf) e (linear_setup-IsRegions rounds m mem_upper kernel_max)
Reach-IsRegions t (virtual_setup {s} rounds r e) =
    Same-IsRegions s t (subst (Holds (Same s)) e (virtual_setup-Same rounds s))
      (Reach-IsRegions s r)
Reach-IsRegions t (linear_map {s} rounds address count result r e) =
    Same-IsRegions s t (subst (Holds (At s ℕ)) e (linear_map-Same rounds s address count))
      (Reach-IsRegions s r)
Reach-IsRegions t (linear_allocate {s} rounds count result dma r e) =
    Same-IsRegions s t (subst (Holds (At s ℕ)) e (linear_allocate-Same rounds s count dma))
      (Reach-IsRegions s r)
Reach-IsRegions t (allocate {s} rounds count pointer zeroed r room e) =
    (subst (Holds (Allocated s count)) e
      (kmemory_virtual_page_allocate-Allocated rounds s count (Reach-IsRegions s r) room zeroed)).0
Reach-IsRegions t (unallocate {s} pointer r e) =
    (subst (Unallocated s pointer) e
      (kmemory_virtual_page_unallocate-Unallocated s pointer (Reach-IsRegions s r))).0
Reach-IsRegions t (fault {s} cr2 handled r e) =
    Same-IsRegions s t (subst (Holds (At s Bool)) e (handle_page_fault-Same s cr2))
      (Reach-IsRegions s r)
