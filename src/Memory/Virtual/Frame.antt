-- ===== src/Memory/Virtual/Frame.antt =====
-- What the operations of arch/ia32/memory.c on page tables leave as it is.
use rjk.Base.{
  ℕ, zero, suc, ◌+◌, ◌-◌, ◌*◌, ◌/◌, ◌^◌, ◌≡◌, refl, ◌∙◌, Bool, true, false, Option, none, some,
  ◌==◌, leb,
}
use rjk.Memory.{get_free_pages, directory_index}
use rjk.Memory.Virtual.{
  page_of, Space, words, with_memory, virtual_mapped, set_virtual_entry, map_page,
  virtual_directory_word, vm_block_pages_count,
}
use rjk.Memory.Virtual.Allocate.{table_page, records_page, table_of, fill_table, fill_directory}
use rjk.Memory.Virtual.Unallocate.{clear_table, clear_directory}

-- What the operations on tables leave as it is: the lists of records and virtual_address.
abbrev pub Same : Space → Space → Type 0
Same s t =
    (t.virtual_block.free ≡ s.virtual_block.free)
    × (t.virtual_block.used ≡ s.virtual_block.used)
    × (t.virtual_address ≡ s.virtual_address)

-- Every result that there is has the property.
abbrev pub Holds : {A : Type 0} → (A → Type 0) → Option A → Type 0
Holds P none = Unit {0}
Holds P (some r) = P r

pub any-Holds : {A : Type 0} (o : Option A) → Holds (λ _. Unit {0}) o
any-Holds none = tt
any-Holds (some a) = tt

pub then-Holds :
    {A B : Type 0} (Q : A → Type 0) (P : B → Type 0) (o : Option A) (k : A → Option B)
    → Holds Q o
    → ((a : A) → Q a → Holds P (k a))
    → Holds P (elim o as (λ _. Option B) [ none ↦ none | some a ↦ k a ])
then-Holds Q P none k q h = tt
then-Holds Q P (some a) k q h = h a q

pub case-Holds :
    {B : Type 0} (P : B → Type 0) (b : Bool) (x y : Option B)
    → Holds P x
    → Holds P y
    → Holds P (elim b as (λ _. Option B) [ false ↦ x | true ↦ y ])
case-Holds P true x y hx hy = hy
case-Holds P false x y hx hy = hx

pub Same-trans : (s t u : Space) → Same s t → Same t u → Same s u
Same-trans s t u (a, b, c) (d, e, f) = (d ∙ a, e ∙ b, f ∙ c)

set_virtual_entry-Same :
    (rounds : ℕ) (s : Space) (vaddr laddr flags : ℕ)
    → Holds (Same s) (set_virtual_entry rounds s vaddr laddr flags)
unfolding set_virtual_entry
set_virtual_entry-Same zero s vaddr laddr flags = tt
set_virtual_entry-Same (suc rounds) s vaddr laddr flags =
    case-Holds (Same s) (words s (virtual_directory_word s (directory_index vaddr)) == 0) _ _
      (refl, refl, refl)
      (then-Holds (λ _. Unit {0}) (Same s) (get_free_pages s.memory 1 0) _
        (any-Holds (get_free_pages s.memory 1 0))
        (λ r _.
          then-Holds (Same s) (Same s) _ _ (set_virtual_entry-Same rounds _ r.0 r.0 virtual_mapped)
            (λ t h. h)))

pub map_page-Same : (rounds : ℕ) (s : Space) (page : ℕ) → Holds (Same s) (map_page rounds s page)
unfolding map_page
map_page-Same rounds s page =
    then-Holds (Same s) (Same s) (set_virtual_entry rounds s page page virtual_mapped) _
      (set_virtual_entry-Same rounds s page page virtual_mapped) (λ t h. h)

abbrev pub At : Space → (A : Type 0) → A × Space → Type 0
At s A r = Same s r.1

table_page-Same : (rounds : ℕ) (s : Space) → Holds (At s ℕ) (table_page rounds s)
unfolding table_page
table_page-Same rounds s =
    then-Holds (λ _. Unit {0}) (At s ℕ) (get_free_pages s.memory 1 0) _
      (any-Holds (get_free_pages s.memory 1 0))
      (λ r _.
        case-Holds (At s ℕ) (r.0 == 0) _ _
          (then-Holds (Same s) (At s ℕ) (map_page rounds (with_memory s r.1) r.0) _
            (map_page-Same rounds (with_memory s r.1) r.0) (λ t h. h))
          (refl, refl, refl))

pub records_page-Same : (rounds : ℕ) (s : Space) → Holds (At s Bool) (records_page rounds s)
unfolding records_page
records_page-Same rounds s =
    case-Holds (At s Bool) (leb vm_block_pages_count s.virtual_block.pages_index) _ _
      (refl, refl, refl)
      (then-Holds (At s ℕ) (At s Bool) (table_page rounds s) _ (table_page-Same rounds s)
        (λ r h. case-Holds (At s Bool) (r.0 == 0) _ _ h h))

table_of-Same : (rounds : ℕ) (s : Space) (i1 : ℕ) → Holds (At s ℕ) (table_of rounds s i1)
unfolding table_of
table_of-Same rounds s i1 =
    case-Holds (At s ℕ) (words s (virtual_directory_word s i1) / 2 ^ 12 * 2 ^ 12 == 0) _ _
      (refl, refl, refl)
      (then-Holds (At s ℕ) (At s ℕ) (table_page rounds s) _ (table_page-Same rounds s)
        (λ r h. case-Holds (At s ℕ) (r.0 == 0) _ _ h h))

pub Same-Holds :
    {A : Type 0} (s t : Space) (o : Option (A × Space))
    → Same s t
    → Holds (At t A) o
    → Holds (At s A) o
Same-Holds s t none h a = tt
Same-Holds s t (some r) h a = Same-trans s t r.1 h a

left-Holds :
    (P : Bool × Space → Type 0) (left : Option ℕ) (u : Space) (k : ℕ → Option (Bool × Space))
    → P (true, u)
    → ((n : ℕ) → Holds P (k n))
    → Holds P (elim left as (λ _. Option (Bool × Space)) [ none ↦ some (true, u) | some n ↦ k n ])
left-Holds P none u k h hk = h
left-Holds P (some n) u k h hk = hk n

pub fill_directory-Same :
    (tables rounds : ℕ) (s : Space) (i1 i2 count_local flags : ℕ)
    → Holds (At s Bool) (fill_directory tables rounds s i1 i2 count_local flags)
unfolding fill_directory
fill_directory-Same zero rounds s i1 i2 count_local flags = (refl, refl, refl)
fill_directory-Same (suc tables) rounds s i1 i2 count_local flags =
    then-Holds (At s ℕ) (At s Bool) (table_of rounds s i1) _ (table_of-Same rounds s i1) (λ r h.
      case-Holds (At s Bool) (r.0 == 0) _ _
        (left-Holds (At s Bool) (fill_table (1024 - i2) r.0 i2 count_local flags (words r.1)).0 _ _
          h
          (λ n.
            let u = with_memory r.1 (record r.1.memory {
              words = (fill_table (1024 - i2) r.0 i2 count_local flags (words r.1)).1;
            }) in
            Same-Holds s u (fill_directory tables rounds u (i1 + 1) 0 n flags) h
              (fill_directory-Same tables rounds u (i1 + 1) 0 n flags)))
        h)

cleared-Same :
    (left : Option ℕ) (s u : Space) (k : ℕ → Space)
    → Same s u
    → ((n : ℕ) → Same u (k n))
    → Same s (elim left as (λ _. Space) [ none ↦ u | some n ↦ k n ])
cleared-Same none s u k h hk = h
cleared-Same (some n) s u k h hk = Same-trans s u (k n) h (hk n)

pub clear_directory-Same :
    (tables : ℕ) (s : Space) (i1 i2 count_local : ℕ)
    → Same s (clear_directory tables s i1 i2 count_local)
unfolding clear_directory
clear_directory-Same zero s i1 i2 count_local = (refl, refl, refl)
clear_directory-Same (suc tables) s i1 i2 count_local =
    let r =
      clear_table (1024 - i2) (page_of (words s (virtual_directory_word s i1))) i2 count_local
        s.memory in
    cleared-Same r.0 s (with_memory s r.1)
      (λ n. clear_directory tables (with_memory s r.1) (i1 + 1) 0 n) (refl, refl, refl)
      (λ n. clear_directory-Same tables (with_memory s r.1) (i1 + 1) 0 n)
