-- ===== src/Memory/Scan.antt =====
-- What the loops of get_free_pages of arch/ia32/memory.c find.
use rjk.Base.{
  ℕ, zero, suc, ◌+◌, ◌-◌, ◌<◌, ◌≤◌, ◌≡◌, ◌≢◌, refl, true, false, ◌==◌, arith, Bool-cases, inl, inr,
  test_bit, ℕ_discrete, dec_lt, ◌⊎◌, if◌then◌else◌,
}
use mathlib.Core.Path.{subst, sym}
use rjk.Memory.{
  Memory, Zone, Run, found, open_run, is_available, scan_table, scan_entry, scan_directory,
  scan_zone, page_address, directory_entry, linear_allocated_bit, directory_index, table_index,
}

-- A page whose table is there and whose entry says that it is available, and the address of one.
abbrev pub IsAvailable : Memory → (k j : ℕ) → Type 0
IsAvailable m k j =
    (test_bit (directory_entry m k) linear_allocated_bit ≡ true)
    × (is_available m k j ≡ true)
    × (j < 1024)

abbrev pub AvailableAt : Memory → (address : ℕ) → Type 0
AvailableAt m address = (k : ℕ) × (j : ℕ) × IsAvailable m k j × (address ≡ page_address k j)

-- What a search has found: the first and the last page of the run are free. A run of one page is at the
-- address answered, and no run is open when a search for one page goes on.
abbrev pub IsFound : Memory → ℕ → Run → Type 0
IsFound m count (found a i1 i2) =
    IsAvailable m i1 i2 × AvailableAt m a × (count ≡ 1 → a ≡ page_address i1 i2)
IsFound m count (open_run c a) = (count ≡ 1 → c ≡ 0) × (c ≢ 0 → AvailableAt m a)

-- A page that a search from (i1, i2) over `rounds` tables visits.
abbrev pub Visited : Memory → (rounds i1 i2 k j : ℕ) → Type 0
Visited m rounds i1 i2 k j =
    (i1 ≤ k)
    × (k < i1 + rounds)
    × (k ≡ i1 → i2 ≤ j)
    × (j < 1024)
    × (test_bit (directory_entry m k) linear_allocated_bit ≡ true)

-- A search that has found nothing has met no free page.
abbrev pub IsOpen : Run → Type 0
IsOpen (found a i1 i2) = ⊥
IsOpen (open_run c a) = Unit

module _ (m : Memory) where
  -- The first page of the run that a free page belongs to.
  first_page :
      (i1 i2 c a : ℕ)
      → IsAvailable m i1 i2
      → (c ≢ 0 → AvailableAt m a)
      → AvailableAt m (if c == 0 then page_address i1 i2 else a)
  first_page i1 i2 c a here before = elim (Bool-cases (c == 0)) [
    | inl new ↦ rw new (i1, i2, here, refl)
    | inr more ↦ rw more (before (ground (arith, more)))
  ]

  scan_table-IsFound :
      (rounds count i1 i2 c a : ℕ)
      → test_bit (directory_entry m i1) linear_allocated_bit ≡ true
      → i2 + rounds ≤ 1024
      → IsFound m count (open_run c a)
      → IsFound m count (scan_table rounds m count i1 i2 c a)
  unfolding scan_table
  scan_table-IsFound zero count i1 i2 c a there h run = run
  scan_table-IsFound (suc rounds) count i1 i2 c a there h run =
      elim (Bool-cases (is_available m i1 i2)) [
        | inl y ↦
            let here : IsAvailable m i1 i2 = (there, y, omega arith) in
            elim (Bool-cases (c + 1 == count)) [
              | inl last ↦
                  rw (y, last)
                    (here, first_page i1 i2 c a here run.1, λ one. ground (arith, run.0 one))
              | inr more ↦
                  rw (y, more)
                    (scan_table-IsFound rounds count i1 (i2 + 1) (c + 1) _ there (omega arith) (
                      λ one. absurd (ground (arith, run.0 one)),
                      λ ne. first_page i1 i2 c a here run.1,
                    ))
            ]
        | inr n ↦ rw n (
            scan_table-IsFound rounds count i1 (i2 + 1) 0 0 there (omega arith)
              (λ one. refl, λ ne. absurd (ne refl)))
      ]

  scan_entry-IsFound :
      (count i1 i2 c a : ℕ)
      → i2 ≤ 1024
      → IsFound m count (open_run c a)
      → IsFound m count (scan_entry m count i1 i2 c a)
  unfolding scan_entry
  scan_entry-IsFound count i1 i2 c a h none_open =
      elim (Bool-cases (test_bit (directory_entry m i1) linear_allocated_bit)) [
        | inl y ↦ rw y (scan_table-IsFound (1024 - i2) count i1 i2 c a y (omega arith) none_open)
        | inr n ↦ rw n none_open
      ]

  pub scan_directory-IsFound :
      (rounds count i1 i2 c a : ℕ)
      → i2 ≤ 1024
      → IsFound m count (open_run c a)
      → IsFound m count (scan_directory rounds m count i1 i2 c a)
  unfolding scan_directory
  scan_directory-IsFound zero count i1 i2 c a h none_open = none_open
  scan_directory-IsFound (suc rounds) count i1 i2 c a h none_open =
      go (scan_entry m count i1 i2 c a) (scan_entry-IsFound count i1 i2 c a h none_open)
        (λ c' a'. scan_directory-IsFound rounds count (i1 + 1) 0 c' a' (omega arith))
    where
      go :
          (r : Run)
          → IsFound m count r
          → ((c' a' : ℕ)
              → IsFound m count (open_run c' a')
              → IsFound m count (scan_directory rounds m count (i1 + 1) 0 c' a'))
          → IsFound m count (elim r [
            | found b j1 j2 ↦ found b j1 j2
            | open_run c' a' ↦ scan_directory rounds m count (i1 + 1) 0 c' a'
          ])
      go (found b j1 j2) f rest = f
      go (open_run c' a') f rest = rest c' a' f

  scan_table-open :
      (rounds i1 i2 a : ℕ)
      → IsOpen (scan_table rounds m 1 i1 i2 0 a)
      → (j : ℕ) → i2 ≤ j
      → j < i2 + rounds
      → is_available m i1 j ≡ false
  unfolding scan_table
  scan_table-open zero i1 i2 a o j p q = absurd (omega arith)
  scan_table-open (suc rounds) i1 i2 a o j p q = elim (Bool-cases (is_available m i1 i2)) [
    | inl y ↦ absurd (rw y at o)
    | inr n ↦ elim (ℕ_discrete i2 j) [
      | yes e ↦ subst (λ t. is_available m i1 t ≡ false) e n
      | no ne ↦ scan_table-open rounds i1 (i2 + 1) 0 (rw n at o) j (omega arith) (omega arith)
    ]
  ]

  scan_entry-open :
      (i1 i2 a : ℕ)
      → IsOpen (scan_entry m 1 i1 i2 0 a)
      → test_bit (directory_entry m i1) linear_allocated_bit ≡ true
      → (j : ℕ) → i2 ≤ j
      → j < 1024
      → is_available m i1 j ≡ false
  unfolding scan_entry
  scan_entry-open i1 i2 a o here j p q =
      scan_table-open (1024 - i2) i1 i2 a (rw here at o) j p (omega arith)

  -- A search for one page over whole tables that stays open has met no free page.
  pub scan_directory-open :
      (rounds i1 i2 a : ℕ)
      → i2 ≤ 1024
      → IsOpen (scan_directory rounds m 1 i1 i2 0 a)
      → (k j : ℕ) → Visited m rounds i1 i2 k j
      → is_available m k j ≡ false
  unfolding scan_directory
  scan_directory-open zero i1 i2 a h o k j v = absurd (omega arith)
  scan_directory-open (suc rounds) i1 i2 a h o k j v =
      go (scan_entry m 1 i1 i2 0 a)
        (scan_entry-IsFound 1 i1 i2 0 a h (λ e. refl, λ ne. absurd (ne refl)))
        (λ e open_entry.
          subst (λ t. is_available m t j ≡ false) e
            (scan_entry-open i1 i2 a open_entry
              (subst (λ t. test_bit (directory_entry m t) linear_allocated_bit ≡ true) (sym e) v.4)
              j (v.2 (sym e)) v.3))
        (λ ne a' o'.
          scan_directory-open rounds (i1 + 1) 0 a' (omega arith) o' k j
            (omega arith, omega arith, λ e. omega arith, v.3, v.4))
        o
    where
      go :
          (r : Run)
          → IsFound m 1 r
          → (i1 ≡ k → IsOpen r → is_available m k j ≡ false)
          → (i1 ≢ k
              → (a' : ℕ) → IsOpen (scan_directory rounds m 1 (i1 + 1) 0 0 a')
              → is_available m k j ≡ false)
          → IsOpen (elim r [
            | found b j1 j2 ↦ found b j1 j2
            | open_run c' a' ↦ scan_directory rounds m 1 (i1 + 1) 0 c' a'
          ])
          → is_available m k j ≡ false
      go (found b j1 j2) f here there o = absurd o
      go (open_run c' a') f here there o = elim (ℕ_discrete i1 k) [
        | yes e ↦ here e tt
        | no ne ↦
            there ne a'
              (subst (λ t. IsOpen (scan_directory rounds m 1 (i1 + 1) 0 t a')) (f.0 refl) o)
      ]

-- Does a run stay open?
Run-open :
    (r : Run)
    → ((a : ℕ) × (i1 : ℕ) × (i2 : ℕ) × (r ≡ found a i1 i2))
      ⊎ ((c : ℕ) × (a : ℕ) × (r ≡ open_run c a))
Run-open (found a i1 i2) = inl (a, i1, i2, refl)
Run-open (open_run c a) = inr (c, a, refl)

module _ (m : Memory) (z : Zone) where
  abbrev first_pass : ℕ → Run
  first_pass count =
      scan_directory (directory_index z.end + 1 - directory_index z.next) m count
        (directory_index z.next) (table_index z.next) 0 0

  abbrev second_pass : ℕ → ℕ → ℕ → Run
  second_pass count c a =
      scan_directory (directory_index z.next + 1 - directory_index z.start) m count
        (directory_index z.start) (table_index z.start) c a

  pub scan_zone-IsFound : (count : ℕ) → IsFound m count (scan_zone m z count)
  unfolding scan_zone
  scan_zone-IsFound count = go (first_pass count) (
      scan_directory-IsFound m (directory_index z.end + 1 - directory_index z.next) count
        (directory_index z.next) (table_index z.next) 0 0 (omega arith)
        (λ e. refl, λ ne. absurd (ne refl)))
    where
      go :
          (r : Run)
          → IsFound m count r
          → IsFound m count
              (elim r [ found b j1 j2 ↦ found b j1 j2 | open_run c a ↦ second_pass count c a ])
      go (found b j1 j2) f = f
      go (open_run c a) f =
          scan_directory-IsFound m (directory_index z.next + 1 - directory_index z.start) count
            (directory_index z.start) (table_index z.start) c a (omega arith) f

  -- A page of a zone: from its start to the end of the table of its end.
  abbrev pub InZone : ℕ → ℕ → Type 0
  InZone k j =
      (directory_index z.start ≤ k)
      × (k ≤ directory_index z.end)
      × (k ≡ directory_index z.start → table_index z.start ≤ j)
      × (j < 1024)
      × (test_bit (directory_entry m k) linear_allocated_bit ≡ true)

  pub scan_zone-open :
      IsOpen (scan_zone m z 1) → (k j : ℕ) → InZone k j → is_available m k j ≡ false
  unfolding scan_zone
  scan_zone-open o k j v =
      go (first_pass 1)
        (scan_directory-IsFound m (directory_index z.end + 1 - directory_index z.next) 1
          (directory_index z.next) (table_index z.next) 0 0 (omega arith)
          (λ e. refl, λ ne. absurd (ne refl)))
        (λ behind first.
          scan_directory-open m (directory_index z.end + 1 - directory_index z.next)
            (directory_index z.next) (table_index z.next) 0 (omega arith) first k j
            (omega arith, omega arith, λ e. omega arith, v.3, v.4))
        (λ within a second.
          scan_directory-open m (directory_index z.next + 1 - directory_index z.start)
            (directory_index z.start) (table_index z.start) a (omega arith) second k j
            (v.0, omega arith, v.2, v.3, v.4))
        o
    where
      go :
          (r : Run)
          → IsFound m 1 r
          → (directory_index z.next < k → IsOpen r → is_available m k j ≡ false)
          → (k ≤ directory_index z.next
              → (a : ℕ) → IsOpen (second_pass 1 0 a)
              → is_available m k j ≡ false)
          → IsOpen (elim r [ found b j1 j2 ↦ found b j1 j2 | open_run c a ↦ second_pass 1 c a ])
          → is_available m k j ≡ false
      go (found b j1 j2) f behind within o = absurd o
      go (open_run c a) f behind within o = elim (dec_lt (directory_index z.next) k) [
        | yes lt ↦ behind lt tt
        | no ge ↦ within (omega arith) a (subst (λ t. IsOpen (second_pass 1 t a)) (f.0 refl) o)
      ]
