-- ===== src/Memory/Setup/Begun.antt =====
-- The layout with which kmemory_linear_setup of arch/ia32/memory.c begins to mark pages, and that marking
-- the tables keeps it.
use mathlib.Core.Path.{subst}
use rjk.Base.{
  ℕ, zero, suc, ◌+◌, ◌*◌, ◌/◌, ◌%◌, ◌^◌, ◌<◌, ◌≤◌, ◌≡◌, refl, sym, ap, ◌∙◌, true, some, u32, arith,
  test_bit,
}
use rjk.Memory.{Memory, directory_entry, linear_available_bit, linear_allocated_bit}
use rjk.Memory.Virtual.{clear_pages, page_of}
use rjk.Memory.Setup.{
  page_behind, build_tables, tables_loop, linear_block, block_tables, linear_available,
}
use rjk.Memory.Setup.Keep.{clear_pages-below, clear_pages-directory, tables_loop-below}
use rjk.Memory.Setup.Build.{IsBuilding}
use rjk.Memory.Setup.Built.{tables_loop-end, tables_loop-entry, tables_loop-available}
use rjk.Memory.Setup.Layout.{Layout, Kept, linear_block-Kept, page_word}
use rjk.Memory.Setup.Pages.{entry_bit}

available_bit : test_bit linear_available linear_available_bit ≡ true
unfolding test_bit
available_bit = refl

-- What build_tables leaves, with all pages below mem_upper available.
pub build_tables-Layout :
    (m : Memory) (mem_upper kernel_max : ℕ)
    → 1 ≤ kernel_max
    → kernel_max + (mem_upper / 2 ^ 22 + 3) * 4096 < 2 ^ 32
    → mem_upper + 2 ^ 22 < 2 ^ 32
    → let d = page_behind kernel_max in
      Layout m.words d
        (mem_upper / 2 ^ 22 + 1)
        0
        (mem_upper / 4096)
        (build_tables m mem_upper kernel_max).0
      × ((build_tables m mem_upper kernel_max).1 ≡ d + (mem_upper / 2 ^ 22 + 2) * 4096)
unfolding build_tables
build_tables-Layout m mem_upper kernel_max pos small top =
    let n = mem_upper / 2 ^ 22 + 1 in
    let d = page_behind kernel_max in
    let la = u32 (d + 4096) in
    let m0 = record m { linear_directory = d } in
    let m1 = clear_pages m0 d 1 in
    let same : m1.linear_directory ≡ d = clear_pages-directory m0 d 1 in
    let aligned : d % 4096 ≡ 0 = omega arith in
    let under : d < kernel_max + 4096 = omega arith in
    let first : la ≡ d + (0 + 1) * 4096 = omega arith in
    let b : IsBuilding m1 d 0 la = record { at = same; aligned = aligned; address = first } in
    let (last, at) = tables_loop-end n m1 0 la 0 mem_upper (omega arith) in
    (
      record {
        directory = at ∙ same;
        aligned = aligned;
        tables = omega arith;
        entries = λ i lt.
            let word : d / 4 + 0 + i ≡ d / 4 + i = omega arith in
            subst (λ w. (tables_loop n m1 0 la 0 mem_upper).0.words w ≡ d + (i + 1) * 4096 + 256)
              word
              (tables_loop-entry n m1 d 0 la 0 mem_upper i b (omega arith) (omega arith) lt
                ∙ omega arith);
        below = λ w lt.
            tables_loop-below n m1 0 la 0 mem_upper w (omega arith) (omega arith) (rw same lt)
              (omega arith)
            ∙ clear_pages-below m0 d w (omega arith) (omega arith) lt;
        available = λ p low high.
            let word : la / 4 + p / 1024 * 1024 + p % 1024 ≡ page_word d p = omega arith in
            let marked =
              tables_loop-available n m1 d 0 la 0 mem_upper (p / 1024) (p % 1024) b refl
                (omega arith) (omega arith) (omega arith) top (omega arith) (omega arith)
                (omega arith) in
            subst
              (λ w.
                test_bit ((tables_loop n m1 0 la 0 mem_upper).0.words w) linear_available_bit
                ≡ true)
              word (rw marked available_bit);
      },
      last ∙ omega arith,
    )

block_tables_step :
    (rounds left i e address : ℕ) (m t : Memory)
    → directory_entry m i ≡ e
    → test_bit e linear_allocated_bit ≡ true
    → page_of e ≡ address
    → linear_block rounds m address (u32 (address + 4096)) ≡ some t
    → block_tables rounds (suc left) m i ≡ block_tables rounds left t (i + 1)
unfolding block_tables
block_tables_step rounds left i e address m t entry there page blocked =
    let there' : test_bit (directory_entry m i) linear_allocated_bit ≡ true =
      ap (λ (w : ℕ). test_bit w linear_allocated_bit) entry ∙ there in
    let page' : page_of (directory_entry m i) ≡ address = ap page_of entry ∙ page in
    let blocked' : linear_block rounds m (page_of (directory_entry m i))
          (u32 (page_of (directory_entry m i) + 4096))
        ≡ some t =
      subst (λ a. linear_block rounds m a (u32 (a + 4096)) ≡ some t) (sym page') blocked in
    rw (there', block_tables) (rw (blocked', block_tables) refl)

-- The pages of the tables are marked.
pub block_tables-Kept :
    (rounds left i : ℕ) (before : ℕ → ℕ) (d n lo hi : ℕ) (m : Memory)
    → Layout before d n lo hi m
    → 2 ≤ rounds
    → i + left ≤ n
    → d + (n + 1) * 4096 ≤ lo * 4096
    → lo * 4096 < 2 ^ 32
    → lo * 4096 ≤ n * 2 ^ 22
    → (t : Memory) × (block_tables rounds left m i ≡ some t) × Kept before d n lo hi m t
unfolding block_tables
block_tables-Kept rounds zero i before d n lo hi m l two room behind small covered =
    (m, refl, record { layout = l; zones = refl })
block_tables-Kept rounds (suc left) i before d n lo hi m l two room behind small covered =
    let address = d + (i + 1) * 4096 in
    let entry = l.entries i (omega arith) in
    let page : page_of (address + 256) ≡ address = omega (arith, l.aligned) in
    let (t, blocked, kept) =
      linear_block-Kept rounds 1 before d n lo lo hi m address l (omega arith) (omega arith)
        (omega (arith, l.aligned)) (omega arith) (omega arith) (omega arith) (omega arith) in
    let (u, rest, kept') =
      block_tables-Kept rounds left (i + 1) before d n lo hi t kept.layout two (omega arith) behind
        small covered in
    (
      u,
      block_tables_step rounds left i (address + 256) address m t
            (ap (λ (w : ℕ). m.words (w / 4 + i)) l.directory ∙ entry)
            (entry_bit address (omega (arith, l.aligned))) page blocked
          ∙ rest,
      record { layout = kept'.layout; zones = kept'.zones ∙ kept.zones },
    )
