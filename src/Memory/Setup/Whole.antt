-- ===== src/Memory/Setup/Whole.antt =====
-- kmemory_linear_setup of arch/ia32/memory.c as a whole: it ends, and what it leaves.
use mathlib.Core.Path.{subst}
use rjk.Base.{
  ℕ, ℕ_discrete, ◌+◌, ◌-◌, ◌*◌, ◌/◌, ◌%◌, ◌^◌, ◌<◌, ◌≤◌, ◌≡◌, refl, sym, ◌∙◌, some, [], u32, arith,
}
use rjk.Memory.{Memory, Zone, table_word}
use rjk.Memory.Virtual.{Space, VmBlock}
use rjk.Memory.Setup.{
  page_behind, build_tables, linear_block, block_tables, setup_zones, setup_pages,
  kmemory_linear_setup,
}
use rjk.Memory.Setup.Begun.{build_tables-Layout, block_tables-Kept}
use rjk.Memory.Setup.Layout.{Layout, update-Layout, linear_block-Kept, page_word}
use rjk.Memory.Setup.Taken.{TakenAt, setup_pages-TakenAt}
use rjk.Memory.Setup.Pages.{page_table_word, one_found, two_found}

dma_next :
    (zones : ℕ → Zone) (linear_address mem_upper : ℕ)
    → 0x00100000 < linear_address
    → linear_address < 0x01000000
    → (setup_zones zones linear_address mem_upper 1).next ≡ linear_address
unfolding setup_zones
dma_next zones linear_address mem_upper low high = ground (arith, low, high)

dma_end :
    (zones : ℕ → Zone) (linear_address mem_upper b : ℕ)
    → b ≤ mem_upper
    → b ≤ 0x01000000
    → b ≤ (setup_zones zones linear_address mem_upper 1).end
unfolding setup_zones
dma_end zones linear_address mem_upper b h k = ground (arith, h, k)

linear_setup_steps :
    (rounds : ℕ) (m : Memory) (mem_upper kernel_max address block : ℕ) (m3 m4 m6 m7 : Memory)
    → linear_block rounds
        (build_tables m mem_upper kernel_max).0
        (page_behind kernel_max)
        (u32 (page_behind kernel_max + 4096))
      ≡ some m3
    → block_tables rounds (mem_upper / 2 ^ 22 + 1) m3 0 ≡ some m4
    → setup_pages rounds
        (record m4 {
          zones = setup_zones m4.zones (build_tables m mem_upper kernel_max).1 mem_upper;
        })
        1
      ≡ some (address, m6)
    → setup_pages rounds m6 2 ≡ some (block, m7)
    → kmemory_linear_setup rounds m mem_upper kernel_max
      ≡ some (record {
        memory = m7;
        virtual_page_table_directory = address;
        virtual_block = record {
          block = block;
          pages = u32 (block + 4096);
          free = [];
          used = [];
          pages_index = 0;
        };
        virtual_address = 0x10000000;
      })
unfolding kmemory_linear_setup
linear_setup_steps rounds m mem_upper kernel_max address block m3 m4 m6 m7 e3 e4 e6 e7 =
    rw (e3, kmemory_linear_setup) (rw (e4, e6, e7) refl)

-- Behind the directory and the tables.
abbrev pub tables_end : (mem_upper kernel_max : ℕ) → ℕ
tables_end mem_upper kernel_max = page_behind kernel_max + (mem_upper / 2 ^ 22 + 2) * 4096

-- The tables end between 1 MB and 16 MB; three pages behind them are there, below 16 MB, the last two of
-- them in one table; and the top 4 MB of the address space are no memory.
pub record Fits (mem_upper kernel_max : ℕ) : Type 0 where
  pub pos : 1 ≤ kernel_max
  pub low : kernel_max ≤ 0x01000000
  pub above : 0x00100000 < tables_end mem_upper kernel_max
  pub dma : tables_end mem_upper kernel_max + 3 * 4096 ≤ 0x01000000
  pub room : tables_end mem_upper kernel_max + 3 * 4096 ≤ mem_upper
  pub top : mem_upper + 2 ^ 22 < 2 ^ 32
  pub one_table : (tables_end mem_upper kernel_max / 4096 + 1) % 1024 < 1023

-- The directory and the tables are marked.
marked :
    (rounds : ℕ) (m : Memory) (mem_upper kernel_max : ℕ)
    → 3 ≤ rounds
    → Fits mem_upper kernel_max
    → (m3 : Memory) × (m4 : Memory) × (linear_block rounds
          (build_tables m mem_upper kernel_max).0
          (page_behind kernel_max)
          (u32 (page_behind kernel_max + 4096))
        ≡ some m3)
      × (block_tables rounds (mem_upper / 2 ^ 22 + 1) m3 0 ≡ some m4)
      × Layout m.words
          (page_behind kernel_max)
          (mem_upper / 2 ^ 22 + 1)
          (tables_end mem_upper kernel_max / 4096)
          (mem_upper / 4096)
          m4
      × ((build_tables m mem_upper kernel_max).1 ≡ tables_end mem_upper kernel_max)
marked rounds m mem_upper kernel_max enough f =
    let d = page_behind kernel_max in
    let n = mem_upper / 2 ^ 22 + 1 in
    let lo = tables_end mem_upper kernel_max / 4096 in
    let hi = mem_upper / 4096 in
    let over : kernel_max ≤ d = omega (arith, f.pos, f.low) in
    let (l2, last) =
      build_tables-Layout m mem_upper kernel_max f.pos (omega (arith, f.dma)) f.top in
    let (m3, e3, k3) =
      linear_block-Kept rounds 1 m.words d n 0 lo hi (build_tables m mem_upper kernel_max).0 d l2
        (omega arith) (omega arith) l2.aligned (omega (arith, f.dma)) (omega (arith, f.room))
        (omega arith) (omega arith) in
    let (m4, e4, k4) =
      block_tables-Kept rounds n 0 m.words d n lo hi m3 k3.layout (omega arith) (omega arith)
        (omega arith) (omega (arith, f.dma)) (omega (arith, f.room)) in
    (m3, m4, e3, e4, k4.layout, last)

module _ (rounds : ℕ) (before : ℕ → ℕ) (d n lo hi : ℕ) (enough : 3 ≤ rounds) (room : lo + 3 ≤ hi)
    (inside : hi ≤ n * 1024) (behind : d + (n + 1) * 4096 ≤ lo * 4096)
    (small : hi * 4096 < 2 ^ 32) where
  taken_one :
      (m : Memory)
      → Layout before d n lo hi m
      → (m.zones 1).next ≡ lo * 4096
      → lo * 4096 ≤ (m.zones 1).end
      → (t : Memory) × (setup_pages rounds m 1 ≡ some (lo * 4096, t))
        × TakenAt before d n lo 1 hi ((lo + 1) * 4096) m t
  taken_one m l next end =
      let table : lo / 1024 < n = omega arith in
      let same : lo + 1 - 1 ≡ lo = omega arith in
      setup_pages-TakenAt rounds 1 before d n lo hi m (lo / 1024) (lo % 1024) l (omega arith)
        (omega arith) inside (omega arith) behind small
        (rw same (page_table_word before d n lo hi m l lo table)) (omega (arith, next))
        (one_found before d n lo hi m l (m.zones 1) next end table (omega arith))

  taken_two :
      (m : Memory)
      → Layout before d n (lo + 1) hi m
      → (m.zones 1).next ≡ (lo + 1) * 4096
      → (lo + 1) * 4096 ≤ (m.zones 1).end
      → (lo + 1) % 1024 < 1023
      → (t : Memory) × (setup_pages rounds m 2 ≡ some ((lo + 1) * 4096, t))
        × TakenAt before d n (lo + 1) 2 hi ((lo + 1 + 2) * 4096) m t
  taken_two m l next end one_table =
      let p = lo + 1 in
      let table : p / 1024 < n = omega arith in
      let same : p + 2 - 1 ≡ p + 1 = omega arith in
      let i1 : (p + 1) / 1024 ≡ p / 1024 = omega arith in
      let i2 : (p + 1) % 1024 ≡ p % 1024 + 1 = omega arith in
      let word : table_word m (p / 1024) (p % 1024 + 1) ≡ page_word d (p + 1) =
        subst (λ j. table_word m (p / 1024) j ≡ page_word d (p + 1)) i2
          (subst (λ i. table_word m i ((p + 1) % 1024) ≡ page_word d (p + 1)) i1
            (page_table_word before d n p hi m l (p + 1) (omega arith))) in
      setup_pages-TakenAt rounds 2 before d n p hi m (p / 1024) (p % 1024 + 1) l (omega arith)
        (omega arith) inside (omega arith) (omega arith) small (rw same word) (omega (arith, next))
        (two_found before d n p hi m l (m.zones 1) next end table (omega arith) (omega arith)
          one_table)

  taken_three :
      (m : Memory)
      → Layout before d n lo hi m
      → (m.zones 1).next ≡ lo * 4096
      → (lo + 1) * 4096 ≤ (m.zones 1).end
      → (lo + 1) % 1024 < 1023
      → (m6 : Memory) × (m7 : Memory) × (setup_pages rounds m 1 ≡ some (lo * 4096, m6))
        × (setup_pages rounds m6 2 ≡ some ((lo + 1) * 4096, m7))
        × Layout before d n (lo + 1 + 2) hi m7
        × ((p : ℕ) → lo ≤ p → p < lo + 3 → m7.words (page_word d p) ≡ p * 4096 + 256)
  taken_three m l next end one_table =
      let (m6, e6, t6) = taken_one m l next (omega (arith, end)) in
      let (m7, e7, t7) = taken_two m6 t6.layout t6.next (omega (arith, end, t6.end)) one_table in
      let first : m7.words (page_word d lo) ≡ lo * 4096 + 256 =
        ground (arith, t7.marks lo (omega arith), t6.marks lo (omega arith)) in
      (
        m6,
        m7,
        e6,
        e7,
        t7.layout,
        λ p low high. elim (ℕ_discrete lo p) [
          | yes same ↦ subst (λ q. m7.words (page_word d q) ≡ q * 4096 + 256) same first
          | no ne ↦ ground (arith, t7.marks p (omega arith), ne)
        ],
      )

block_at :
    (a b c d : ℕ)
    → a ≡ c
    → b ≡ d
    → ◌≡◌ {A = VmBlock}
        (record { block = a; pages = b; free = []; used = []; pages_index = 0 })
        (record { block = c; pages = d; free = []; used = []; pages_index = 0 })
block_at a b c d e f = rw (e, f) refl

-- When the tables end between 1 MB and 16 MB, with three pages behind them below 16 MB and the memory's
-- end, the last two of these in one table, and the top 4 MB of the address space are no memory:
-- kmemory_linear_setup ends. The first page behind the tables is that of virtual_page_table_directory, the next
-- is virtual_block, with no region in it, and the third has room for its records; the entries of the three
-- hold their addresses and LINEAR_ALLOCATED. All words below the directory, and so below kernel_max, are as they
-- were; each directory entry holds its table; and every page of the memory behind those three is available.
pub kmemory_linear_setup_lem :
    (rounds : ℕ) (m : Memory) (mem_upper kernel_max : ℕ)
    → 3 ≤ rounds
    → Fits mem_upper kernel_max
    → (s : Space) × (kmemory_linear_setup rounds m mem_upper kernel_max ≡ some s)
      × (s.virtual_page_table_directory ≡ tables_end mem_upper kernel_max)
      × (s.virtual_block ≡ record {
        block = tables_end mem_upper kernel_max + 4096;
        pages = tables_end mem_upper kernel_max + 8192;
        free = [];
        used = [];
        pages_index = 0;
      })
      × ((p : ℕ)
          → tables_end mem_upper kernel_max / 4096 ≤ p
          → p < tables_end mem_upper kernel_max / 4096 + 3
          → s.memory.words (page_word (page_behind kernel_max) p) ≡ p * 4096 + 256)
      × (kernel_max ≤ page_behind kernel_max)
      × Layout m.words
          (page_behind kernel_max)
          (mem_upper / 2 ^ 22 + 1)
          (tables_end mem_upper kernel_max / 4096 + 1 + 2)
          (mem_upper / 4096)
          s.memory
kmemory_linear_setup_lem rounds m mem_upper kernel_max enough f =
    let d = page_behind kernel_max in
    let n = mem_upper / 2 ^ 22 + 1 in
    let la = tables_end mem_upper kernel_max in
    let lo = la / 4096 in
    let hi = mem_upper / 4096 in
    let pages : la ≡ lo * 4096 = omega arith in
    let over : kernel_max ≤ d = omega (arith, f.pos, f.low) in
    let (m3, m4, e3, e4, l4, last) = marked rounds m mem_upper kernel_max enough f in
    let x = (build_tables m mem_upper kernel_max).1 in
    let m5 = record m4 { zones = setup_zones m4.zones x mem_upper } in
    let l5 : Layout m.words d n lo hi m5 =
      update-Layout m.words d n lo lo hi m4 m5 l4 refl (λ w h. refl) (omega arith)
        (λ p a b. refl) in
    let next5 : (m5.zones 1).next ≡ lo * 4096 =
      dma_next m4.zones x mem_upper (omega (arith, last, f.above)) (omega (arith, last, f.dma))
      ∙ last
      ∙ pages in
    let end5 = dma_end m4.zones x mem_upper (la + 3 * 4096) f.room f.dma in
    let (m6, m7, e6, e7, l7, three) =
      taken_three rounds m.words d n lo hi enough (omega (arith, f.room)) (omega arith)
        (omega arith) (omega (arith, f.top)) m5 l5 next5 (omega (arith, end5)) f.one_table in
    (
      record {
        memory = m7;
        virtual_page_table_directory = lo * 4096;
        virtual_block = record {
          block = (lo + 1) * 4096;
          pages = u32 ((lo + 1) * 4096 + 4096);
          free = [];
          used = [];
          pages_index = 0;
        };
        virtual_address = 0x10000000;
      },
      linear_setup_steps rounds m mem_upper kernel_max (lo * 4096) ((lo + 1) * 4096) m3 m4 m6 m7 e3
          e4 e6 e7,
      sym pages,
      block_at ((lo + 1) * 4096) (u32 ((lo + 1) * 4096 + 4096)) (la + 4096) (la + 8192)
          (omega arith) (omega (arith, f.dma)),
      three,
      over,
      l7,
    )
