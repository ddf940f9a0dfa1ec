-- ===== src/Memory/Setup/Layout.antt =====
-- What the memory looks like while kmemory_linear_setup of arch/ia32/memory.c marks and takes pages. The
-- tables lie one behind the other, so the entry of page p is the word p behind the start of the first.
use Prim.Native.Nat.{bit_or}
use rjk.Base.{
  ℕ, zero, suc, ◌+◌, ◌*◌, ◌/◌, ◌%◌, ◌^◌, ◌<◌, ◌≤◌, ◌≡◌, refl, ◌∙◌, true, false, some, ltb, u32,
  arith, update, update_ne, test_bit,
}
use rjk.Memory.{
  Memory, linear_available_bit, linear_allocated, table_word, directory_index, table_index,
}
use rjk.Memory.Virtual.{page_of}
use rjk.Memory.Setup.{linear_block, block_loop, page_behind}

-- The entry of a page.
abbrev pub page_word : (d p : ℕ) → ℕ
page_word d p = d / 4 + 1024 + p

-- A directory of n tables at d, with the memory below it as it was, and the pages from lo up to hi
-- available.
pub record Layout (before : ℕ → ℕ) (d n lo hi : ℕ) (m : Memory) : Type 0 where
  pub directory : m.linear_directory ≡ d
  pub aligned : d % 4096 ≡ 0
  pub tables : n ≤ 1024
  pub entries : (i : ℕ) → i < n → m.words (d / 4 + i) ≡ d + (i + 1) * 4096 + 256
  pub below : (w : ℕ) → w < d / 4 → m.words w ≡ before w
  pub available :
      (p : ℕ) → lo ≤ p → p < hi → test_bit (m.words (page_word d p)) linear_available_bit ≡ true

-- A write to a word that is none of these.
pub update-Layout :
    (before : ℕ → ℕ) (d n lo lo' hi : ℕ) (m m' : Memory)
    → Layout before d n lo hi m
    → m'.linear_directory ≡ m.linear_directory
    → ((w : ℕ) → w < d / 4 + n → m'.words w ≡ m.words w)
    → lo ≤ lo'
    → ((p : ℕ) → lo' ≤ p → p < hi → m'.words (page_word d p) ≡ m.words (page_word d p))
    → Layout before d n lo' hi m'
update-Layout before d n lo lo' hi m m' l same low le kept = record {
  directory = same ∙ l.directory;
  aligned = l.aligned;
  tables = l.tables;
  entries = λ i lt. low (d / 4 + i) (omega arith) ∙ l.entries i lt;
  below = λ w lt. low w (omega arith) ∙ l.below w lt;
  available = λ p a b. rw (kept p a b) (l.available p (omega arith) b);
}

module _ (before : ℕ → ℕ) (d n lo hi : ℕ) (m : Memory) (l : Layout before d n lo hi m) where
  -- The word that the code finds for a page whose table there is.
  pub table_word-page :
      (address : ℕ)
      → directory_index address < n
      → table_word m (directory_index address) (table_index address) ≡ page_word d (address / 4096)
  table_word-page address lt =
      rw (l.directory, l.entries (directory_index address) lt) (omega (arith, l.aligned))

-- The memory behind a call, which has kept the zones.
pub record Kept (before : ℕ → ℕ) (d n lo hi : ℕ) (m t : Memory) : Type 0 where
  pub layout : Layout before d n lo hi t
  pub zones : t.zones ≡ m.zones

pub mark-Layout :
    (before : ℕ → ℕ) (d n lo lo' hi address v : ℕ) (m : Memory)
    → Layout before d n lo hi m
    → directory_index address < n
    → lo ≤ lo'
    → address / 4096 < lo'
    → Layout before d n lo' hi (record m {
      words = update m.words (table_word m (directory_index address) (table_index address)) v;
    })
mark-Layout before d n lo lo' hi address v m l lt le under =
    let at = table_word-page before d n lo hi m l address lt in
    let word = table_word m (directory_index address) (table_index address) in
    update-Layout before d n lo lo' hi m (record m { words = update m.words word v }) l refl
      (λ w low. update_ne m.words word w v (omega (arith, at, l.tables))) le
      λ p a b. update_ne m.words word (page_word d p) v (omega (arith, at))

pub block_loop-Kept :
    (rounds k : ℕ) (before : ℕ → ℕ) (d n lo lo' hi : ℕ) (m : Memory) (address end : ℕ)
    → Layout before d n lo hi m
    → k < rounds
    → address % 4096 ≡ 0
    → end ≡ address + k * 4096
    → end < 2 ^ 32
    → end ≤ n * 2 ^ 22
    → lo ≤ lo'
    → end ≤ lo' * 4096
    → (t : Memory) × (block_loop rounds m address end ≡ some t) × Kept before d n lo' hi m t
unfolding block_loop
block_loop-Kept zero k before d n lo lo' hi m address end l lt aligned e small covered le under =
    absurd (omega arith)
block_loop-Kept (suc rounds) zero before d n lo lo' hi m address end l lt aligned e small covered le
      under =
    let over : ltb address end ≡ false = ground (arith, e) in
    (
      m,
      rw over refl,
      record {
        layout = update-Layout before d n lo lo' hi m m l refl (λ w h. refl) le (λ p a b. refl);
        zones = refl;
      },
    )
block_loop-Kept (suc rounds) (suc k) before d n lo lo' hi m address end l lt aligned e small covered
      le under =
    let more : ltb address end ≡ true = ground (arith, e) in
    let word = table_word m (directory_index address) (table_index address) in
    let marked = record m { words = update m.words word (bit_or address linear_allocated) } in
    let l' =
      mark-Layout before d n lo lo' hi address (bit_or address linear_allocated) m l (omega arith)
        le (omega arith) in
    let (t, done, kept) =
      block_loop-Kept rounds k before d n lo' lo' hi marked (u32 (address + 4096)) end l'
        (omega arith) (omega arith) (omega arith) small covered (omega arith) under in
    (t, rw more done, record { layout = kept.layout; zones = kept.zones })

-- linear_block on k pages that have entries keeps the rest.
pub linear_block-Kept :
    (rounds k : ℕ) (before : ℕ → ℕ) (d n lo lo' hi : ℕ) (m : Memory) (address : ℕ)
    → Layout before d n lo hi m
    → k < rounds
    → 1 ≤ k
    → address % 4096 ≡ 0
    → address + k * 4096 < 2 ^ 32
    → address + k * 4096 ≤ n * 2 ^ 22
    → lo ≤ lo'
    → address + k * 4096 ≤ lo' * 4096
    → (t : Memory) × (linear_block rounds m address (u32 (address + k * 4096)) ≡ some t)
      × Kept before d n lo' hi m t
unfolding linear_block
linear_block-Kept rounds k before d n lo lo' hi m address l lt pos aligned small covered le under =
    let first : page_of address ≡ address = omega arith in
    let last : page_behind (u32 (address + k * 4096)) ≡ address + k * 4096 = omega arith in
    rw (first, last)
      (block_loop-Kept rounds k before d n lo lo' hi m address (address + k * 4096) l lt aligned
        refl small covered le under)
