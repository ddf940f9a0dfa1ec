-- ===== src/Memory/Setup/Marked.antt =====
-- Which entries linear_block of arch/ia32/memory.c marks, on the layout that kmemory_linear_setup builds.
use Prim.Native.Nat.{bit_or}
use rjk.Base.{
  ℕ, zero, suc, ◌+◌, ◌*◌, ◌/◌, ◌%◌, ◌^◌, ◌<◌, ◌≤◌, ◌≡◌, refl, sym, ap, ◌∙◌, true, false, Bool, ◌&&◌,
  Option, none, some, ltb, leb, if◌then◌else◌, u32, arith, update, update_ne, ℕ_discrete, ◌≢◌,
}
use mathlib.Core.Path.{subst}
use rjk.Memory.{Memory, linear_allocated, table_word, directory_index, table_index}
use rjk.Memory.Virtual.{page_of}
use rjk.Memory.Setup.{linear_block, block_loop, page_behind}
use rjk.Memory.Setup.Build.{bit_or-page}
use rjk.Memory.Setup.Layout.{Layout, page_word, table_word-page, mark-Layout}

-- Is p one of the k pages from `first` on?
abbrev pub among : (first k p : ℕ) → Bool
among first k p = leb first p && ltb p (first + k)

-- The k entries from `first` on hold their address and LINEAR_ALLOCATED, and no other entry is changed.
abbrev pub Marks : (d n first k : ℕ) → (m t : Memory) → Type 0
Marks d n first k m t =
    (p : ℕ)
    → p < n * 1024
    → t.words (page_word d p)
      ≡ (if among first k p then p * 4096 + 256 else m.words (page_word d p))

some_memory : {m t : Memory} → some m ≡ some t → m ≡ t
some_memory {m} e = ap (λ (o : Option Memory). elim o as (λ _. Memory) [ none ↦ m | some x ↦ x ]) e

update_here : (w : ℕ → ℕ) (a b v : ℕ) → a ≡ b → update w a v b ≡ v
update_here w a b v e = ground (arith, e)

-- One entry marked, and the k behind it.
Marks-suc :
    (d n first k : ℕ) (m marked t : Memory)
    → marked.words (page_word d first) ≡ first * 4096 + 256
    → ((q : ℕ) → q ≢ first → marked.words (page_word d q) ≡ m.words (page_word d q))
    → Marks d n (first + 1) k marked t
    → Marks d n first (suc k) m t
Marks-suc d n first k m marked t here other later p h = elim (ℕ_discrete p first) [
  | yes same ↦
      let in_all : among first (suc k) p ≡ true = ground arith in
      let not_later : among (first + 1) k p ≡ false = ground arith in
      let word : marked.words (page_word d p) ≡ p * 4096 + 256 =
        subst (λ q. marked.words (page_word d q) ≡ q * 4096 + 256) (sym same) here in
      let kept = later p h in rw in_all ((rw not_later at kept) ∙ word)
  | no ne ↦
      let alike : among first (suc k) p ≡ among (first + 1) k p = ground (arith, ne) in
      rw (alike, sym (other p ne)) (later p h)
]

pub block_loop-Marks :
    (rounds k : ℕ) (before : ℕ → ℕ) (d n lo hi : ℕ) (m : Memory) (address end : ℕ) (t : Memory)
    → Layout before d n lo hi m
    → address % 4096 ≡ 0
    → end ≡ address + k * 4096
    → end < 2 ^ 32
    → end ≤ n * 2 ^ 22
    → end ≤ lo * 4096
    → block_loop rounds m address end ≡ some t
    → Marks d n (address / 4096) k m t
unfolding block_loop
block_loop-Marks zero k before d n lo hi m address end t l aligned e small covered under done =
    absurd (cc)
block_loop-Marks (suc rounds) zero before d n lo hi m address end t l aligned e small covered under
      done =
    let over : ltb address end ≡ false = ground (arith, e) in
    let same : m ≡ t = some_memory (rw over at done) in
    λ p h.
      let out : among (address / 4096) 0 p ≡ false = ground arith in
      rw out (ap (λ (x : Memory). x.words (page_word d p)) (sym same))
block_loop-Marks (suc rounds) (suc k) before d n lo hi m address end t l aligned e small covered
      under done =
    let more : ltb address end ≡ true = ground (arith, e) in
    let word = table_word m (directory_index address) (table_index address) in
    let v = bit_or address linear_allocated in
    let marked = record m { words = update m.words word v } in
    let at : word ≡ page_word d (address / 4096) =
      table_word-page before d n lo hi m l address (omega arith) in
    let l' =
      mark-Layout before d n lo lo hi address v m l (omega arith) (omega arith) (omega arith) in
    let next : u32 (address + 4096) ≡ address + 4096 = omega arith in
    let rest =
      block_loop-Marks rounds k before d n lo hi marked (u32 (address + 4096)) end t l'
        (omega arith) (omega arith) small covered under (rw more at done) in
    let page : u32 (address + 4096) / 4096 ≡ address / 4096 + 1 = omega arith in
    let here : v ≡ address / 4096 * 4096 + 256 = bit_or-page address aligned ∙ omega arith in
    let later : Marks d n (address / 4096 + 1) k marked t = λ q below.
      subst
        (λ f.
          t.words (page_word d q)
          ≡ (if among f k q then q * 4096 + 256 else marked.words (page_word d q)))
        page (rest q below) in
    Marks-suc d n (address / 4096) k m marked t
      (update_here m.words word (page_word d (address / 4096)) v at ∙ here)
      (λ q ne. update_ne m.words word (page_word d q) v (omega (arith, at, ne))) later

-- linear_block on k pages that have entries marks just these.
pub linear_block-Marks :
    (rounds k : ℕ) (before : ℕ → ℕ) (d n lo hi : ℕ) (m : Memory) (address : ℕ) (t : Memory)
    → Layout before d n lo hi m
    → 1 ≤ k
    → address % 4096 ≡ 0
    → address + k * 4096 < 2 ^ 32
    → address + k * 4096 ≤ n * 2 ^ 22
    → address + k * 4096 ≤ lo * 4096
    → linear_block rounds m address (u32 (address + k * 4096)) ≡ some t
    → Marks d n (address / 4096) k m t
unfolding linear_block
linear_block-Marks rounds k before d n lo hi m address t l pos aligned small covered under done =
    let first : page_of address ≡ address = omega arith in
    let last : page_behind (u32 (address + k * 4096)) ≡ address + k * 4096 = omega arith in
    block_loop-Marks rounds k before d n lo hi m address (address + k * 4096) t l aligned refl small
      covered under (rw (first, last) at done)
