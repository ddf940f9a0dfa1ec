-- ===== src/Init/Ranges.antt =====
-- That linear_block, on a range of memory as setup of arch/ia32/init.c gives it, keeps what kmemory_linear_setup
-- has built.
use mathlib.Core.Path.{subst}
use rjk.Base.{ℕ, zero, suc, ◌+◌, ◌-◌, ◌*◌, ◌/◌, ◌^◌, ◌<◌, ◌≤◌, ◌≡◌, refl, sym, ap, ◌∙◌, some, arith}
use rjk.Memory.{Memory}
use rjk.Memory.Virtual.{page_of}
use rjk.Memory.Setup.{linear_block, page_behind}
use rjk.Memory.Setup.Layout.{Layout, block_loop-Kept}
use rjk.Init.{multiboot_mod, block_modules}

-- A part of memory that the tables reach.
pub record IsRange (n start end : ℕ) : Type 0 where
  pub some_bytes : start < end
  pub covered : end ≤ n * 2 ^ 22
  pub small : end + 4096 < 2 ^ 32

module _ (before : ℕ → ℕ) (d n hi : ℕ) (inside : hi ≤ n * 1024) (rounds : ℕ)
    (enough : n * 1024 < rounds) where
  -- The pages of the range are marked; nothing is said of which pages are available afterwards.
  pub range-Layout :
      (m : Memory) (lo start end : ℕ)
      → Layout before d n lo hi m
      → lo ≤ n * 1024
      → IsRange n start end
      → (t : Memory) × (linear_block rounds m start end ≡ some t)
        × Layout before d n (n * 1024) hi t
  unfolding linear_block
  range-Layout m lo start end l le r =
      let k = (page_behind end - page_of start) / 4096 in
      let last : page_behind end ≡ page_of start + k * 4096 =
        omega (arith, r.some_bytes, r.small) in
      let (t, done, kept) =
        block_loop-Kept rounds k before d n lo (n * 1024) hi m (page_of start) (page_behind end) l
          (omega (arith, r.some_bytes, r.covered, r.small)) (omega arith) last
          (omega (arith, r.some_bytes, r.small)) (omega (arith, r.some_bytes, r.covered, r.small))
          le (omega (arith, r.some_bytes, r.covered, r.small)) in
      (t, done, kept.layout)

  -- What setup reads of the modules' array lies below the directory.
  pub modules-Layout :
      (left i mods_array : ℕ) (m : Memory)
      → Layout before d n (n * 1024) hi m
      → ((k : ℕ)
          → k < left
          → (mods_array / 4 + 4 * (i + k) + 1 < d / 4)
            × IsRange n
                (multiboot_mod before mods_array (i + k)).mod_start
                (multiboot_mod before mods_array (i + k)).mod_end)
      → (t : Memory) × (block_modules rounds left m mods_array i ≡ some t)
        × Layout before d n (n * 1024) hi t
  unfolding block_modules multiboot_mod
  modules-Layout zero i mods_array m l all = (m, refl, l)
  modules-Layout (suc left) i mods_array m l all =
      let (low, r) = all 0 (omega arith) in
      let here : i + 0 ≡ i = omega arith in
      let start : m.words (mods_array / 4 + 4 * i)
          ≡ (multiboot_mod before mods_array (i + 0)).mod_start =
        l.below (mods_array / 4 + 4 * i) (omega arith)
        ∙ ap (λ j. before (mods_array / 4 + 4 * j)) (sym here) in
      let end : m.words (mods_array / 4 + 4 * i + 1)
          ≡ (multiboot_mod before mods_array (i + 0)).mod_end =
        l.below (mods_array / 4 + 4 * i + 1) (omega arith)
        ∙ ap (λ j. before (mods_array / 4 + 4 * j + 1)) (sym here) in
      let r' : IsRange n (m.words (mods_array / 4 + 4 * i)) (m.words (mods_array / 4 + 4 * i + 1)) =
        rw (start, end) r in
      let (t, marked, l') = range-Layout m (n * 1024) _ _ l (omega arith) r' in
      let (u, rest, l'') = modules-Layout left (i + 1) mods_array t l' λ k lt.
        let next : i + suc k ≡ i + 1 + k = omega arith in
        subst
          (λ j.
            (mods_array / 4 + 4 * j + 1 < d / 4)
            × IsRange n (multiboot_mod before mods_array j).mod_start
                (multiboot_mod before mods_array j).mod_end)
          next (all (suc k) (omega arith)) in
      (u, rw (marked, block_modules) rest, l'')
