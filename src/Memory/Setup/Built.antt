-- ===== src/Memory/Setup/Built.antt =====
-- The directory, the tables and their entries when the loop of kmemory_linear_setup of arch/ia32/memory.c
-- over the tables has ended.
use mathlib.Core.Path.{subst}
use rjk.Base.{ℕ, zero, suc, ◌+◌, ◌*◌, ◌/◌, ◌^◌, ◌<◌, ◌≤◌, ◌≡◌, refl, sym, ◌∙◌, inl, inr, u32, arith}
use rjk.Memory.{Memory}
use rjk.Memory.Setup.{tables_loop, linear_available}
use rjk.Memory.Setup.Keep.{clear_pages-directory}
use rjk.Memory.Setup.Build.{
  tables_loop-keeps, round_of, IsBuilding, round-entry, round-available, round-mem,
}

next-IsBuilding :
    (m : Memory) (d i1 linear_address mem mem_upper : ℕ)
    → IsBuilding m d i1 linear_address
    → linear_address + 4096 < 2 ^ 32
    → IsBuilding
        (round_of m i1 linear_address mem mem_upper).0
        d
        (i1 + 1)
        (u32 (linear_address + 4096))
next-IsBuilding m d i1 linear_address mem mem_upper b small = record {
  at = clear_pages-directory m linear_address 1 ∙ b.at;
  aligned = b.aligned;
  address = omega (arith, b.address);
}

pub tables_loop-end :
    (rounds : ℕ) (m : Memory) (i1 linear_address mem mem_upper : ℕ)
    → linear_address + rounds * 4096 < 2 ^ 32
    → ((tables_loop rounds m i1 linear_address mem mem_upper).1 ≡ linear_address + rounds * 4096)
      × ((tables_loop rounds m i1 linear_address mem mem_upper).0.linear_directory
          ≡ m.linear_directory)
unfolding tables_loop
tables_loop-end zero m i1 linear_address mem mem_upper small = (omega arith, refl)
tables_loop-end (suc rounds) m i1 linear_address mem mem_upper small =
    let r = round_of m i1 linear_address mem mem_upper in
    let (last, at) =
      tables_loop-end rounds r.0 (i1 + 1) (u32 (linear_address + 4096)) r.1 mem_upper
        (omega arith) in
    (last ∙ omega arith, at ∙ clear_pages-directory m linear_address 1)

pub tables_loop-entry :
    (rounds : ℕ) (m : Memory) (d i1 linear_address mem mem_upper k : ℕ)
    → IsBuilding m d i1 linear_address
    → i1 + rounds ≤ 1024
    → linear_address + rounds * 4096 < 2 ^ 32
    → k < rounds
    → (tables_loop rounds m i1 linear_address mem mem_upper).0.words (d / 4 + i1 + k)
      ≡ linear_address + k * 4096 + 256
unfolding tables_loop
tables_loop-entry zero m d i1 linear_address mem mem_upper k b room small lt = absurd (omega arith)
tables_loop-entry (suc rounds) m d i1 linear_address mem mem_upper zero b room small lt =
    let r = round_of m i1 linear_address mem mem_upper in
    let c = next-IsBuilding m d i1 linear_address mem mem_upper b (omega arith) in
    let word : d / 4 + i1 + 0 ≡ d / 4 + i1 = omega arith in
    let kept =
      tables_loop-keeps rounds r.0 (i1 + 1) (u32 (linear_address + 4096)) r.1 mem_upper (d / 4 + i1)
        (omega (arith, b.aligned, b.address)) (omega arith) (omega (arith, b.aligned, b.address))
        (inl (rw c.at (omega arith))) in
    rw word (
      kept
      ∙ round-entry m d i1 linear_address mem mem_upper b (omega arith) (omega arith)
      ∙ omega arith)
tables_loop-entry (suc rounds) m d i1 linear_address mem mem_upper (suc k) b room small lt =
    let r = round_of m i1 linear_address mem mem_upper in
    let c = next-IsBuilding m d i1 linear_address mem mem_upper b (omega arith) in
    let word : d / 4 + i1 + suc k ≡ d / 4 + (i1 + 1) + k = omega arith in
    rw word (
      tables_loop-entry rounds r.0 d (i1 + 1) (u32 (linear_address + 4096)) r.1 mem_upper k c
        (omega arith) (omega arith) (omega arith)
      ∙ omega arith)

pub tables_loop-available :
    (rounds : ℕ) (m : Memory) (d i1 linear_address mem mem_upper k j : ℕ)
    → IsBuilding m d i1 linear_address
    → mem ≡ i1 * 2 ^ 22
    → i1 + rounds ≤ 1024
    → linear_address + rounds * 4096 < 2 ^ 32
    → (i1 + rounds) * 2 ^ 22 ≤ mem_upper + 2 ^ 22
    → mem_upper + 2 ^ 22 < 2 ^ 32
    → k < rounds
    → j < 1024
    → (i1 + k) * 2 ^ 22 + j * 4096 < mem_upper
    → (tables_loop rounds m i1 linear_address mem mem_upper).0.words
        (linear_address / 4 + k * 1024 + j)
      ≡ linear_available
unfolding tables_loop
tables_loop-available zero m d i1 linear_address mem mem_upper k j b e room small upper top lt jt
      below =
    absurd (omega arith)
tables_loop-available (suc rounds) m d i1 linear_address mem mem_upper zero j b e room small upper
      top lt jt below =
    let r = round_of m i1 linear_address mem mem_upper in
    let c = next-IsBuilding m d i1 linear_address mem mem_upper b (omega arith) in
    let word : linear_address / 4 + 0 * 1024 + j ≡ linear_address / 4 + j = omega arith in
    let kept =
      tables_loop-keeps rounds r.0 (i1 + 1) (u32 (linear_address + 4096)) r.1 mem_upper
        (linear_address / 4 + j) (omega (arith, b.aligned, b.address)) (omega arith)
        (omega (arith, b.aligned, b.address))
        (inr (rw c.at (omega (arith, b.aligned, b.address)))) in
    rw word (
      kept
      ∙ subst
          (λ t.
            (round_of m i1 linear_address t mem_upper).0.words (linear_address / 4 + j)
            ≡ linear_available)
          (sym e)
          (round-available m d i1 linear_address mem_upper j b (omega arith) (omega arith) jt
            (omega arith)))
tables_loop-available (suc rounds) m d i1 linear_address mem mem_upper (suc k) j b e room small
      upper top lt jt below =
    let r = round_of m i1 linear_address mem mem_upper in
    let c = next-IsBuilding m d i1 linear_address mem mem_upper b (omega arith) in
    let word : linear_address / 4 + suc k * 1024 + j
        ≡ u32 (linear_address + 4096) / 4 + k * 1024 + j =
      omega arith in
    let at_next = round-mem m i1 linear_address mem mem_upper (omega (arith, e)) (omega arith) in
    rw word (
      tables_loop-available rounds r.0 d (i1 + 1) (u32 (linear_address + 4096)) r.1 mem_upper k j c
        (at_next ∙ omega (arith, e)) (omega arith) (omega arith) (omega arith) top (omega arith) jt
        (omega arith))
