-- ===== src/Memory/Setup/Tables.antt =====
-- Which entries of a table kmemory_linear_setup of arch/ia32/memory.c marks as available.
use rjk.Base.{
  ℕ, zero, suc, ◌+◌, ◌*◌, ◌/◌, ◌^◌, ◌<◌, ◌≡◌, refl, sym, ap, ◌∙◌, inl, inr, ◌||◌, ◌==◌,
  if◌then◌else◌, u32, leb, ltb, arith, Bool-cases, update, update_self, update_ne,
}
use rjk.Memory.Setup.{available_loop, linear_available}

pub available_loop-before :
    (rounds pt i2 mem mem_upper : ℕ) (m : ℕ → ℕ) (w : ℕ)
    → w < pt / 4 + i2
    → (available_loop rounds m pt i2 mem mem_upper).0 w ≡ m w
unfolding available_loop
available_loop-before zero pt i2 mem mem_upper m w h = refl
available_loop-before (suc rounds) pt i2 mem mem_upper m w h =
    let marked = update m (pt / 4 + i2) linear_available in
    let rest =
      available_loop-before rounds pt (i2 + 1) (u32 (mem + 4096)) mem_upper marked w
        (omega arith) in
    let same : marked w ≡ m w = update_ne m (pt / 4 + i2) w linear_available (omega arith) in
    elim (Bool-cases (leb mem_upper (u32 (mem + 4096)))) [
      | inl e ↦ rw e same
      | inr e ↦ rw e (rest ∙ same)
    ]

-- An entry is marked when it is the first one, or its page starts below `mem_upper`.
available_loop-words :
    (rounds pt i2 mem mem_upper : ℕ) (m : ℕ → ℕ)
    → mem + rounds * 4096 < 2 ^ 32
    → (k : ℕ) → k < rounds
    → (available_loop rounds m pt i2 mem mem_upper).0 (pt / 4 + i2 + k) ≡ (
        if (k == 0) || ltb (mem + k * 4096) mem_upper
        then linear_available
        else m (pt / 4 + i2 + k))
unfolding available_loop
available_loop-words zero pt i2 mem mem_upper m small k h = absurd (omega arith)
available_loop-words (suc rounds) pt i2 mem mem_upper m small zero h =
    let next : u32 (mem + 4096) ≡ mem + 4096 = omega arith in
    let at : pt / 4 + i2 + 0 ≡ pt / 4 + i2 = omega arith in
    let marked = update m (pt / 4 + i2) linear_available in
    let first = update_self m (pt / 4 + i2) linear_available in
    elim (Bool-cases (leb mem_upper (mem + 4096))) [
      | inl e ↦ rw (next, e, at) first
      | inr e ↦
          rw (next, e, at)
            (available_loop-before rounds pt (i2 + 1) (mem + 4096) mem_upper marked (pt / 4 + i2)
                (omega arith)
              ∙ first)
    ]
available_loop-words (suc rounds) pt i2 mem mem_upper m small (suc k) h =
    let next : u32 (mem + 4096) ≡ mem + 4096 = omega arith in
    let at : pt / 4 + i2 + suc k ≡ pt / 4 + (i2 + 1) + k = omega arith in
    let marked = update m (pt / 4 + i2) linear_available in
    let ih =
      available_loop-words rounds pt (i2 + 1) (mem + 4096) mem_upper marked (omega arith) k
        (omega arith) in
    elim (Bool-cases (leb mem_upper (mem + 4096))) [
      | inl e ↦ rw (next, e) (ground (arith, e))
      | inr e ↦ rw (next, e, at) (ground (arith, ih, e))
    ]

-- Of the 1024 entries of a table, kmemory_linear_setup marks as available those whose pages start below
-- mem_upper, and the first one wherever it is.
pub available_loop_lem :
    (pt mem mem_upper k : ℕ) (m : ℕ → ℕ)
    → mem + 1024 * 4096 < 2 ^ 32
    → k < 1024
    → ((available_loop 1024 m pt 0 mem mem_upper).0 (pt / 4 + k)
        ≡ (if (k == 0) || ltb (mem + k * 4096) mem_upper then linear_available else m (pt / 4 + k)))
available_loop_lem pt mem mem_upper k m small h =
    let at : pt / 4 + 0 + k ≡ pt / 4 + k = omega arith in
    ap (available_loop 1024 m pt 0 mem mem_upper).0 (sym at)
    ∙ available_loop-words 1024 pt 0 mem mem_upper m small k h
    ∙ ap (λ (w : ℕ). if (k == 0) || ltb (mem + k * 4096) mem_upper then linear_available else m w)
        at
