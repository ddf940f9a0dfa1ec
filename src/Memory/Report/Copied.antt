-- ===== src/Memory/Report/Copied.antt =====
-- What copy_pages of arch/ia32/memory.c leaves in memory.
use rjk.Base.{
  ℕ, zero, suc, ◌+◌, ◌-◌, ◌*◌, ◌/◌, ◌%◌, ◌^◌, ◌<◌, ◌≤◌, ◌≡◌, ◌≢◌, refl, ◌∙◌, ◌⊎◌, inl, inr, true,
  false, Bool-cases, ◌==◌, update_ne, if◌then◌else◌, u32, arith, update,
}
use rjk.Memory.{Memory}
use rjk.Memory.Virtual.Table.{within}
use rjk.Memory.Report.{rep_movsl, copy_pages}

rep_movsl-words :
    (n edi esi : ℕ) (m : ℕ → ℕ)
    → edi % 4 ≡ 0
    → esi % 4 ≡ 0
    → edi + 4 * n < 2 ^ 32
    → esi + 4 * n < 2 ^ 32
    → (edi ≤ esi) ⊎ (esi + 4 * n ≤ edi)
    → (w : ℕ)
    → rep_movsl n edi esi m w ≡ (if within (edi / 4) n w then m (esi / 4 + (w - edi / 4)) else m w)
unfolding rep_movsl
rep_movsl-words zero edi esi m a b c d e w = ground arith
rep_movsl-words (suc n) edi esi m a b c d e w =
    let next : u32 (edi + 4) ≡ edi + 4 = omega arith in
    let next' : u32 (esi + 4) ≡ esi + 4 = omega arith in
    let fourth : (edi + 4) / 4 ≡ edi / 4 + 1 = omega arith in
    let fourth' : (esi + 4) / 4 ≡ esi / 4 + 1 = omega arith in
    let ih =
      rep_movsl-words n (edi + 4) (esi + 4) (update m (edi / 4) (m (esi / 4))) (omega arith)
        (omega arith) (omega arith) (omega arith) (ground arith) w in
    let w0 = edi / 4 in
    let step : (within (w0 + 1) n w ≡ true) → esi / 4 + 1 + (w - (w0 + 1)) ≡ esi / 4 + (w - w0) =
      λ i. ground (arith, i) in
    rw (next, next')
      (ih
        ∙ rw (fourth, fourth')
            (elim (Bool-cases (within (w0 + 1) n w)) [
              | inl i ↦
                  let far : esi / 4 + (w - w0) ≢ w0 = ground (arith, i, e) in
                  let whole : within w0 (suc n) w ≡ true = ground (arith, i) in
                  rw (i, whole, step i) (update_ne m w0 (esi / 4 + (w - w0)) (m (esi / 4)) far)
              | inr o ↦ rw o (elim (Bool-cases (w == w0)) [
                | inl same ↦
                    let whole : within w0 (suc n) w ≡ true = ground (arith, same) in
                    let none_left : esi / 4 + (w - w0) ≡ esi / 4 = ground (arith, same) in
                    rw (same, whole, none_left) refl
                | inr other ↦
                    let out : within w0 (suc n) w ≡ false = ground (arith, o, other) in
                    rw (other, out) refl
              ])
            ]))

-- copy_pages copies the pages, when neither they nor the copy reach the end of memory and the copy starts
-- below them or behind them, and writes no other word.
pub copy_pages-words :
    (m : Memory) (destination source count : ℕ)
    → destination % 4 ≡ 0
    → source % 4 ≡ 0
    → destination + count * 4096 < 2 ^ 32
    → source + count * 4096 < 2 ^ 32
    → (destination ≤ source) ⊎ (source + count * 4096 ≤ destination)
    → (w : ℕ)
    → (copy_pages m destination source count).words w ≡ (
        if within (destination / 4) (count * 1024) w
        then m.words (source / 4 + (w - destination / 4))
        else m.words w)
unfolding copy_pages
copy_pages-words m destination source count a b c d e w =
    rep_movsl-words (count * 1024) destination source m.words a b (omega arith) (omega arith)
      (ground arith) w
