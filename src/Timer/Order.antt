-- ===== src/Timer/Order.antt =====
-- The order of deadlines in arch/ia32/timer.c as the order of one number.
use rjk.Base.{ℕ, ◌+◌, ◌*◌, ◌^◌, ◌<◌, ◌≤◌, ◌≡◌, List, [], ◌∷◌, All, arith, leb, bias32, bias64}
use rjk.Timer.{Timer, not_after}

-- Words of the widths of `kint64` and `kint32`.
abbrev pub IsTime : ℕ → ℕ → Type 0
IsTime second nanosecond = (second < 2 ^ 64) × (nanosecond < 2 ^ 32)

unfoldable pub instant : ℕ → ℕ → ℕ
instant second nanosecond = bias64 second * 2 ^ 32 + bias32 nanosecond

pub not_after_lem :
    (a b c d : ℕ) → IsTime a b → IsTime c d → not_after a b c d ≡ leb (instant a b) (instant c d)
unfolding instant
not_after_lem a b c d h k = ground arith

abbrev pub deadline : Timer → ℕ
deadline t = instant t.second t.nanosecond

abbrev pub HasTime : Timer → Type 0
HasTime t = IsTime t.second t.nanosecond

-- Each timer is at most as late as every timer behind it.
abbrev pub IsSorted : List Timer → Type 0
IsSorted [] = Unit
IsSorted (t ∷ ts) = All (λ u. deadline t ≤ deadline u) ts × IsSorted ts
