-- ===== src/Base/Bits.antt =====
-- Single bits of a word: the test, the set and the clear that `bt`, `bts` and `btr` make and that
-- `& FLAG`, `|= FLAG` and `&= ~FLAG` write out. By recursion on the bit, so that they run at numerals
-- and have laws at variables.
use Prim.Native.Nat.{ℕ, zero, suc, ◌+◌, ◌*◌, ◌/◌, ◌%◌, ◌^◌, ◌≤◌, ◌<◌}
use mathlib.Core.Path.{◌≡◌, refl, ap, sym, ◌∙◌}
use mathlib.Core.Logic.{◌≢◌}
use mathlib.Core.Bool.{Bool, true, false}
use native.Mathlib.Omega.{arith}
use native.Mathlib.Nat.{pow-suc, div-div-eq-div-mul, div-add-mod}
use rjk.Base.Tests.{◌==◌, if◌then◌else◌}

unfoldable pub test_bit : ℕ → ℕ → Bool
test_bit w zero = w % 2 == 1
test_bit w (suc k) = test_bit (w / 2) k

unfoldable pub set_bit : ℕ → ℕ → ℕ
set_bit w zero = w / 2 * 2 + 1
set_bit w (suc k) = set_bit (w / 2) k * 2 + w % 2

unfoldable pub clear_bit : ℕ → ℕ → ℕ
clear_bit w zero = w / 2 * 2
clear_bit w (suc k) = clear_bit (w / 2) k * 2 + w % 2

-- The value that `setc` stores.
abbrev pub bit : Bool → ℕ
bit b = if b then 1 else 0

half_of : (a b : ℕ) → (a * 2 + b % 2) / 2 ≡ a
half_of a b = omega arith

pub test_bit-set_bit_self : (w k : ℕ) → test_bit (set_bit w k) k ≡ true
unfolding test_bit set_bit
test_bit-set_bit_self w zero = ground arith
test_bit-set_bit_self w (suc k) =
    rw (half_of (set_bit (w / 2) k) w) (test_bit-set_bit_self (w / 2) k)

pub test_bit-set_bit_ne : (w k j : ℕ) → k ≢ j → test_bit (set_bit w k) j ≡ test_bit w j
unfolding test_bit set_bit
test_bit-set_bit_ne w zero zero h = absurd (h refl)
test_bit-set_bit_ne w zero (suc j) h = ap (λ (t : ℕ). test_bit t j) (omega arith)
test_bit-set_bit_ne w (suc k) zero h = ground arith
test_bit-set_bit_ne w (suc k) (suc j) h =
    rw (half_of (set_bit (w / 2) k) w) (test_bit-set_bit_ne (w / 2) k j (λ e. h (ap suc e)))

pub test_bit-clear_bit_self : (w k : ℕ) → test_bit (clear_bit w k) k ≡ false
unfolding test_bit clear_bit
test_bit-clear_bit_self w zero = ground arith
test_bit-clear_bit_self w (suc k) =
    rw (half_of (clear_bit (w / 2) k) w) (test_bit-clear_bit_self (w / 2) k)

pub test_bit-clear_bit_ne : (w k j : ℕ) → k ≢ j → test_bit (clear_bit w k) j ≡ test_bit w j
unfolding test_bit clear_bit
test_bit-clear_bit_ne w zero zero h = absurd (h refl)
test_bit-clear_bit_ne w zero (suc j) h = ap (λ (t : ℕ). test_bit t j) (omega arith)
test_bit-clear_bit_ne w (suc k) zero h = ground arith
test_bit-clear_bit_ne w (suc k) (suc j) h =
    rw (half_of (clear_bit (w / 2) k) w) (test_bit-clear_bit_ne (w / 2) k j (λ e. h (ap suc e)))

-- Setting a clear bit adds its value; clearing a set bit takes it away.
pub set_bit-add : (w k : ℕ) → test_bit w k ≡ false → set_bit w k ≡ w + 2 ^ k
unfolding test_bit set_bit
set_bit-add w zero h = ground arith
set_bit-add w (suc k) h = omega (arith, pow-suc 2 k, set_bit-add (w / 2) k h)

pub clear_bit-add : (w k : ℕ) → test_bit w k ≡ true → clear_bit w k + 2 ^ k ≡ w
unfolding test_bit clear_bit
clear_bit-add w zero h = ground arith
clear_bit-add w (suc k) h = omega (arith, pow-suc 2 k, clear_bit-add (w / 2) k h)

pub set_bit_of_set : (w k : ℕ) → test_bit w k ≡ true → set_bit w k ≡ w
unfolding test_bit set_bit
set_bit_of_set w zero h = ground arith
set_bit_of_set w (suc k) h = omega (arith, set_bit_of_set (w / 2) k h)

pub clear_bit_of_clear : (w k : ℕ) → test_bit w k ≡ false → clear_bit w k ≡ w
unfolding test_bit clear_bit
clear_bit_of_clear w zero h = ground arith
clear_bit_of_clear w (suc k) h = omega (arith, clear_bit_of_clear (w / 2) k h)

pub test_bit_of_small : (w k : ℕ) → w < 2 ^ k → test_bit w k ≡ false
unfolding test_bit
test_bit_of_small w zero h = ground arith
test_bit_of_small w (suc k) h = test_bit_of_small (w / 2) k (omega (arith, pow-suc 2 k))

-- The top bit of a word of `k + 1` bits.
pub test_bit_of_top : (w k : ℕ) → 2 ^ k ≤ w → w < 2 ^ suc k → test_bit w k ≡ true
unfolding test_bit
test_bit_of_top w zero p q = ground arith
test_bit_of_top w (suc k) p q =
    test_bit_of_top (w / 2) k (omega (arith, pow-suc 2 k))
      (omega (arith, pow-suc 2 k, pow-suc 2 (suc k)))

pub set_bit-lt : (n w k : ℕ) → k < n → w < 2 ^ n → set_bit w k < 2 ^ n
unfolding set_bit
set_bit-lt zero w k h p = elim h [ ]
set_bit-lt (suc n) w zero h p = omega (arith, pow-suc 2 n)
set_bit-lt (suc n) w (suc k) h p =
    omega (arith, pow-suc 2 n, set_bit-lt n (w / 2) k (omega arith) (omega (arith, pow-suc 2 n)))

pub clear_bit-le : (w k : ℕ) → clear_bit w k ≤ w
unfolding clear_bit
clear_bit-le w zero = omega arith
clear_bit-le w (suc k) = omega (arith, clear_bit-le (w / 2) k)

-- The arithmetic form of the test.
pub test_bit-pow : (w k : ℕ) → test_bit w k ≡ (w / 2 ^ k % 2 == 1)
unfolding test_bit
test_bit-pow w zero = ground arith
test_bit-pow w (suc k) =
    rw (test_bit-pow (w / 2) k, div-div-eq-div-mul w 2 (2 ^ k))
      (ap (λ (t : ℕ). w / t % 2 == 1) (omega (arith, pow-suc 2 k)))

pub clear_bit-set_bit : (w k : ℕ) → test_bit w k ≡ false → clear_bit (set_bit w k) k ≡ w
clear_bit-set_bit w k h =
    omega (arith, set_bit-add w k h, clear_bit-add (set_bit w k) k (test_bit-set_bit_self w k))

half-div : (x n : ℕ) → x / 2 ^ suc n ≡ x / 2 / 2 ^ n
half-div x n =
    sym (div-div-eq-div-mul x 2 (2 ^ n) ∙ ap (λ (t : ℕ). x / t) (omega (arith, pow-suc 2 n)))

mod-step : (x n : ℕ) → x % 2 ^ suc n ≡ x / 2 % 2 ^ n * 2 + x % 2
mod-step x n = omega (
  arith,
  div-add-mod x (2 ^ suc n),
  div-add-mod (x / 2) (2 ^ n),
  half-div x n,
  pow-suc 2 n,
  ap (λ (t : ℕ). 2 ^ suc n * t) (half-div x n),
  ap (λ (t : ℕ). t * (x / 2 / 2 ^ n)) (pow-suc 2 n),
)

-- Bits from n on do not see a change below n.
pub set_bit-div : (n w k : ℕ) → k < n → set_bit w k / 2 ^ n ≡ w / 2 ^ n
unfolding set_bit
set_bit-div zero w k h = absurd (omega arith)
set_bit-div (suc n) w zero h =
    rw (half-div (w / 2 * 2 + 1) n, half-div w n) (ap (λ (t : ℕ). t / 2 ^ n) (omega arith))
set_bit-div (suc n) w (suc k) h =
    rw (half-div (set_bit (w / 2) k * 2 + w % 2) n, half-div w n, half_of (set_bit (w / 2) k) w)
      (set_bit-div n (w / 2) k (omega arith))

pub clear_bit-div : (n w k : ℕ) → k < n → clear_bit w k / 2 ^ n ≡ w / 2 ^ n
unfolding clear_bit
clear_bit-div zero w k h = absurd (omega arith)
clear_bit-div (suc n) w zero h =
    rw (half-div (w / 2 * 2) n, half-div w n) (ap (λ (t : ℕ). t / 2 ^ n) (omega arith))
clear_bit-div (suc n) w (suc k) h =
    rw (half-div (clear_bit (w / 2) k * 2 + w % 2) n, half-div w n, half_of (clear_bit (w / 2) k) w)
      (clear_bit-div n (w / 2) k (omega arith))

-- The low bits do not see a change from bit n on.
pub set_bit-mod : (n w k : ℕ) → n ≤ k → set_bit w k % 2 ^ n ≡ w % 2 ^ n
unfolding set_bit
set_bit-mod zero w k h = omega arith
set_bit-mod (suc n) w zero h = absurd (omega arith)
set_bit-mod (suc n) w (suc k) h =
    rw (mod-step (set_bit (w / 2) k * 2 + w % 2) n, mod-step w n, half_of (set_bit (w / 2) k) w)
      (omega (arith, set_bit-mod n (w / 2) k (omega arith)))

pub clear_bit-mod : (n w k : ℕ) → n ≤ k → clear_bit w k % 2 ^ n ≡ w % 2 ^ n
unfolding clear_bit
clear_bit-mod zero w k h = omega arith
clear_bit-mod (suc n) w zero h = absurd (omega arith)
clear_bit-mod (suc n) w (suc k) h =
    rw (mod-step (clear_bit (w / 2) k * 2 + w % 2) n, mod-step w n, half_of (clear_bit (w / 2) k) w)
      (omega (arith, clear_bit-mod n (w / 2) k (omega arith)))
