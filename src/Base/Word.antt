-- ===== src/Base/Word.antt =====
-- Machine words as native numbers: `kuint` is 32 bits wide, and every operation wraps.
use Prim.Native.Nat.{ℕ, ◌+◌, ◌-◌, ◌%◌, ◌^◌}
use mathlib.Core.Bool.{Bool}
use rjk.Base.Tests.{ltb, leb}

abbrev pub u8 : ℕ → ℕ
u8 n = n % 2 ^ 8

abbrev pub u16 : ℕ → ℕ
u16 n = n % 2 ^ 16

abbrev pub u32 : ℕ → ℕ
u32 n = n % 2 ^ 32

abbrev pub u64 : ℕ → ℕ
u64 n = n % 2 ^ 64

-- `a - b` of two 32-bit words; `-` on ℕ stops at 0, so the modulus is added first.
abbrev pub sub32 : ℕ → ℕ → ℕ
sub32 a b = (a + 2 ^ 32 - b) % 2 ^ 32

-- A signed word is its bit pattern. Adding half the range turns the signed order into that of ℕ.
abbrev pub bias32 : ℕ → ℕ
bias32 w = (w + 2 ^ 31) % 2 ^ 32

abbrev pub bias64 : ℕ → ℕ
bias64 w = (w + 2 ^ 63) % 2 ^ 64

-- `a < b` and `a <= b` of two `kint32`, and of two `kint64`.
abbrev pub slt32 : ℕ → ℕ → Bool
slt32 a b = ltb (bias32 a) (bias32 b)

abbrev pub sle32 : ℕ → ℕ → Bool
sle32 a b = leb (bias32 a) (bias32 b)

abbrev pub slt64 : ℕ → ℕ → Bool
slt64 a b = ltb (bias64 a) (bias64 b)
