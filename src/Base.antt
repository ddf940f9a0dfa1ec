-- ===== src/Base.antt =====
-- The names that every other module shares: those of the libraries, passed on, and the children's
-- tests, lists, machine words and bits.
mod Tests
mod Lists
mod Word
mod Bits
mod Text
pub use Tests.*
pub use Lists.*
pub use Word.*
pub use Text.*
unfoldable pub use Bits.{test_bit, set_bit, clear_bit}
pub use Bits.{
  bit, test_bit-set_bit_self, test_bit-set_bit_ne, test_bit-clear_bit_self, test_bit-clear_bit_ne,
  set_bit-lt, clear_bit-le, set_bit-add, clear_bit-add, set_bit_of_set, clear_bit_of_clear,
  test_bit_of_small, test_bit_of_top, test_bit-pow, clear_bit-set_bit, set_bit-div, clear_bit-div,
  set_bit-mod, clear_bit-mod,
}
pub use Prim.Native.Nat.{ℕ, zero, suc, ◌+◌, ◌-◌, ◌*◌, ◌/◌, ◌%◌, ◌^◌, ◌≤◌, ◌<◌}
pub use mathlib.Core.Path.{◌≡◌, refl, sym, ap, ◌∙◌}
pub use mathlib.Core.Logic.{◌≢◌, ◌↔◌, ◌⊎◌, inl, inr}
pub use mathlib.Core.Bool.{Bool, true, false, ◌&&◌, ◌||◌, not}
pub use mathlib.Core.Option.{Option, none, some}
pub use mathlib.Core.List.{List, [], ◌∷◌, ◌++◌, map, append-nil, append_assoc}
pub use native.Mathlib.Omega.{arith}
unfoldable pub use native.Mathlib.Decide.{dec_lt, ℕ_discrete}
