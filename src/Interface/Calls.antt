-- ===== src/Interface/Calls.antt =====
-- What a call through each member of the interface reaches, by which type, and what that means for a
-- module that counts with the atomic operations.
use rjk.Base.{
  ℕ, ◌+◌, ◌-◌, ◌^◌, ◌<◌, Bool, Option, none, some, ◌≡◌, ◌≢◌, refl, ◌==◌, u32, update, arith,
}
use rjk.Atomic.{Mem, katomic_inc_and_test, katomic_dec_and_test}
use rjk.Interface.{called, member_type, prototype}
use rjk.Interface.Names.{Function, Signature}

-- The two functions that stand in each other's place.
abbrev pub exchanged : Function → Function
exchanged Function.katomic_inc_and_test = Function.katomic_dec_and_test
exchanged Function.katomic_dec_and_test = Function.katomic_inc_and_test
exchanged f = f

-- A module's call through a member of the interface reaches the function that the member is named
-- after, but katomic_inc_and_test reaches katomic_dec_and_test, and the other way round.
pub called_lem : (f : Function) → called f ≡ some (exchanged f)
unfolding called
called_lem Function.katomic_inc_and_test = refl
called_lem Function.katomic_dec_and_test = refl
called_lem f = refl

-- The prototype of the function that a call through a member of a name reaches.
pub reached_type : Function → Option Signature
reached_type f = elim (called f) [ none ↦ none | some g ↦ prototype g ]

-- Every function has a member in struct kinterface, and the function that a call through the member
-- reaches has a prototype with the result and the parameters that the member declares.
pub called_type : (f : Function) → (reached_type f ≡ member_type f) × (member_type f ≢ none)
unfolding reached_type called member_type prototype
called_type Function.katomic_inc_and_test = (refl, λ e. cc)
called_type f = (refl, λ e. cc)

-- The operations of arch/ia32/atomic.c that answer whether the word became 0.
pub run : Function → Mem → ℕ → Option (ℕ × Mem)
run Function.katomic_inc_and_test m p = some (katomic_inc_and_test m p)
run Function.katomic_dec_and_test m p = some (katomic_dec_and_test m p)
run f m p = none

-- `kinterface->f(p)` in a module.
unfoldable pub module_call : Function → Mem → ℕ → Option (ℕ × Mem)
unfolding run
module_call f m p = elim (called f) [ none ↦ none | some g ↦ run g m p ]

-- A module that takes one off a count below 2 ^ 32 - 1 through kinterface->katomic_dec_and_test adds
-- one to it instead, and is told that the count is not 0, also when it was 1.
pub module_dec_and_test :
    (m : Mem) (p : ℕ)
    → m p < 2 ^ 32 - 1
    → module_call Function.katomic_dec_and_test m p ≡ some (0, update m p (m p + 1))
unfolding module_call katomic_inc_and_test
module_dec_and_test m p h =
    let e : u32 (m p + 1) ≡ m p + 1 = omega arith in
    let z : (m p + 1 == 0) ≡ Bool.false = ground arith in
    rw (called_lem Function.katomic_dec_and_test, module_call) (rw (e, z) refl)
