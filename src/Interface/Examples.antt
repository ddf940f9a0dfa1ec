-- ===== src/Interface/Examples.antt =====
-- Calls through the interface of arch/ia32/internal.c, and the start of the example module.
use rjk.Base.{ℕ, ◌≡◌, ◌≢◌, List, ◌==◌, if◌then◌else◌, refl, none, some, [], ◌∷◌, ◌++◌, codes, arith}
use rjk.Atomic.{Mem}
use rjk.Interface.{called, member_type, kinterface_check_version}
use rjk.Interface.Names.{Function}
use rjk.Interface.Calls.{reached_type, called_lem, called_type, module_call, module_dec_and_test}
use rjk.Interface.Start.{
  Floats, Kernel, Call, kinterface_kernel_info, start, float_calls, number_calls, info_call,
  info_loop,
}

called_lem_example : called Function.katomic_inc_and_test ≡ some Function.katomic_dec_and_test
called_lem_example = called_lem Function.katomic_inc_and_test

called_type_example :
    (reached_type Function.kthread_create ≡ member_type Function.kthread_create)
    × (member_type Function.kthread_create ≢ none)
called_type_example = called_type Function.kthread_create

-- The last use of something that 1 thread holds: the module is not told.
abbrev one : Mem
one w = 1

released_test :
    module_call Function.katomic_dec_and_test one 8 ≡ some (0, λ w. if w == 8 then 2 else 1)
released_test = module_dec_and_test one 8 (omega arith)

versions_test : kinterface_check_version 0 1 ≡ 0
unfolding kinterface_check_version
versions_test = refl

-- Numbers in place of floating point numbers.
abbrev numbers : Floats
numbers = record { F = ℕ; zero_value = 0; fu_value = 12; fv_value = 4; divide = λ a b. 3 }

abbrev kernel : Kernel
kernel = record { check_version = kinterface_check_version; info = kinterface_kernel_info }

abbrev info_lines : List (Call ℕ)
info_lines =
    info_call (codes "kernel_name=RJK")
    ∷ info_call (codes "kernel_version=0.0.0.0")
    ∷ info_call (codes "kernel_contact=Robert Fitzsimons <robfitz@273k.net>")
    ∷ info_call (codes "kernel_license=GPL")
    ∷ []

-- The example module on this kernel.
start_test :
    start numbers kernel ≡ some (0, info_lines ++ (float_calls numbers ++ number_calls numbers))
unfolding start kinterface_check_version kinterface_kernel_info info_loop
start_test = refl
