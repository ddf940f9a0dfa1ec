-- ===== src/Interface/Start.antt =====
-- module/main.c, the example module, and the lines that the kernel passes to it. The operations on
-- floating point numbers are a parameter; what is printed is answered as a list of calls of kprintf.
-- Texts are lists of bytes.
use rjk.Base.{
  ℕ, ◌-◌, ◌^◌, Option, none, some, List, [], ◌∷◌, ◌++◌, ◌==◌, ◌≡◌, refl, map, codes, Bool-cases,
  inl, inr, if◌then◌else◌,
}
use rjk.Interface.{kernel_interface_version, kernel_implementation_version}

-- `kernel_info`: `none` is KNULL.
abbrev pub kernel_info : List (Option (List ℕ))
kernel_info =
    some (codes "kernel_name=RJK")
    ∷ some (codes "kernel_version=0.0.0.0")
    ∷ some (codes "kernel_contact=Robert Fitzsimons <robfitz@273k.net>")
    ∷ some (codes "kernel_license=GPL")
    ∷ none
    ∷ []

unfoldable pub kinterface_kernel_info : Option (List (Option (List ℕ)))
kinterface_kernel_info = some kernel_info

-- The constants of the module, and the division.
pub record Floats : Type 1 where
  pub F : Type 0
  pub zero_value : F
  pub fu_value : F
  pub fv_value : F
  pub divide : F → F → F

pub data Argument (F : Type 0) : Type 0 where
  text : List ℕ → Argument F
  float : F → Argument F
  word : ℕ → Argument F

-- A call of kprintf: the format and the arguments.
abbrev pub Call : Type 0 → Type 0
Call F = List ℕ × List (Argument F)

-- The functions of the interface that the module calls; a KNULL for the array is `none`.
pub record Kernel : Type 0 where
  pub check_version : ℕ → ℕ → ℕ
  pub info : Option (List (Option (List ℕ)))

abbrev pub info_call : {F : Type 0} → List ℕ → Call F
info_call line = (codes "%s\n", text line ∷ [])

-- `for(i = 0; info[i]; i++)`; `none` is a read behind the array.
unfoldable pub info_loop : {F : Type 0} → List (Option (List ℕ)) → Option (List (Call F))
info_loop [] = none
info_loop (none ∷ lines) = some []
info_loop (some line ∷ lines) = elim (info_loop lines) [
  | none ↦ none
  | some calls ↦ some (info_call line ∷ calls)
]

module _ (floats : Floats) where
  abbrev pub float_call : (fu fv fr : floats.F) → Call floats.F
  float_call fu fv fr = (codes "%f %f %f\n", float fu ∷ float fv ∷ float fr ∷ [])

  -- The four lines of floating point numbers.
  unfoldable pub float_calls : List (Call floats.F)
  float_calls =
      let zero_value = floats.zero_value in
      let fu = floats.fu_value in
      let fv = floats.fv_value in
      float_call zero_value zero_value zero_value
      ∷ float_call fu zero_value zero_value
      ∷ float_call fu fv zero_value
      ∷ float_call fu fv (floats.divide fu fv)
      ∷ []

  -- The four lines of whole numbers.
  unfoldable pub number_calls : List (Call floats.F)
  number_calls =
      (codes "12345678901234567890\n", [])
      ∷ (codes "%#0.8hd\n", word (2 ^ 32 - 123) ∷ [])
      ∷ (codes "%#0.8ho\n", word (2 ^ 32 - 123) ∷ [])
      ∷ (codes "%#0.8hx\n", word (2 ^ 32 - 123) ∷ [])
      ∷ []

  abbrev pub info_calls : Option (List (Option (List ℕ))) → Option (List (Call floats.F))
  info_calls none = some []
  info_calls (some lines) = info_loop lines

  -- `_start`: the value returned, and the calls of kprintf.
  unfoldable pub start : Kernel → Option (ℕ × List (Call floats.F))
  start k =
      let printed : Option (ℕ × List (Call floats.F)) = elim (info_calls k.info) [
        | none ↦ none
        | some calls ↦ some (0, calls ++ (float_calls ++ number_calls))
      ] in
      if k.check_version kernel_interface_version kernel_implementation_version == 0
      then some (1, [])
      else printed

info_loop_lem :
    {F : Type 0} (lines : List (List ℕ)) (rest : List (Option (List ℕ)))
    → info_loop {F = F} (map some lines ++ (none ∷ rest)) ≡ some (map info_call lines)
unfolding info_loop
info_loop_lem [] rest = refl
info_loop_lem {F} (line ∷ lines) rest = rw (info_loop_lem {F = F} lines rest) refl

-- On a kernel that refuses the versions the module prints nothing and returns 1. On any other it
-- returns 0, after printing each line of the kernel's array up to the first KNULL, the four lines of
-- floating point numbers, and the four of whole numbers; it reads nothing behind the KNULL.
pub start_lem :
    (floats : Floats) (check_version : ℕ → ℕ → ℕ) (lines : List (List ℕ))
    (rest : List (Option (List ℕ)))
    → (start floats
          (record { check_version = check_version; info = some (map some lines ++ (none ∷ rest)) })
        ≡ (if check_version 0 0 == 0
            then some (1, [])
            else some (0, map info_call lines ++ (float_calls floats ++ number_calls floats))))
unfolding start
start_lem floats check_version lines rest = elim (Bool-cases (check_version 0 0 == 0)) [
  | inl e ↦ rw e refl
  | inr e ↦ rw (e, info_loop_lem {F = floats.F} lines rest) refl
]
