-- ===== src/Interface.antt =====
-- The kernel interface: include/kinterface.h declares a struct of function pointers, and
-- arch/ia32/internal.c fills one by position. A module calls the kernel through the members of the
-- struct, so what it reaches is the entry at the place of the member that it names.
pub mod Names
pub mod Members
pub mod Prototypes
pub mod Entries
pub mod Calls
pub mod Start
mod Examples
use rjk.Base.{ℕ, zero, suc, Bool, List, [], ◌∷◌, Option, none, some, ◌==◌, ◌&&◌, if◌then◌else◌}
use Names.{Function, Signature}
use Members.{members}
use Prototypes.{prototypes}
use Entries.{kinterface_entries}

unfoldable pub Function-discrete : Discrete Function
Function-discrete = hlevel

-- The word of the struct that the member of a name takes: each pointer takes one word.
pub member_index : Function → List (Function × Signature) → ℕ
unfolding Function-discrete
member_index f [] = 0
member_index f ((g, _) ∷ ms) =
    let rest = member_index f ms in elim (Function-discrete f g) [ yes _ ↦ 0 | no _ ↦ suc rest ]

abbrev pub entry_at : List Function → ℕ → Option Function
entry_at [] i = none
entry_at (f ∷ fs) zero = some f
entry_at (f ∷ fs) (suc i) = entry_at fs i

pub declared_type : Function → List (Function × Signature) → Option Signature
unfolding Function-discrete
declared_type f [] = none
declared_type f ((g, t) ∷ ds) =
    let rest = declared_type f ds in elim (Function-discrete f g) [ yes _ ↦ some t | no _ ↦ rest ]

-- `kinterface->f` in a module that was started with `&_kinterface`: the pointer in the word of f.
pub called : Function → Option Function
unfolding member_index members kinterface_entries
called f = entry_at kinterface_entries (member_index f members)

-- The type by which the module calls `kinterface->f`, and the type of the function f.
pub member_type : Function → Option Signature
unfolding declared_type members
member_type f = declared_type f members

pub prototype : Function → Option Signature
unfolding declared_type prototypes
prototype f = declared_type f prototypes

-- KERNEL_INTERFACE_VERSION and KERNEL_IMPLEMENTATION_VERSION.
abbrev pub kernel_interface_version : ℕ
kernel_interface_version = 0

abbrev pub kernel_implementation_version : ℕ
kernel_implementation_version = 0

unfoldable pub kinterface_check_version : ℕ → ℕ → ℕ
kinterface_check_version interface_version kernel_version =
    if interface_version == kernel_interface_version
      && kernel_version == kernel_implementation_version
    then 1
    else 0
