-- ===== src/Module.antt =====
-- arch/ia32/module.c: the modules that the boot loader has left in memory.
pub mod Walk
mod Examples
use rjk.Base.{ℕ, ◌+◌, ◌-◌, ◌^◌, Option, none, some, ltb, if◌then◌else◌, u32, sub32}

-- What is used of `struct multiboot_mod` and `struct multiboot_info`.
pub record Mod : Type 0 where
  pub mod_start : ℕ
  pub mod_end : ℕ

pub record Info : Type 0 where
  pub mods_count : ℕ
  pub mods : ℕ → Mod

-- `*data` and `*length`, when they are written, and the value returned.
unfoldable pub kmodule_get : Info → ℕ → ℕ × Option (ℕ × ℕ)
kmodule_get info value =
    if ltb value info.mods_count
    then (
      u32 (value + 1),
      some (
        (info.mods value).mod_start,
        sub32 (info.mods value).mod_end (info.mods value).mod_start,
      ),
    )
    else (0, none)
