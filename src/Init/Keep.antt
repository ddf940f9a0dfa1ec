-- ===== src/Init/Keep.antt =====
-- Which words of what the boot loader has left lie below `kernel_max` of arch/ia32/init.c.
use rjk.Base.{ℕ, ◌+◌, ◌*◌, ◌<◌, ◌≡◌, ◌⊎◌, inl, inr, true, u32, arith}
use rjk.Init.{multiboot_info, multiboot_mod, has_modules, kernel_max_of, sizeof_multiboot_info}
use rjk.Init.Bounds.{BootAtMost, kernel_max_lem}

-- The word starts below the end of the kernel image, of mb_info, or of a module.
abbrev pub InUse : (words : ℕ → ℕ) → (end mb_info w : ℕ) → Type 0
InUse words end mb_info w =
    (4 * w < end)
    ⊎ ((4 * w < u32 (mb_info + sizeof_multiboot_info))
        ⊎ ((has_modules (multiboot_info words mb_info) ≡ true)
            × ((k : ℕ) × (k < (multiboot_info words mb_info).mods_count)
                × (4 * w
                    < (multiboot_mod words (multiboot_info words mb_info).mods_addr k).mod_end))))

pub InUse-lt :
    (words : ℕ → ℕ) (end mb_info w : ℕ)
    → InUse words end mb_info w
    → 4 * w < kernel_max_of words end mb_info
InUse-lt words end mb_info w used =
    let b = kernel_max_of words end mb_info in
    let all : BootAtMost words end mb_info b =
      (kernel_max_lem words end mb_info b).0 (omega arith) in
    elim used [
      | inl image ↦ omega (arith, all.image)
      | inr (inl info) ↦ omega (arith, all.info_end)
      | inr (inr (there, (k, lt, h))) ↦ omega (arith, all.modules there k lt)
    ]
