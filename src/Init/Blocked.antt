-- ===== src/Init/Blocked.antt =====
-- That setup of arch/ia32/init.c, once kmemory_linear_setup has ended, marks what the boot loader has left.
use rjk.Base.{
  ℕ, ◌+◌, ◌*◌, ◌/◌, ◌^◌, ◌<◌, ◌≤◌, ◌≡◌, refl, true, false, some, u32, arith, Bool-cases, inl, inr,
}
use rjk.Memory.{Memory}
use rjk.Memory.Setup.{linear_block, page_behind}
use rjk.Memory.Setup.Layout.{Layout}
use rjk.Memory.Virtual.{Space}
use rjk.Memory.Setup.{kmemory_linear_setup}
use rjk.Memory.Setup.Whole.{Fits, tables_end, kmemory_linear_setup_lem}
use rjk.Init.Keep.{InUse, InUse-lt}
use rjk.Init.{kernel_max_of, upper_end}
use rjk.Init.{
  MultibootInfo, multiboot_info, multiboot_mod, has_modules, block_modules, block_module_array,
  block_boot, sizeof_multiboot_info, sizeof_multiboot_mod,
}
use rjk.Init.Ranges.{IsRange, range-Layout, modules-Layout}

-- What the boot loader has left lies where the tables reach, and what setup reads of it below the
-- directory at d.
pub record IsBoot (before : ℕ → ℕ) (d n start end mb_info : ℕ) : Type 0 where
  pub image : IsRange n start end
  pub info : IsRange n mb_info (u32 (mb_info + sizeof_multiboot_info))
  pub info_low : mb_info / 4 + 6 < d / 4
  pub array :
      has_modules (multiboot_info before mb_info) ≡ true
      → IsRange n (multiboot_info before mb_info).mods_addr (
          u32 (
            (multiboot_info before mb_info).mods_addr
            + sizeof_multiboot_mod * (multiboot_info before mb_info).mods_count))
  pub modules :
      has_modules (multiboot_info before mb_info) ≡ true
      → (k : ℕ) → k < (multiboot_info before mb_info).mods_count
      → ((multiboot_info before mb_info).mods_addr / 4 + 4 * (0 + k) + 1 < d / 4)
        × IsRange n
            (multiboot_mod before (multiboot_info before mb_info).mods_addr (0 + k)).mod_start
            (multiboot_mod before (multiboot_info before mb_info).mods_addr (0 + k)).mod_end

info_kept :
    (before : ℕ → ℕ) (d n lo hi mb_info : ℕ) (m : Memory)
    → Layout before d n lo hi m
    → mb_info / 4 + 6 < d / 4
    → multiboot_info m.words mb_info ≡ multiboot_info before mb_info
unfolding multiboot_info
info_kept before d n lo hi mb_info m l low =
    rw
      (
        l.below (mb_info / 4) (omega arith),
        l.below (mb_info / 4 + 1) (omega arith),
        l.below (mb_info / 4 + 2) (omega arith),
        l.below (mb_info / 4 + 5) (omega arith),
        l.below (mb_info / 4 + 6) (omega arith),
      )
      refl

boot_step :
    (rounds start end mb_info : ℕ) (m m1 m2 m3 : Memory)
    → linear_block rounds m start end ≡ some m1
    → linear_block rounds m1 mb_info (u32 (mb_info + sizeof_multiboot_info)) ≡ some m2
    → block_module_array rounds m2 mb_info ≡ some m3
    → block_boot rounds m start end mb_info ≡ some m3
unfolding block_boot
boot_step rounds start end mb_info m m1 m2 m3 e1 e2 e3 =
    rw (e1, block_boot) (rw (e2, block_boot) e3)

array_step :
    (rounds mb_info : ℕ) (m t u : Memory) (info : MultibootInfo)
    → multiboot_info m.words mb_info ≡ info
    → has_modules info ≡ true
    → linear_block rounds m info.mods_addr
        (u32 (info.mods_addr + sizeof_multiboot_mod * info.mods_count))
      ≡ some t
    → block_modules rounds info.mods_count t info.mods_addr 0 ≡ some u
    → block_module_array rounds m mb_info ≡ some u
unfolding block_module_array
array_step rounds mb_info m t u info same there marked rest =
    rw (same, there, block_module_array) (rw same (rw (marked, block_module_array) (rw same rest)))

no_array_step :
    (rounds mb_info : ℕ) (m : Memory) (info : MultibootInfo)
    → multiboot_info m.words mb_info ≡ info
    → has_modules info ≡ false
    → block_module_array rounds m mb_info ≡ some m
unfolding block_module_array
no_array_step rounds mb_info m info same none_there = rw (same, none_there, block_module_array) refl

module _ (before : ℕ → ℕ) (d n hi : ℕ) (inside : hi ≤ n * 1024) (rounds : ℕ)
    (enough : n * 1024 < rounds) (start end mb_info : ℕ)
    (b : IsBoot before d n start end mb_info) where
  array-Layout :
      (m : Memory)
      → Layout before d n (n * 1024) hi m
      → (t : Memory) × (block_module_array rounds m mb_info ≡ some t)
        × Layout before d n (n * 1024) hi t
  array-Layout m l =
      let same = info_kept before d n (n * 1024) hi mb_info m l b.info_low in
      elim (Bool-cases (has_modules (multiboot_info before mb_info))) [
        | inr none_there ↦
            (m, no_array_step rounds mb_info m (multiboot_info before mb_info) same none_there, l)
        | inl there ↦
            let info = multiboot_info before mb_info in
            let (t, marked, l') =
              range-Layout before d n hi inside rounds enough m (n * 1024) info.mods_addr
                (u32 (info.mods_addr + sizeof_multiboot_mod * info.mods_count)) l (omega arith)
                (b.array there) in
            let (u, rest, l'') =
              modules-Layout before d n hi inside rounds enough info.mods_count 0 info.mods_addr t
                l' (b.modules there) in
            (u, array_step rounds mb_info m t u info same there marked rest, l'')
      ]

  pub block_boot-Layout :
      (m : Memory) (lo : ℕ)
      → Layout before d n lo hi m
      → lo ≤ n * 1024
      → (t : Memory) × (block_boot rounds m start end mb_info ≡ some t)
        × Layout before d n (n * 1024) hi t
  block_boot-Layout m lo l le =
      let (m1, e1, l1) =
        range-Layout before d n hi inside rounds enough m lo start end l le b.image in
      let (m2, e2, l2) =
        range-Layout before d n hi inside rounds enough m1 (n * 1024) mb_info
          (u32 (mb_info + sizeof_multiboot_info)) l1 (omega arith) b.info in
      let (m3, e3, l3) = array-Layout m2 l2 in
      (m3, boot_step rounds start end mb_info m m1 m2 m3 e1 e2 e3, l3)

-- Say that the page tables fit, as Fits says, behind the kernel_max that setup computes; that what the boot
-- loader has left, the image, mb_info, the array of modules and the modules, are ranges of memory that the
-- tables reach; and that mb_info and all entries of the array lie below the directory, which an array of
-- more than 16 modules need not. Then kmemory_linear_setup and the marking of these ranges end, when the rounds of
-- linear_block are more than the pages that the tables reach; and no word that starts below the end of the
-- image, of mb_info, or of a module is changed.
pub setup_kept :
    (rounds : ℕ) (m : Memory) (start end mb_info : ℕ)
    → Fits (upper_end (multiboot_info m.words mb_info)) (kernel_max_of m.words end mb_info)
    → (upper_end (multiboot_info m.words mb_info) / 2 ^ 22 + 1) * 1024 < rounds
    → IsBoot m.words
        (page_behind (kernel_max_of m.words end mb_info))
        (upper_end (multiboot_info m.words mb_info) / 2 ^ 22 + 1)
        start
        end
        mb_info
    → (s : Space) × (t : Memory) × (kmemory_linear_setup rounds m
          (upper_end (multiboot_info m.words mb_info))
          (kernel_max_of m.words end mb_info)
        ≡ some s)
      × (block_boot rounds s.memory start end mb_info ≡ some t)
      × ((w : ℕ) → InUse m.words end mb_info w → t.words w ≡ m.words w)
setup_kept rounds m start end mb_info fits enough b =
    let upper = upper_end (multiboot_info m.words mb_info) in
    let kernel_max = kernel_max_of m.words end mb_info in
    let (s, ends, _, _, _, over, layout) =
      kmemory_linear_setup_lem rounds m upper kernel_max (omega arith) fits in
    let (t, marked, layout') =
      block_boot-Layout m.words (page_behind kernel_max) (upper / 2 ^ 22 + 1) (upper / 4096)
        (omega arith) rounds enough start end mb_info b s.memory
        (tables_end upper kernel_max / 4096 + 1 + 2) layout (omega (arith, fits.room)) in
    (
      s,
      t,
      ends,
      marked,
      λ w used.
          let low = InUse-lt m.words end mb_info w used in
          layout'.below w (omega (arith, low, over, layout.aligned)),
    )
