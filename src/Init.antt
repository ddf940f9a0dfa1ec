-- ===== src/Init.antt =====
-- arch/ia32/init.c: what the boot loader passes to the kernel, and the set-up up to the first thread.
-- Memory is a function from the index of an aligned word (its address / 4) to the word; the structures
-- of the boot loader are aligned. `none` is an endless loop.
pub mod Bounds
pub mod Keep
pub mod Ranges
pub mod Blocked
pub mod Modules
mod Examples
use rjk.Base.{
  ℕ, zero, suc, ◌+◌, ◌*◌, ◌/◌, ◌%◌, ◌^◌, Bool, true, false, ◌&&◌, not, Option, none, some, ◌==◌,
  if◌then◌else◌, ltb, u32, test_bit,
}
use rjk.Module.{Mod}
use rjk.Memory.{Memory}
use rjk.Memory.Virtual.{Space, with_memory, kmemory_linear_page_allocate}
use rjk.Memory.Setup.{linear_block, kmemory_linear_setup, kmemory_virtual_setup}
use rjk.Thread.{Threads, kthread_setup}

-- The fields of `struct multiboot_info` that the kernel reads.
pub record MultibootInfo : Type 0 where
  pub flags : ℕ
  pub mem_lower : ℕ
  pub mem_upper : ℕ
  pub mods_count : ℕ
  pub mods_addr : ℕ

abbrev pub sizeof_multiboot_info : ℕ
sizeof_multiboot_info = 116

abbrev pub sizeof_multiboot_mod : ℕ
sizeof_multiboot_mod = 16

unfoldable pub multiboot_info : (words : ℕ → ℕ) → (mb_info : ℕ) → MultibootInfo
multiboot_info words mb_info = record {
  flags = words (mb_info / 4);
  mem_lower = words (mb_info / 4 + 1);
  mem_upper = words (mb_info / 4 + 2);
  mods_count = words (mb_info / 4 + 5);
  mods_addr = words (mb_info / 4 + 6);
}

-- `mods_array[i]`
unfoldable pub multiboot_mod : (words : ℕ → ℕ) → (mods_array i : ℕ) → Mod
multiboot_mod words mods_array i = record {
  mod_start = words (mods_array / 4 + 4 * i);
  mod_end = words (mods_array / 4 + 4 * i + 1);
}

-- The macro `max` of arch/ia32/include/internal.h.
abbrev pub max : ℕ → ℕ → ℕ
max a b = if ltb b a then a else b

-- `(mb_info->flags & 8) && (mb_info->mods_count)`
abbrev pub has_modules : MultibootInfo → Bool
has_modules info = test_bit info.flags 3 && not (info.mods_count == 0)

-- The loop over the modules, with `left` of them left.
unfoldable pub modules_max : (left : ℕ) → (words : ℕ → ℕ) → (mods_array i kernel_max : ℕ) → ℕ
modules_max zero words mods_array i kernel_max = kernel_max
modules_max (suc left) words mods_array i kernel_max =
    modules_max left words mods_array (i + 1)
      (max kernel_max (multiboot_mod words mods_array i).mod_end)

-- `mods_array + sizeof(struct multiboot_mod)` adds 16 structures, not 16 bytes.
abbrev pub behind_array : (mods_addr : ℕ) → ℕ
behind_array mods_addr = u32 (mods_addr + sizeof_multiboot_mod * sizeof_multiboot_mod)

-- `kernel_max`, of a kernel image that ends at `end`.
unfoldable pub kernel_max_of : (words : ℕ → ℕ) → (end mb_info : ℕ) → ℕ
unfolding modules_max multiboot_info
kernel_max_of words end mb_info =
    let info = multiboot_info words mb_info in
    let image = max (max 0 end) (u32 (mb_info + sizeof_multiboot_info)) in
    let modules =
      modules_max info.mods_count words info.mods_addr 0
        (max image (behind_array info.mods_addr)) in
    if has_modules info then modules else image

-- `mb_info->mem_upper * 1024 + 1024 * 1024`
abbrev pub upper_end : MultibootInfo → ℕ
upper_end info = u32 (info.mem_upper * 1024 + 1024 * 1024)

-- The loop that blocks the pages of the modules, with `left` of them left.
unfoldable pub block_modules : (rounds left : ℕ) → Memory → (mods_array i : ℕ) → Option Memory
unfolding linear_block multiboot_mod
block_modules rounds zero m mods_array i = some m
block_modules rounds (suc left) m mods_array i =
    let mod_i = multiboot_mod m.words mods_array i in
    elim (linear_block rounds m mod_i.mod_start mod_i.mod_end) [
      | none ↦ none
      | some t ↦ block_modules rounds left t mods_array (i + 1)
    ]

-- The array of modules and the modules; `mb_info` is read again.
unfoldable pub block_module_array : (rounds : ℕ) → Memory → (mb_info : ℕ) → Option Memory
unfolding block_modules linear_block
block_module_array rounds m mb_info =
    let info = multiboot_info m.words mb_info in
    let mods_array = info.mods_addr in
    elim (has_modules info) [
      | false ↦ some m
      | true ↦
          elim (linear_block rounds m mods_array
            (u32 (mods_array + sizeof_multiboot_mod * info.mods_count))) [
              | none ↦ none
              | some t ↦ block_modules rounds info.mods_count t mods_array 0
            ]
    ]

-- The kernel image, `mb_info`, and the modules.
unfoldable pub block_boot : (rounds : ℕ) → Memory → (start end mb_info : ℕ) → Option Memory
unfolding linear_block block_module_array
block_boot rounds m start end mb_info = elim (linear_block rounds m start end) [
  | none ↦ none
  | some m1 ↦ elim (linear_block rounds m1 mb_info (u32 (mb_info + sizeof_multiboot_info))) [
    | none ↦ none
    | some m2 ↦ block_module_array rounds m2 mb_info
  ]
]

-- The stack pointer of the first thread, the threads, and the space. `rounds` bounds the loops of
-- the callees; the image lies from `start` to `end`.
unfoldable pub setup :
    (rounds : ℕ) → Memory → Threads → (start end mb_info : ℕ) → Option (ℕ × Threads × Space)
unfolding kernel_max_of block_boot multiboot_info kmemory_linear_setup kmemory_virtual_setup
    kmemory_linear_page_allocate kthread_setup
setup rounds m threads start end mb_info =
    let info = multiboot_info m.words mb_info in
    elim (test_bit info.flags 0) [
      | false ↦ none
      | true ↦
          elim (kmemory_linear_setup rounds m (upper_end info)
            (kernel_max_of m.words end mb_info)) [
              | none ↦ none
              | some s ↦ elim (block_boot rounds s.memory start end mb_info) [
                | none ↦ none
                | some m1 ↦ elim (kmemory_virtual_setup rounds (with_memory s m1)) [
                  | none ↦ none
                  | some s2 ↦ elim (kmemory_linear_page_allocate rounds s2 1 true) [
                    | none ↦ none
                    | some (page, s3) ↦
                        let (esp, threads') = kthread_setup page threads in some (esp, threads', s3)
                  ]
                ]
              ]
            ]
    ]
