-- ===== src/Init/Examples.antt =====
-- A boot with two modules for arch/ia32/init.c.
use rjk.Base.{
  ℕ, ◌≤◌, ◌≡◌, ◌↔◌, refl, some, arith, inr, [], ◌∷◌, true, ◌==◌, if◌then◌else◌, test_bit, zero, suc,
  ◌<◌, ◌/◌, ◌*◌, ◌+◌, ◌^◌,
}
use rjk.Memory.{Memory}
use rjk.Memory.Virtual.{Space}
use rjk.Memory.Setup.{kmemory_linear_setup}
use rjk.Memory.Setup.Whole.{Fits}
use rjk.Init.{multiboot_info, multiboot_mod, kernel_max_of, modules_max, upper_end, has_modules}
use rjk.Init.Bounds.{BootAtMost, kernel_max_lem}
use rjk.Init.Keep.{InUse}
use rjk.Init.{block_boot}
use rjk.Init.Ranges.{IsRange}
use rjk.Init.Blocked.{IsBoot, setup_kept}
use rjk.Memory.Setup.{page_behind}
use rjk.Init.Modules.{init_asks, Ask, start_module_prints}

-- mb_info at 0x9000: 1 MB above the first, two modules, whose array is at 0x9100.
abbrev boot_words : ℕ → ℕ
boot_words w =
    if w == 0x2400
    then 9
    else if w == 0x2402
    then 0x400
    else if w == 0x2405
    then 2
    else if w == 0x2406
    then 0x9100
    else if w == 0x2440
    then 0x104000
    else if w == 0x2441
    then 0x105010
    else if w == 0x2444
    then 0x106000
    else if w == 0x2445
    then 0x107800
    else 0

kernel_max_test : kernel_max_of boot_words 0x103000 0x9000 ≡ 0x107800
unfolding kernel_max_of modules_max multiboot_info multiboot_mod test_bit
kernel_max_test = refl

kernel_max_lem_example :
    (kernel_max_of boot_words 0x103000 0x9000 ≤ 0x108000)
    ↔ BootAtMost boot_words 0x103000 0x9000 0x108000
kernel_max_lem_example = kernel_max_lem boot_words 0x103000 0x9000 0x108000

abbrev boot_memory : Memory
boot_memory = record {
  words = boot_words;
  linear_directory = 0;
  zones = λ z. record { next = 0; start = 0; end = 0 };
}

there : has_modules (multiboot_info boot_words 0x9000) ≡ true
unfolding multiboot_info test_bit
there = refl

upper_test : upper_end (multiboot_info boot_words 0x9000) ≡ 0x200000
unfolding multiboot_info
upper_test = refl

-- The word at 0x107004 is in the second module.
word-InUse : InUse boot_words 0x103000 0x9000 0x41C01
unfolding multiboot_info multiboot_mod
word-InUse = inr (inr (there, (1, omega arith, omega arith)))

-- 4 MB above the first, so that the tables fit.
boot-Fits :
    Fits (upper_end (multiboot_info boot_words 0x9000)) (kernel_max_of boot_words 0x103000 0x9000)
boot-Fits =
    rw (kernel_max_test, upper_test)
      (record {
        pos = omega arith;
        low = omega arith;
        above = omega arith;
        dma = omega arith;
        room = omega arith;
        top = omega arith;
        one_table = omega arith;
      })

modules-IsRange :
    (k : ℕ)
    → k < 2
    → (0x9100 / 4 + 4 * (0 + k) + 1 < 0x108000 / 4)
      × IsRange 1
          (multiboot_mod boot_words 0x9100 (0 + k)).mod_start
          (multiboot_mod boot_words 0x9100 (0 + k)).mod_end
unfolding multiboot_mod
modules-IsRange zero h =
    (omega arith, record { some_bytes = omega arith; covered = omega arith; small = omega arith })
modules-IsRange (suc zero) h =
    (omega arith, record { some_bytes = omega arith; covered = omega arith; small = omega arith })
modules-IsRange (suc (suc k)) h = absurd (omega arith)

words-IsBoot : IsBoot boot_words 0x108000 1 0x100000 0x103000 0x9000
unfolding multiboot_info test_bit
words-IsBoot = record {
  image = record { some_bytes = omega arith; covered = omega arith; small = omega arith };
  info = record { some_bytes = omega arith; covered = omega arith; small = omega arith };
  info_low = omega arith;
  array = λ e. record { some_bytes = omega arith; covered = omega arith; small = omega arith };
  modules = λ e k lt. modules-IsRange k lt;
}

loaded-IsBoot :
    IsBoot boot_words
      (page_behind (kernel_max_of boot_words 0x103000 0x9000))
      (upper_end (multiboot_info boot_words 0x9000) / 2 ^ 22 + 1)
      0x100000
      0x103000
      0x9000
loaded-IsBoot = rw (kernel_max_test, upper_test) words-IsBoot

setup_kept_example :
    (s : Space) × (t : Memory) × (kmemory_linear_setup 1025 boot_memory
        (upper_end (multiboot_info boot_words 0x9000))
        (kernel_max_of boot_words 0x103000 0x9000)
      ≡ some s)
    × (block_boot 1025 s.memory 0x100000 0x103000 0x9000 ≡ some t)
    × ((w : ℕ) → InUse boot_words 0x103000 0x9000 w → t.words w ≡ boot_words w)
setup_kept_example =
    setup_kept 1025 boot_memory 0x100000 0x103000 0x9000 boot-Fits (rw upper_test (omega arith))
      loaded-IsBoot

asks_test : init_asks 0 ≡ Ask.no_entry_message ∷ Ask.idle ∷ []
unfolding init_asks
asks_test = refl

failed_test : start_module_prints 1 ≡ true
unfolding start_module_prints
failed_test = refl
