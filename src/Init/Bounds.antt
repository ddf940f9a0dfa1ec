-- ===== src/Init/Bounds.antt =====
-- How high `setup` of arch/ia32/init.c takes the memory that is in use to reach.
use rjk.Base.{ℕ, zero, suc, ◌+◌, ◌≤◌, ◌<◌, ◌≡◌, ◌↔◌, true, u32, arith, Bool-cases, inl, inr}
use mathlib.Core.Path.{subst}
use rjk.Init.{
  multiboot_info, multiboot_mod, max, has_modules, behind_array, modules_max, kernel_max_of,
  sizeof_multiboot_info,
}

max-le : (a b c : ℕ) → (max a b ≤ c) ↔ ((a ≤ c) × (b ≤ c))
max-le a b c = ((λ h. ground (arith, h)), λ h. ground (arith, h))

module _ (words : ℕ → ℕ) (mods_array b : ℕ) where
  modules_max-le :
      (left i kernel_max : ℕ) → modules_max left words mods_array i kernel_max ≤ b → kernel_max ≤ b
  unfolding modules_max
  modules_max-le zero i kernel_max h = h
  modules_max-le (suc left) i kernel_max h =
      let first = (multiboot_mod words mods_array i).mod_end in
      ((max-le kernel_max first b).0 (modules_max-le left (i + 1) (max kernel_max first) h)).0

  mod_end-le :
      (left i kernel_max : ℕ)
      → modules_max left words mods_array i kernel_max ≤ b
      → (k : ℕ) → k < left
      → (multiboot_mod words mods_array (i + k)).mod_end ≤ b
  unfolding modules_max
  mod_end-le zero i kernel_max h k lt = absurd (omega arith)
  mod_end-le (suc left) i kernel_max h zero lt =
      let first = (multiboot_mod words mods_array i).mod_end in
      let same : i + 0 ≡ i = omega arith in
      rw same
        ((max-le kernel_max first b).0 (modules_max-le left (i + 1) (max kernel_max first) h)).1
  mod_end-le (suc left) i kernel_max h (suc k) lt =
      let first = (multiboot_mod words mods_array i).mod_end in
      let same : i + suc k ≡ i + 1 + k = omega arith in
      rw same (mod_end-le left (i + 1) (max kernel_max first) h k (omega arith))

  le-modules_max :
      (left i kernel_max : ℕ)
      → kernel_max ≤ b
      → ((k : ℕ) → k < left → (multiboot_mod words mods_array (i + k)).mod_end ≤ b)
      → modules_max left words mods_array i kernel_max ≤ b
  unfolding modules_max
  le-modules_max zero i kernel_max h all = h
  le-modules_max (suc left) i kernel_max h all =
      let first = (multiboot_mod words mods_array i).mod_end in
      let same : i + 0 ≡ i = omega arith in
      let at : first ≤ b =
        subst (λ j. (multiboot_mod words mods_array j).mod_end ≤ b) same (all 0 (omega arith)) in
      le-modules_max left (i + 1) (max kernel_max first) ((max-le kernel_max first b).1 (h, at))
        λ k lt.
          let next : i + suc k ≡ i + 1 + k = omega arith in
          subst (λ j. (multiboot_mod words mods_array j).mod_end ≤ b) next
            (all (suc k) (omega arith))

-- The kernel image, the 116 bytes of mb_info, and with modules the first 16 entries of their array, of 16
-- bytes each, and each module end at most at b.
pub record BootAtMost (words : ℕ → ℕ) (end mb_info b : ℕ) : Type 0 where
  pub image : end ≤ b
  pub info_end : u32 (mb_info + 116) ≤ b
  pub array :
      has_modules (multiboot_info words mb_info) ≡ true
      → u32 ((multiboot_info words mb_info).mods_addr + 256) ≤ b
  pub modules :
      has_modules (multiboot_info words mb_info) ≡ true
      → (k : ℕ) → k < (multiboot_info words mb_info).mods_count
      → (multiboot_mod words (multiboot_info words mb_info).mods_addr k).mod_end ≤ b

-- kernel_max, behind which setup has the page tables built, is the least address that none of these ends
-- above: the kernel image, the 116 bytes of mb_info and, where there are modules, the first 16 entries of
-- their array and every module. Entries behind the sixteenth do not count.
pub kernel_max_lem :
    (words : ℕ → ℕ) (end mb_info b : ℕ)
    → (kernel_max_of words end mb_info ≤ b) ↔ BootAtMost words end mb_info b
unfolding kernel_max_of
kernel_max_lem words end mb_info b =
    let info = multiboot_info words mb_info in
    let behind = u32 (mb_info + sizeof_multiboot_info) in
    let image = max (max 0 end) behind in
    let array_max = max image (behind_array info.mods_addr) in
    let image_le : (image ≤ b) ↔ ((end ≤ b) × (behind ≤ b)) =
      (λ h. ground (arith, h), λ h. ground (arith, h)) in
    elim (Bool-cases (has_modules info)) [
      | inr none_there ↦ rw none_there (
        λ h. record {
          image = (image_le.0 h).0;
          info_end = (image_le.0 h).1;
          array = λ e. cc;
          modules = λ e. cc;
        },
        λ h. image_le.1 (h.image, h.info_end),
      )
      | inl there ↦ rw there (
        λ h.
            let top = modules_max-le words info.mods_addr b info.mods_count 0 array_max h in
            let (low, array) = (max-le image (behind_array info.mods_addr) b).0 top in
            record {
              image = (image_le.0 low).0;
              info_end = (image_le.0 low).1;
              array = λ e. array;
              modules = λ e k lt.
                  let same : 0 + k ≡ k = omega arith in
                  subst (λ j. (multiboot_mod words info.mods_addr j).mod_end ≤ b) same
                    (mod_end-le words info.mods_addr b info.mods_count 0 array_max h k lt);
            },
        λ h.
            let low = image_le.1 (h.image, h.info_end) in
            le-modules_max words info.mods_addr b info.mods_count 0 array_max
              ((max-le image (behind_array info.mods_addr) b).1 (low, h.array there))
              λ k lt. let same : 0 + k ≡ k = omega arith in rw same (h.modules there k lt),
      )
    ]
