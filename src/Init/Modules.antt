-- ===== src/Init/Modules.antt =====
-- `init` of arch/ia32/init.c: the devices in their order, the modules that are loaded, the threads that
-- are asked for. The files are bytes that no page taken for a segment holds.
use rjk.Base.{
  ℕ, zero, suc, ◌+◌, ◌≡◌, refl, ◌⊎◌, inl, inr, Bool, true, false, Bool-cases, Option, none, some,
  Option-cases, List, [], ◌∷◌, ◌++◌, ◌==◌, if◌then◌else◌,
}
use rjk.Module.{Mod}
use rjk.Memory.Bytes.{Bytes}
use rjk.Memory.Virtual.{Space}
use rjk.Memory.Elf.{read_elf, is_elf, elf_header, load_segments, copies}

-- The destination, the source and the size of each copy.
abbrev pub Copies : Type 0
Copies = List (ℕ × ℕ × ℕ)

-- The loop over the modules, from i on with `left` of them left: `entry`, the copies and the pages.
unfoldable pub load_modules :
    (rounds left : ℕ)
    → (file : Bytes) (mods : ℕ → Mod) (i entry : ℕ) → Space
    → Option (ℕ × Copies × Space)
unfolding read_elf
load_modules rounds zero file mods i entry s = some (entry, [], s)
load_modules rounds (suc left) file mods i entry s =
    elim (read_elf rounds file (mods i).mod_start entry s) [
      | none ↦ none
      | some (rc, e, cs, t) ↦ elim (rc == 0) [
        | false ↦ some (e, cs, t)
        | true ↦ elim (load_modules rounds left file mods (i + 1) e t) [
          | none ↦ none
          | some (e', cs', u) ↦ some (e', cs ++ cs', u)
        ]
      ]
    ]

-- What `init` does at its end: kthread_create(start_module), or the message; kthread_create(idle).
pub data Ask : Type 0 where
  start_module : (entry : ℕ) → Ask
  no_entry_message idle : Ask

unfoldable pub init_asks : (entry : ℕ) → List Ask
init_asks entry =
    if entry == 0 then no_entry_message ∷ idle ∷ [] else start_module entry ∷ idle ∷ []

-- start_module: whether it prints that the module has failed, by what the module's entry returns.
unfoldable pub start_module_prints : (returned : ℕ) → Bool
start_module_prints returned = if returned == 0 then false else true

-- The entry of the last module before the first file that is none for the kernel.
pub leading_entry : (left : ℕ) → (file : Bytes) (mods : ℕ → Mod) (i entry : ℕ) → ℕ
leading_entry zero file mods i entry = entry
leading_entry (suc left) file mods i entry =
    let h = elf_header file (mods i).mod_start in
    let rest = leading_entry left file mods (i + 1) h.e_entry in if is_elf h then rest else entry

-- The copies for the modules before the first file that is none for the kernel.
pub leading_copies : (left : ℕ) → (file : Bytes) (mods : ℕ → Mod) (i : ℕ) → Copies
leading_copies zero file mods i = []
leading_copies (suc left) file mods i =
    let start = (mods i).mod_start in
    let h = elf_header file start in
    let rest = leading_copies left file mods (i + 1) in
    if is_elf h then copies h.e_phnum file start h 0 ++ rest else []

module _ (rounds : ℕ) (file : Bytes) (mods : ℕ → Mod) where
  read_elf_rejected :
      (buffer entry : ℕ) (s : Space)
      → is_elf (elf_header file buffer) ≡ false
      → read_elf rounds file buffer entry s ≡ some (1, entry, [], s)
  unfolding read_elf
  read_elf_rejected buffer entry s e = rw (e, read_elf) refl

  read_elf_accepted :
      (buffer entry : ℕ) (s : Space)
      → is_elf (elf_header file buffer) ≡ true
      → (read_elf rounds file buffer entry s ≡ none)
        ⊎ ((t : Space) × (read_elf rounds file buffer entry s
              ≡ some (
                0,
                (elf_header file buffer).e_entry,
                copies (elf_header file buffer).e_phnum file buffer (elf_header file buffer) 0,
                t,
              )))
  unfolding read_elf
  read_elf_accepted buffer entry s e =
      let h = elf_header file buffer in
      elim (Option-cases (load_segments rounds h.e_phnum file buffer h 0 s)) [
        | inl stuck ↦ inl (rw (e, read_elf) (rw stuck refl))
        | inr (t, done) ↦ inr (t, rw (e, read_elf) (rw done refl))
      ]

  -- The loop over the modules does not end, or it has loaded the modules before the first file that is none
  -- for the kernel: `entry` is that of the last of them, and the copies are theirs in order.
  pub load_modules_lem :
      (left i entry : ℕ) (s : Space)
      → (load_modules rounds left file mods i entry s ≡ none)
        ⊎ ((u : Space) × (load_modules rounds left file mods i entry s
              ≡ some (leading_entry left file mods i entry, leading_copies left file mods i, u)))
  unfolding load_modules leading_entry leading_copies
  load_modules_lem zero i entry s = inr (s, refl)
  load_modules_lem (suc left) i entry s =
      let start = (mods i).mod_start in
      let h = elf_header file start in
      elim (Bool-cases (is_elf h)) [
        | inr bad ↦ inr (s, rw (read_elf_rejected start entry s bad, load_modules) (rw bad refl))
        | inl good ↦ elim (read_elf_accepted start entry s good) [
          | inl stuck ↦ inl (rw (stuck, load_modules) refl)
          | inr (t, done) ↦ elim (load_modules_lem left (i + 1) h.e_entry t) [
            | inl stuck ↦ inl (rw (done, load_modules) (rw stuck refl))
            | inr (u, rest) ↦ inr (u, rw (done, load_modules) (rw (rest, good) refl))
          ]
        ]
      ]
