-- ===== src/Memory/Elf.antt =====
-- read_elf of arch/ia32/memory.c and the structures of arch/ia32/include/elf32.h. The file is bytes that no page
-- taken for a segment holds; the copies into the segments are answered as a list of the arguments.
pub mod Load
mod Examples
use rjk.Base.{
  ℕ, zero, suc, ◌+◌, ◌-◌, ◌*◌, ◌/◌, ◌%◌, ◌^◌, Bool, true, false, ◌&&◌, Option, none, some, List, [],
  ◌∷◌, ◌==◌, if◌then◌else◌, ltb, u32, sub32,
}
use rjk.Memory.{get_free_pages, set_linear_entry, linear_allocated}
use rjk.Memory.Bytes.{Bytes}
use rjk.Memory.Virtual.{Space, with_memory, set_virtual_entry, clear_pages, page_of}

-- A `kuint16` and a `kuint32`, the lowest byte first.
unfoldable pub get16 : Bytes → (address : ℕ) → ℕ
get16 m a = m a + 2 ^ 8 * m (u32 (a + 1))

unfoldable pub get32 : Bytes → (address : ℕ) → ℕ
unfolding get16
get32 m a = get16 m a + 2 ^ 16 * get16 m (u32 (a + 2))

-- The fields that are read.
pub record ElfHeader : Type 0 where
  pub e_ident : ℕ → ℕ
  pub e_type : ℕ
  pub e_machine : ℕ
  pub e_version : ℕ
  pub e_entry : ℕ
  pub e_phoff : ℕ
  pub e_phentsize : ℕ
  pub e_phnum : ℕ

pub record ProgramHeader : Type 0 where
  pub p_type : ℕ
  pub p_offset : ℕ
  pub p_vaddr : ℕ
  pub p_filesz : ℕ
  pub p_memsz : ℕ

unfoldable pub elf_header : Bytes → (address : ℕ) → ElfHeader
unfolding get16 get32
elf_header m a = record {
  e_ident = λ i. m (u32 (a + i));
  e_type = get16 m (u32 (a + 16));
  e_machine = get16 m (u32 (a + 18));
  e_version = get32 m (u32 (a + 20));
  e_entry = get32 m (u32 (a + 24));
  e_phoff = get32 m (u32 (a + 28));
  e_phentsize = get16 m (u32 (a + 42));
  e_phnum = get16 m (u32 (a + 44));
}

unfoldable pub program_header : Bytes → (address : ℕ) → ProgramHeader
unfolding get32
program_header m a = record {
  p_type = get32 m a;
  p_offset = get32 m (u32 (a + 4));
  p_vaddr = get32 m (u32 (a + 8));
  p_filesz = get32 m (u32 (a + 16));
  p_memsz = get32 m (u32 (a + 20));
}

-- `buffer + elf_h->e_phoff + (i * elf_h->e_phentsize)`
abbrev pub header_address : (buffer : ℕ) → ElfHeader → (i : ℕ) → ℕ
header_address buffer h i = u32 (buffer + h.e_phoff + i * h.e_phentsize)

unfoldable pub is_elf : ElfHeader → Bool
is_elf h =
    (h.e_ident 0 == 0x7F)
    && (h.e_ident 1 == b'E')
    && (h.e_ident 2 == b'L')
    && (h.e_ident 3 == b'F')
    && (h.e_ident 4 == 1)
    && (h.e_ident 5 == 1)
    && (h.e_ident 6 == 1)
    && (h.e_type == 2)
    && (h.e_machine == 3)
    && (h.e_version == 1)
    && ltb 0 h.e_entry
    && ltb 0 h.e_phoff

-- PT_LOAD
abbrev pub is_load : ProgramHeader → Bool
is_load p = p.p_type == 1

unfoldable pub segment_start : ProgramHeader → ℕ
segment_start p = page_of p.p_vaddr

unfoldable pub segment_count : ProgramHeader → ℕ
unfolding segment_start
segment_count p =
    let end = u32 (page_of (sub32 (u32 (p.p_vaddr + p.p_memsz)) 1) + 4096) in
    sub32 end (segment_start p) / 4096

-- VIRTUAL_ALLOCATED | VIRTUAL_READWRITE | VIRTUAL_USERSUPER
abbrev pub virtual_segment : ℕ
virtual_segment = 0x00000007

-- The loop over the pages of a segment. The clearing at `vaddr` goes to the page just mapped there.
unfoldable pub map_segment : (rounds count : ℕ) → Space → (vaddr laddr : ℕ) → Option Space
map_segment rounds zero s vaddr laddr = some s
map_segment rounds (suc count) s vaddr laddr =
    elim (set_virtual_entry rounds s vaddr laddr virtual_segment) [
      | none ↦ none
      | some t ↦
          map_segment rounds count
            (with_memory t
              (clear_pages (set_linear_entry t.memory vaddr laddr linear_allocated) laddr 1))
            (u32 (vaddr + 4096)) (u32 (laddr + 4096))
    ]

unfoldable pub load_segment : (rounds : ℕ) → Space → ProgramHeader → Option Space
unfolding map_segment segment_start segment_count
load_segment rounds s p = elim (is_load p) [
  | false ↦ some s
  | true ↦ elim (get_free_pages s.memory (segment_count p) 0) [
    | none ↦ none
    | some (address, m) ↦ elim (address == 0) [
      | true ↦ some (with_memory s m)
      | false ↦ map_segment rounds (segment_count p) (with_memory s m) (segment_start p) address
    ]
  ]
]

-- The first loop over the program headers, with `e_phnum - i` rounds left.
unfoldable pub load_segments :
    (rounds left : ℕ) → (file : Bytes) (buffer : ℕ) → ElfHeader → (i : ℕ) → Space → Option Space
unfolding load_segment
load_segments rounds zero file buffer h i s = some s
load_segments rounds (suc left) file buffer h i s =
    elim (load_segment rounds s (program_header file (header_address buffer h i))) [
      | none ↦ none
      | some t ↦ load_segments rounds left file buffer h (i + 1) t
    ]

-- The second loop: the destination, the source and the size of each copy.
unfoldable pub copies :
    (left : ℕ) → (file : Bytes) (buffer : ℕ) → ElfHeader → (i : ℕ) → List (ℕ × ℕ × ℕ)
copies zero file buffer h i = []
copies (suc left) file buffer h i =
    let p = program_header file (header_address buffer h i) in
    let rest = copies left file buffer h (i + 1) in
    if is_load p then (p.p_vaddr, u32 (buffer + p.p_offset), p.p_filesz) ∷ rest else rest

-- The value returned, `*entry`, the copies and the pages; `entry` is what `*entry` was.
unfoldable pub read_elf :
    (rounds : ℕ)
    → (file : Bytes) (buffer entry : ℕ) → Space
    → Option (ℕ × ℕ × List (ℕ × ℕ × ℕ) × Space)
unfolding load_segments copies is_elf elf_header
read_elf rounds file buffer entry s =
    let h = elf_header file buffer in
    elim (is_elf h) [
      | false ↦ some (1, entry, [], s)
      | true ↦ elim (load_segments rounds h.e_phnum file buffer h 0 s) [
        | none ↦ none
        | some t ↦ some (0, h.e_entry, copies h.e_phnum file buffer h 0, t)
      ]
    ]
