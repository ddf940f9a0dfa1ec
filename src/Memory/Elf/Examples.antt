-- ===== src/Memory/Elf/Examples.antt =====
-- Two segments for read_elf of arch/ia32/memory.c, and a file that is no ELF file.
use rjk.Base.{◌+◌, ◌*◌, ◌<◌, ◌≤◌, ◌≡◌, refl, none, some, [], arith}
use rjk.Memory.Bytes.{Bytes}
use rjk.Memory.Virtual.{Space}
use rjk.Memory.Elf.{
  ProgramHeader, segment_start, segment_count, load_segment, read_elf, is_elf, elf_header,
}
use rjk.Memory.Elf.Load.{segment_count_lem, load_segment_empty}

abbrev segment : ProgramHeader
segment = record {
  p_type = 1;
  p_offset = 0x1000;
  p_vaddr = 0x400010;
  p_filesz = 16;
  p_memsz = 0x1FF8;
}

segment_count_lem_test :
    (segment_start segment ≤ 0x400010)
    × (0x400010 < segment_start segment + 4096)
    × (0x400010 + 0x1FF8 ≤ segment_start segment + segment_count segment * 4096)
    × (segment_start segment + segment_count segment * 4096 < 0x400010 + 0x1FF8 + 4096)
segment_count_lem_test = segment_count_lem segment (omega arith) (omega arith)

segment_count_test : segment_count segment ≡ 3
unfolding segment_count segment_start
segment_count_test = refl

abbrev empty_segment : ProgramHeader
empty_segment = record { p_type = 1; p_offset = 0; p_vaddr = 0x500000; p_filesz = 0; p_memsz = 0 }

abbrev space : Space
space = record {
  memory = record {
    words = λ p. 0x300;
    linear_directory = 0x1000;
    zones = λ z. record { next = 0x1000; start = 0x1000; end = 0x100000 };
  };
  virtual_page_table_directory = 0x3000;
  virtual_block = record { block = 0; pages = 0; free = []; used = []; pages_index = 0 };
  virtual_address = 0x10000000;
}

load_segment_empty_test : load_segment 1 space empty_segment ≡ none
load_segment_empty_test = load_segment_empty 1 space empty_segment refl refl refl (omega arith)

abbrev zeros : Bytes
zeros a = 0

read_elf_test : read_elf 1 zeros 0x200000 7 space ≡ some (1, 7, [], space)
unfolding read_elf is_elf elf_header
read_elf_test = refl
