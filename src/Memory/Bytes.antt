-- ===== src/Memory/Bytes.antt =====
-- The copies and fills of arch/ia32/memory.c: kmemory_virtual_copy and kmemory_virtual_fill. The memory is
-- a function from an address to the byte there.
pub mod Copy
pub mod Fill
use rjk.Base.{
  ℕ, zero, suc, ◌+◌, ◌-◌, ◌*◌, ◌/◌, ◌%◌, ◌^◌, Bool, true, false, ◌&&◌, leb, ltb, if◌then◌else◌, u8,
  u32, test_bit, update,
}

abbrev pub Bytes : Type 0
Bytes = ℕ → ℕ

-- The registers %edi and %esi.
abbrev pub Registers : Type 0
Registers = ℕ × ℕ

-- `movsl`, `movsw` and `movsb`, of 4, 2 and 1 bytes, with the direction flag clear: the bytes are read
-- before any is written.
unfoldable pub movs : (n : ℕ) → Registers × Bytes → Registers × Bytes
movs n ((edi, esi), m) = (
  (u32 (edi + n), u32 (esi + n)),
  λ a. if leb edi a && ltb a (edi + n) then m (esi + (a - edi)) else m a,
)

-- `rep`, with %ecx rounds.
unfoldable pub rep :
    (ecx : ℕ) → (Registers × Bytes → Registers × Bytes) → Registers × Bytes → Registers × Bytes
rep zero move s = s
rep (suc ecx) move s = rep ecx move (move s)

-- kmemory_virtual_copy: words of 4 bytes, then 2 bytes and 1 as bits 1 and 0 of the size say.
unfoldable pub kmemory_virtual_copy : (destination source size : ℕ) → Bytes → Bytes
unfolding movs rep
kmemory_virtual_copy destination source size m =
    let s1 = rep (size / 4) (movs 4) ((destination, source), m) in
    let s2 = if test_bit size 1 then movs 2 s1 else s1 in
    let s3 = if test_bit size 0 then movs 1 s2 else s2 in s3.1

-- `xchgb %al, %ah`: the value is in %al, and %ah is what it was.
abbrev pub exchange : ℕ × ℕ → ℕ × ℕ
exchange (al, ah) = (ah, al)

-- `stosw` and `stosb`: %al goes to the first byte, %ah to the second.
unfoldable pub stosw : (eax : ℕ × ℕ) → ℕ × Bytes → ℕ × Bytes
stosw (al, ah) (edi, m) = (u32 (edi + 2), update (update m edi al) (edi + 1) ah)

unfoldable pub rep_stosw : (ecx : ℕ) → (eax : ℕ × ℕ) → ℕ × Bytes → ℕ × Bytes
unfolding stosw
rep_stosw zero eax s = s
rep_stosw (suc ecx) eax s = rep_stosw ecx eax (stosw eax s)

-- kmemory_virtual_fill, with `ah` in %ah.
unfoldable pub kmemory_virtual_fill : (ah : ℕ) → (pointer size value : ℕ) → Bytes → Bytes
unfolding rep_stosw
kmemory_virtual_fill ah pointer size value m =
    let eax = exchange (u8 value, ah) in
    let (edi, m1) = rep_stosw (size / 2) eax (pointer, m) in
    if test_bit size 0 then update m1 edi eax.0 else m1
