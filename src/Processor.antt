-- ===== src/Processor.antt =====
-- arch/ia32/processor.c: the byte swaps, in both variants that the build can select.
pub mod Swap
mod Examples
use rjk.Base.{ℕ, ◌+◌, ◌*◌, ◌/◌, ◌%◌, ◌^◌}

-- Byte k of a word, from the lowest.
abbrev pub byte : ℕ → ℕ → ℕ
byte k w = w / 2 ^ (8 * k) % 2 ^ 8

abbrev pub bswapl : ℕ → ℕ
bswapl w = byte 0 w * 2 ^ 24 + byte 1 w * 2 ^ 16 + byte 2 w * 2 ^ 8 + byte 3 w

-- `xchgb %b0, %h0` and `rorl $16, %0`
abbrev pub xchgb : ℕ → ℕ
xchgb w = w / 2 ^ 16 * 2 ^ 16 + byte 0 w * 2 ^ 8 + byte 1 w

abbrev pub rorl_16 : ℕ → ℕ
rorl_16 w = w % 2 ^ 16 * 2 ^ 16 + w / 2 ^ 16

unfoldable pub kprocessor_byteswap_kuint32 : ℕ → ℕ
kprocessor_byteswap_kuint32 value = bswapl value

-- The branch for CPU == 386.
unfoldable pub byteswap_386 : ℕ → ℕ
byteswap_386 value = xchgb (rorl_16 (xchgb value))

unfoldable pub kprocessor_byteswap_kuint16 : ℕ → ℕ
kprocessor_byteswap_kuint16 value = xchgb value

-- The words of a `kuint64`, the lower first.
unfoldable pub kprocessor_byteswap_kuint64 : ℕ × ℕ → ℕ × ℕ
kprocessor_byteswap_kuint64 value = (bswapl value.1, bswapl value.0)

-- A `kuint` has 32 bits.
unfoldable pub kprocessor_byteswap_kuint : ℕ → ℕ
kprocessor_byteswap_kuint value = bswapl value

unfoldable pub kprocessor_byteswap_kuint8 : ℕ → ℕ
kprocessor_byteswap_kuint8 value = value

-- The branch for CPU == 386 of the swap of a `kuint64`.
unfoldable pub byteswap_386_kuint64 : ℕ × ℕ → ℕ × ℕ
byteswap_386_kuint64 value = (xchgb (rorl_16 (xchgb value.1)), xchgb (rorl_16 (xchgb value.0)))

-- The processor's flags and `*flags`: `pushfl ; popl` and `pushl ; popfl`.
unfoldable pub kprocessor_flags_save : ℕ × ℕ → ℕ × ℕ
kprocessor_flags_save (eflags, flags) = (eflags, eflags)

unfoldable pub kprocessor_flags_restore : ℕ × ℕ → ℕ × ℕ
kprocessor_flags_restore (eflags, flags) = (flags, flags)
