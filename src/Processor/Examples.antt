-- ===== src/Processor/Examples.antt =====
-- Byte swaps of arch/ia32/processor.c on some words.
use rjk.Base.{◌≡◌, refl, arith}
use rjk.Processor.{
  kprocessor_byteswap_kuint32, byteswap_386, kprocessor_byteswap_kuint16,
  kprocessor_byteswap_kuint64,
}
use rjk.Processor.Swap.{byteswap_lem}

byteswap_lem_test :
    (byteswap_386 0x12345678 ≡ kprocessor_byteswap_kuint32 0x12345678)
    × (kprocessor_byteswap_kuint32 (byteswap_386 0x12345678) ≡ 0x12345678)
byteswap_lem_test = byteswap_lem 0x12345678 (omega arith)

half_test : kprocessor_byteswap_kuint16 0x1234 ≡ 0x3412
unfolding kprocessor_byteswap_kuint16
half_test = refl

double_test : kprocessor_byteswap_kuint64 (0x12345678, 0x9ABCDEF0) ≡ (0xF0DEBC9A, 0x78563412)
unfolding kprocessor_byteswap_kuint64
double_test = refl
