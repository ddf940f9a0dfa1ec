-- ===== src/Processor/Swap.antt =====
-- The byte swaps of arch/ia32/processor.c undo themselves, and their variants agree.
use rjk.Base.{ℕ, ◌^◌, ◌<◌, ◌≡◌, arith}
use rjk.Processor.{kprocessor_byteswap_kuint32, byteswap_386}

-- For a 32-bit word, the instructions for CPU == 386 swap the bytes as bswapl does, and swapping twice
-- gives back the word.
pub byteswap_lem :
    (w : ℕ)
    → w < 2 ^ 32
    → (byteswap_386 w ≡ kprocessor_byteswap_kuint32 w)
      × (kprocessor_byteswap_kuint32 (byteswap_386 w) ≡ w)
unfolding byteswap_386 kprocessor_byteswap_kuint32
byteswap_lem w h = (omega arith, omega arith)
