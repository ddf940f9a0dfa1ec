-- ===== src/Memory/Words/Examples.antt =====
-- Two words, one behind the other.
use rjk.Base.{ℕ, ◌≡◌}
use rjk.Memory.Bytes.{Bytes}
use rjk.Memory.Words.{kmemory_linear_read_kuint64, kmemory_linear_write_kuint64}
use rjk.Memory.Words.RoundTrip.{Outside, kuint64_round_trip}

abbrev filled : Bytes
filled a = 0xFF

kuint64_round_trip_test :
    (kmemory_linear_read_kuint64
        (kmemory_linear_write_kuint64 filled 0x1000 0x1122334455667788)
        0x1000
      ≡ 0x1122334455667788)
    × ((a : ℕ)
        → Outside 8 0x1000 a
        → kmemory_linear_write_kuint64 filled 0x1000 0x1122334455667788 a ≡ 0xFF)
kuint64_round_trip_test = kuint64_round_trip filled 0x1000 0x1122334455667788
