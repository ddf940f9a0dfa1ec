-- ===== src/Memory/Words.antt =====
-- kmemory_linear_read_kuint of arch/ia32/memory.c, its writes, and the forms for the other widths. The
-- memory is a function from an address to the byte there; the lowest byte of a word comes first. An
-- access that does not end within the 4 GB of the address space is outside the model.
pub mod RoundTrip
mod Examples
use rjk.Base.{ℕ, ◌+◌, ◌*◌, ◌/◌, ◌%◌, ◌^◌, update}
use rjk.Memory.Bytes.{Bytes}

unfoldable pub kmemory_linear_read_kuint8 : Bytes → (address : ℕ) → ℕ
kmemory_linear_read_kuint8 m address = m address

unfoldable pub kmemory_linear_read_kuint16 : Bytes → (address : ℕ) → ℕ
kmemory_linear_read_kuint16 m address = m address + 2 ^ 8 * m (address + 1)

unfoldable pub kmemory_linear_read_kuint32 : Bytes → (address : ℕ) → ℕ
unfolding kmemory_linear_read_kuint16
kmemory_linear_read_kuint32 m address =
    kmemory_linear_read_kuint16 m address + 2 ^ 16 * kmemory_linear_read_kuint16 m (address + 2)

unfoldable pub kmemory_linear_read_kuint64 : Bytes → (address : ℕ) → ℕ
unfolding kmemory_linear_read_kuint32
kmemory_linear_read_kuint64 m address =
    kmemory_linear_read_kuint32 m address + 2 ^ 32 * kmemory_linear_read_kuint32 m (address + 4)

-- A `kuint` has 32 bits.
unfoldable pub kmemory_linear_read_kuint : Bytes → (address : ℕ) → ℕ
unfolding kmemory_linear_read_kuint32
kmemory_linear_read_kuint m address = kmemory_linear_read_kuint32 m address

unfoldable pub kmemory_linear_write_kuint8 : Bytes → (address value : ℕ) → Bytes
kmemory_linear_write_kuint8 m address value = update m address (value % 2 ^ 8)

unfoldable pub kmemory_linear_write_kuint16 : Bytes → (address value : ℕ) → Bytes
kmemory_linear_write_kuint16 m address value =
    update (update m address (value % 2 ^ 8)) (address + 1) (value / 2 ^ 8 % 2 ^ 8)

unfoldable pub kmemory_linear_write_kuint32 : Bytes → (address value : ℕ) → Bytes
unfolding kmemory_linear_write_kuint16
kmemory_linear_write_kuint32 m address value =
    kmemory_linear_write_kuint16 (kmemory_linear_write_kuint16 m address value) (address + 2)
      (value / 2 ^ 16)

unfoldable pub kmemory_linear_write_kuint64 : Bytes → (address value : ℕ) → Bytes
unfolding kmemory_linear_write_kuint32
kmemory_linear_write_kuint64 m address value =
    kmemory_linear_write_kuint32 (kmemory_linear_write_kuint32 m address value) (address + 4)
      (value / 2 ^ 32)

unfoldable pub kmemory_linear_write_kuint : Bytes → (address value : ℕ) → Bytes
unfolding kmemory_linear_write_kuint32
kmemory_linear_write_kuint m address value = kmemory_linear_write_kuint32 m address value
