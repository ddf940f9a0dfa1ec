-- ===== src/Port.antt =====
-- arch/ia32/ioport.c: input and output through ports. The devices are a parameter: what a read of a
-- number of bytes from a port yields, and what reads and writes do to the state of the devices.
pub mod Arrays
mod Examples
use rjk.Base.{ℕ, zero, suc, ◌%◌, ◌^◌, List, [], ◌∷◌}

pub record Bus (S : Type 0) : Type 0 where
  pub read : (bytes port : ℕ) → S → ℕ × S
  pub write : (bytes port value : ℕ) → S → S

module _ {S : Type 0} (bus : Bus S) where
  -- `inb`, `inw` and `inl`: the register takes as many bits as were read.
  unfoldable pub kioport_in_kuint8 : ℕ → S → ℕ × S
  kioport_in_kuint8 port s = let (v, t) = bus.read 1 port s in (v % 2 ^ 8, t)

  unfoldable pub kioport_in_kuint16 : ℕ → S → ℕ × S
  kioport_in_kuint16 port s = let (v, t) = bus.read 2 port s in (v % 2 ^ 16, t)

  unfoldable pub kioport_in_kuint32 : ℕ → S → ℕ × S
  kioport_in_kuint32 port s = let (v, t) = bus.read 4 port s in (v % 2 ^ 32, t)

  unfoldable pub kioport_out_kuint8 : ℕ → ℕ → S → S
  kioport_out_kuint8 port value s = bus.write 1 port (value % 2 ^ 8) s

  unfoldable pub kioport_out_kuint16 : ℕ → ℕ → S → S
  kioport_out_kuint16 port value s = bus.write 2 port (value % 2 ^ 16) s

  unfoldable pub kioport_out_kuint32 : ℕ → ℕ → S → S
  kioport_out_kuint32 port value s = bus.write 4 port (value % 2 ^ 32) s

  -- A `kuint` has 32 bits.
  unfoldable pub kioport_in_kuint : ℕ → S → ℕ × S
  kioport_in_kuint port s = let (v, t) = bus.read 4 port s in (v % 2 ^ 32, t)

  unfoldable pub kioport_out_kuint : ℕ → ℕ → S → S
  kioport_out_kuint port value s = bus.write 4 port (value % 2 ^ 32) s

-- The functions for a `kuint64` touch no port.
unfoldable pub kioport_in_kuint64 : {S : Type 0} → (port : ℕ) → S → ℕ × S
kioport_in_kuint64 port s = (0, s)

unfoldable pub kioport_out_kuint64 : {S : Type 0} → (port value : ℕ) → S → S
kioport_out_kuint64 port value s = s

-- `rep ; insb` and its kin: `length` reads, stored one behind the other.
unfoldable pub rep_in : {S : Type 0} → (S → ℕ × S) → (length : ℕ) → S → List ℕ × S
rep_in input zero s = ([], s)
rep_in input (suc length) s =
    let (v, t) = input s in let (vs, u) = rep_in input length t in (v ∷ vs, u)

-- `rep ; outsb` and its kin: the first `length` items; what the array has is all that is written.
unfoldable pub rep_out : {S : Type 0} → (ℕ → S → S) → (length : ℕ) → List ℕ → S → S
rep_out output zero vs s = s
rep_out output (suc length) [] s = s
rep_out output (suc length) (v ∷ vs) s = rep_out output length vs (output v s)

module _ {S : Type 0} (bus : Bus S) where
  unfoldable pub kioport_in_kuint8_array : (port length : ℕ) → S → List ℕ × S
  kioport_in_kuint8_array port = rep_in (kioport_in_kuint8 bus port)

  unfoldable pub kioport_in_kuint16_array : (port length : ℕ) → S → List ℕ × S
  kioport_in_kuint16_array port = rep_in (kioport_in_kuint16 bus port)

  unfoldable pub kioport_in_kuint32_array : (port length : ℕ) → S → List ℕ × S
  kioport_in_kuint32_array port = rep_in (kioport_in_kuint32 bus port)

  unfoldable pub kioport_out_kuint8_array : ℕ → List ℕ → (length : ℕ) → S → S
  kioport_out_kuint8_array port vs length = rep_out (kioport_out_kuint8 bus port) length vs

  unfoldable pub kioport_out_kuint16_array : ℕ → List ℕ → (length : ℕ) → S → S
  kioport_out_kuint16_array port vs length = rep_out (kioport_out_kuint16 bus port) length vs

  unfoldable pub kioport_out_kuint32_array : ℕ → List ℕ → (length : ℕ) → S → S
  kioport_out_kuint32_array port vs length = rep_out (kioport_out_kuint32 bus port) length vs

  unfoldable pub kioport_in_kuint_array : (port length : ℕ) → S → List ℕ × S
  kioport_in_kuint_array port = rep_in (kioport_in_kuint bus port)

  unfoldable pub kioport_out_kuint_array : ℕ → List ℕ → (length : ℕ) → S → S
  kioport_out_kuint_array port vs length = rep_out (kioport_out_kuint bus port) length vs

-- The array is left as it is.
unfoldable pub kioport_in_kuint64_array : {S : Type 0} → (port length : ℕ) → List ℕ → S → List ℕ × S
kioport_in_kuint64_array port length vs s = (vs, s)

unfoldable pub kioport_out_kuint64_array : {S : Type 0} → ℕ → List ℕ → (length : ℕ) → S → S
kioport_out_kuint64_array port vs length s = s
