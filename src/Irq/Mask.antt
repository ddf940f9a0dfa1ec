-- ===== src/Irq/Mask.antt =====
-- The controllers of arch/ia32/irq.c always have the mask that the kernel keeps.
use rjk.Base.{
  ℕ, ◌%◌, ◌^◌, ◌<◌, ◌≡◌, Option, none, some, List, [], ◌∷◌, ◌==◌, leb, if◌then◌else◌, test_bit,
  set_bit, clear_bit, arith, set_bit-lt, clear_bit-le, test_bit-pow, set_bit-div, clear_bit-div,
  set_bit-mod, clear_bit-mod,
}
use rjk.Irq.{PortWrite, Irqs, cached_21, cached_A1, write_mask, kirq_init, acknowledge}

-- The byte last written to a port.
abbrev pub last_write : ℕ → List PortWrite → Option ℕ
last_write port [] = none
last_write port (w ∷ ws) = if w.port == port then some w.value else last_write port ws

-- The mask has 16 bits, and the controllers' mask registers hold its bytes.
pub record IsSynced (s : Irqs) : Type 0 where
  pub small : s.cached_irq_mask < 2 ^ 16
  pub first : last_write 0x21 s.ports ≡ some (cached_21 s)
  pub second : last_write 0xA1 s.ports ≡ some (cached_A1 s)

pub kirq_init-IsSynced : (s : Irqs) → IsSynced (kirq_init s)
unfolding kirq_init
kirq_init-IsSynced s = ground arith

-- One write: the mask byte of the controller of an IRQ is written whenever the IRQ's bit changes; the byte of the
-- other controller does not change with it.
module _ (s : Irqs) (irq : ℕ) (h : irq < 16) (v : IsSynced s) where
  open v use {small, first, second}

  is_high : test_bit irq 3 ≡ leb 8 irq
  is_high = ground (arith, test_bit-pow irq 3)

  index : irq % 32 ≡ irq
  index = omega arith

  pub set-IsSynced :
      IsSynced
        (write_mask irq (record s { cached_irq_mask = set_bit s.cached_irq_mask (irq % 32) }))
  unfolding write_mask
  set-IsSynced = rw index (
      ground (
        arith,
        is_high,
        set_bit-lt 16 s.cached_irq_mask irq,
        set_bit-div 8 s.cached_irq_mask irq,
        set_bit-mod 8 s.cached_irq_mask irq,
      ))

  pub clear-IsSynced :
      IsSynced
        (write_mask irq (record s { cached_irq_mask = clear_bit s.cached_irq_mask (irq % 32) }))
  unfolding write_mask
  clear-IsSynced = rw index (
      ground (
        arith,
        is_high,
        clear_bit-le s.cached_irq_mask irq,
        clear_bit-div 8 s.cached_irq_mask irq,
        clear_bit-mod 8 s.cached_irq_mask irq,
      ))

  pub acknowledge-IsSynced : IsSynced (acknowledge irq s)
  unfolding acknowledge
  acknowledge-IsSynced = rw index (
      ground (
        arith,
        is_high,
        set_bit-lt 16 s.cached_irq_mask irq,
        set_bit-div 8 s.cached_irq_mask irq,
        set_bit-mod 8 s.cached_irq_mask irq,
      ))
