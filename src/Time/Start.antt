-- ===== src/Time/Start.antt =====
-- ktime_init of arch/ia32/time.c: the clock chip behind ports 0x70 and 0x71, which it programs before it
-- reads the time and asks for IRQ 8.
use Prim.Native.Nat.{bit_and, bit_or}
use rjk.Base.{ℕ, zero, suc, Option, none, some, if◌then◌else◌, test_bit}
use rjk.Port.{Bus, kioport_in_kuint8, kioport_out_kuint8}
use rjk.Irq.{Irqs, kirq_assign_irq}
use rjk.Time.{Chip, Clock, read_rtc}

module _ {S : Type 0} (bus : Bus S) where
  -- A register is selected, then read or written.
  unfoldable pub read_register : (register : ℕ) → S → ℕ × S
  unfolding kioport_in_kuint8 kioport_out_kuint8
  read_register register s = kioport_in_kuint8 bus 0x71 (kioport_out_kuint8 bus 0x70 register s)

  unfoldable pub write_register : (register value : ℕ) → S → S
  unfolding kioport_out_kuint8
  write_register register value s =
      kioport_out_kuint8 bus 0x71 value (kioport_out_kuint8 bus 0x70 register s)

  -- `do … while(value & 0x80)`; `none` when it has not ended after `rounds`.
  unfoldable pub wait_chip : (rounds : ℕ) → S → Option S
  unfolding read_register
  wait_chip zero s = none
  wait_chip (suc rounds) s =
      let (value, t) = read_register 0x0A s in
      let again = wait_chip rounds t in if test_bit value 7 then again else some t

  -- 1024 interrupts per second; periodic and update interrupts, 24 hours; the interrupt acknowledged.
  unfoldable pub program_chip : S → S
  unfolding read_register write_register
  program_chip s =
      let (a, s1) = read_register 0x0A s in
      let s2 = write_register 0x0A (bit_or (bit_and a 0xF0) 0x06) s1 in
      let (b, s3) = read_register 0x0B s2 in
      let s4 = write_register 0x0B (bit_or (bit_and b 0x0F) 0x52) s3 in (read_register 0x0C s4).1

  -- `chip` yields what read_rtc reads; the waits of both are apart. `handler` is the address of
  -- rtc_irq_handler.
  unfoldable pub ktime_init :
      (rounds handler : ℕ) → (S → Chip) → S → Clock → Irqs → Option (S × Clock × Irqs)
  unfolding wait_chip program_chip read_rtc kirq_assign_irq
  ktime_init rounds handler chip s c irqs = elim (wait_chip rounds s) [
    | none ↦ none
    | some t ↦
        let u = program_chip t in
        let c' = record c { current_second = read_rtc (chip u); current_nanosecond = 0 } in
        some (u, c', (kirq_assign_irq 8 handler irqs).1)
  ]
