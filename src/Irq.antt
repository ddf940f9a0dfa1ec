-- ===== src/Irq.antt =====
-- arch/ia32/irq.c: the interrupt controllers, the mask that the kernel keeps of them, the handlers.
-- Writes to ports are a log, newest first. What `kirq_spinlock` protects is one step.
pub mod Mask
pub mod Handlers
pub mod Exception
mod Examples
use rjk.Base.{
  ℕ, zero, suc, ◌+◌, ◌-◌, ◌*◌, ◌/◌, ◌%◌, ◌^◌, Bool, true, false, Option, none, some, List, [], ◌∷◌,
  ◌==◌, ltb, leb, if◌then◌else◌, u8, u32, sub32, test_bit, set_bit, clear_bit, update,
}

pub record PortWrite : Type 0 where
  pub port : ℕ
  pub value : ℕ

-- `interrupt_handler` by vector, with 0 for no handler; `cached_irq_mask`; the ports written.
pub record Irqs : Type 0 where
  pub handler : ℕ → ℕ
  pub cached_irq_mask : ℕ
  pub ports : List PortWrite

unfoldable pub kioport_out_kuint8 : ℕ → ℕ → Irqs → Irqs
kioport_out_kuint8 port value s = record s {
  ports = record { port = port; value = u8 value } ∷ s.ports;
}

-- The bytes of the mask for the two controllers.
abbrev pub cached_21 : Irqs → ℕ
cached_21 s = s.cached_irq_mask % 2 ^ 8

abbrev pub cached_A1 : Irqs → ℕ
cached_A1 s = s.cached_irq_mask / 2 ^ 8 % 2 ^ 8

-- The write of the mask byte of the controller that the IRQ belongs to.
unfoldable pub write_mask : ℕ → Irqs → Irqs
unfolding kioport_out_kuint8
write_mask irq s =
    if test_bit irq 3
    then kioport_out_kuint8 0xA1 (cached_A1 s) s
    else kioport_out_kuint8 0x21 (cached_21 s) s

-- The part of `kirq_init` that programs the controllers.
unfoldable pub kirq_init : Irqs → Irqs
unfolding kioport_out_kuint8
kirq_init s0 =
    let s = record s0 { cached_irq_mask = 0xFFFB } in
    let s1 = kioport_out_kuint8 0xA0 (0x10 + 0x01) (kioport_out_kuint8 0x20 (0x10 + 0x01) s) in
    let s2 = kioport_out_kuint8 0xA1 0x28 (kioport_out_kuint8 0x21 0x20 s1) in
    let s3 = kioport_out_kuint8 0xA1 0x02 (kioport_out_kuint8 0x21 0x04 s2) in
    let s4 = kioport_out_kuint8 0xA1 0x01 (kioport_out_kuint8 0x21 0x01 s3) in
    kioport_out_kuint8 0xA1 (cached_A1 s) (kioport_out_kuint8 0x21 (cached_21 s) s4)

-- The loop of `kirq_init` over the descriptors of the first 49 vectors, four words of 16 bits each, with
-- `rounds` left from vector i on.
unfoldable pub init_idt : (rounds i : ℕ) → (idt : ℕ → ℕ) → ℕ → ℕ
init_idt zero i idt = idt
init_idt (suc rounds) i idt =
    init_idt rounds (i + 1) (update (update idt (i * 4 + 1) 0x0010) (i * 4 + 2) 0x8E00)

-- `sti` and `cli`: the interrupt flag of the processor's flags.
unfoldable pub kirq_enable_all : (eflags : ℕ) → ℕ
kirq_enable_all eflags = set_bit eflags 9

unfoldable pub kirq_disable_all : (eflags : ℕ) → ℕ
kirq_disable_all eflags = clear_bit eflags 9

-- `1 << irq` takes the count modulo 32.
unfoldable pub kirq_enable_irq_internal : ℕ → Irqs → Irqs
unfolding write_mask
kirq_enable_irq_internal irq s =
    write_mask irq (record s { cached_irq_mask = clear_bit s.cached_irq_mask (irq % 32) })

unfoldable pub kirq_disable_irq_internal : ℕ → Irqs → Irqs
unfolding write_mask
kirq_disable_irq_internal irq s =
    write_mask irq (record s { cached_irq_mask = set_bit s.cached_irq_mask (irq % 32) })

-- The spinlock apart, these two are the internal functions.
unfoldable pub kirq_enable_irq : ℕ → Irqs → Irqs
unfolding kirq_enable_irq_internal
kirq_enable_irq irq s = kirq_enable_irq_internal irq s

unfoldable pub kirq_disable_irq : ℕ → Irqs → Irqs
unfolding kirq_disable_irq_internal
kirq_disable_irq irq s = kirq_disable_irq_internal irq s

unfoldable pub kirq_assign_irq : (irq handler : ℕ) → Irqs → ℕ × Irqs
unfolding kirq_enable_irq_internal
kirq_assign_irq irq handler s =
    if ltb irq 16
    then (if s.handler (irq + 32) == 0
        then (
          1,
          kirq_enable_irq_internal irq (record s { handler = update s.handler (irq + 32) handler }),
        )
        else (0, s))
    else (0, s)

unfoldable pub kirq_unassign_irq : ℕ → Irqs → Irqs
unfolding kirq_disable_irq_internal
kirq_unassign_irq irq s =
    if ltb irq 16
    then (let s' = kirq_disable_irq_internal irq s in
        record s' { handler = update s'.handler (irq + 32) 0 })
    else s

-- What `handle_irq` then has the machine do: call the handler at an address, or report an exception.
-- `handle_exception` ends in kthread_kill_current, so with no handler nothing of `handle_irq` runs
-- afterwards: the IRQ stays masked and `kirq_spinlock` is never released.
pub data Action : Type 0 where
  call : (handler irq : ℕ) → Action
  exception : (number : ℕ) → Action

-- `handle_irq` up to the handler's call: mask the IRQ and acknowledge it.
unfoldable pub acknowledge : ℕ → Irqs → Irqs
unfolding kioport_out_kuint8
acknowledge irq s0 =
    let s = record s0 { cached_irq_mask = set_bit s0.cached_irq_mask (irq % 32) } in
    if test_bit irq 3
    then kioport_out_kuint8 0x20 (0x60 + 0x02)
        (kioport_out_kuint8 0xA0 (0x60 + irq % 8) (kioport_out_kuint8 0xA1 (cached_A1 s) s))
    else kioport_out_kuint8 0x20 (0x60 + irq) (kioport_out_kuint8 0x21 (cached_21 s) s)

-- `run` is what the handler answers and what it does to the state; it holds `kirq_spinlock`, so it
-- calls no function of irq.c. The result: what was done, whether to yield, and the state.
unfoldable pub handle_irq : (run : Irqs → ℕ × Irqs) → ℕ → Irqs → Action × Bool × Irqs
unfolding acknowledge kirq_enable_irq
handle_irq run number s =
    let irq = sub32 number 32 in
    let s' = acknowledge irq s in
    if s'.handler number == 0
    then (exception number, false, s')
    else (let (rc, s'') = run s' in
        (call (s'.handler number) irq, if rc == 0 then false else true, kirq_enable_irq irq s''))
