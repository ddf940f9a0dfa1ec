-- ===== src/Irq/Handlers.antt =====
-- Sequences of the operations of arch/ia32/irq.c, and what assigning and handling an IRQ do.
use rjk.Base.{
  ℕ, ◌+◌, ◌%◌, ◌<◌, ◌≡◌, ◌≢◌, ◌↔◌, sym, true, false, sub32, test_bit, set_bit, clear_bit, update,
  arith, test_bit-clear_bit_self, test_bit-clear_bit_ne, test_bit-set_bit_self, test_bit-set_bit_ne,
}
use rjk.Irq.{
  Irqs, kirq_init, kirq_enable_irq, kirq_disable_irq, kirq_assign_irq, kirq_unassign_irq,
  acknowledge, handle_irq, call,
}
use rjk.Irq.Mask.{
  last_write, IsSynced, kirq_init-IsSynced, set-IsSynced, clear-IsSynced, acknowledge-IsSynced,
}

-- A handler that leaves the mask and the controllers' mask registers alone, as one of the drivers' does.
pub record IsDriver (run : Irqs → ℕ × Irqs) : Type 0 where
  pub keeps_mask : (s : Irqs) → (run s).1.cached_irq_mask ≡ s.cached_irq_mask
  pub keeps_first : (s : Irqs) → last_write 0x21 (run s).1.ports ≡ last_write 0x21 s.ports
  pub keeps_second : (s : Irqs) → last_write 0xA1 (run s).1.ports ≡ last_write 0xA1 s.ports

-- The states after `kirq_init` and any calls of the operations, in any order, on the 16 IRQs.
pub data Reach : Irqs → Type 0 where
  booted : (s : Irqs) → Reach (kirq_init s)
  enabled : {s : Irqs} (irq : ℕ) → irq < 16 → Reach s → Reach (kirq_enable_irq irq s)
  disabled : {s : Irqs} (irq : ℕ) → irq < 16 → Reach s → Reach (kirq_disable_irq irq s)
  assigned : {s : Irqs} (irq handler : ℕ) → Reach s → Reach ((kirq_assign_irq irq handler s).1)
  unassigned : {s : Irqs} (irq : ℕ) → Reach s → Reach (kirq_unassign_irq irq s)
  handled :
      {s : Irqs} (run : Irqs → ℕ × Irqs)
      → IsDriver run
      → (irq : ℕ) → irq < 16
      → Reach s
      → Reach ((handle_irq run (irq + 32) s).2)

enable-IsSynced : (s : Irqs) (irq : ℕ) → irq < 16 → IsSynced s → IsSynced (kirq_enable_irq irq s)
unfolding kirq_enable_irq
enable-IsSynced s irq h v = clear-IsSynced s irq h v

disable-IsSynced : (s : Irqs) (irq : ℕ) → irq < 16 → IsSynced s → IsSynced (kirq_disable_irq irq s)
unfolding kirq_disable_irq
disable-IsSynced s irq h v = set-IsSynced s irq h v

with_handler : (s : Irqs) (f : ℕ → ℕ) → IsSynced s → IsSynced (record s { handler = f })
with_handler s f v = record { small = v.small; first = v.first; second = v.second }

assign-IsSynced :
    (s : Irqs) (irq handler : ℕ) → IsSynced s → IsSynced ((kirq_assign_irq irq handler s).1)
unfolding kirq_assign_irq
assign-IsSynced s irq handler v =
    let v' = with_handler s (update s.handler (irq + 32) handler) v in grind (arith, clear-IsSynced)

unassign-IsSynced : (s : Irqs) (irq : ℕ) → IsSynced s → IsSynced (kirq_unassign_irq irq s)
unfolding kirq_unassign_irq
unassign-IsSynced s irq v = grind (arith, set-IsSynced, with_handler)

driver-IsSynced :
    (run : Irqs → ℕ × Irqs) → IsDriver run → (s : Irqs) → IsSynced s → IsSynced ((run s).1)
driver-IsSynced run d s v =
    let mask = d.keeps_mask s in
    let first = d.keeps_first s in
    let second = d.keeps_second s in
    record { small = grind arith; first = grind arith; second = grind arith }

handle-IsSynced :
    (run : Irqs → ℕ × Irqs)
    → IsDriver run
    → (s : Irqs) (irq : ℕ) → irq < 16
    → IsSynced s
    → IsSynced ((handle_irq run (irq + 32) s).2)
unfolding handle_irq
handle-IsSynced run d s irq h v =
    grind (arith, acknowledge-IsSynced, driver-IsSynced, enable-IsSynced)

-- After kirq_init and any sequence of kirq_enable_irq, kirq_disable_irq, kirq_assign_irq,
-- kirq_unassign_irq and handle_irq (with handlers that leave the mask registers alone), on any of the 16
-- IRQs, the mask registers of both controllers hold the bytes of `cached_irq_mask`, which has 16 bits.
pub Reach-IsSynced : {s : Irqs} (r : Reach s) → IsSynced s
Reach-IsSynced (booted s) = kirq_init-IsSynced s
Reach-IsSynced (enabled irq h r) = enable-IsSynced _ irq h (Reach-IsSynced r)
Reach-IsSynced (disabled irq h r) = disable-IsSynced _ irq h (Reach-IsSynced r)
Reach-IsSynced (assigned irq handler r) = assign-IsSynced _ irq handler (Reach-IsSynced r)
Reach-IsSynced (unassigned irq r) = unassign-IsSynced _ irq (Reach-IsSynced r)
Reach-IsSynced (handled run d irq h r) = handle-IsSynced run d _ irq h (Reach-IsSynced r)

-- An IRQ below 16 without a handler: kirq_assign_irq answers 1, stores the handler and unmasks the IRQ; a
-- second kirq_assign_irq answers 0 and changes nothing while the first handler (not null) is there;
-- kirq_unassign_irq then restores every entry of the handler table and masks the IRQ.
pub assign_unassign_lem :
    (s : Irqs) (irq first second : ℕ) (h : irq < 16) (free : s.handler (irq + 32) ≡ 0)
    (nz : first ≢ 0)
    → let (rc, t) = kirq_assign_irq irq first s in
      (rc ≡ 1)
      × (t.handler (irq + 32) ≡ first)
      × (test_bit t.cached_irq_mask irq ≡ false)
      × (kirq_assign_irq irq second t ≡ (0, t))
      × ((q : ℕ) → (kirq_unassign_irq irq t).handler q ≡ s.handler q)
      × (test_bit (kirq_unassign_irq irq t).cached_irq_mask irq ≡ true)
unfolding kirq_assign_irq kirq_unassign_irq
assign_unassign_lem s irq first second h free nz =
    let index : irq % 32 ≡ irq = omega arith in
    let cleared = test_bit-clear_bit_self s.cached_irq_mask irq in
    (
      ground (arith, free, h),
      ground (arith, free, h),
      ground (arith, free, h, index, cleared),
      ground (arith, free, h, nz),
      (λ q. ground (arith, free, h)),
      ground (arith, free, h, index, test_bit-set_bit_self (clear_bit s.cached_irq_mask irq) irq),
    )

-- handle_irq for an IRQ below 16 that has a handler calls that handler with the IRQ, after masking the
-- IRQ, yields when the handler answers other than 0, and leaves the IRQ unmasked; the mask bits of the other
-- IRQs are as before, where the handler leaves the mask alone.
pub handle_irq_lem :
    (run : Irqs → ℕ × Irqs) (d : IsDriver run) (s : Irqs) (irq : ℕ) (h : irq < 16)
    (has : s.handler (irq + 32) ≢ 0) (other : ℕ) (ne : other ≢ irq)
    → let (action, yields, t) = handle_irq run (irq + 32) s in
      (action ≡ call (s.handler (irq + 32)) irq)
      × (test_bit (acknowledge irq s).cached_irq_mask irq ≡ true)
      × ((yields ≡ true) ↔ ((run (acknowledge irq s)).0 ≢ 0))
      × (test_bit t.cached_irq_mask irq ≡ false)
      × (test_bit t.cached_irq_mask other ≡ test_bit s.cached_irq_mask other)
unfolding handle_irq
handle_irq_lem run d s irq h has other ne =
    let index : irq % 32 ≡ irq = omega arith in
    let mask = d.keeps_mask (acknowledge irq s) in
    let number : sub32 (irq + 32) 32 ≡ irq = omega arith in
    let set = test_bit-set_bit_self s.cached_irq_mask irq in
    (
      ground (arith, number, has),
      ground (arith, index, set),
      ground (arith, number, has),
      ground (
        arith,
        number,
        has,
        mask,
        index,
        test_bit-clear_bit_self (set_bit s.cached_irq_mask irq) irq,
      ),
      ground (
        arith,
        number,
        has,
        mask,
        index,
        ne,
        test_bit-set_bit_ne s.cached_irq_mask irq other (λ e. ne (sym e)),
        test_bit-clear_bit_ne (set_bit s.cached_irq_mask irq) irq other (λ e. ne (sym e)),
      ),
    )
