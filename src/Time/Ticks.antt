-- ===== src/Time/Ticks.antt =====
-- The interrupt handler of arch/ia32/time.c: the kernel's clock and the turns of the threads.
use rjk.Base.{
  ℕ, ◌+◌, ◌-◌, ◌*◌, ◌^◌, ◌<◌, ◌≤◌, ◌≡◌, true, ◌==◌, arith, List, [], ◌∷◌, if◌then◌else◌, sub32,
  test_bit, length, All,
}
use rjk.Time.{Chip, Clock, read_rtc, ktime_get, rtc_irq_handler}

-- The handler called for a run of interrupts, each with the chip as it then is: how many of the calls
-- asked for a thread switch, and the clock after them.
unfoldable pub handle_all : List Chip → Clock → ℕ × Clock
handle_all [] c = (0, c)
handle_all (chip ∷ chips) c =
    let (turn, c') = rtc_irq_handler chip c in
    let (turns, c'') = handle_all chips c' in (turn + turns, c'')

turn_lem :
    (chip : Chip) (c : Clock)
    → ((rtc_irq_handler chip c).0 ≡ (if c.thread_ticks == 0 then 1 else 0))
      × ((rtc_irq_handler chip c).1.thread_ticks
          ≡ (if c.thread_ticks == 0 then 11 else sub32 c.thread_ticks 1))
unfolding rtc_irq_handler
turn_lem chip c = ground arith

-- Whatever the chip says, one call in twelve asks for a thread switch: over any run of interrupts the
-- turns times twelve and the ticks left add up to the calls and the ticks at the start.
pub handle_all_lem :
    (chips : List Chip) (c : Clock)
    → c.thread_ticks < 12
    → ((handle_all chips c).1.thread_ticks < 12)
      × (length chips + (handle_all chips c).1.thread_ticks
          ≡ 12 * (handle_all chips c).0 + c.thread_ticks)
unfolding handle_all
handle_all_lem [] c h = (h, omega arith)
handle_all_lem (chip ∷ chips) c h =
    let c' = (rtc_irq_handler chip c).1 in
    let t = turn_lem chip c in
    let small : c'.thread_ticks < 12 = ground arith in
    let rest = handle_all_lem chips c' small in (rest.0, ground (arith, rest.1))

-- One update interrupt between two readings of the chip.
update_lem :
    (chip : Chip) (c : Clock)
    → test_bit (chip 0x0C) 4 ≡ true
    → 0 < c.time_ticks
    → c.time_ticks < 2 ^ 32
    → c.current_second < 2 ^ 64 - 1
    → let c' = (rtc_irq_handler chip c).1 in
      (c'.current_second ≡ c.current_second + 1) × (c'.time_ticks + 1 ≡ c.time_ticks)
unfolding rtc_irq_handler
update_lem chip c u t small s = (ground arith, ground arith)

-- Update interrupts that come before the count of `time_ticks` runs out advance the kernel's clock by
-- one second each, and the count goes down by one each.
pub updates_count_seconds :
    (chips : List Chip) (c : Clock)
    → All (λ chip. test_bit (chip 0x0C) 4 ≡ true) chips
    → length chips ≤ c.time_ticks
    → c.time_ticks < 2 ^ 32
    → c.current_second + length chips < 2 ^ 64
    → ((handle_all chips c).1.current_second ≡ c.current_second + length chips)
      × ((handle_all chips c).1.time_ticks + length chips ≡ c.time_ticks)
unfolding handle_all
updates_count_seconds [] c all few small fits = (omega arith, omega arith)
updates_count_seconds (chip ∷ chips) c all few small fits =
    let one = update_lem chip c all.0 (omega arith) small (omega arith) in
    let rest =
      updates_count_seconds chips (rtc_irq_handler chip c).1 all.1 (omega (arith, one.1))
        (omega (arith, one.1)) (omega (arith, one.0)) in
    (omega (arith, rest.0, one.0), omega (arith, rest.1, one.1))

-- An update interrupt that finds the count at zero, the first or the 38th, sets the clock to the
-- seconds that the chip's registers give, whole, and starts the count of 37 anew.
pub update_reads_chip :
    (chip : Chip) (c : Clock)
    → test_bit (chip 0x0C) 4 ≡ true
    → c.time_ticks ≡ 0
    → let c' = (rtc_irq_handler chip c).1 in
      (ktime_get c' ≡ (read_rtc chip, 0)) × (c'.time_ticks ≡ 37)
unfolding rtc_irq_handler ktime_get
update_reads_chip chip c u t = (ground arith, ground arith)
