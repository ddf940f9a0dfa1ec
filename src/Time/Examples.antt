-- ===== src/Time/Examples.antt =====
-- The real-time clock of arch/ia32/time.c on one day and through some interrupts.
use rjk.Base.{ℕ, ◌+◌, ◌-◌, ◌*◌, ◌<◌, ◌≡◌, refl, [], ◌∷◌, arith, ◌==◌, if◌then◌else◌, test_bit}
use rjk.Time.{
  Chip, Rtc, Clock, bcd_to_binary, shift_month, seconds_of, read_registers, read_rtc,
  rtc_irq_handler, ktime_get,
}
use rjk.Time.Calendar.{IsDate, days_to_year, days_to_month, seconds_calendar}
use rjk.Time.Ticks.{handle_all, handle_all_lem, updates_count_seconds, update_reads_chip}

-- 29 February 2000, 12:30:15
abbrev leap_day : Rtc
leap_day = record { year = 2000; month = 2; day = 29; hour = 12; minute = 30; second = 15 }

leap_day-IsDate : IsDate leap_day
leap_day-IsDate = record {
  from_1970 = omega arith;
  to_2105 = omega arith;
  month = (omega arith, omega arith);
  day = (omega arith, omega arith);
  time = (omega arith, omega arith, omega arith);
}

seconds_calendar_example :
    seconds_of (shift_month leap_day)
    ≡ (((days_to_year 30 + days_to_month 2000 1 + 29 - 1) * 24 + 12) * 60 + 30) * 60 + 15
seconds_calendar_example = seconds_calendar 30 1 leap_day leap_day-IsDate refl refl

-- The seconds of that moment, as other computers count them.
leap_day_test : seconds_of (shift_month leap_day) ≡ 951827415
unfolding seconds_of shift_month
leap_day_test = refl

-- An update interrupt on that day.
abbrev chip : Chip
chip r =
    if r == 0x0C
    then 0x10
    else if r == 0x32
    then 0x20
    else if r == 0x08
    then 0x02
    else if r == 0x07
    then 0x29
    else if r == 0x04
    then 0x12
    else if r == 0x02
    then 0x30
    else if r == 0x00
    then 0x15
    else 0

abbrev clock : (ticks : ℕ) → Clock
clock ticks = record {
  current_second = 1000;
  current_nanosecond = 0;
  thread_ticks = 1;
  time_ticks = ticks;
}

registers_test : read_registers chip ≡ leap_day
unfolding read_registers bcd_to_binary
registers_test = refl

handle_all_lem_test :
    ((handle_all (chip ∷ chip ∷ []) (clock 5)).1.thread_ticks < 12)
    × (2 + (handle_all (chip ∷ chip ∷ []) (clock 5)).1.thread_ticks
        ≡ 12 * (handle_all (chip ∷ chip ∷ []) (clock 5)).0 + 1)
handle_all_lem_test = handle_all_lem (chip ∷ chip ∷ []) (clock 5) (omega arith)

updates_count_seconds_test :
    ((handle_all (chip ∷ chip ∷ []) (clock 5)).1.current_second ≡ 1002)
    × ((handle_all (chip ∷ chip ∷ []) (clock 5)).1.time_ticks + 2 ≡ 5)
unfolding test_bit
updates_count_seconds_test =
    updates_count_seconds (chip ∷ chip ∷ []) (clock 5) (refl, (refl, tt)) (omega arith)
      (omega arith) (omega arith)

update_reads_chip_test :
    (ktime_get (rtc_irq_handler chip (clock 0)).1 ≡ (read_rtc chip, 0))
    × ((rtc_irq_handler chip (clock 0)).1.time_ticks ≡ 37)
unfolding test_bit
update_reads_chip_test = update_reads_chip chip (clock 0) refl refl
