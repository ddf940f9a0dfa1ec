-- ===== src/Time.antt =====
-- arch/ia32/time.c: the real-time clock, its interrupt handler, and the kernel's clock.
-- A register of the clock chip is read through ports 0x70 and 0x71; `Chip` gives the byte that a read
-- of a register yields at the moment of the call.
pub mod Calendar
pub mod Ticks
pub mod Start
mod Examples
use rjk.Base.{
  ℕ, zero, suc, ◌+◌, ◌-◌, ◌*◌, ◌/◌, ◌%◌, ◌^◌, Bool, true, false, Option, none, some, List, [], ◌∷◌,
  ◌==◌, leb, if◌then◌else◌, u8, u32, u64, sub32, bias32, test_bit,
}

abbrev pub Chip : Type 0
Chip = ℕ → ℕ

-- `bcd_to_binary`: the argument is stored in a `kuint8` first.
unfoldable pub bcd_to_binary : ℕ → ℕ
bcd_to_binary v = u8 v % 2 ^ 4 + u8 v / 2 ^ 4 * 10

-- The loop `do … while(value & 0x80)` at the start of `read_rtc` and of `ktime_init`, over the bytes
-- that register 0x0A yields: those that are left when it ends; `none` if it has not ended by then.
unfoldable pub wait_update : List ℕ → Option (List ℕ)
wait_update [] = none
wait_update (value ∷ rest) =
    let again = wait_update rest in if test_bit value 7 then again else some rest

pub record Rtc : Type 0 where
  pub year : ℕ
  pub month : ℕ
  pub day : ℕ
  pub hour : ℕ
  pub minute : ℕ
  pub second : ℕ

unfoldable pub read_registers : Chip → Rtc
unfolding bcd_to_binary
read_registers chip = record {
  year = u32 (100 * bcd_to_binary (chip 0x32) + bcd_to_binary (chip 0x09));
  month = bcd_to_binary (chip 0x08);
  day = bcd_to_binary (chip 0x07);
  hour = bcd_to_binary (chip 0x04);
  minute = bcd_to_binary (chip 0x02);
  second = bcd_to_binary (chip 0x00);
}

-- `if(0 >= (kint)(local_month -= 2))`: January and February count as months 11 and 12 of the year
-- before. A signed word is not positive when it is zero or its top bit is set.
unfoldable pub shift_month : Rtc → Rtc
shift_month r =
    let month = sub32 r.month 2 in
    if leb (bias32 month) (bias32 0)
    then record r { month = u32 (month + 12); year = sub32 r.year 1 }
    else record r { month = month }

-- The seconds since 1970, all in `kuint` but the last conversion, which keeps the value.
unfoldable pub seconds_of : Rtc → ℕ
seconds_of r =
    let leaps = u32 (sub32 (r.year / 4) (r.year / 100) + r.year / 400) in
    let days = u32 (u32 (u32 (leaps + u32 (367 * r.month) / 12) + r.day) + u32 (r.year * 365)) in
    let hours = u32 (u32 (sub32 days 719499 * 24) + r.hour) in
    u32 (u32 (u32 (u32 (hours * 60) + r.minute) * 60) + r.second)

-- `read_rtc` after its wait: `*second`; `*nanosecond` becomes 0.
unfoldable pub read_rtc : Chip → ℕ
unfolding read_registers shift_month seconds_of
read_rtc chip = seconds_of (shift_month (read_registers chip))

-- The globals of time.c, with `kint64` and `kint32` as bit patterns.
pub record Clock : Type 0 where
  pub current_second : ℕ
  pub current_nanosecond : ℕ
  pub thread_ticks : ℕ
  pub time_ticks : ℕ

-- The part of the handler under `ktime_spinlock`, periodic interrupt first.
unfoldable pub tick_nanosecond : ℕ → Clock → Clock
tick_nanosecond value c =
    if test_bit value 6
    then record c { current_nanosecond = u32 (c.current_nanosecond + 1000000000 / 1024) }
    else c

unfoldable pub tick_second : ℕ → Chip → Clock → Clock
tick_second value chip c =
    if test_bit value 4
    then (if c.time_ticks == 0
        then record c { current_second = read_rtc chip; current_nanosecond = 0; time_ticks = 37 }
        else record c {
          current_second = u64 (c.current_second + 1);
          current_nanosecond = 0;
          time_ticks = sub32 c.time_ticks 1;
        })
    else c

-- `if(!(thread_ticks--))`: whether to switch threads.
unfoldable pub tick_thread : Clock → ℕ × Clock
tick_thread c =
    if c.thread_ticks == 0
    then (1, record c { thread_ticks = 11 })
    else (0, record c { thread_ticks = sub32 c.thread_ticks 1 })

-- `value` is register 0x0C, which says why the chip has interrupted.
unfoldable pub rtc_irq_handler : Chip → Clock → ℕ × Clock
unfolding tick_nanosecond tick_second tick_thread
rtc_irq_handler chip c =
    let value = chip 0x0C in tick_thread (tick_second value chip (tick_nanosecond value c))

unfoldable pub ktime_get : Clock → ℕ × ℕ
ktime_get c = (c.current_second, c.current_nanosecond)

unfoldable pub ktime_set : ℕ → ℕ → Clock → Clock
ktime_set second nanosecond c = record c {
  current_second = second;
  current_nanosecond = nanosecond;
}
