-- ===== src/Time/Calendar.antt =====
-- The seconds that read_rtc of arch/ia32/time.c computes are those of the Gregorian calendar.
use rjk.Base.{
  ℕ, zero, suc, ◌+◌, ◌-◌, ◌*◌, ◌/◌, ◌%◌, ◌^◌, ◌<◌, ◌≤◌, ◌≡◌, refl, Bool, false, ◌&&◌, ◌||◌, not,
  arith, ◌==◌, ltb, if◌then◌else◌, Bool-cases, inl, inr, ap, ◌∙◌,
}
use rjk.Time.{Rtc, shift_month, seconds_of}

-- The calendar, counted month by month and year by year.
unfoldable pub is_leap : ℕ → Bool
is_leap y = (y % 4 == 0) && (not (y % 100 == 0) || (y % 400 == 0))

unfoldable pub days_in_year : ℕ → ℕ
days_in_year y = if is_leap y then 366 else 365

-- The days from 1970-01-01 to the first of January of 1970 + n.
unfoldable pub days_to_year : ℕ → ℕ
days_to_year zero = 0
days_to_year (suc n) = days_to_year n + days_in_year (1970 + n)

-- April, June, September, November
abbrev is_short : ℕ → Bool
is_short m = (m == 4) || (m == 6) || (m == 9) || (m == 11)

unfoldable pub days_in_month : ℕ → ℕ → ℕ
days_in_month y m =
    if is_short m then 30 else if m == 2 then 28 + (if is_leap y then 1 else 0) else 31

-- The days before the first of month m + 1.
unfoldable pub days_to_month : ℕ → ℕ → ℕ
days_to_month y zero = 0
days_to_month y (suc m) = days_to_month y m + days_in_month y (suc m)

-- Leap years by division.
days_to_year_lem :
    (n : ℕ)
    → days_to_year n + 719527
      ≡ 365 * (1970 + n) + (1969 + n) / 4 + (1969 + n) / 400 - (1969 + n) / 100
unfolding days_to_year days_in_year is_leap
days_to_year_lem zero = refl
days_to_year_lem (suc n) = ground (arith, days_to_year_lem n)

-- The formula of the source, less its wrap-around: months count from March.
abbrev raw : ℕ → ℕ → ℕ → ℕ
raw y m d = y / 4 - y / 100 + y / 400 + 367 * m / 12 + d + y * 365

abbrev formula : ℕ → ℕ → ℕ → ℕ
formula y m d = raw y m d - 719499

abbrev date_days : ℕ → ℕ → ℕ → ℕ
date_days y m d = if ltb m 3 then formula (y - 1) (m + 10) d else formula y (m - 2) d

leap_step :
    (y : ℕ)
    → 0 < y
    → y / 4 - y / 100 + y / 400
      ≡ (y - 1) / 4 - (y - 1) / 100 + (y - 1) / 400 + (if is_leap y then 1 else 0)
unfolding is_leap
leap_step y h = ground arith

-- The days before a month from March on.
march_lem :
    (y k : ℕ)
    → k < 10
    → days_to_month y (suc (suc k)) ≡ 29 + (if is_leap y then 1 else 0) + 367 * (k + 1) / 12
unfolding days_to_month days_in_month
march_lem y zero h = ground arith
march_lem y (suc k) h = ground (arith, march_lem y k)

late_days :
    (n m d : ℕ)
    → m < 10
    → 1 ≤ d
    → date_days (1970 + n) (suc (suc (suc m))) d
      ≡ days_to_year n + days_to_month (1970 + n) (suc (suc m)) + d - 1
late_days n m d h k =
    let e : ltb (suc (suc (suc m))) 3 ≡ false = ground arith in
    rw e (
      omega
        (arith, days_to_year_lem n, leap_step (1970 + n) (omega arith), march_lem (1970 + n) m h))

-- The formula counts the days of the calendar.
date_days_lem :
    (n m d : ℕ)
    → m < 12
    → 1 ≤ d
    → date_days (1970 + n) (suc m) d ≡ days_to_year n + days_to_month (1970 + n) m + d - 1
unfolding days_to_month days_in_month
date_days_lem n zero d h k = ground (arith, days_to_year_lem n, leap_step (1970 + n))
date_days_lem n (suc zero) d h k = ground (arith, days_to_year_lem n, leap_step (1970 + n))
date_days_lem n (suc (suc m)) d h k = late_days n m d (omega arith) k

-- What `date` says: a date of the calendar, from 1970 to 2105, and a time of day.
pub record IsDate (r : Rtc) : Type 0 where
  pub from_1970 : 1970 ≤ r.year
  pub to_2105 : r.year ≤ 2105
  pub month : (1 ≤ r.month) × (r.month ≤ 12)
  pub day : (1 ≤ r.day) × (r.day ≤ 31)
  pub time : (r.hour < 24) × (r.minute < 60) × (r.second < 60)

-- From 1970 until the seconds no longer fit 32 bits, the words do not wrap around.
seconds_of_lem :
    (r : Rtc)
    → (1969 ≤ r.year) × (r.year ≤ 2105)
    → (1 ≤ r.month) × (r.month ≤ 12)
    → (1 ≤ r.day) × (r.day ≤ 31)
    → (r.hour < 24) × (r.minute < 60) × (r.second < 60)
    → (719499 ≤ raw r.year r.month r.day) × (raw r.year r.month r.day < 719499 + 49710)
    → seconds_of r ≡ ((formula r.year r.month r.day * 24 + r.hour) * 60 + r.minute) * 60 + r.second
unfolding seconds_of
seconds_of_lem r y m d t fits = omega arith

shift_month_early :
    (r : Rtc)
    → 1 ≤ r.month
    → r.month < 3
    → 1 ≤ r.year
    → r.year < 2 ^ 32
    → shift_month r ≡ record r { month = r.month + 10; year = r.year - 1 }
unfolding shift_month
shift_month_early r m n y z = ground arith

shift_month_late :
    (r : Rtc) → 3 ≤ r.month → r.month ≤ 12 → shift_month r ≡ record r { month = r.month - 2 }
unfolding shift_month
shift_month_late r m n = ground arith

seconds_formula :
    (r : Rtc)
    → IsDate r
    → seconds_of (shift_month r)
      ≡ ((date_days r.year r.month r.day * 24 + r.hour) * 60 + r.minute) * 60 + r.second
seconds_formula r v = elim (Bool-cases (ltb r.month 3)) [
  | inl y ↦
      let early : r.month < 3 = ground arith in
      rw
        (
          shift_month_early r v.month.0 early (omega (arith, v.from_1970))
              (omega (arith, v.to_2105)),
          y,
        )
        (seconds_of_lem (record r { month = r.month + 10; year = r.year - 1 })
          (omega (arith, v.from_1970, v.to_2105)) (omega (arith, v.month)) v.day v.time
          (omega (arith, v.from_1970, v.to_2105, v.month, v.day)))
  | inr n ↦
      let late : 3 ≤ r.month = ground arith in
      rw (shift_month_late r late v.month.1, n)
        (seconds_of_lem (record r { month = r.month - 2 }) (omega (arith, v.from_1970, v.to_2105))
          (omega (arith, v.month)) v.day v.time
          (omega (arith, v.from_1970, v.to_2105, v.month, v.day)))
]

-- For every date from 1970 to 2105 and time of day that the registers give, read_rtc computes the
-- seconds since 1970-01-01 of the calendar: with no wrap-around, and with the leap years of the
-- Gregorian rule.
pub seconds_calendar :
    (n m : ℕ) (r : Rtc)
    → IsDate r
    → r.year ≡ 1970 + n
    → r.month ≡ suc m
    → seconds_of (shift_month r)
      ≡ (((days_to_year n + days_to_month r.year m + r.day - 1) * 24 + r.hour) * 60 + r.minute) * 60
        + r.second
seconds_calendar n m r v e f =
    seconds_formula r v
    ∙ ap (λ (t : ℕ). ((t * 24 + r.hour) * 60 + r.minute) * 60 + r.second)
        (rw (e, f) (date_days_lem n m r.day (omega (arith, v.month)) v.day.0))
