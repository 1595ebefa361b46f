-- ===== src/Calendar.antt =====
-- What internal/traffic uses of Go's calendar: proleptic Gregorian dates, by day numbers counted
-- from 1 January of year 1 (a Monday), which is the date of the zero `time.Time`.
pub mod Months
use nineguard.Base.{
  ℕ, suc, ◌+◌, ◌-◌, ◌*◌, ◌/◌, ◌%◌, Bool, true, false, not, ◌&&◌, ◌||◌, ltb, ◌==◌, if◌then◌else◌,
}
use Prim.Native.Nat.{min}

-- Nanoseconds in a minute and in a day.
abbrev pub minute_ns : ℕ
minute_ns = 60000000000

abbrev pub day_ns : ℕ
day_ns = 86400000000000

unfoldable pub is_leap : ℕ → Bool
is_leap y = y % 4 == 0 && (not (y % 100 == 0) || y % 400 == 0)

-- The day number of 1 January of a year from 1 on.
unfoldable pub year_start : ℕ → ℕ
year_start y = let p = y - 1 in 365 * p + p / 4 - p / 100 + p / 400

-- The year that a day number lies in: the decomposition into 400, 100, 4 and 1 years.
unfoldable pub year_of : ℕ → ℕ
year_of n =
    let r400 = n % 146097 in
    let c = min 3 (r400 / 36524) in
    let r100 = r400 - 36524 * c in
    let q = r100 / 1461 in
    let r4 = r100 - 1461 * q in
    let y = min 3 (r4 / 365) in 400 * (n / 146097) + 100 * c + 4 * q + y + 1

-- Days before a month (0 is January) within a year; from 12 on, the whole year.
unfoldable pub before_month : Bool → ℕ → ℕ
before_month leap m =
    let february = if leap then 29 else 28 in
    if m == 0
    then 0
    else if m == 1
    then 31
    else if m == 2
    then 31 + february
    else if m == 3
    then 62 + february
    else if m == 4
    then 92 + february
    else if m == 5
    then 123 + february
    else if m == 6
    then 153 + february
    else if m == 7
    then 184 + february
    else if m == 8
    then 215 + february
    else if m == 9
    then 245 + february
    else if m == 10
    then 276 + february
    else if m == 11
    then 306 + february
    else 337 + february

-- The month (0 is January) of a day within a year.
month_in : Bool → ℕ → ℕ
unfolding before_month
month_in leap d =
    if ltb d 31
    then 0
    else if ltb d (before_month leap 2)
    then 1
    else if ltb d (before_month leap 3)
    then 2
    else if ltb d (before_month leap 4)
    then 3
    else if ltb d (before_month leap 5)
    then 4
    else if ltb d (before_month leap 6)
    then 5
    else if ltb d (before_month leap 7)
    then 6
    else if ltb d (before_month leap 8)
    then 7
    else if ltb d (before_month leap 9)
    then 8
    else if ltb d (before_month leap 10)
    then 9
    else if ltb d (before_month leap 11)
    then 10
    else 11

-- Months are counted through: 12 * year + month - 1. So a month past December is one of the next
-- year, as `time.Date` normalises it.
unfoldable pub month_start : ℕ → ℕ
unfolding is_leap year_start before_month
month_start k = year_start (k / 12) + before_month (is_leap (k / 12)) (k % 12)

month_in_year : ℕ → ℕ → ℕ
unfolding is_leap year_start month_in
month_in_year y n = 12 * y + month_in (is_leap y) (n - year_start y)

-- The month that a day number lies in.
unfoldable pub month_of : ℕ → ℕ
unfolding year_of month_in_year
month_of n = month_in_year (year_of n) n

-- `daysIn`: the day of the month of day 0 of the next month.
unfoldable pub days_in : ℕ → ℕ
unfolding month_start
days_in k = month_start (k + 1) - month_start k
