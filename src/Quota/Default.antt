-- ===== src/Quota/Default.antt =====
-- The UTC calendar: `default_window` contains the instant that it is asked about.
use nineguard.Base.{ℕ, ◌+◌, ◌-◌, ◌/◌, ◌%◌, ◌≤◌, ◌<◌, ◌≡◌, true, arith}
use nineguard.Calendar.{day_ns, month_start, month_of}
use nineguard.Calendar.Months.{month_of-bounds}
use nineguard.Quota.{
  Period, daily, weekly, monthly, total, never, unset, unknown, date_day, day_of_month, iso_weekday,
  default_window, is_scheduled,
}

-- The instant lies in the window, which ends after it.
abbrev pub Contains : ℕ × ℕ → ℕ → Type 0
Contains (start, reset_at) now = (start ≤ now) × (now < reset_at)

-- The date of a day number is that day.
pub date_day_self : (n : ℕ) → date_day (month_of n) (day_of_month n) 0 ≡ n
unfolding date_day
date_day_self n = omega (arith, month_of-bounds n)

pub date_day-first : (k : ℕ) → date_day k 1 0 ≡ month_start k
unfolding date_day
date_day-first k = omega arith

iso_weekday-lem : (n : ℕ) → iso_weekday n - 1 ≡ n % 7
iso_weekday-lem n = ground arith

pub date_day-monday :
    (n : ℕ) → date_day (month_of n) (day_of_month n) (iso_weekday n - 1) ≡ n - n % 7
unfolding date_day
date_day-monday n = rw (iso_weekday-lem n) (omega (arith, month_of-bounds n))

pub default_window-Contains :
    (period : Period) (now : ℕ)
    → is_scheduled period ≡ true
    → Contains (default_window period now) now
unfolding default_window
default_window-Contains daily now h = let n = now / day_ns in rw (date_day_self n) (omega arith)
default_window-Contains weekly now h = let n = now / day_ns in rw (date_day-monday n) (omega arith)
default_window-Contains monthly now h =
    let n = now / day_ns in
    rw (date_day-first (month_of n), date_day-first (month_of n + 1))
      (omega (arith, month_of-bounds n))
default_window-Contains total now h = cc
default_window-Contains never now h = cc
default_window-Contains unset now h = cc
default_window-Contains (unknown p) now h = cc
