-- ===== src/Quota/Regular.antt =====
-- The reset instants of a schedule in a zone whose days follow one another.
use nineguard.Base.{ℕ, suc, ◌+◌, ◌-◌, ◌*◌, ◌/◌, ◌%◌, ◌≤◌, ◌<◌, ◌≡◌, ap, true, arith}
use native.Mathlib.Numerals.{add-one}
use nineguard.Calendar.{minute_ns, day_ns, month_start, month_of, days_in}
use nineguard.Calendar.Months.{month_of-bounds, days_in-bounds}
use nineguard.Quota.{
  Location, Period, ResetSchedule, daily, weekly, monthly, total, never, unset, unknown, utc,
  clamp_int, date_day, day_of_month, iso_weekday, is_scheduled, nth,
}

-- What the calendar of a zone is expected to do at one time of day: that time comes later on each
-- next day, and it differs from the instant `t` by less than two days of the local date. (A zone
-- that skipped a whole day, as some did at the date line, is not regular there.)
pub record IsRegular (loc : Location) (hour minute : ℕ) : Type 0 where
  pub later : (d : ℕ) → loc.instant d hour minute < loc.instant (suc d) hour minute
  pub past : (t d : ℕ) → d + 2 ≤ loc.local_day t → loc.instant d hour minute ≤ t
  pub future : (t d : ℕ) → loc.local_day t + 2 ≤ d → t < loc.instant d hour minute

pub utc-IsRegular : (hour minute : ℕ) → hour < 24 → minute < 60 → IsRegular utc hour minute
utc-IsRegular hour minute h k = record {
  later = λ d. omega arith;
  past = λ t d le. omega arith;
  future = λ t d le. omega arith;
}

-- The zone that is `ahead` nanoseconds before UTC, all year round.
abbrev pub fixed_zone : ℕ → Location
fixed_zone ahead = record {
  local_day = λ t. (t + ahead) / day_ns;
  instant = λ day hour minute. day * day_ns + (hour * 60 + minute) * minute_ns - ahead;
}

-- The day on which the i-th reset of a period falls: days, weeks and months are counted from the
-- beginning of the calendar.
unfoldable pub reset_day : ResetSchedule → Period → ℕ → ℕ
reset_day sched weekly i = 7 * i + (clamp_int sched.weekday 1 7 - 1)
reset_day sched monthly i = month_start i + (clamp_int sched.day 1 (days_in i) - 1)
reset_day sched _ i = i

abbrev pub reset_instant : Location → ResetSchedule → ℕ → Period → ℕ → ℕ
reset_instant loc sched minute period i =
    loc.instant (reset_day sched period i) (minute / 60) (minute % 60)

-- The day, week or month of a local day.
unfoldable pub index_of : Period → ℕ → ℕ
index_of weekly n = n / 7
index_of monthly n = month_of n
index_of _ n = n

-- The local date is one after April of year 2.
abbrev pub Modern : ℕ → Type 0
Modern n = (112 ≤ n) × (16 ≤ month_of n)

pub clamp_day :
    (v k : ℕ) → 12 ≤ k → (1 ≤ clamp_int v 1 (days_in k)) × (clamp_int v 1 (days_in k) ≤ days_in k)
clamp_day v k h = ground (arith, days_in-bounds k h)

weekly_day :
    (n v k : ℕ)
    → 35 ≤ n
    → 1 ≤ v
    → v ≤ 7
    → date_day (month_of n) (day_of_month n + 7 * k + (v - 1)) (28 + (iso_weekday n - 1))
      ≡ 7 * (n / 7 + k - 4) + (v - 1)
unfolding date_day
weekly_day n v k h lo hi = ground (arith, month_of-bounds n)

pub clamp_weekday : (v : ℕ) → (1 ≤ clamp_int v 1 7) × (clamp_int v 1 7 ≤ 7)
clamp_weekday v = ground arith

-- The instants that the search tries are consecutive values of one sequence.
pub nth-reset_instant :
    (loc : Location) (sched : ResetSchedule) (minute : ℕ) (period : Period) (n k : ℕ)
    → is_scheduled period ≡ true
    → Modern n
    → nth loc sched minute n period k
      ≡ reset_instant loc sched minute period (index_of period n + k - 4)
unfolding nth reset_day index_of
nth-reset_instant loc sched minute daily n k h (old, m) =
    ap (λ d. loc.instant d (minute / 60) (minute % 60)) daily_day
  where
    daily_day : date_day (month_of n) (day_of_month n + k) 4 ≡ n + k - 4
    daily_day = unfold date_day in omega (arith, month_of-bounds n)
nth-reset_instant loc sched minute weekly n k h (old, m) =
    ap (λ d. loc.instant d (minute / 60) (minute % 60))
      (weekly_day n (clamp_int sched.weekday 1 7) k (omega arith) (clamp_weekday sched.weekday).0
        (clamp_weekday sched.weekday).1)
nth-reset_instant loc sched minute monthly n k h (old, m) =
    ap (λ d. loc.instant d (minute / 60) (minute % 60))
      (monthly_day (month_of n + k - 4) (omega arith))
  where
    monthly_day :
        (i : ℕ)
        → 12 ≤ i
        → date_day i (clamp_int sched.day 1 (days_in i)) 0
          ≡ month_start i + (clamp_int sched.day 1 (days_in i) - 1)
    monthly_day i q = unfold date_day in omega (arith, clamp_day sched.day i q)
nth-reset_instant loc sched minute total n k h q = cc
nth-reset_instant loc sched minute never n k h q = cc
nth-reset_instant loc sched minute unset n k h q = cc
nth-reset_instant loc sched minute (unknown p) n k h q = cc

-- The reset days of a period come one after the other.
pub reset_day-suc :
    (sched : ResetSchedule) (period : Period) (i : ℕ)
    → is_scheduled period ≡ true
    → 12 ≤ i
    → reset_day sched period i < reset_day sched period (suc i)
unfolding reset_day
reset_day-suc sched daily i h m = omega arith
reset_day-suc sched weekly i h m = omega arith
reset_day-suc sched monthly i h m = rw (← add-one i) (
    omega (
      arith,
      clamp_day sched.day i m,
      clamp_day sched.day (i + 1) (omega arith),
      days_in-bounds i m,
    ))
reset_day-suc sched total i h m = cc
reset_day-suc sched never i h m = cc
reset_day-suc sched unset i h m = cc
reset_day-suc sched (unknown p) i h m = cc
