-- ===== src/Quota.antt =====
-- internal/traffic/{schedule,window,pins,quota}.go: Quota Reset Schedules and the Quota Windows
-- that they give. An instant is a number of nanoseconds since the zero `time.Time`.
-- The time zone database is not part of the repository: `zones` stands for `time.LoadLocation`.
pub mod Clock
pub mod Default
pub mod Window
pub mod Search
pub mod Around
pub mod Tiling
pub mod Regular
pub mod Transition
mod Examples
use Prim.Native.Nat.{min}
use nineguard.Base.{
  ℕ, zero, suc, ◌+◌, ◌-◌, ◌*◌, ◌/◌, ◌%◌, List, [], ◌∷◌, ◌++◌, Option, none, some, Bool, true, false,
  not, ◌&&◌, ◌||◌, ltb, leb, ◌==◌, if◌then◌else◌, length,
}
use nineguard.Base.Text.{Text, codes, text_eq, decimal2}
use nineguard.Calendar.{minute_ns, day_ns, month_start, month_of, days_in, year_start}

-- A zone: the local date at an instant, as a day number, and the instant that `time.Date` gives
-- for a local date, hour and minute.
pub record Location : Type 0 where
  pub local_day : ℕ → ℕ
  pub instant : ℕ → ℕ → ℕ → ℕ

-- `time.UTC`.
abbrev pub utc : Location
utc = record {
  local_day = λ t. t / day_ns;
  instant = λ day hour minute. day * day_ns + (hour * 60 + minute) * minute_ns;
}

-- Quota Periods, strings in the source: `never` is "none" and `unset` is "".
pub data Period : Type 0 where
  daily weekly monthly total never unset : Period
  unknown : Text → Period

pub record ResetSchedule : Type 0 where
  pub timezone : Text
  pub time : Text
  pub weekday : ℕ
  pub day : ℕ

pub record WindowPin : Type 0 where
  pub start : ℕ
  pub until : ℕ

-- The map from periods to pins. Only the periods that reset are ever written to it.
pub record Pins : Type 0 where
  pub daily_pin : Option WindowPin
  pub weekly_pin : Option WindowPin
  pub monthly_pin : Option WindowPin

abbrev pub no_pins : Pins
no_pins = record { daily_pin = none; weekly_pin = none; monthly_pin = none }

abbrev pub pin_at : Pins → Period → Option WindowPin
pin_at pins daily = pins.daily_pin
pin_at pins weekly = pins.weekly_pin
pin_at pins monthly = pins.monthly_pin
pin_at pins _ = none

pub record ResetRule : Type 0 where
  pub schedule : Option ResetSchedule
  pub pins : Pins

-- The byte as a digit, or `none`.
abbrev digit : ℕ → Option ℕ
digit c = if leb b'0' c && leb c b'9' then some (c - b'0') else none

clock_value : Option ℕ → Option ℕ → Option ℕ → Option ℕ → Option ℕ
clock_value (some h1) (some h2) (some m1) (some m2) =
    let h = h1 * 10 + h2 in
    let m = m1 * 10 + m2 in if ltb 23 h || ltb 59 m then none else some (h * 60 + m)
clock_value _ _ _ _ = none

-- `ParseClock`: a strict "HH:MM" in minutes after midnight.
unfoldable pub parse_clock : Text → Option ℕ
unfolding clock_value
parse_clock (a ∷ b ∷ c ∷ d ∷ e ∷ []) =
    if c == b':' then clock_value (digit a) (digit b) (digit d) (digit e) else none
parse_clock _ = none

-- `load`: the zone of a schedule, if there is a schedule and its name loads.
unfoldable pub load : (Text → Option Location) → Option ResetSchedule → Option Location
load zones none = none
load zones (some s) =
    if text_eq s.timezone [] || text_eq s.timezone (codes "Local") || ltb 64 (length s.timezone)
    then none
    else zones s.timezone

abbrev pub clamp_int : ℕ → ℕ → ℕ → ℕ
clamp_int v lo hi = if ltb v lo then lo else if ltb hi v then hi else v

-- `time.Date` in a month counted through (12 * year + month - 1), with the day of the month given
-- as a difference: it may lie before the first or after the last of the month.
unfoldable pub date_day : ℕ → ℕ → ℕ → ℕ
date_day month plus minus = month_start month + plus - 1 - minus

abbrev pub day_of_month : ℕ → ℕ
day_of_month n = n - month_start (month_of n) + 1

-- `Weekday()`, Sunday = 0, and with Sunday taken for 7.
abbrev go_weekday : ℕ → ℕ
go_weekday n = (n + 1) % 7

abbrev pub iso_weekday : ℕ → ℕ
iso_weekday n = if go_weekday n == 0 then 7 else go_weekday n

-- `defaultWindow`: the UTC calendar.
unfoldable pub default_window : Period → ℕ → ℕ × ℕ
unfolding date_day
default_window daily now =
    let n = utc.local_day now in
    let start = utc.instant (date_day (month_of n) (day_of_month n) 0) 0 0 in
    (start, start + day_ns)
default_window weekly now =
    let n = utc.local_day now in
    let start = utc.instant (date_day (month_of n) (day_of_month n) (iso_weekday n - 1)) 0 0 in
    (start, start + 7 * day_ns)
default_window monthly now =
    let n = utc.local_day now in
    (utc.instant (date_day (month_of n) 1 0) 0 0, utc.instant (date_day (month_of n + 1) 1 0) 0 0)
default_window total now =
    (utc.instant (year_start 1970) 0 0, utc.instant (year_start 10000 - 1) 23 59 + 59000000000)
default_window _ now = (utc.instant (year_start 1970) 0 0, now)

-- The reset instants S(k) of a schedule around a local day. The count k is kept as k + 4: the
-- search below goes four steps back at most.
unfoldable pub nth : Location → ResetSchedule → ℕ → ℕ → Period → ℕ → ℕ
unfolding date_day days_in
nth loc sched minute n weekly k =
    loc.instant
      (date_day (month_of n) (day_of_month n + 7 * k + (clamp_int sched.weekday 1 7 - 1))
        (28 + (iso_weekday n - 1)))
      (minute / 60) (minute % 60)
nth loc sched minute n monthly k =
    let month = month_of n + k - 4 in
    loc.instant (date_day month (clamp_int sched.day 1 (days_in month)) 0) (minute / 60)
      (minute % 60)
nth loc sched minute n _ k =
    loc.instant (date_day (month_of n) (day_of_month n + k) 4) (minute / 60) (minute % 60)

-- The two loops that look for the window: back while S(k) is after `now`, then on while S(k + 1)
-- is not, each at most four times.
unfoldable pub go_back : (ℕ → ℕ) → ℕ → ℕ → ℕ → ℕ
go_back s now zero k = k
go_back s now (suc i) k = elim (ltb now (s k)) [ true ↦ go_back s now i (k - 1) | false ↦ k ]

unfoldable pub go_on : (ℕ → ℕ) → ℕ → ℕ → ℕ → ℕ
go_on s now zero k = k
go_on s now (suc i) k = elim (ltb now (s (k + 1))) [ true ↦ k | false ↦ go_on s now i (k + 1) ]

unfoldable pub find_window : (ℕ → ℕ) → ℕ → ℕ × ℕ
unfolding go_back go_on
find_window s now = let k = go_on s now 4 (go_back s now 4 4) in (s k, s (k + 1))

-- `if start.After(now) || !now.Before(resetAt) || !resetAt.After(start)`: the default instead.
unfoldable pub or_default : Period → ℕ → ℕ × ℕ → ℕ × ℕ
unfolding default_window
or_default period now (start, reset_at) =
    if ltb now start || not (ltb now reset_at) || not (ltb start reset_at)
    then default_window period now
    else (start, reset_at)

abbrev pub is_scheduled : Period → Bool
is_scheduled daily = true
is_scheduled weekly = true
is_scheduled monthly = true
is_scheduled _ = false

unfoldable pub window_at : Location → ResetSchedule → ℕ → Period → ℕ → ℕ × ℕ
unfolding nth find_window or_default default_window
window_at loc sched minute period now =
    if is_scheduled period
    then or_default period now (find_window (nth loc sched minute (loc.local_day now) period) now)
    else default_window period now

unfoldable pub window_of : Option Location → Option ResetSchedule → Option ℕ → Period → ℕ → ℕ × ℕ
unfolding window_at default_window
window_of (some loc) (some sched) (some minute) period now = window_at loc sched minute period now
window_of _ _ _ period now = default_window period now

-- The time of day of a schedule, if there is one.
abbrev pub clock_of : Option ResetSchedule → Option ℕ
clock_of none = none
clock_of (some s) = parse_clock s.time

-- `scheduleWindow`.
unfoldable pub schedule_window :
    (Text → Option Location) → Period → Option ResetSchedule → ℕ → ℕ × ℕ
unfolding load window_of parse_clock
schedule_window zones period sched now =
    window_of (load zones sched) sched (clock_of sched) period now

unfoldable pub pinned : Option WindowPin → ℕ → ℕ × ℕ → ℕ × ℕ
pinned none now other = other
pinned (some pin) now other =
    if leb pin.start now && ltb now pin.until then (pin.start, pin.until) else other

-- `CalcQuotaWindow`: an active Transitional Window wins, else the schedule.
unfoldable pub calc_quota_window : (Text → Option Location) → Period → ResetRule → ℕ → ℕ × ℕ
unfolding pinned schedule_window
calc_quota_window zones period rule now =
    pinned (pin_at rule.pins period) now (schedule_window zones period rule.schedule now)

-- One turn of the loop of `PinsForChange`: a pin if the window's start moves.
unfoldable pub pin_for_change : ℕ → ℕ × ℕ → Option WindowPin
pin_for_change old_start (new_start, new_reset) =
    if old_start == new_start then none else some (record { start = old_start; until = new_reset })

-- `PinsForChange`.
unfoldable pub pins_for_change :
    (Text → Option Location) → ResetRule → Option ResetSchedule → ℕ → Pins
unfolding calc_quota_window schedule_window pin_for_change
pins_for_change zones old_rule new_schedule now =
    let pin = λ (period : Period).
      pin_for_change (calc_quota_window zones period old_rule now).0
        (schedule_window zones period new_schedule now) in
    record { daily_pin = pin daily; weekly_pin = pin weekly; monthly_pin = pin monthly }

-- `FormatClock`.
unfoldable pub format_clock : ℕ → Text
unfolding decimal2
format_clock minute = decimal2 (minute / 60) ++ codes ":" ++ decimal2 (minute % 60)
