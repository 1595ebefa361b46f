-- ===== src/Quota/Examples.antt =====
-- The theorems of the Quota Windows at concrete inputs, and tests of the calendar.
use nineguard.Base.{
  ℕ, ◌+◌, ◌*◌, ◌≤◌, ◌<◌, ◌≡◌, refl, Option, none, some, not, ◌&&◌, arith, ltb, ◌==◌, if◌then◌else◌,
}
use nineguard.Base.Text.{Text, text_eq, codes}
use nineguard.Calendar.{day_ns, month_start, month_of}
use nineguard.Quota.{
  Location, daily, weekly, monthly, ResetSchedule, ResetRule, no_pins, utc, load, parse_clock,
  format_clock, default_window, schedule_window, calc_quota_window,
}
use nineguard.Quota.Clock.{parse_clock-format_clock}
use nineguard.Quota.Regular.{utc-IsRegular, fixed_zone}
use nineguard.Quota.Window.{calc_quota_window_contains}
use nineguard.Quota.Tiling.{windows_tile}
use nineguard.Quota.Transition.{changed, change_keeps_start, change_then_follows}

-- Two zones: "UTC", and "Asia/Jakarta" seven hours ahead.
abbrev two_zones : Text → Option Location
two_zones name =
    if text_eq name (codes "UTC")
    then some utc
    else if text_eq name (codes "Asia/Jakarta")
    then some (fixed_zone (7 * 3600000000000))
    else none

abbrev afternoon : ResetSchedule
afternoon = record { timezone = codes "UTC"; time = codes "14:05"; weekday = 3; day = 31 }

abbrev jakarta : ResetSchedule
jakarta = record { timezone = codes "Asia/Jakarta"; time = codes "00:00"; weekday = 1; day = 1 }

-- 15 March 2024 at noon, UTC.
abbrev noon : ℕ
noon = 738959 * day_ns + 43200000000000

abbrev rule : ResetRule
rule = record { schedule = some afternoon; pins = no_pins }

noon_month : month_of 738959 ≡ 12 * 2024 + 2
unfolding month_of
noon_month = refl

first_of_march : month_start (12 * 2024 + 2) ≡ 738945
unfolding month_start
first_of_march = refl

-- A monthly schedule on day 31 resets on the last day of February.
february :
    (schedule_window two_zones monthly (some afternoon) noon).0 ≡ 738944 * day_ns + 50700000000000
unfolding schedule_window text_eq month_of
february = refl

-- 15 March 2024 is a Friday: the week began on Monday the 11th.
week : (default_window weekly noon).0 ≡ 738955 * day_ns
unfolding default_window month_of month_start
week = refl

calc_quota_window_contains_example :
    ((calc_quota_window two_zones weekly rule noon).0 ≤ noon)
    × (noon < (calc_quota_window two_zones weekly rule noon).1)
calc_quota_window_contains_example = calc_quota_window_contains two_zones weekly rule noon refl

windows_tile_example :
    let (start, reset_at) = schedule_window two_zones daily (some afternoon) noon in
    ((start ≤ noon + 1)
      → (noon + 1 < reset_at)
      → schedule_window two_zones daily (some afternoon) (noon + 1) ≡ (start, reset_at))
    × (noon + 1 ≡ reset_at
        → (schedule_window two_zones daily (some afternoon) (noon + 1)).0 ≡ reset_at)
unfolding load parse_clock text_eq month_of
windows_tile_example =
    windows_tile two_zones daily afternoon utc 845 noon (noon + 1) refl refl refl
      (utc-IsRegular 14 5 (omega arith) (omega arith)) (omega arith) (omega arith)

change_keeps_start_example :
    calc_quota_window two_zones daily (changed two_zones rule (some jakarta) noon) noon ≡ (
      (calc_quota_window two_zones daily rule noon).0,
      (schedule_window two_zones daily (some jakarta) noon).1,
    )
change_keeps_start_example = change_keeps_start two_zones daily rule (some jakarta) noon refl

change_then_follows_example :
    let start = (calc_quota_window two_zones daily rule noon).0 in
    let first = schedule_window two_zones daily (some jakarta) noon in
    calc_quota_window two_zones daily (changed two_zones rule (some jakarta) noon) (noon + 5) ≡ (
      if not (start == first.0) && ltb (noon + 5) first.1
      then (start, first.1)
      else schedule_window two_zones daily (some jakarta) (noon + 5))
change_then_follows_example =
    change_then_follows two_zones daily rule (some jakarta) noon (noon + 5) refl (omega arith)

parse_clock-format_clock_example : parse_clock (format_clock 845) ≡ some 845
parse_clock-format_clock_example = parse_clock-format_clock 845 (omega arith)
