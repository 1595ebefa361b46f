-- ===== src/Quota/Window.antt =====
-- The current Quota Window contains the present, whatever the schedule and the zone.
use nineguard.Base.{ℕ, ◌≤◌, ◌<◌, ◌≡◌, Option, none, some, true, arith}
use nineguard.Base.Text.{Text}
use nineguard.Quota.{
  Location, Period, ResetSchedule, ResetRule, WindowPin, is_scheduled, or_default, nth, find_window,
  window_at, window_of, clock_of, load, schedule_window, pin_at, pinned, calc_quota_window,
}
use nineguard.Quota.Default.{Contains, default_window-Contains}

or_default-Contains :
    (period : Period) (now : ℕ) (w : ℕ × ℕ)
    → is_scheduled period ≡ true
    → Contains (or_default period now w) now
unfolding or_default
or_default-Contains period now (start, reset_at) h =
    ground (arith, default_window-Contains period now h)

window_at-Contains :
    (loc : Location) (sched : ResetSchedule) (minute : ℕ) (period : Period) (now : ℕ)
    → is_scheduled period ≡ true
    → Contains (window_at loc sched minute period now) now
unfolding window_at
window_at-Contains loc sched minute period now h = rw h (
    or_default-Contains period now
      (find_window (nth loc sched minute (loc.local_day now) period) now) h)

window_of-Contains :
    (l : Option Location) (s : Option ResetSchedule) (m : Option ℕ) (period : Period) (now : ℕ)
    → is_scheduled period ≡ true
    → Contains (window_of l s m period now) now
unfolding window_of
window_of-Contains (some loc) (some sched) (some minute) period now h =
    window_at-Contains loc sched minute period now h
window_of-Contains (some loc) (some sched) none period now h = default_window-Contains period now h
window_of-Contains (some loc) none m period now h = default_window-Contains period now h
window_of-Contains none s m period now h = default_window-Contains period now h

pub schedule_window-Contains :
    (zones : Text → Option Location) (period : Period) (sched : Option ResetSchedule) (now : ℕ)
    → is_scheduled period ≡ true
    → Contains (schedule_window zones period sched now) now
unfolding schedule_window
schedule_window-Contains zones period sched now h =
    window_of-Contains (load zones sched) sched (clock_of sched) period now h

pinned-Contains :
    (o : Option WindowPin) (now : ℕ) (w : ℕ × ℕ) → Contains w now → Contains (pinned o now w) now
unfolding pinned
pinned-Contains none now w h = h
pinned-Contains (some pin) now (start, reset_at) h = ground arith

-- For the daily, weekly and monthly periods the current Quota Window starts at or before the
-- present and resets after it: for every rule, with any schedule (valid or not) and any pins, and
-- for every time zone database.
pub calc_quota_window_contains :
    (zones : Text → Option Location) (period : Period) (rule : ResetRule) (now : ℕ)
    → is_scheduled period ≡ true
    → ((calc_quota_window zones period rule now).0 ≤ now)
      × (now < (calc_quota_window zones period rule now).1)
unfolding calc_quota_window
calc_quota_window_contains zones period rule now h =
    pinned-Contains (pin_at rule.pins period) now (schedule_window zones period rule.schedule now)
      (schedule_window-Contains zones period rule.schedule now h)
