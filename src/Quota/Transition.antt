-- ===== src/Quota/Transition.antt =====
-- Transitional Windows: a change of schedule keeps the usage counted so far.
use nineguard.Base.{
  ℕ, ◌≤◌, ◌<◌, ◌≡◌, refl, Option, true, arith, ◌==◌, not, ◌&&◌, ltb, if◌then◌else◌,
}
use nineguard.Base.Text.{Text}
use nineguard.Quota.{
  Location, Period, ResetSchedule, ResetRule, daily, weekly, monthly, is_scheduled, pin_at,
  pin_for_change, schedule_window, pinned, calc_quota_window, pins_for_change,
}
use nineguard.Quota.Window.{schedule_window-Contains, calc_quota_window_contains}

-- The rule of a key after its schedule changed from that of `old` to `new` at `now`.
abbrev pub changed : (Text → Option Location) → ResetRule → Option ResetSchedule → ℕ → ResetRule
changed zones old new now = record { schedule = new; pins = pins_for_change zones old new now }

pin_for_change-now :
    (old_start now : ℕ) (w : ℕ × ℕ)
    → old_start ≤ now
    → now < w.1
    → pinned (pin_for_change old_start w) now w ≡ (old_start, w.1)
unfolding pinned pin_for_change
pin_for_change-now old_start now (new_start, new_reset) h k = ground arith

pin_for_change-later :
    (old_start now n : ℕ) (w other : ℕ × ℕ)
    → old_start ≤ now
    → now ≤ n
    → pinned (pin_for_change old_start w) n other
      ≡ (if not (old_start == w.0) && ltb n w.1 then (old_start, w.1) else other)
unfolding pinned pin_for_change
pin_for_change-later old_start now n (new_start, new_reset) other h k = ground arith

pin_at-pins_for_change :
    (zones : Text → Option Location) (period : Period) (old : ResetRule)
    (new : Option ResetSchedule) (now : ℕ)
    → is_scheduled period ≡ true
    → pin_at (pins_for_change zones old new now) period
      ≡ pin_for_change
          (calc_quota_window zones period old now).0
          (schedule_window zones period new now)
unfolding pins_for_change
pin_at-pins_for_change zones daily old new now h = refl
pin_at-pins_for_change zones weekly old new now h = refl
pin_at-pins_for_change zones monthly old new now h = refl
pin_at-pins_for_change zones _ old new now h = cc

-- A change of schedule at `now` keeps the start of the window that is running, so that no usage
-- is forgotten, and the window then ends at the next reset of the new schedule. The old rule may
-- itself be in a Transitional Window.
pub change_keeps_start :
    (zones : Text → Option Location) (period : Period) (old : ResetRule)
    (new : Option ResetSchedule) (now : ℕ)
    → is_scheduled period ≡ true
    → calc_quota_window zones period (changed zones old new now) now
      ≡ ((calc_quota_window zones period old now).0, (schedule_window zones period new now).1)
change_keeps_start zones period old new now h =
    unfold calc_quota_window in
    rw (pin_at-pins_for_change zones period old new now h) (
      pin_for_change-now (calc_quota_window zones period old now).0 now
        (schedule_window zones period new now) (calc_quota_window_contains zones period old now h).0
        (schedule_window-Contains zones period new now h).1)

-- From the change on, at any n ≥ `now`: where the window's start moves, the running window goes on
-- from its old start until the first reset of the new schedule, and afterwards the new schedule
-- alone decides; where the start does not move, the new schedule decides from the beginning.
pub change_then_follows :
    (zones : Text → Option Location) (period : Period) (old : ResetRule)
    (new : Option ResetSchedule) (now n : ℕ)
    → is_scheduled period ≡ true
    → now ≤ n
    → let start = (calc_quota_window zones period old now).0 in
      let first = schedule_window zones period new now in
      calc_quota_window zones period (changed zones old new now) n ≡ (
        if not (start == first.0) && ltb n first.1
        then (start, first.1)
        else schedule_window zones period new n)
change_then_follows zones period old new now n h le =
    unfold calc_quota_window in
    rw (pin_at-pins_for_change zones period old new now h) (
      pin_for_change-later (calc_quota_window zones period old now).0 now n
        (schedule_window zones period new now) (schedule_window zones period new n)
        (calc_quota_window_contains zones period old now h).0 le)
