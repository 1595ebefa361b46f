-- ===== src/Keys/Cache/Options.antt =====
-- The arguments of the operations on client keys, and the values that they normalise.
use nineguard.Base.{ℤ, pos, ltz, List, Option, none, some, ◌||◌, if◌then◌else◌}
use nineguard.Base.Text.{Text, codes, text_eq, trim_space, to_lower, is_blank}
use nineguard.Quota.{ResetSchedule}
use nineguard.Keys.Schedule.{ScheduleChange}

pub data KeyError : Type 0 where
  token_failed invalid_quota_mode empty_name not_found database_failed : KeyError

pub data Answer (A : Type 0) : Type 0 where
  given : A → Answer A
  refused : KeyError → Answer A

unfoldable pub normalize_quota_mode : Text → Option Text
unfolding text_eq
normalize_quota_mode s =
    let mode = to_lower (trim_space s) in
    if is_blank mode || text_eq mode (codes "key")
    then some (codes "key")
    else if text_eq mode (codes "model")
    then some (codes "model")
    else none

-- "show" and "hide"; anything else is NULL.
unfoldable pub visibility : Text → Option Text
unfolding text_eq
visibility s =
    let cv = to_lower (trim_space s) in
    if text_eq cv (codes "show") || text_eq cv (codes "hide") then some cv else none

abbrev pub visibility_of : Option Text → Option Text
visibility_of none = none
visibility_of (some s) = visibility s

unfoldable pub period_or_none : Text → Text
period_or_none s = let p = to_lower (trim_space s) in if is_blank p then codes "none" else p

abbrev pub at_least_zero : ℤ → ℤ
at_least_zero n = if ltz n (pos 0) then pos 0 else n

pub record CreateKeyOptions : Type 0 where
  pub mode : Text
  pub groups : List Text
  pub models : List Text
  pub quota_limit : ℤ
  pub quota_period : Text
  pub quota_mode : Text
  pub reset_schedule : Option ResetSchedule
  pub cost_visibility : Option Text

-- `KeyUpdate`, less its Model Quotas; a nil pointer is `none`.
pub record KeyUpdate : Type 0 where
  pub name : Text
  pub mode : Text
  pub groups : List Text
  pub models : List Text
  pub quota_limit : Option ℤ
  pub quota_period : Option Text
  pub quota_mode : Option Text
  pub reset_schedule : ScheduleChange
  pub cost_visibility : Option Text

abbrev pub or_kept {ℓ} : {A : Type ℓ} → Option A → A → A
or_kept none a = a
or_kept (some b) a = b

abbrev pub clamped : Option ℤ → Option ℤ
clamped none = none
clamped (some n) = some (at_least_zero n)

abbrev pub normal_period : Option Text → Option Text
normal_period none = none
normal_period (some s) = some (period_or_none s)

-- A written visibility is stored, valid or NULL; an absent one keeps the column.
abbrev pub kept_visibility : Option Text → Option Text → Option Text
kept_visibility none old = old
kept_visibility (some s) old = visibility s
