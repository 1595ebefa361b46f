-- ===== src/Keys/Schedule.antt =====
-- internal/keys/{reset_schedule,preview}.go: which schedule applies to a key, and the preview of its
-- resets. The stored texts are JSON: `Codec` stands for `encoding/json`.
pub mod Bulk
pub mod Stored
pub mod Rows
pub mod Usage
pub mod Preview
mod Examples
use nineguard.Base.{
  ℕ, zero, suc, ◌+◌, ◌-◌, List, [], ◌∷◌, Option, none, some, Bool, true, false, not, ◌&&◌, ◌||◌,
  ltb, ◌==◌, if◌then◌else◌, length, filter,
}
use nineguard.Base.Text.{Text, codes, text_eq, trim_space}
use nineguard.Quota.{
  Location, Period, daily, weekly, monthly, ResetSchedule, ResetRule, WindowPin, Pins, no_pins,
  pin_at, load, parse_clock, calc_quota_window, pins_for_change,
}

pub record Codec : Type 0 where
  pub decode_schedule : Text → Option ResetSchedule
  pub encode_schedule : ResetSchedule → Text
  pub decode_pins : Text → Option Pins
  pub encode_pins : Pins → Text

pub data ScheduleSource : Type 0 where
  from_key from_global from_default : ScheduleSource

-- What `api_keys` holds of a key here; SQL NULL reads as "" (COALESCE).
pub record KeyScheduleRow : Type 0 where
  pub id : Text
  pub own_raw : Text
  pub pins_raw : Text

pub data Error : Type 0 where
  invalid_schedule database_error key_not_found : Error
  pin_failed clear_failed : Text → Error

pub data Result {ℓ} (A : Type ℓ) : Type ℓ where
  ok : A → Result A
  err : Error → Result A

-- What `PreviewReset` finds for the key it is given, if it is given one.
pub data KeyQuery : Type 0 where
  no_key no_row unreadable : KeyQuery
  found : KeyScheduleRow → KeyQuery

-- The next resets, as instants.
pub record ResetPreview : Type 0 where
  pub daily_reset : ℕ
  pub weekly_reset : ℕ
  pub monthly_reset : ℕ
  pub transitional : List Period

-- `ScheduleChange`; a nil pointer is `untouched`, and no value without `Clear` is `keep`.
pub data ScheduleChange : Type 0 where
  untouched clear keep : ScheduleChange
  value : ResetSchedule → ScheduleChange

-- `effectiveSchedule`.
unfoldable pub effective_schedule :
    Option ResetSchedule → Option ResetSchedule → Option ResetSchedule × ScheduleSource
effective_schedule (some own) global = (some own, from_key)
effective_schedule none (some g) = (some g, from_global)
effective_schedule none none = (none, from_default)

-- `*s == *o`, and nil only to nil.
unfoldable pub schedule_eq : Option ResetSchedule → Option ResetSchedule → Bool
unfolding text_eq
schedule_eq none none = true
schedule_eq none (some o) = false
schedule_eq (some s) none = false
schedule_eq (some s) (some o) =
    text_eq s.timezone o.timezone
    && text_eq s.time o.time
    && s.weekday == o.weekday
    && s.day == o.day

abbrev pub has_value {ℓ} : {A : Type ℓ} → Option A → Bool
has_value none = false
has_value (some a) = true

-- `len(pins) > 0`.
abbrev pub any_pin : Pins → Bool
any_pin pins = has_value pins.daily_pin || has_value pins.weekly_pin || has_value pins.monthly_pin

abbrev pub is_empty : Text → Bool
is_empty [] = true
is_empty (c ∷ s) = false

-- A pin unless it is malformed.
abbrev pub well_formed : Option WindowPin → Option WindowPin
well_formed none = none
well_formed (some pin) = if ltb pin.start pin.until then some pin else none

module _ (zones : Text → Option Location) (codec : Codec) where
  -- `Validate`, without the texts of its errors.
  unfoldable pub validate : Option ResetSchedule → Bool
  unfolding load parse_clock
  validate none = false
  validate (some s) =
      has_value (load zones (some s))
      && has_value (parse_clock s.time)
      && ltb 0 s.weekday
      && ltb s.weekday 8
      && ltb 0 s.day
      && ltb s.day 32

  abbrev pub if_valid : Option ResetSchedule → Option ResetSchedule
  if_valid s = if validate s then s else none

  -- `parseSchedule`: anything unusable is absent.
  unfoldable pub parse_schedule : Text → Option ResetSchedule
  unfolding validate trim_space
  parse_schedule raw =
      let text = trim_space raw in
      if is_empty text then none else if_valid (codec.decode_schedule text)

  abbrev pub keep_well_formed : Option Pins → Pins
  keep_well_formed none = no_pins
  keep_well_formed (some pins) = record {
    daily_pin = well_formed pins.daily_pin;
    weekly_pin = well_formed pins.weekly_pin;
    monthly_pin = well_formed pins.monthly_pin;
  }

  -- `parsePins`.
  unfoldable pub parse_pins : Text → Pins
  unfolding trim_space
  parse_pins raw =
      let text = trim_space raw in
      if is_empty text then no_pins else keep_well_formed (codec.decode_pins text)

  -- `encodeSchedule` and `encodePins`; NULL is "".
  unfoldable pub encode_schedule : Option ResetSchedule → Text
  encode_schedule none = []
  encode_schedule (some s) = codec.encode_schedule s

  unfoldable pub encode_pins : Pins → Text
  encode_pins pins = if any_pin pins then codec.encode_pins pins else []

  -- `pinsAfterChange`: an unchanged schedule keeps the stored pins.
  unfoldable pub pins_after_change : Option ResetSchedule → Option ResetSchedule → Pins → ℕ → Pins
  unfolding schedule_eq pins_for_change
  pins_after_change old_eff new_eff old_pins now =
      if schedule_eq old_eff new_eff
      then old_pins
      else pins_for_change zones (record { schedule = old_eff; pins = old_pins }) new_eff now

  -- The rule that `applyResetSchedule` gives a row.
  unfoldable pub row_rule : Option ResetSchedule → KeyScheduleRow → ResetRule
  row_rule global r = record {
    schedule = (effective_schedule (parse_schedule r.own_raw) global).0;
    pins = parse_pins r.pins_raw;
  }

  -- The schedule part of `UpdateKeyAll`, on the row of the key.
  unfoldable pub new_own : ScheduleChange → Option ResetSchedule → Option ResetSchedule
  new_own untouched old = old
  new_own clear old = none
  new_own keep old = old
  new_own (value s) old = some s

  unfoldable pub change_row :
      ScheduleChange → Option ResetSchedule → ℕ → KeyScheduleRow → KeyScheduleRow
  change_row untouched global now r = r
  change_row change global now r =
      let old_own = parse_schedule r.own_raw in
      let own = new_own change old_own in
      let old_eff = (effective_schedule old_own global).0 in
      let new_eff = (effective_schedule own global).0 in
      record r {
        own_raw = encode_schedule own;
        pins_raw = encode_pins (pins_after_change old_eff new_eff (parse_pins r.pins_raw) now);
      }

  -- A period whose pin the change creates or alters.
  unfoldable pub altered : Option WindowPin → Option WindowPin → Bool
  altered none had = false
  altered (some p) none = true
  altered (some p) (some o) = not (o.start == p.start && o.until == p.until)

  unfoldable pub transitional_periods : Pins → Pins → List Period
  unfolding altered
  transitional_periods pins old =
      filter (λ period. altered (pin_at pins period) (pin_at old period))
        (daily ∷ weekly ∷ monthly ∷ [])

  abbrev pub preview : ResetRule → List Period → ℕ → ResetPreview
  preview rule transitional now = record {
    daily_reset = (calc_quota_window zones daily rule now).1;
    weekly_reset = (calc_quota_window zones weekly rule now).1;
    monthly_reset = (calc_quota_window zones monthly rule now).1;
    transitional = transitional;
  }

  unfoldable pub preview_key :
      Option ResetSchedule → Option ResetSchedule → ℕ → KeyQuery → Result ResetPreview
  unfolding transitional_periods
  preview_key s global now no_key = ok (preview (record { schedule = s; pins = no_pins }) [] now)
  preview_key s global now no_row = err key_not_found
  preview_key s global now unreadable = err database_error
  preview_key s global now (found r) =
      let old_eff = (effective_schedule (parse_schedule r.own_raw) global).0 in
      let new_eff = (effective_schedule s global).0 in
      let old_pins = parse_pins r.pins_raw in
      let pins = pins_after_change old_eff new_eff old_pins now in
      ok (
        preview (record { schedule = new_eff; pins = pins }) (transitional_periods pins old_pins)
          now)

  -- `PreviewReset`.
  unfoldable pub preview_reset :
      Option ResetSchedule → Option ResetSchedule → ℕ → KeyQuery → Result ResetPreview
  unfolding preview_key
  preview_reset s global now query =
      if has_value s && not (validate s)
      then err invalid_schedule
      else preview_key s global now query
