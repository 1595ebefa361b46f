-- ===== src/Keys/Schedule/Examples.antt =====
-- The theorems of the schedule changes at a concrete store, under a codec of numbers.
use nineguard.Base.{
  ℕ, zero, suc, ◌+◌, ◌*◌, ◌≡◌, refl, sym, ap, ◌∙◌, List, [], ◌∷◌, ◌++◌, Option, none, some, true,
  length, if◌then◌else◌,
}
use nineguard.Base.Text.{Text, codes, text_eq, trim_space, trim_left}
use mathlib.Core.List.{reverse, reverse-append, reverse-reverse, append_assoc}
use nineguard.Calendar.{day_ns}
use nineguard.Quota.{Location, daily, weekly, monthly, ResetSchedule, WindowPin, Pins, utc}
use nineguard.Keys.Schedule.{
  Codec, KeyScheduleRow, Result, ResetPreview, found, preview_reset, change_row, ok, err,
  encode_schedule, validate, parse_schedule,
}
use nineguard.Keys.Schedule.Bulk.{
  ScheduleStore, Outcome, after, set_global_schedule, clear_schedule_overrides, commit, write_rows,
  repin_row, clear_row, clear_own,
}
use nineguard.Keys.Schedule.Stored.{IsFaithful}
use nineguard.Keys.Schedule.Rows.{AllKept, window}
use nineguard.Keys.Schedule.Preview.{saving, preview_agrees}
use nineguard.Keys.Schedule.Usage.{set_global_keeps_usage, clear_overrides_keeps_usage}

abbrev split : ℕ → Text → Text × Text
split zero s = ([], s)
split (suc n) [] = ([], [])
split (suc n) (c ∷ s) = let (a, b) = split n s in (c ∷ a, b)

split-append : (s t : Text) → split (length s) (s ++ t) ≡ (s, t)
split-append [] t = refl
split-append (c ∷ s) t = rw (split-append s t)

abbrev frame : Text → Text
frame s = 33 ∷ (s ++ (33 ∷ []))

frame-trimmed : (s : Text) → trim_space (frame s) ≡ frame s
unfolding trim_space
frame-trimmed s =
    let turned = reverse-append (33 ∷ s) (33 ∷ []) in
    ap (λ x. reverse (trim_left x)) turned ∙ (ap reverse (sym turned) ∙ reverse-reverse (frame s))

abbrev pin_code : Option WindowPin → Text
pin_code none = 0 ∷ 0 ∷ 0 ∷ []
pin_code (some p) = 1 ∷ p.start ∷ p.until ∷ []

abbrev pin_of : ℕ → ℕ → ℕ → Option WindowPin
pin_of zero a b = none
pin_of (suc n) a b = some (record { start = a; until = b })

pin_code-pin_of :
    (p : Option WindowPin) → (n a b : ℕ) × (pin_code p ≡ n ∷ a ∷ b ∷ []) × (pin_of n a b ≡ p)
pin_code-pin_of none = (0, 0, 0, refl, refl)
pin_code-pin_of (some p) = (1, p.start, p.until, refl, refl)

abbrev pins_code : Pins → Text
pins_code p = frame (pin_code p.daily_pin ++ (pin_code p.weekly_pin ++ pin_code p.monthly_pin))

abbrev pins_of : Text → Option Pins
pins_of (_ ∷ d ∷ d1 ∷ d2 ∷ w ∷ w1 ∷ w2 ∷ m ∷ m1 ∷ m2 ∷ t) = some (record {
  daily_pin = pin_of d d1 d2;
  weekly_pin = pin_of w w1 w2;
  monthly_pin = pin_of m m1 m2;
})
pins_of _ = none

pins_read :
    (d w m : Option WindowPin)
    → pins_of (pins_code (record { daily_pin = d; weekly_pin = w; monthly_pin = m }))
      ≡ some (record { daily_pin = d; weekly_pin = w; monthly_pin = m })
pins_read none none none = refl
pins_read none none (some m) = refl
pins_read none (some w) none = refl
pins_read none (some w) (some m) = refl
pins_read (some d) none none = refl
pins_read (some d) none (some m) = refl
pins_read (some d) (some w) none = refl
pins_read (some d) (some w) (some m) = refl

abbrev schedule_code : ResetSchedule → Text
schedule_code s =
    frame (s.weekday ∷ s.day ∷ length s.timezone ∷ length s.time ∷ (s.timezone ++ s.time))

abbrev schedule_of : Text → Option ResetSchedule
schedule_of (_ ∷ w ∷ d ∷ z ∷ t ∷ rest) =
    let (zone, more) = split z rest in
    let (time, end) = split t more in
    some (record { timezone = zone; time = time; weekday = w; day = d })
schedule_of _ = none

schedule_read : (s : ResetSchedule) → schedule_of (schedule_code s) ≡ some s
schedule_read s =
    rw
      (
        append_assoc s.timezone s.time (33 ∷ []),
        split-append s.timezone (s.time ++ (33 ∷ [])),
        split-append s.time (33 ∷ []),
      )
      refl

abbrev numbers : Codec
numbers = record {
  decode_schedule = schedule_of;
  encode_schedule = schedule_code;
  decode_pins = pins_of;
  encode_pins = pins_code;
}

numbers-IsFaithful : IsFaithful numbers
numbers-IsFaithful = record {
  pins_text = λ p.
      rw (frame-trimmed (pin_code p.daily_pin ++ (pin_code p.weekly_pin ++ pin_code p.monthly_pin)))
        refl;
  pins_read = λ p.
      rw (frame-trimmed (pin_code p.daily_pin ++ (pin_code p.weekly_pin ++ pin_code p.monthly_pin)))
        (pins_read p.daily_pin p.weekly_pin p.monthly_pin);
  schedule_text = λ s.
      rw
        (frame-trimmed
          (s.weekday ∷ s.day ∷ length s.timezone ∷ length s.time ∷ (s.timezone ++ s.time)))
        refl;
  schedule_read = λ s.
      rw
        (frame-trimmed
          (s.weekday ∷ s.day ∷ length s.timezone ∷ length s.time ∷ (s.timezone ++ s.time)))
        (schedule_read s);
}

abbrev zones : Text → Option Location
zones name = if text_eq name (codes "UTC") then some utc else none

abbrev afternoon : ResetSchedule
afternoon = record { timezone = codes "UTC"; time = codes "14:05"; weekday = 3; day = 31 }

abbrev morning : ResetSchedule
morning = record { timezone = codes "UTC"; time = codes "06:00"; weekday = 1; day = 1 }

-- 15 March 2024 at noon, UTC.
abbrev noon : ℕ
noon = 738959 * day_ns + 43200000000000

-- One key that follows the global schedule, and one with its own.
abbrev keys : List KeyScheduleRow
keys =
    record { id = codes "a"; own_raw = []; pins_raw = [] }
    ∷ record { id = codes "b"; own_raw = schedule_code afternoon; pins_raw = [] }
    ∷ []

abbrev store : ScheduleStore
store = record { rows = keys; setting_raw = schedule_code afternoon; global_sched = some afternoon }

abbrev fine : Outcome
fine = record {
  begins = true;
  reads = true;
  setting_written = true;
  row_written = λ id. true;
  commits = true;
}

set_global_keeps_usage_example :
    let st = after store (set_global_schedule zones numbers fine store (some morning) noon) in
    AllKept zones numbers numbers-IsFaithful daily (some afternoon) (some morning) noon keys st.rows
    × (st.global_sched ≡ some morning)
    × (st.setting_raw ≡ encode_schedule zones numbers (some morning))
unfolding set_global_schedule validate text_eq commit write_rows repin_row parse_schedule
set_global_keeps_usage_example =
    set_global_keeps_usage zones numbers numbers-IsFaithful fine store
      (after store (set_global_schedule zones numbers fine store (some morning) noon))
      (some morning) noon daily refl refl

clear_overrides_keeps_usage_example :
    let st = after store (clear_schedule_overrides zones numbers fine store noon) in
    AllKept zones numbers numbers-IsFaithful daily
      (some afternoon)
      (some afternoon)
      noon
      keys
      st.rows
    × (st.global_sched ≡ some afternoon)
unfolding clear_schedule_overrides commit write_rows clear_row clear_own parse_schedule text_eq
clear_overrides_keeps_usage_example =
    clear_overrides_keeps_usage zones numbers numbers-IsFaithful fine store
      (after store (clear_schedule_overrides zones numbers fine store noon)) noon daily refl refl

abbrev shown : Result ResetPreview → ResetPreview
shown (ok p) = p
shown (err e) = record { daily_reset = 0; weekly_reset = 0; monthly_reset = 0; transitional = [] }

abbrev follower : KeyScheduleRow
follower = record { id = codes "a"; own_raw = []; pins_raw = [] }

preview_agrees_example :
    let p =
      shown (preview_reset zones numbers (some morning) (some afternoon) noon (found follower)) in
    let saved = change_row zones numbers (saving (some morning)) (some afternoon) noon follower in
    (p.daily_reset ≡ (window zones numbers numbers-IsFaithful daily (some afternoon) saved noon).1)
    × (p.weekly_reset
        ≡ (window zones numbers numbers-IsFaithful weekly (some afternoon) saved noon).1)
    × (p.monthly_reset
        ≡ (window zones numbers numbers-IsFaithful monthly (some afternoon) saved noon).1)
unfolding preview_reset validate text_eq
preview_agrees_example =
    preview_agrees zones numbers numbers-IsFaithful (some morning) (some afternoon) noon follower
      (shown (preview_reset zones numbers (some morning) (some afternoon) noon (found follower)))
      refl
