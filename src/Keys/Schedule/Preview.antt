-- ===== src/Keys/Schedule/Preview.antt =====
-- The preview of a schedule shows what saving it will do.
use nineguard.Base.{
  ℕ, ◌≡◌, refl, sym, ap, ◌∙◌, inl, inr, Option, none, some, Bool, true, false, not, ◌&&◌, arith,
  if◌then◌else◌, Bool-cases,
}
use nineguard.Base.Text.{Text}
use nineguard.Quota.{Location, Pins, daily, weekly, monthly, ResetSchedule}
use nineguard.Keys.Schedule.{
  Codec, KeyScheduleRow, ResetPreview, found, Result, ok, err, ScheduleChange, clear, value,
  effective_schedule, has_value, validate, parse_schedule, parse_pins, encode_schedule, encode_pins,
  pins_after_change, row_rule, new_own, change_row, preview_key, preview_reset,
}
use nineguard.Keys.Schedule.Stored.{
  IsFaithful, parse_pins-WellFormed, pins_after_change-WellFormed, parse_pins-encode_pins,
}
use nineguard.Keys.Schedule.Rows.{window}

-- The update that saves a previewed schedule; none means that the key's own is removed.
abbrev pub saving : Option ResetSchedule → ScheduleChange
saving none = clear
saving (some s) = value s

module _ (zones : Text → Option Location) (codec : Codec) (faithful : IsFaithful codec) where
  parse_schedule-encode_schedule :
      (s : Option ResetSchedule)
      → (has_value s && not (validate zones codec s)) ≡ false
      → parse_schedule zones codec (encode_schedule zones codec s) ≡ s
  unfolding parse_schedule encode_schedule
  parse_schedule-encode_schedule none h = refl
  parse_schedule-encode_schedule (some s) h =
      rw (faithful.schedule_text s, faithful.schedule_read s)
        (valid (validate zones codec (some s)) h)
    where
      valid : (b : Bool) → not b ≡ false → (if b then some s else none) ≡ some s
      valid true h = refl
      valid false h = cc

  saved_rule :
      (s global : Option ResetSchedule) (now : ℕ) (r : KeyScheduleRow)
      → (has_value s && not (validate zones codec s)) ≡ false
      → row_rule zones codec global (change_row zones codec (saving s) global now r) ≡ record {
        schedule = (effective_schedule s global).0;
        pins =
            pins_after_change zones codec
              (effective_schedule (parse_schedule zones codec r.own_raw) global).0
              (effective_schedule s global).0
              (parse_pins zones codec r.pins_raw)
              now;
      }
  unfolding row_rule change_row new_own
  saved_rule s global now r h = by_change s h
    where
      pins : Option ResetSchedule → Pins
      pins s =
          pins_after_change zones codec
            (effective_schedule (parse_schedule zones codec r.own_raw) global).0
            (effective_schedule s global).0 (parse_pins zones codec r.pins_raw) now

      read :
          (s : Option ResetSchedule)
          → parse_pins zones codec (encode_pins zones codec (pins s)) ≡ pins s
      read s = parse_pins-encode_pins zones codec faithful (pins s) (
          pins_after_change-WellFormed zones codec faithful
            (effective_schedule (parse_schedule zones codec r.own_raw) global).0
            (effective_schedule s global).0 (parse_pins zones codec r.pins_raw) now
            (parse_pins-WellFormed zones codec faithful r.pins_raw))

      by_change :
          (s : Option ResetSchedule)
          → (has_value s && not (validate zones codec s)) ≡ false
          → row_rule zones codec global (change_row zones codec (saving s) global now r)
            ≡ record { schedule = (effective_schedule s global).0; pins = pins s }
      by_change none h = rw (parse_schedule-encode_schedule none h, read none) refl
      by_change (some own) h =
          rw (parse_schedule-encode_schedule (some own) h, read (some own)) refl

  abbrev daily_of : Result ResetPreview → ℕ
  daily_of (ok p) = p.daily_reset
  daily_of (err e) = 0

  abbrev weekly_of : Result ResetPreview → ℕ
  weekly_of (ok p) = p.weekly_reset
  weekly_of (err e) = 0

  abbrev monthly_of : Result ResetPreview → ℕ
  monthly_of (ok p) = p.monthly_reset
  monthly_of (err e) = 0

  unguarded :
      (s global : Option ResetSchedule) (now : ℕ) (r : KeyScheduleRow)
      → (has_value s && not (validate zones codec s)) ≡ false
      → preview_key zones codec s global now (found r)
        ≡ preview_reset zones codec s global now (found r)
  unfolding preview_reset
  unguarded s global now r accepted = rw accepted refl

  -- A preview that succeeds for a key shows the resets that the key has after the previewed schedule
  -- is saved at the same instant.
  pub preview_agrees :
      (s global : Option ResetSchedule) (now : ℕ) (r : KeyScheduleRow) (p : ResetPreview)
      → preview_reset zones codec s global now (found r) ≡ ok p
      → let saved = change_row zones codec (saving s) global now r in
        (p.daily_reset ≡ (window zones codec faithful daily global saved now).1)
        × (p.weekly_reset ≡ (window zones codec faithful weekly global saved now).1)
        × (p.monthly_reset ≡ (window zones codec faithful monthly global saved now).1)
  unfolding preview_reset
  preview_agrees s global now r p h =
      elim (Bool-cases (has_value s && not (validate zones codec s))) [
        | inl refused ↦ ground (arith, refused, h)
        | inr accepted ↦
            let shown = unguarded s global now r accepted ∙ h in
            let rule = saved_rule s global now r accepted in
            (
              rw rule (sym (ap daily_of shown)),
              rw rule (sym (ap weekly_of shown)),
              rw rule (sym (ap monthly_of shown)),
            )
      ]
