-- ===== src/Keys/Schedule/Stored.antt =====
-- What is stored of schedules and pins reads back, and a change of schedule keeps a window's start.
use nineguard.Base.{
  ℕ, ◌≤◌, ◌<◌, ◌≡◌, refl, ap, inl, inr, Option, none, some, true, false, arith, Bool-cases,
}
use nineguard.Base.Text.{Text, text_eq_iff, trim_space}
use nineguard.Quota.{
  Location, Period, ResetSchedule, ResetRule, WindowPin, Pins, no_pins, daily, weekly, monthly,
  is_scheduled, schedule_window, calc_quota_window, pin_for_change, pins_for_change,
}
use nineguard.Quota.Window.{schedule_window-Contains, calc_quota_window_contains}
use nineguard.Quota.Transition.{change_keeps_start}
use nineguard.Keys.Schedule.{
  Codec, effective_schedule, schedule_eq, any_pin, is_empty, well_formed, keep_well_formed,
  parse_pins, encode_pins, pins_after_change,
}

-- JSON gives back what was written: `Marshal` and `Unmarshal` of pins and schedules. The texts of a
-- schedule are UTF-8 and the instants of a pin lie before the year 10000, as `encoding/json` asks.
pub record IsFaithful (codec : Codec) : Type 0 where
  pub pins_text : (p : Pins) → is_empty (trim_space (codec.encode_pins p)) ≡ false
  pub pins_read : (p : Pins) → codec.decode_pins (trim_space (codec.encode_pins p)) ≡ some p
  pub schedule_text : (s : ResetSchedule) → is_empty (trim_space (codec.encode_schedule s)) ≡ false
  pub schedule_read :
      (s : ResetSchedule) → codec.decode_schedule (trim_space (codec.encode_schedule s)) ≡ some s

schedule_eq→eq : (s t : Option ResetSchedule) → schedule_eq s t ≡ true → s ≡ t
unfolding schedule_eq
schedule_eq→eq none none h = refl
schedule_eq→eq none (some t) h = cc
schedule_eq→eq (some s) none h = cc
schedule_eq→eq (some s) (some t) h =
    ground (arith, text_eq_iff s.timezone t.timezone, text_eq_iff s.time t.time)

abbrev pub WellFormed : Pins → Type 0
WellFormed p =
    (well_formed p.daily_pin ≡ p.daily_pin)
    × (well_formed p.weekly_pin ≡ p.weekly_pin)
    × (well_formed p.monthly_pin ≡ p.monthly_pin)

well_formed_idem : (o : Option WindowPin) → well_formed (well_formed o) ≡ well_formed o
well_formed_idem none = refl
well_formed_idem (some pin) = ground arith

without_pins : (p : Pins) → any_pin p ≡ false → no_pins ≡ p
without_pins p h = ground arith

module _ (zones : Text → Option Location) (codec : Codec) (faithful : IsFaithful codec) where
  keep-WellFormed : (o : Option Pins) → WellFormed (keep_well_formed zones codec o)
  keep-WellFormed none = (refl, refl, refl)
  keep-WellFormed (some p) =
      (well_formed_idem p.daily_pin, well_formed_idem p.weekly_pin, well_formed_idem p.monthly_pin)

  pub parse_pins-WellFormed : (raw : Text) → WellFormed (parse_pins zones codec raw)
  unfolding parse_pins
  parse_pins-WellFormed raw = elim (Bool-cases (is_empty (trim_space raw))) [
    | inl blank ↦ rw blank (refl, refl, refl)
    | inr full ↦ rw full (keep-WellFormed (codec.decode_pins (trim_space raw)))
  ]

  pin_for_change-well_formed :
      (old_start now : ℕ) (w : ℕ × ℕ)
      → old_start ≤ now
      → now < w.1
      → well_formed (pin_for_change old_start w) ≡ pin_for_change old_start w
  unfolding pin_for_change
  pin_for_change-well_formed old_start now (a, b) h k = ground arith

  pins_for_change-WellFormed :
      (rule : ResetRule) (new : Option ResetSchedule) (now : ℕ)
      → WellFormed (pins_for_change zones rule new now)
  unfolding pins_for_change
  pins_for_change-WellFormed rule new now = (one daily refl, one weekly refl, one monthly refl)
    where
      one :
          (period : Period)
          → is_scheduled period ≡ true
          → well_formed (
              pin_for_change
                (calc_quota_window zones period rule now).0
                (schedule_window zones period new now))
            ≡ pin_for_change
                (calc_quota_window zones period rule now).0
                (schedule_window zones period new now)
      one period h =
          pin_for_change-well_formed (calc_quota_window zones period rule now).0 now
            (schedule_window zones period new now)
            (calc_quota_window_contains zones period rule now h).0
            (schedule_window-Contains zones period new now h).1

  pub pins_after_change-WellFormed :
      (old new : Option ResetSchedule) (p : Pins) (now : ℕ)
      → WellFormed p
      → WellFormed (pins_after_change zones codec old new p now)
  unfolding pins_after_change
  pins_after_change-WellFormed old new p now w = elim (Bool-cases (schedule_eq old new)) [
    | inl same ↦ rw same w
    | inr moved ↦
        rw moved (pins_for_change-WellFormed (record { schedule = old; pins = p }) new now)
  ]

  -- What is stored of well-formed pins reads back.
  pub parse_pins-encode_pins :
      (p : Pins) → WellFormed p → parse_pins zones codec (encode_pins zones codec p) ≡ p
  unfolding parse_pins encode_pins
  parse_pins-encode_pins p w = elim (Bool-cases (any_pin p)) [
    | inl some_pin ↦ rw (some_pin, faithful.pins_text p, faithful.pins_read p) (ground arith)
    | inr none_pin ↦ rw none_pin (without_pins p none_pin)
  ]

  pub effective_none : (g : Option ResetSchedule) → (effective_schedule none g).0 ≡ g
  unfolding effective_schedule
  effective_none none = refl
  effective_none (some s) = refl

  pub effective_some :
      (own : ResetSchedule) (g : Option ResetSchedule)
      → (effective_schedule (some own) g).0 ≡ some own
  unfolding effective_schedule
  effective_some own none = refl
  effective_some own (some s) = refl

  -- The rule of a key before and after a change of its effective schedule.
  abbrev pub rule_before : Option ResetSchedule → Pins → ResetRule
  rule_before old p = record { schedule = old; pins = p }

  abbrev pub rule_after : Option ResetSchedule → Option ResetSchedule → Pins → ℕ → ResetRule
  rule_after old new p now = record {
    schedule = new;
    pins =
        parse_pins zones codec
          (encode_pins zones codec (pins_after_change zones codec old new p now));
  }

  pub start_kept :
      (period : Period) (old new : Option ResetSchedule) (p : Pins) (now : ℕ)
      → is_scheduled period ≡ true
      → WellFormed p
      → (calc_quota_window zones period (rule_after old new p now) now).0
        ≡ (calc_quota_window zones period (rule_before old p) now).0
  start_kept period old new p now h w =
      rw
        (parse_pins-encode_pins (pins_after_change zones codec old new p now)
          (pins_after_change-WellFormed old new p now w))
        (elim (Bool-cases (schedule_eq old new)) [
          | inl same ↦ unfold pins_after_change in rw (same, ← schedule_eq→eq old new same)
          | inr moved ↦
              unfold pins_after_change in
              rw moved
                (ap (λ x. x.0) (change_keeps_start zones period (rule_before old p) new now h))
        ])
