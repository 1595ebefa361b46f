-- ===== src/Limits/Held.antt =====
-- A Key Quota over time: a refusal holds until the reset, and ends with it.
use nineguard.Base.{
  ◌≡◌, refl, sym, ap, subst, ◌∙◌, inl, inr, ℕ, ℤ, pos, negsuc, ltz, ◌+◌, ◌/◌, ◌%◌, ◌≤◌, ◌<◌, List,
  [], ◌∷◌, ◌++◌, Option, none, some, Bool, true, false, not, ◌&&◌, All, arith, if◌then◌else◌,
  Bool-cases,
}
use nineguard.Base.Text.{Text}
use nineguard.Quota.{
  Location, Period, daily, weekly, monthly, total, never, unset, unknown, ResetSchedule, no_pins,
  is_scheduled, load, parse_clock, schedule_window, pinned, calc_quota_window,
}
use nineguard.Quota.Regular.{IsRegular, Modern}
use nineguard.Quota.Window.{schedule_window-Contains}
use nineguard.Quota.Tiling.{windows_tile}
use nineguard.Limits.{
  LogRow, QuotaKey, second_ns, tokens_where, is_text, since, get_quota_usage, reaches,
  enforces_model_quotas, is_limited, refused_at, key_quota_refuses,
}

-- The key with a Reset Schedule and no Transitional Window.
abbrev pub follows : QuotaKey → ResetSchedule → QuotaKey
follows key sched = record key { reset_rule = record { schedule = some sched; pins = no_pins } }

-- A row of an earlier second.
abbrev pub IsEarlier : ℕ → LogRow → Type 0
IsEarlier t r = r.at / second_ns < t / second_ns

tokens_where-append :
    (p : LogRow → Bool) (log more : List LogRow)
    → tokens_where p (log ++ more) ≡ tokens_where p log + tokens_where p more
unfolding tokens_where
tokens_where-append p [] more = omega arith
tokens_where-append p (r ∷ rs) more = rw (tokens_where-append p rs more) (omega arith)

tokens_where-zero :
    (key : Text) (t : ℕ) (log : List LogRow)
    → All (IsEarlier t) log
    → tokens_where (λ r. is_text key r.api_key_id && since t r) log ≡ 0
unfolding tokens_where
tokens_where-zero key t [] a = refl
tokens_where-zero key t (r ∷ rs) (e, a) =
    rw (tokens_where-zero key t rs a) (none_of (is_text key r.api_key_id))
  where
    none_of : (b : Bool) → (if b && since t r then r.total_tokens else 0) + 0 ≡ 0
    none_of b = ground (arith, e)

reaches-more : (a b : ℕ) (limit : ℤ) → a ≤ b → reaches a limit ≡ true → reaches b limit ≡ true
reaches-more a b (pos n) le h = ground (arith, le, h)
reaches-more a b (negsuc n) le h = refl

module _ (zones : Text → Option Location) (key : QuotaKey) (sched : ResetSchedule)
    (h : is_scheduled key.quota_period ≡ true) where
  abbrev window : ℕ → ℕ × ℕ
  window t = schedule_window zones key.quota_period (some sched) t

  abbrev used : List LogRow → ℕ → ℕ
  used log start = tokens_where (λ r. is_text key.id r.api_key_id && since start r) log

  abbrev checked : Bool
  checked =
      not (enforces_model_quotas key)
      && (ltz (pos 0) key.quota_limit && is_limited key.quota_period)

  usage-used :
      (p : Period) (log : List LogRow) (t : ℕ)
      → is_scheduled p ≡ true
      → get_quota_usage zones true log key.id p (follows key sched).reset_rule t
        ≡ some (
          used log (schedule_window zones p (some sched) t).0,
          (schedule_window zones p (some sched) t).1,
        )
  unfolding get_quota_usage calc_quota_window pinned
  usage-used daily log t s = refl
  usage-used weekly log t s = refl
  usage-used monthly log t s = refl
  usage-used total log t s = absurd cc
  usage-used never log t s = absurd cc
  usage-used unset log t s = absurd cc
  usage-used (unknown u) log t s = absurd cc

  refuses-used :
      (log : List LogRow) (t : ℕ)
      → key_quota_refuses zones true log (follows key sched) t ≡ (
          if checked
          then refused_at key.quota_limit (some (used log (window t).0, (window t).1))
          else none)
  unfolding key_quota_refuses enforces_model_quotas
  refuses-used log t = rw (usage-used key.quota_period log t h) refl

  some_parts : (v w : ℕ × ℕ) → some v ≡ some w → (v.0 ≡ w.0) × (v.1 ≡ w.1)
  some_parts v w e = let p : v ≡ w = cc in (ap (λ (x : ℕ × ℕ). x.0) p, ap (λ (x : ℕ × ℕ). x.1) p)

  no_window : {P : Type 0} (w : ℕ × ℕ) → none ≡ some w → P
  no_window w e = absurd cc

  -- A refusal says that the check applies, and what was used.
  refused-reaches :
      (g : Bool) (u r c reset : ℕ)
      → (if g then refused_at key.quota_limit (some (u, r)) else none) ≡ some (c, reset)
      → (g ≡ true) × (reaches u key.quota_limit ≡ true) × (u ≡ c) × (r ≡ reset)
  refused-reaches false u r c reset e = absurd cc
  refused-reaches true u r c reset e = elim (Bool-cases (reaches u key.quota_limit)) [
    | inl f ↦
        let e' : some (u, r) ≡ some (c, reset) = rw f at e in
        let (same, at) = some_parts (u, r) (c, reset) e' in (refl, f, same, at)
    | inr f ↦ let e' : none ≡ some (c, reset) = rw f at e in no_window (c, reset) e'
  ]

  still_refused :
      (g : Bool) (u r : ℕ)
      → g ≡ true
      → reaches u key.quota_limit ≡ true
      → (if g then refused_at key.quota_limit (some (u, r)) else none) ≡ some (u, r)
  still_refused g u r e f = rw (e, f) refl

  unused-accepted :
      (r : ℕ) → (if checked then refused_at key.quota_limit (some (0, r)) else none) ≡ none
  unused-accepted r = elim (Bool-cases (ltz (pos 0) key.quota_limit)) [
    | inl p ↦ elim (Bool-cases checked) [ inl g ↦ rw (g, p) refl | inr g ↦ rw g refl ]
    | inr p ↦ elim (Bool-cases (not (enforces_model_quotas key))) [
      | inl g ↦ rw (g, p) refl
      | inr g ↦ rw g refl
    ]
  ]

  -- What a refusal at `now` says of a check at `n`.
  module _ (now n c reset : ℕ) (log more : List LogRow)
      (refused : key_quota_refuses zones true log (follows key sched) now ≡ some (c, reset)) where
    refusal :
        (checked ≡ true)
        × (reaches (used log (window now).0) key.quota_limit ≡ true)
        × (used log (window now).0 ≡ c)
        × ((window now).1 ≡ reset)
    refusal =
        refused-reaches checked (used log (window now).0) (window now).1 c reset
          (sym (refuses-used log now) ∙ refused)

    held :
        window n ≡ window now
        → (d : ℕ) × (key_quota_refuses zones true (log ++ more) (follows key sched) n
            ≡ some (d, reset))
          × (c ≤ d)
    held same =
        let (g, f, used_c, at) = refusal in
        (
          after,
          refuses-used (log ++ more) n
              ∙ (ap
                    (λ (w : ℕ × ℕ).
                      if checked
                      then refused_at key.quota_limit (some (used (log ++ more) w.0, w.1))
                      else none)
                    same
                  ∙ (still_refused checked after (window now).1 g
                        (reaches-more (used log (window now).0) after key.quota_limit grown f)
                      ∙ ap (λ r. some (after, r)) at)),
          subst (λ k. k ≤ after) used_c grown,
        )
      where
        after : ℕ
        after = used (log ++ more) (window now).0

        grown : used log (window now).0 ≤ after
        grown =
            rw
              (tokens_where-append (λ r. is_text key.id r.api_key_id && since (window now).0 r) log
                more)
              (omega arith)

    reopened :
        (window n).0 ≡ reset
        → All (IsEarlier reset) log
        → key_quota_refuses zones true log (follows key sched) n ≡ none
    reopened start earlier =
        refuses-used log n
        ∙ (ap (λ u. if checked then refused_at key.quota_limit (some (u, (window n).1)) else none)
              (ap (λ s. used log s) start ∙ tokens_where-zero key.id reset log earlier)
            ∙ unused-accepted (window n).1)

-- A Key Quota with a daily, weekly or monthly period, under a schedule whose zone loads and is regular at the time of day of its
-- clock, which is valid, and without a Transitional Window, at local dates after April of year 2, with usage queries that
-- succeed: when the proxy refuses the key and tells it a reset, it refuses the key with that reset at every instant until then,
-- whatever is logged in between and with no less usage; and at the reset it refuses it no more when every row of
-- the log is of an earlier second.
pub key_quota_refuses-held :
    (zones : Text → Option Location) (key : QuotaKey) (sched : ResetSchedule) (loc : Location)
    (minute now n c reset : ℕ) (log more : List LogRow)
    → is_scheduled key.quota_period ≡ true
    → load zones (some sched) ≡ some loc
    → parse_clock sched.time ≡ some minute
    → IsRegular loc (minute / 60) (minute % 60)
    → Modern (loc.local_day now)
    → Modern (loc.local_day n)
    → key_quota_refuses zones true log (follows key sched) now ≡ some (c, reset)
    → (now ≤ n
        → n < reset
        → (d : ℕ) × (key_quota_refuses zones true (log ++ more) (follows key sched) n
            ≡ some (d, reset))
          × (c ≤ d))
      × (n ≡ reset
          → All (IsEarlier reset) log
          → key_quota_refuses zones true log (follows key sched) n ≡ none)
key_quota_refuses-held zones key sched loc minute now n c reset log more h loaded clock regular m m'
      refused =
    let (g, f, used_c, at) = refusal zones key sched h now n c reset log more refused in
    (
      (λ le lt.
          held zones key sched h now n c reset log more refused
            (tile.0 (omega (arith, le, started.0)) (omega (arith, lt, at)))),
      (λ e earlier.
          reopened zones key sched h now n c reset log more refused (tile.1 (e ∙ sym at) ∙ at)
            earlier),
    )
  where
    w : ℕ × ℕ
    w = schedule_window zones key.quota_period (some sched) now

    started : (w.0 ≤ now) × (now < w.1)
    started = schedule_window-Contains zones key.quota_period (some sched) now h

    tile :
        (w.0 ≤ n → n < w.1 → schedule_window zones key.quota_period (some sched) n ≡ w)
        × (n ≡ w.1 → (schedule_window zones key.quota_period (some sched) n).0 ≡ w.1)
    tile = windows_tile zones key.quota_period sched loc minute now n h loaded clock regular m m'
