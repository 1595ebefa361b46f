-- ===== src/Limits/Examples.antt =====
-- The theorems of the quotas at a key that has used up its limit.
use nineguard.Base.{
  ℕ, pos, ◌+◌, ◌*◌, ◌≤◌, ◌<◌, ◌≡◌, ◌↔◌, refl, [], ◌∷◌, ◌++◌, Option, none, some, true, All, arith,
}
use nineguard.Base.Text.{Text, codes, text_eq, to_lower, equal_fold}
use nineguard.Calendar.{day_ns, month_of}
use nineguard.Quota.{
  Location, daily, ResetSchedule, no_pins, utc, load, parse_clock, schedule_window,
  calc_quota_window,
}
use nineguard.Quota.Regular.{utc-IsRegular}
use nineguard.Limits.{
  LogRow, ModelQuota, QuotaKey, annotate_quota, enforces_model_quotas, find_quota,
  key_quota_refuses, model_quota_refuses,
}
use nineguard.Limits.Shown.{is_refused, model_quota_refuses-shown}
use nineguard.Limits.Held.{follows, IsEarlier, key_quota_refuses-held}

abbrev all_utc : Text → Option Location
all_utc name = some utc

abbrev afternoon : ResetSchedule
afternoon = record { timezone = codes "UTC"; time = codes "14:05"; weekday = 3; day = 31 }

-- 15 March 2024 at noon, UTC.
abbrev noon : ℕ
noon = 738959 * day_ns + 43200000000000

abbrev request_row : LogRow
request_row = record {
  api_key_id = some (codes "k1");
  model_id = some (codes "9router/opus");
  at = noon;
  total_tokens = 700;
}

abbrev opus : ModelQuota
opus = record { model_id = codes "9Router/Opus"; quota_limit = pos 500; quota_period = daily }

abbrev model_key : QuotaKey
model_key = record {
  id = codes "k1";
  quota_mode = codes "model";
  quota_limit = pos 0;
  quota_period = daily;
  reset_rule = record { schedule = none; pins = no_pins };
  model_quotas = opus ∷ [];
}

abbrev plain_key : QuotaKey
plain_key = record model_key { quota_mode = codes "key"; quota_limit = pos 600; model_quotas = [] }

model_quota_refuses-shown_example :
    ((annotate_quota all_utc true (request_row ∷ []) model_key (λ m. []) 80 noon opus).status
      ≡ codes "exhausted")
    ↔ (is_refused (
          model_quota_refuses all_utc true (request_row ∷ []) model_key (codes "9router/opus") noon)
        ≡ true)
unfolding enforces_model_quotas find_quota text_eq to_lower equal_fold
model_quota_refuses-shown_example =
    model_quota_refuses-shown all_utc (request_row ∷ []) model_key (codes "9router/opus") opus
      (λ m. []) 80 noon refl refl refl refl refl (refl, tt)

key_quota_refuses-held_example :
    let reset = (schedule_window all_utc daily (some afternoon) noon).1 in
    (noon ≤ noon + 1
      → noon + 1 < reset
      → (d : ℕ) × (key_quota_refuses all_utc true
            ((request_row ∷ []) ++ (request_row ∷ []))
            (follows plain_key afternoon)
            (noon + 1)
          ≡ some (d, reset))
        × (700 ≤ d))
    × (noon + 1 ≡ reset
        → All (IsEarlier reset) (request_row ∷ [])
        → key_quota_refuses all_utc true (request_row ∷ []) (follows plain_key afternoon) (noon + 1)
          ≡ none)
unfolding load parse_clock text_eq month_of key_quota_refuses schedule_window calc_quota_window
key_quota_refuses-held_example =
    key_quota_refuses-held all_utc plain_key afternoon utc 845 noon (noon + 1) 700
      (schedule_window all_utc daily (some afternoon) noon).1 (request_row ∷ []) (request_row ∷ [])
      refl refl refl (utc-IsRegular 14 5 (omega arith) (omega arith)) (omega arith) (omega arith)
      refl
