-- ===== src/Limits.antt =====
-- The quotas of a key and of its models: internal/traffic/{quota,modelquota}.go for the tokens used in a
-- window, internal/keys/modelquota.go for the status that is shown, and the two checks of
-- internal/proxy/proxy.go. The request log is a list of rows; `reads` says whether a query succeeds. Go's
-- int64 sums and products are taken not to overflow.
pub mod Shown
pub mod Held
mod Examples
use nineguard.Base.{
  ℕ, ℤ, pos, negsuc, zero, suc, ltz, ◌+◌, ◌-◌, ◌*◌, ◌/◌, List, [], ◌∷◌, Option, none, some, Bool,
  true, false, not, ◌&&◌, ◌||◌, ltb, leb, if◌then◌else◌,
}
use nineguard.Base.Text.{Text, codes, text_eq, to_lower, equal_fold, is_blank}
use nineguard.Quota.{
  Location, Period, daily, weekly, monthly, total, never, unset, unknown, ResetRule,
  calc_quota_window,
}

-- A row of `traffic_logs`; a NULL is `none`.
pub record LogRow : Type 0 where
  pub api_key_id : Option Text
  pub model_id : Option Text
  pub at : ℕ
  pub total_tokens : ℕ

pub record ModelQuota : Type 0 where
  pub model_id : Text
  pub quota_limit : ℤ
  pub quota_period : Period

-- The fields of `KeyInfo` that the checks read.
pub record QuotaKey : Type 0 where
  pub id : Text
  pub quota_mode : Text
  pub quota_limit : ℤ
  pub quota_period : Period
  pub reset_rule : ResetRule
  pub model_quotas : List ModelQuota

abbrev pub second_ns : ℕ
second_ns = 1000000000

-- `COALESCE(SUM(total_tokens), 0) … WHERE`.
unfoldable pub tokens_where : (LogRow → Bool) → List LogRow → ℕ
tokens_where p [] = 0
tokens_where p (r ∷ rs) = (if p r then r.total_tokens else 0) + tokens_where p rs

abbrev pub is_text : Text → Option Text → Bool
is_text s none = false
is_text s (some t) = text_eq s t

abbrev pub folds_to : Text → Option Text → Bool
folds_to s none = false
folds_to s (some t) = text_eq s (to_lower t)

-- `timestamp >= ?`: the column and the bound are texts with the second.
abbrev pub since : ℕ → LogRow → Bool
since start r = leb (start / second_ns) (r.at / second_ns)

unfoldable pub get_quota_usage :
    (Text → Option Location) → Bool → List LogRow → Text → Period → ResetRule → ℕ → Option (ℕ × ℕ)
unfolding tokens_where text_eq
get_quota_usage zones reads log key never rule now = some (0, 0)
get_quota_usage zones reads log key unset rule now = some (0, 0)
get_quota_usage zones reads log key period rule now =
    let (start, reset_at) = calc_quota_window zones period rule now in
    if reads
    then some (tokens_where (λ r. is_text key r.api_key_id && since start r) log, reset_at)
    else none

unfoldable pub get_model_quota_usage :
    (Text → Option Location)
    → Bool
    → List LogRow
    → Text
    → Text
    → Period
    → ResetRule
    → ℕ
    → Option (ℕ × ℕ)
unfolding tokens_where text_eq
get_model_quota_usage zones reads log key model period rule now =
    let (start, reset_at) = calc_quota_window zones period rule now in
    if reads
    then some (
      tokens_where (λ r. is_text key r.api_key_id && (is_text model r.model_id && since start r))
          log,
      reset_at,
    )
    else none

-- The map from a Model ID in lower case to the tokens of its rows.
unfoldable pub get_model_usage_since : Bool → List LogRow → Text → ℕ → Text → ℕ
unfolding tokens_where text_eq to_lower
get_model_usage_since reads log key start lower =
    if reads
    then tokens_where
        (λ r. is_text key r.api_key_id && (folds_to lower r.model_id && since start r)) log
    else 0

unfoldable pub quota_percent : ℕ → ℤ → ℕ
quota_percent usage (pos (suc n)) = usage * 100 / suc n
quota_percent usage _ = 0

-- `usage >= limit`.
abbrev pub reaches : ℕ → ℤ → Bool
reaches usage limit = not (ltz (pos usage) limit)

unfoldable pub quota_status : ℕ → ℤ → ℕ → Text
unfolding quota_percent
quota_status usage limit warn =
    if ltz (pos 0) limit && reaches usage limit
    then codes "exhausted"
    else if leb warn (quota_percent usage limit)
    then codes "near"
    else codes "ok"

-- What `AnnotateModelQuotas` fills in for one row; `inactive` is the reason why it cannot apply.
pub record Annotated : Type 0 where
  pub usage : ℕ
  pub percent : ℕ
  pub reset_at : Option ℕ
  pub status : Text

abbrev pub shown_reset : Period → ℕ → Option ℕ
shown_reset total reset_at = none
shown_reset _ reset_at = some reset_at

unfoldable pub annotate_quota :
    (Text → Option Location)
    → Bool
    → List LogRow
    → QuotaKey
    → (Text → Text)
    → ℕ
    → ℕ
    → ModelQuota
    → Annotated
unfolding get_model_usage_since quota_percent quota_status calc_quota_window to_lower
annotate_quota zones reads log key inactive warn now q =
    let (start, reset_at) = calc_quota_window zones q.quota_period key.reset_rule now in
    let usage = get_model_usage_since reads log key.id start (to_lower q.model_id) in
    record {
      usage = usage;
      percent = quota_percent usage q.quota_limit;
      reset_at = shown_reset q.quota_period reset_at;
      status =
          if is_blank (inactive q.model_id)
          then quota_status usage q.quota_limit warn
          else codes "inactive";
    }

unfoldable pub enforces_model_quotas : QuotaKey → Bool
unfolding text_eq
enforces_model_quotas key = text_eq key.quota_mode (codes "model")

unfoldable pub find_quota : List ModelQuota → Text → Option ModelQuota
unfolding equal_fold
find_quota [] model = none
find_quota (q ∷ qs) model = if equal_fold q.model_id model then some q else find_quota qs model

abbrev pub model_quota_for : QuotaKey → Text → Option ModelQuota
model_quota_for key model = find_quota key.model_quotas model

abbrev pub is_limited : Period → Bool
is_limited never = false
is_limited unset = false
is_limited _ = true

-- A usage that a check refuses, with the instant of the reset; a failed query refuses nothing.
abbrev pub refused_at : ℤ → Option (ℕ × ℕ) → Option (ℕ × ℕ)
refused_at limit none = none
refused_at limit (some (consumed, reset_at)) =
    if reaches consumed limit then some (consumed, reset_at) else none

-- The check of the Key Quota.
unfoldable pub key_quota_refuses :
    (Text → Option Location) → Bool → List LogRow → QuotaKey → ℕ → Option (ℕ × ℕ)
unfolding get_quota_usage enforces_model_quotas
key_quota_refuses zones reads log key now =
    if not (enforces_model_quotas key)
      && (ltz (pos 0) key.quota_limit && is_limited key.quota_period)
    then refused_at key.quota_limit
        (get_quota_usage zones reads log key.id key.quota_period key.reset_rule now)
    else none

abbrev pub found_quota_refuses :
    (Text → Option Location)
    → Bool
    → List LogRow
    → QuotaKey
    → Text
    → ℕ
    → Option ModelQuota
    → Option (ℕ × ℕ)
found_quota_refuses zones reads log key model now none = none
found_quota_refuses zones reads log key model now (some q) =
    refused_at q.quota_limit
      (get_model_quota_usage zones reads log key.id model q.quota_period key.reset_rule now)

-- The check of the Model Quota, on the resolved Model ID.
unfoldable pub model_quota_refuses :
    (Text → Option Location) → Bool → List LogRow → QuotaKey → Text → ℕ → Option (ℕ × ℕ)
unfolding get_model_quota_usage enforces_model_quotas
model_quota_refuses zones reads log key model now =
    if enforces_model_quotas key && not (is_blank model)
    then found_quota_refuses zones reads log key model now (model_quota_for key model)
    else none

-- The seconds of `Retry-After`; a lifetime quota has none.
unfoldable pub retry_after : Period → ℕ → ℕ → ℕ
retry_after total reset_at now = 0
retry_after _ reset_at now =
    let seconds = (reset_at - now) / second_ns in if ltb seconds 1 then 1 else seconds
