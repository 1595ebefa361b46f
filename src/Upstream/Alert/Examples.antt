-- ===== src/Upstream/Alert/Examples.antt =====
-- The alerts of a connection that fails and recovers, with a bucket that runs low.
use nineguard.Base.{ℕ, ◌≡◌, refl, List, [], ◌∷◌, Option, none, some, true, false, pos}
use nineguard.Base.Text.{Text, codes}
use nineguard.Upstream.Alert.{
  QuotaBucket, ProviderQuotaResult, conn_failed, conn_recovered, quota_low, new_quota_alerter, flag,
  observe,
}
use nineguard.Upstream.Alert.Alternation.{
  about_bucket, follow, observe_each, bucket_alerts_alternate,
}

abbrev credits : QuotaBucket
credits = record {
  name = codes "Credits";
  unit = [];
  scope = [];
  window_minutes = pos 0;
  is_credit_balance = true;
  warning = true;
  has_remaining_percent = false;
  incomplete = false;
  observation_state = [];
  observed_at = none;
  reset_at = none;
}

abbrev with_status : Text → ProviderQuotaResult
with_status status = record {
  provider_id = codes "p";
  quota_type = codes "9router";
  status = codes "ok";
  connections =
      record {
        connection_id = codes "c";
        provider = [];
        account_label = [];
        plan = [];
        status = status;
        buckets = credits ∷ [];
      }
      ∷ [];
}

abbrev story : List (Option ProviderQuotaResult × ℕ)
story =
    (some (with_status (codes "error")), 1)
    ∷ (some (with_status (codes "error")), 2)
    ∷ (some (with_status (codes "ok")), 3)
    ∷ (none, 4)
    ∷ []

-- The second error is silent.
story_alerts : (observe_each story new_quota_alerter).1 ≡ (
    conn_failed (codes "p|c")
    ∷ quota_low (codes "p|c|Credits") true
    ∷ conn_recovered (codes "p|c")
    ∷ [])
unfolding observe_each observe
story_alerts = refl

bucket_alerts_alternate_example :
    let (a, alerts) = observe_each story new_quota_alerter in
    follow (about_bucket (codes "p|c|Credits")) alerts false
    ≡ some (flag (a.bucket_warned (codes "p|c|Credits")))
bucket_alerts_alternate_example = bucket_alerts_alternate story (codes "p|c|Credits")
