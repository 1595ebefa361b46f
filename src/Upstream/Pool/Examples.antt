-- ===== src/Upstream/Pool/Examples.antt =====
-- The view of two pools.
use nineguard.Base.{◌≡◌, refl, List, [], ◌∷◌, none, Bool, true, false, all, pos}
use nineguard.Base.Text.{Text, codes, text_eq}
use nineguard.Upstream.Alert.{QuotaBucket}
use nineguard.Upstream.Pool.{
  MergedPoolQuota, format_sub_provider_name, filter_pools_by_model_access,
}
use nineguard.Upstream.Pool.Variants.{variants_known, shown_variants_held}

abbrev bucket : Text → QuotaBucket
bucket name = record {
  name = name;
  unit = [];
  scope = [];
  window_minutes = pos 0;
  is_credit_balance = false;
  warning = false;
  has_remaining_percent = false;
  incomplete = false;
  observation_state = [];
  observed_at = none;
  reset_at = none;
}

abbrev pools : List MergedPoolQuota
pools =
    record {
      family = codes "9router";
      buckets = bucket (codes "Claude Opus") ∷ bucket (codes "Claude Sonnet") ∷ [];
      allowed_models = [];
    }
    ∷ []

abbrev sonnet : QuotaBucket → Bool
sonnet b = text_eq b.name (codes "Claude Sonnet")

copilot : format_sub_provider_name (codes " github-copilot") ≡ codes "Copilot"
unfolding format_sub_provider_name
copilot = refl

own_name : format_sub_provider_name (codes "zAI") ≡ codes "ZAI"
unfolding format_sub_provider_name
own_name = refl

shown_variants_held_example :
    all
      (λ p. all (variants_known (codes "claude-sonnet-4" ∷ [])) p.buckets)
      (filter_pools_by_model_access pools (codes "claude-sonnet-4" ∷ []))
    ≡ true
unfolding text_eq
shown_variants_held_example = shown_variants_held pools (codes "claude-sonnet-4" ∷ []) refl refl
