-- ===== src/Limits/Shown.antt =====
-- The status that is shown of a Model Quota, and the check that the proxy makes.
use nineguard.Base.{
  ◌≡◌, ◌↔◌, refl, sym, ap, subst, ◌∙◌, inl, inr, ℕ, ℤ, pos, ltz, List, [], ◌∷◌, Option, none, some,
  Bool, true, false, ◌&&◌, All, leb, Bool-cases,
}
use nineguard.Base.Text.{Text, codes, text_eq, text_eq→eq, to_lower, equal_fold, is_blank}
use nineguard.Quota.{Location, calc_quota_window}
use nineguard.Limits.{
  LogRow, ModelQuota, QuotaKey, tokens_where, is_text, folds_to, since, get_model_quota_usage,
  get_model_usage_since, quota_percent, reaches, quota_status, annotate_quota,
  enforces_model_quotas, find_quota, model_quota_for, refused_at, model_quota_refuses,
}

-- A row whose Model ID is the resolved one up to case has the resolved one.
abbrev pub IsCanonical : Text → LogRow → Type 0
IsCanonical model r = folds_to (to_lower model) r.model_id ≡ is_text model r.model_id

abbrev pub is_refused : Option (ℕ × ℕ) → Bool
is_refused none = false
is_refused (some w) = true

find_quota-equal_fold :
    (qs : List ModelQuota) (model : Text) (q : ModelQuota)
    → find_quota qs model ≡ some q
    → to_lower q.model_id ≡ to_lower model
unfolding find_quota equal_fold
find_quota-equal_fold [] model q h = absurd cc
find_quota-equal_fold (x ∷ xs) model q h =
    elim (Bool-cases (text_eq (to_lower x.model_id) (to_lower model))) [
      | inl e ↦
          let h' : some x ≡ some q = rw e at h in
          let p : x ≡ q = cc in
          subst (λ (y : ModelQuota). to_lower y.model_id ≡ to_lower model) p
            (text_eq→eq (to_lower x.model_id) (to_lower model) e)
      | inr e ↦ find_quota-equal_fold xs model q (rw e at h)
    ]

tokens_where-agree :
    (p q : LogRow → Bool) (log : List LogRow)
    → All (λ r. p r ≡ q r) log
    → tokens_where p log ≡ tokens_where q log
unfolding tokens_where
tokens_where-agree p q [] a = refl
tokens_where-agree p q (r ∷ rs) (e, a) = rw (e, tokens_where-agree p q rs a) refl

canonical-agree :
    (key model : Text) (start : ℕ) (log : List LogRow)
    → All (IsCanonical model) log
    → All
        (λ r.
          (is_text key r.api_key_id && (folds_to (to_lower model) r.model_id && since start r))
          ≡ (is_text key r.api_key_id && (is_text model r.model_id && since start r)))
        log
canonical-agree key model start [] a = tt
canonical-agree key model start (r ∷ rs) (e, a) = (
  ap (λ b. is_text key r.api_key_id && (b && since start r)) e,
  canonical-agree key model start rs a,
)

quota_status-exhausted :
    (usage warn : ℕ) (limit : ℤ)
    → ltz (pos 0) limit ≡ true
    → (quota_status usage limit warn ≡ codes "exhausted") ↔ (reaches usage limit ≡ true)
unfolding quota_status
quota_status-exhausted usage warn limit h = elim (Bool-cases (reaches usage limit)) [
  | inl e ↦ (λ s. e, λ s. rw (h, e) refl)
  | inr e ↦ (λ s. absurd (differs e s), λ s. absurd (cc (sym e ∙ s)))
]
  where
    differs : reaches usage limit ≡ false → quota_status usage limit warn ≡ codes "exhausted" → ⊥
    differs e s = elim (Bool-cases (leb warn (quota_percent usage limit))) [
      | inl w ↦ let s' : codes "near" ≡ codes "exhausted" = rw (h, e, w) at s in absurd cc
      | inr w ↦ let s' : codes "ok" ≡ codes "exhausted" = rw (h, e, w) at s in absurd cc
    ]

refused_at-reaches :
    (limit : ℤ) (usage reset_at : ℕ)
    → is_refused (refused_at limit (some (usage, reset_at))) ≡ reaches usage limit
refused_at-reaches limit usage reset_at = elim (Bool-cases (reaches usage limit)) [
  | inl e ↦ rw e refl
  | inr e ↦ rw e refl
]

-- For a key in model mode, a resolved Model ID that has a Model Quota with a positive limit which is not inactive, and a log in which
-- the rows of the model all have the resolved ID: when the queries succeed, the quota is shown as exhausted exactly when the
-- proxy refuses a request for the model.
pub model_quota_refuses-shown :
    (zones : Text → Option Location) (log : List LogRow) (key : QuotaKey) (model : Text)
    (q : ModelQuota) (inactive : Text → Text) (warn now : ℕ)
    → enforces_model_quotas key ≡ true
    → is_blank model ≡ false
    → model_quota_for key model ≡ some q
    → ltz (pos 0) q.quota_limit ≡ true
    → is_blank (inactive q.model_id) ≡ true
    → All (IsCanonical model) log
    → ((annotate_quota zones true log key inactive warn now q).status ≡ codes "exhausted")
      ↔ (is_refused (model_quota_refuses zones true log key model now) ≡ true)
unfolding annotate_quota get_model_usage_since model_quota_refuses get_model_quota_usage
model_quota_refuses-shown zones log key model q inactive warn now enforced named found positive
      active canonical =
    rw (enforced, named, found, active) both
  where
    window : ℕ × ℕ
    window = calc_quota_window zones q.quota_period key.reset_rule now

    shown : ℕ
    shown = get_model_usage_since true log key.id window.0 (to_lower q.model_id)

    counted : ℕ
    counted =
        tokens_where
          (λ r. is_text key.id r.api_key_id && (is_text model r.model_id && since window.0 r)) log

    same : shown ≡ counted
    same =
        ap (λ m. get_model_usage_since true log key.id window.0 m)
          (find_quota-equal_fold key.model_quotas model q found)
        ∙ tokens_where-agree _ _ log (canonical-agree key.id model window.0 log canonical)

    status :
        (quota_status shown q.quota_limit warn ≡ codes "exhausted")
        ↔ (reaches shown q.quota_limit ≡ true)
    status = quota_status-exhausted shown warn q.quota_limit positive

    check :
        is_refused (refused_at q.quota_limit (some (counted, window.1)))
        ≡ reaches shown q.quota_limit
    check =
        refused_at-reaches q.quota_limit counted window.1
        ∙ ap (λ n. reaches n q.quota_limit) (sym same)

    both :
        (quota_status shown q.quota_limit warn ≡ codes "exhausted")
        ↔ (is_refused (refused_at q.quota_limit (some (counted, window.1))) ≡ true)
    both = (λ s. check ∙ status.0 s, λ r. status.1 (sym check ∙ r))
