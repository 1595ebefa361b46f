-- ===== src/Upstream/Pool/Variants.antt =====
-- A key sees a variant only with a model of that variant.
use nineguard.Base.{
  ◌≡◌, refl, inl, inr, List, [], ◌∷◌, Bool, true, false, not, ◌||◌, arith, if◌then◌else◌, any, all,
  filter, Bool-cases,
}
use nineguard.Base.Text.{Text, codes, text_eq, to_lower, contains}
use nineguard.Upstream.Alert.{QuotaBucket}
use nineguard.Upstream.Pool.{
  MergedPoolQuota, specific_variants, families, has_word, variants_held, family_held,
  is_bucket_allowed, none_left, pool_matches, kept_buckets, filter_pool, filter_pools,
  filter_pools_by_model_access,
}

variants_held-all :
    (name : Text) (ms vs : List Text)
    → variants_held name ms vs ≡ all (λ v. not (contains name v) || has_word ms v) vs
unfolding variants_held
variants_held-all name ms [] = refl
variants_held-all name ms (v ∷ vs) = ground (arith, variants_held-all name ms vs)

-- A bucket is a credit or a balance, or each variant that it names is in the name of an allowed model.
abbrev pub variants_known : List Text → QuotaBucket → Bool
variants_known ms b =
    contains (to_lower b.name) (codes "credit")
    || contains (to_lower b.name) (codes "balance")
    || all (λ v. not (contains (to_lower b.name) v) || has_word ms v) specific_variants

guarded :
    (c1 c2 v f known : Bool)
    → v ≡ known
    → (if c1 || c2 then true else if not v then false else f) ≡ true
    → (c1 || c2 || known) ≡ true
guarded c1 c2 v f known e h = ground arith

allowed-variants_known :
    (ms : List Text) (b : QuotaBucket)
    → is_bucket_allowed b.name ms ≡ true
    → variants_known ms b ≡ true
unfolding is_bucket_allowed
allowed-variants_known ms b h =
    let lower = to_lower b.name in
    guarded (contains lower (codes "credit")) (contains lower (codes "balance"))
      (variants_held lower ms specific_variants) (family_held lower ms false families)
      (all (λ v. not (contains lower v) || has_word ms v) specific_variants)
      (variants_held-all lower ms specific_variants) h

filter-known :
    (ms : List Text) (bs : List QuotaBucket)
    → all (variants_known ms) (filter (λ b. is_bucket_allowed b.name ms) bs) ≡ true
filter-known ms [] = refl
filter-known ms (b ∷ bs) = elim (Bool-cases (is_bucket_allowed b.name ms)) [
  | inl e ↦ rw (e, allowed-variants_known ms b e) (filter-known ms bs)
  | inr e ↦ rw e (filter-known ms bs)
]

all_known-kept :
    (ms : List Text) (pool : MergedPoolQuota) (bs : List QuotaBucket) (rest : List MergedPoolQuota)
    → all (variants_known ms) bs ≡ true
    → all (λ p. all (variants_known ms) p.buckets) rest ≡ true
    → all (λ p. all (variants_known ms) p.buckets) (kept_buckets pool bs rest) ≡ true
all_known-kept ms pool [] rest h k = k
all_known-kept ms pool (b ∷ bs) rest h k = rw (h, k) refl

filter_pool-known :
    (ms : List Text) (pool : MergedPoolQuota) (rest : List MergedPoolQuota)
    → all (λ p. all (variants_known ms) p.buckets) rest ≡ true
    → all (λ p. all (variants_known ms) p.buckets) (filter_pool ms pool rest) ≡ true
unfolding filter_pool
filter_pool-known ms pool rest k = elim (Bool-cases (pool_matches pool.allowed_models ms)) [
  | inr e ↦ rw e k
  | inl e ↦ rw e (of_buckets pool.buckets refl)
]
  where
    of_buckets :
        (bs : List QuotaBucket)
        → pool.buckets ≡ bs
        → all
            (λ p. all (variants_known ms) p.buckets)
            (if none_left pool.buckets
              then pool ∷ rest
              else kept_buckets pool (filter (λ b. is_bucket_allowed b.name ms) pool.buckets) rest)
          ≡ true
    of_buckets [] e = rw e k
    of_buckets (b ∷ bs) e = rw e (
        all_known-kept ms pool (filter (λ b. is_bucket_allowed b.name ms) (b ∷ bs)) rest
          (filter-known ms (b ∷ bs)) k)

filter_pools-known :
    (ms : List Text) (pools : List MergedPoolQuota)
    → all (λ p. all (variants_known ms) p.buckets) (filter_pools ms pools) ≡ true
unfolding filter_pools
filter_pools-known ms [] = refl
filter_pools-known ms (pool ∷ pools) =
    filter_pool-known ms pool (filter_pools ms pools) (filter_pools-known ms pools)

-- To a key that is allowed some models, and no wildcard, a bucket is shown only if it is a credit
-- or a balance, or an allowed model has the name of each variant that the bucket names.
pub shown_variants_held :
    (pools : List MergedPoolQuota) (ms : List Text)
    → none_left ms ≡ false
    → any (λ m. text_eq m (codes "*")) ms ≡ false
    → all (λ p. all (variants_known ms) p.buckets) (filter_pools_by_model_access pools ms) ≡ true
unfolding filter_pools_by_model_access
shown_variants_held pools ms some_model no_star =
    rw (some_model, no_star) (filter_pools-known ms pools)
