-- ===== src/Upstream/Pool/Visible.antt =====
-- What more allowed models do to the view of the upstream pools.
use nineguard.Base.{
  ◌≡◌, refl, sym, subst, ◌∙◌, inl, inr, List, [], ◌∷◌, ◌++◌, Bool, true, false, ◌&&◌, ◌||◌, arith,
  if◌then◌else◌, any, filter, Bool-cases,
}
use nineguard.Base.Text.{Text, codes, text_eq, to_lower, contains, equal_fold, has_prefix}
use nineguard.Upstream.Alert.{QuotaBucket}
use nineguard.Upstream.Pool.{
  MergedPoolQuota, specific_variants, families, has_word, variants_held, family_held,
  is_bucket_allowed, none_left, pool_matches, kept_buckets, filter_pool, filter_pools,
  filter_pools_by_model_access,
}

any-more : {A : Type 0} (p : A → Bool) (xs ys : List A) → any p xs ≡ true → any p (xs ++ ys) ≡ true
any-more p [] ys h = cc
any-more p (x ∷ xs) ys h = ground (arith, any-more p xs ys)

has_word-more :
    (ms more : List Text) (w : Text) → has_word ms w ≡ true → has_word (ms ++ more) w ≡ true
unfolding has_word
has_word-more ms more w h = any-more (λ am. contains (to_lower am) w) ms more h

variants_held-more :
    (name : Text) (ms more vs : List Text)
    → variants_held name ms vs ≡ true
    → variants_held name (ms ++ more) vs ≡ true
unfolding variants_held
variants_held-more name ms more [] h = refl
variants_held-more name ms more (v ∷ vs) h =
    ground (arith, has_word-more ms more v, variants_held-more name ms more vs)

family_held-more :
    (name : Text) (ms more : List Text) (found : Bool) (fs : List Text)
    → family_held name ms found fs ≡ true
    → family_held name (ms ++ more) found fs ≡ true
unfolding family_held
family_held-more name ms more found [] h = h
family_held-more name ms more found (f ∷ fs) h = ground (
  arith,
  has_word-more ms more f,
  family_held-more name ms more found fs,
  family_held-more name ms more true fs,
)

is_bucket_allowed-more :
    (name : Text) (ms more : List Text)
    → is_bucket_allowed name ms ≡ true
    → is_bucket_allowed name (ms ++ more) ≡ true
unfolding is_bucket_allowed
is_bucket_allowed-more name ms more h = ground (
  arith,
  variants_held-more (to_lower name) ms more specific_variants,
  family_held-more (to_lower name) ms more false families,
)

pool_matches-more :
    (pms ms more : List Text) → pool_matches pms ms ≡ true → pool_matches pms (ms ++ more) ≡ true
unfolding pool_matches
pool_matches-more pms ms more h = elim (Bool-cases (none_left pms)) [
  | inl e ↦ rw e refl
  | inr e ↦ rw e (
      each pms (
        subst
          (λ b.
            (b
              || any
                  (λ pm. any (λ am. equal_fold pm am || has_prefix (to_lower am) (to_lower pm)) ms)
                  pms)
            ≡ true)
          e h))
]
  where
    each :
        (pms : List Text)
        → any (λ pm. any (λ am. equal_fold pm am || has_prefix (to_lower am) (to_lower pm)) ms) pms
          ≡ true
        → any
            (λ pm.
              any (λ am. equal_fold pm am || has_prefix (to_lower am) (to_lower pm)) (ms ++ more))
            pms
          ≡ true
    each [] h = h
    each (pm ∷ pms) h = ground (
      arith,
      any-more (λ am. equal_fold pm am || has_prefix (to_lower am) (to_lower pm)) ms more,
      each pms,
    )

-- Some pool shows a bucket that passes the test.
abbrev pub shows : (QuotaBucket → Bool) → List MergedPoolQuota → Bool
shows q pools = any (λ pool. any q pool.buckets) pools

filter-grows :
    (q p r : QuotaBucket → Bool)
    → ((b : QuotaBucket) → p b ≡ true → r b ≡ true)
    → (bs : List QuotaBucket) → any q (filter p bs) ≡ true
    → any q (filter r bs) ≡ true
filter-grows q p r h [] k = k
filter-grows q p r h (b ∷ bs) k = ground (arith, h b, filter-grows q p r h bs)

shows-kept :
    (q : QuotaBucket → Bool) (pool : MergedPoolQuota) (bs : List QuotaBucket)
    (rest : List MergedPoolQuota)
    → shows q (kept_buckets pool bs rest) ≡ (any q bs || shows q rest)
shows-kept q pool [] rest = refl
shows-kept q pool (b ∷ bs) rest = refl

filter_pool-shows :
    (q : QuotaBucket → Bool) (ms : List Text) (pool : MergedPoolQuota) (rest : List MergedPoolQuota)
    → shows q (filter_pool ms pool rest) ≡ (
        pool_matches pool.allowed_models ms
          && any q (filter (λ b. is_bucket_allowed b.name ms) pool.buckets)
        || shows q rest)
unfolding filter_pool
filter_pool-shows q ms pool rest = elim (Bool-cases (pool_matches pool.allowed_models ms)) [
  | inr e ↦ rw e refl
  | inl e ↦ rw e (of_buckets pool.buckets refl)
]
  where
    of_buckets :
        (bs : List QuotaBucket)
        → pool.buckets ≡ bs
        → shows q (
            if none_left pool.buckets
            then pool ∷ rest
            else kept_buckets pool (filter (λ b. is_bucket_allowed b.name ms) pool.buckets) rest)
          ≡ (any q (filter (λ b. is_bucket_allowed b.name ms) pool.buckets) || shows q rest)
    of_buckets [] e = rw e refl
    of_buckets (b ∷ bs) e =
        rw e (shows-kept q pool (filter (λ b. is_bucket_allowed b.name ms) (b ∷ bs)) rest)

and_or_mono :
    (a a' b b' c c' : Bool)
    → (a ≡ true → a' ≡ true)
    → (b ≡ true → b' ≡ true)
    → (c ≡ true → c' ≡ true)
    → (a && b || c) ≡ true
    → (a' && b' || c') ≡ true
and_or_mono a a' b b' c c' ha hb hc h = ground arith

filter_pools-more :
    (q : QuotaBucket → Bool) (ms more : List Text) (pools : List MergedPoolQuota)
    → shows q (filter_pools ms pools) ≡ true
    → shows q (filter_pools (ms ++ more) pools) ≡ true
unfolding filter_pools
filter_pools-more q ms more [] h = h
filter_pools-more q ms more (pool ∷ pools) h =
    filter_pool-shows q (ms ++ more) pool (filter_pools (ms ++ more) pools)
    ∙ and_or_mono (pool_matches pool.allowed_models ms)
        (pool_matches pool.allowed_models (ms ++ more))
        (any q (filter (λ b. is_bucket_allowed b.name ms) pool.buckets))
        (any q (filter (λ b. is_bucket_allowed b.name (ms ++ more)) pool.buckets))
        (shows q (filter_pools ms pools)) (shows q (filter_pools (ms ++ more) pools))
        (pool_matches-more pool.allowed_models ms more)
        (filter-grows q (λ b. is_bucket_allowed b.name ms)
          (λ b. is_bucket_allowed b.name (ms ++ more)) (λ b. is_bucket_allowed-more b.name ms more)
          pool.buckets)
        (filter_pools-more q ms more pools)
        (sym (filter_pool-shows q ms pool (filter_pools ms pools)) ∙ h)

filter-any :
    (q p : QuotaBucket → Bool) (bs : List QuotaBucket)
    → any q (filter p bs) ≡ true
    → any q bs ≡ true
filter-any q p [] h = h
filter-any q p (b ∷ bs) h = ground (arith, filter-any q p bs)

and_or_drop :
    (a b b' c c' : Bool)
    → (b ≡ true → b' ≡ true)
    → (c ≡ true → c' ≡ true)
    → (a && b || c) ≡ true
    → (b' || c') ≡ true
and_or_drop a b b' c c' hb hc h = ground arith

filter_pools-subset :
    (q : QuotaBucket → Bool) (ms : List Text) (pools : List MergedPoolQuota)
    → shows q (filter_pools ms pools) ≡ true
    → shows q pools ≡ true
unfolding filter_pools
filter_pools-subset q ms [] h = h
filter_pools-subset q ms (pool ∷ pools) h =
    and_or_drop (pool_matches pool.allowed_models ms)
      (any q (filter (λ b. is_bucket_allowed b.name ms) pool.buckets)) (any q pool.buckets)
      (shows q (filter_pools ms pools)) (shows q pools)
      (filter-any q (λ b. is_bucket_allowed b.name ms) pool.buckets)
      (filter_pools-subset q ms pools)
      (sym (filter_pool-shows q ms pool (filter_pools ms pools)) ∙ h)

abbrev star : Text → Bool
star m = text_eq m (codes "*")

-- A key that is allowed some models, and then more, loses no bucket from its view.
pub more_models_show_more :
    (q : QuotaBucket → Bool) (pools : List MergedPoolQuota) (ms more : List Text)
    → none_left ms ≡ false
    → shows q (filter_pools_by_model_access pools ms) ≡ true
    → shows q (filter_pools_by_model_access pools (ms ++ more)) ≡ true
unfolding filter_pools_by_model_access
more_models_show_more q pools [] more n h = cc
more_models_show_more q pools (m ∷ ms) more n h =
    choose (any star (m ∷ ms)) (any star ((m ∷ ms) ++ more)) (any-more star (m ∷ ms) more) h
  where
    choose :
        (b b' : Bool)
        → (b ≡ true → b' ≡ true)
        → shows q (if b then pools else filter_pools (m ∷ ms) pools) ≡ true
        → shows q (if b' then pools else filter_pools ((m ∷ ms) ++ more) pools) ≡ true
    choose true true grows k = k
    choose true false grows k = cc (grows refl)
    choose false true grows k = filter_pools-subset q (m ∷ ms) pools k
    choose false false grows k = filter_pools-more q (m ∷ ms) more pools k
