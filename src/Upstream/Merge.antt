-- ===== src/Upstream/Merge.antt =====
-- internal/upstream/pool.go: `MergeAccountPools`, which adds up the quotas of the accounts of a provider.
-- Amounts are taken not to be negative. The rounded percentage, which is floating-point, and
-- `mergeSDKPools` are arguments.
pub mod Sums
mod Examples
use nineguard.Base.{
  ℕ, ◌+◌, ◌-◌, List, [], ◌∷◌, ◌++◌, map, Option, none, some, Bool, true, false, not, ◌&&◌, ◌||◌,
  ◌==◌, ltb, leb, if◌then◌else◌, filter, any,
}
use nineguard.Base.Text.{Text, codes, text_eq, trim_space, equal_fold, is_blank}
use nineguard.Upstream.Alert.{ConnectionQuota}
use nineguard.Upstream.Pool.{resolve_sub_provider}

-- The amounts of a `QuotaBucket`.
pub record PoolBucket : Type 0 where
  pub name : Text
  pub used : ℕ
  pub total : ℕ
  pub remaining : ℕ
  pub remaining_percentage : ℕ
  pub reset_at : Option ℕ
  pub is_credit_balance : Bool
  pub warning : Bool

-- An account: a `ConnectionQuota` with the amounts of its buckets.
pub record Account : Type 0 where
  pub connection : ConnectionQuota
  pub source : Text
  pub amounts : List PoolBucket

pub record MergedPool : Type 0 where
  pub provider : Text
  pub sub_provider : Text
  pub family : Text
  pub status : Text
  pub warning : Bool
  pub buckets : List PoolBucket

pub record BucketAgg : Type 0 where
  pub used : ℕ
  pub total : ℕ
  pub remaining : ℕ
  pub is_credit : Bool
  pub has_total : Bool
  pub earliest_reset : Option ℕ

-- `connGroup`.
pub record ConnGroup : Type 0 where
  pub key : Text
  pub display : Text
  pub connections : List Account

abbrev pub earlier_reset : Option ℕ → Option ℕ → Option ℕ
earlier_reset none old = old
earlier_reset (some t) none = some t
earlier_reset (some t) (some old) = if ltb t old then some t else some old

unfoldable pub grow : PoolBucket → BucketAgg → BucketAgg
grow b a = record {
  used = a.used + b.used;
  total = a.total + b.total;
  remaining = a.remaining + b.remaining;
  is_credit = a.is_credit;
  has_total = if ltb 0 b.total then true else a.has_total;
  earliest_reset = earlier_reset b.reset_at a.earliest_reset;
}

abbrev pub new_agg : PoolBucket → BucketAgg
new_agg b = record {
  used = 0;
  total = 0;
  remaining = 0;
  is_credit = b.is_credit_balance;
  has_total = false;
  earliest_reset = none;
}

-- `bucketMap` and `orderedKeys`: the names in the order of their first bucket.
unfoldable pub put_agg : Text → PoolBucket → List (Text × BucketAgg) → List (Text × BucketAgg)
put_agg name b [] = (name, grow b (new_agg b)) ∷ []
put_agg name b ((k, a) ∷ aggs) =
    let rest = put_agg name b aggs in if text_eq name k then (k, grow b a) ∷ aggs else (k, a) ∷ rest

abbrev pub add_amount : PoolBucket → List (Text × BucketAgg) → List (Text × BucketAgg)
add_amount b aggs =
    let name = trim_space b.name in if is_blank name then aggs else put_agg name b aggs

unfoldable pub add_amounts : List PoolBucket → List (Text × BucketAgg) → List (Text × BucketAgg)
add_amounts [] aggs = aggs
add_amounts (b ∷ bs) aggs = add_amounts bs (add_amount b aggs)

unfoldable pub add_accounts : List Account → List (Text × BucketAgg) → List (Text × BucketAgg)
add_accounts [] aggs = aggs
add_accounts (c ∷ cs) aggs = add_accounts cs (add_amounts c.amounts aggs)

unfoldable pub put_account : Text → Text → Account → List ConnGroup → List ConnGroup
put_account key display c [] = record { key = key; display = display; connections = c ∷ [] } ∷ []
put_account key display c (g ∷ gs) =
    let rest = put_account key display c gs in
    if text_eq key g.key
    then record g { connections = g.connections ++ (c ∷ []) } ∷ gs
    else g ∷ rest

unfoldable pub group_accounts : List Account → List ConnGroup → List ConnGroup
group_accounts [] gs = gs
group_accounts (c ∷ cs) gs =
    let (key, display) = resolve_sub_provider c.connection in
    group_accounts cs (put_account key display c gs)

abbrev pub has_status : Text → List Account → Bool
has_status s cs = any (λ c. text_eq c.connection.status s) cs

unfoldable pub status_of : List Account → Text
unfolding text_eq
status_of cs =
    if has_status (codes "error") cs
    then codes "error"
    else if has_status (codes "degraded") cs
    then codes "degraded"
    else codes "ok"

abbrev pub capped : ℕ → ℕ
capped n = if ltb 100 n then 100 else n

abbrev pub is_distinct : List ConnGroup → Bool
is_distinct [] = false
is_distinct (g ∷ []) = not (is_blank g.key)
is_distinct (g ∷ h ∷ gs) = true

abbrev pub is_sdk : Account → Bool
is_sdk c = text_eq c.source (codes "sdk")

abbrev pub sdk_part :
    (Text → List Account → List MergedPool) → Text → List Account → List MergedPool
sdk_part merge_sdk provider [] = []
sdk_part merge_sdk provider (c ∷ cs) = merge_sdk provider (c ∷ cs)

module _ (percent : ℕ → ℕ → ℕ) where
  -- A final bucket; with a total, what remains is computed from it.
  unfoldable pub merged_bucket : Text × BucketAgg → PoolBucket
  merged_bucket (name, a) =
      let counted = a.has_total && ltb 0 a.total in
      let remaining = if counted then a.total - a.used else a.remaining in
      let pct =
        if counted then capped (percent remaining a.total) else if a.is_credit then 100 else 0 in
      record {
        name = name;
        used = a.used;
        total = a.total;
        remaining = remaining;
        remaining_percentage = pct;
        reset_at = a.earliest_reset;
        is_credit_balance = a.is_credit;
        warning = ltb pct 25 && a.has_total || a.is_credit && remaining == 0;
      }

  -- The pool of a group; `" · "` is three characters, the middle one of two bytes.
  unfoldable pub merged_pool : Text → Bool → ConnGroup → MergedPool
  unfolding equal_fold merged_bucket add_accounts status_of
  merged_pool provider distinct g =
      let named = distinct && (not (is_blank g.display) && not (equal_fold g.display provider)) in
      let buckets = map merged_bucket (add_accounts g.connections []) in
      record {
        provider = provider;
        sub_provider = if named then g.key else [];
        family = if named then provider ++ (32 ∷ 194 ∷ 183 ∷ 32 ∷ g.display) else provider;
        status = status_of g.connections;
        warning = any (λ (b : PoolBucket). b.warning) buckets;
        buckets = buckets;
      }

  unfoldable pub merge_http : Text → List Account → List MergedPool
  unfolding group_accounts merged_pool
  merge_http provider accounts =
      let groups = group_accounts accounts [] in
      map (merged_pool provider (is_distinct groups)) groups

  -- Accounts of the SDK are merged on their own, in front of the others.
  unfoldable pub merge_account_pools :
      (Text → List Account → List MergedPool) → Text → List Account → List MergedPool
  unfolding merge_http text_eq
  merge_account_pools merge_sdk provider accounts =
      sdk_part merge_sdk provider (filter is_sdk accounts)
      ++ merge_http provider (filter (λ c. not (is_sdk c)) accounts)
