-- ===== src/Upstream/Merge/Sums.antt =====
-- Merging adds up what the accounts have: nothing is lost, and nothing counted twice.
use nineguard.Base.{
  ◌≡◌, refl, sym, ap, ap₂, ◌∙◌, inl, inr, ℕ, ◌+◌, List, [], ◌∷◌, ◌++◌, map, Bool, true, false, not,
  arith, if◌then◌else◌, filter, Bool-cases,
}
use nineguard.Base.Text.{Text, text_eq, text_eq→eq, trim_space, is_blank}
use nineguard.Upstream.Pool.{resolve_sub_provider}
use nineguard.Upstream.Merge.{
  PoolBucket, Account, MergedPool, BucketAgg, ConnGroup, grow, new_agg, put_agg, add_amount,
  add_amounts, add_accounts, put_account, group_accounts, merged_bucket, merged_pool, merge_http,
  is_distinct, is_sdk, sdk_part, merge_account_pools,
}

-- A sum over a list.
abbrev pub total_of {ℓ} : {A : Type ℓ} → (A → ℕ) → List A → ℕ
total_of f [] = 0
total_of f (x ∷ xs) = f x + total_of f xs

total_of-append {ℓ} :
    {A : Type ℓ} (f : A → ℕ) (xs ys : List A)
    → total_of f (xs ++ ys) ≡ total_of f xs + total_of f ys
total_of-append f [] ys = omega arith
total_of-append f (x ∷ xs) ys = rw (total_of-append f xs ys) (omega arith)

-- An amount of the buckets that merging adds up: what is used, or the total.
pub record IsSummed (of_bucket : PoolBucket → ℕ) (of_agg : BucketAgg → ℕ) : Type 0 where
  pub at_first : (b : PoolBucket) → of_agg (new_agg b) ≡ 0
  pub grown : (b : PoolBucket) (a : BucketAgg) → of_agg (grow b a) ≡ of_agg a + of_bucket b
  pub final :
      (percent : ℕ → ℕ → ℕ) (k : Text) (a : BucketAgg)
      → of_bucket (merged_bucket percent (k, a)) ≡ of_agg a

pub used-IsSummed : IsSummed (λ b. b.used) (λ a. a.used)
unfolding grow merged_bucket
used-IsSummed = record { at_first = λ b. refl; grown = λ b a. refl; final = λ percent k a. refl }

pub total-IsSummed : IsSummed (λ b. b.total) (λ a. a.total)
unfolding grow merged_bucket
total-IsSummed = record { at_first = λ b. refl; grown = λ b a. refl; final = λ percent k a. refl }

module _ (of_bucket : PoolBucket → ℕ) (of_agg : BucketAgg → ℕ) (summed : IsSummed of_bucket of_agg)
    (name : Text) (named : is_blank name ≡ false) where
  -- The amount under the name: of an account's bucket, of an aggregate, and of a merged bucket.
  abbrev pub of_amount : PoolBucket → ℕ
  of_amount b = if text_eq name (trim_space b.name) then of_bucket b else 0

  abbrev of_entry : Text × BucketAgg → ℕ
  of_entry (k, a) = if text_eq name k then of_agg a else 0

  abbrev pub of_merged : PoolBucket → ℕ
  of_merged b = if text_eq name b.name then of_bucket b else 0

  abbrev pub of_account : Account → ℕ
  of_account c = total_of of_amount c.amounts

  abbrev pub of_pool : MergedPool → ℕ
  of_pool p = total_of of_merged p.buckets

  abbrev when : Text → ℕ → ℕ
  when k n = if text_eq name k then n else 0

  when-sum : (k : Text) (m n : ℕ) → when k (m + n) ≡ when k m + when k n
  when-sum k m n = elim (Bool-cases (text_eq name k)) [ inl e ↦ rw e refl | inr e ↦ rw e refl ]

  first_sum : (b : PoolBucket) → of_agg (grow b (new_agg b)) ≡ of_bucket b
  first_sum b = summed.grown b (new_agg b) ∙ omega (arith, summed.at_first b)

  put_agg-total :
      (k : Text) (b : PoolBucket) (aggs : List (Text × BucketAgg))
      → total_of of_entry (put_agg k b aggs) ≡ total_of of_entry aggs + when k (of_bucket b)
  unfolding put_agg
  put_agg-total k b [] = ap (λ n. when k n + 0) (first_sum b) ∙ omega arith
  put_agg-total k b ((j, a) ∷ aggs) = elim (Bool-cases (text_eq k j)) [
    | inl e ↦ rw e (
        ap (λ n. n + total_of of_entry aggs)
          (ap (when j) (summed.grown b a) ∙ when-sum j (of_agg a) (of_bucket b))
        ∙ (ap (λ i. (when j (of_agg a) + when i (of_bucket b)) + total_of of_entry aggs)
              (sym (text_eq→eq k j e))
            ∙ omega arith))
    | inr e ↦ rw (e, put_agg-total k b aggs) (omega arith)
  ]

  add_amount-total :
      (b : PoolBucket) (aggs : List (Text × BucketAgg))
      → total_of of_entry (add_amount b aggs) ≡ total_of of_entry aggs + of_amount b
  add_amount-total b aggs = elim (Bool-cases (is_blank (trim_space b.name))) [
    | inr e ↦ rw e (put_agg-total (trim_space b.name) b aggs)
    | inl e ↦ rw (e, unnamed (trim_space b.name) e) (omega arith)
  ]
    where
      unnamed : (k : Text) → is_blank k ≡ true → text_eq name k ≡ false
      unnamed k e = elim (Bool-cases (text_eq name k)) [
        | inl q ↦ absurd (cc (sym named ∙ (ap is_blank (text_eq→eq name k q) ∙ e)))
        | inr q ↦ q
      ]

  add_amounts-total :
      (bs : List PoolBucket) (aggs : List (Text × BucketAgg))
      → total_of of_entry (add_amounts bs aggs) ≡ total_of of_entry aggs + total_of of_amount bs
  unfolding add_amounts
  add_amounts-total [] aggs = omega arith
  add_amounts-total (b ∷ bs) aggs =
      rw (add_amounts-total bs (add_amount b aggs), add_amount-total b aggs) (omega arith)

  add_accounts-total :
      (cs : List Account) (aggs : List (Text × BucketAgg))
      → total_of of_entry (add_accounts cs aggs) ≡ total_of of_entry aggs + total_of of_account cs
  unfolding add_accounts
  add_accounts-total [] aggs = omega arith
  add_accounts-total (c ∷ cs) aggs =
      rw (add_accounts-total cs (add_amounts c.amounts aggs), add_amounts-total c.amounts aggs)
        (omega arith)

  abbrev of_group : ConnGroup → ℕ
  of_group g = total_of of_account g.connections

  put_account-total :
      (key display : Text) (c : Account) (gs : List ConnGroup)
      → total_of of_group (put_account key display c gs) ≡ total_of of_group gs + of_account c
  unfolding put_account
  put_account-total key display c [] = omega arith
  put_account-total key display c (g ∷ gs) = elim (Bool-cases (text_eq key g.key)) [
    | inl e ↦ rw (e, total_of-append of_account g.connections (c ∷ [])) (omega arith)
    | inr e ↦ rw (e, put_account-total key display c gs) (omega arith)
  ]

  group_accounts-total :
      (cs : List Account) (gs : List ConnGroup)
      → total_of of_group (group_accounts cs gs) ≡ total_of of_group gs + total_of of_account cs
  unfolding group_accounts
  group_accounts-total [] gs = omega arith
  group_accounts-total (c ∷ cs) gs =
      let (key, display) = resolve_sub_provider c.connection in
      rw
        (group_accounts-total cs (put_account key display c gs), put_account-total key display c gs)
        (omega arith)

  module _ (percent : ℕ → ℕ → ℕ) where
    merged-total :
        (aggs : List (Text × BucketAgg))
        → total_of of_merged (map (merged_bucket percent) aggs) ≡ total_of of_entry aggs
    unfolding merged_bucket
    merged-total [] = refl
    merged-total ((k, a) ∷ aggs) =
        ap₂ (λ m n. when k m + n) (summed.final percent k a) (merged-total aggs)

    pool-total :
        (provider : Text) (distinct : Bool) (g : ConnGroup)
        → of_pool (merged_pool percent provider distinct g) ≡ of_group g
    unfolding merged_pool
    pool-total provider distinct g =
        merged-total (add_accounts g.connections [])
        ∙ (add_accounts-total g.connections [] ∙ omega arith)

    pools-total :
        (provider : Text) (distinct : Bool) (gs : List ConnGroup)
        → total_of of_pool (map (merged_pool percent provider distinct) gs) ≡ total_of of_group gs
    pools-total provider distinct [] = refl
    pools-total provider distinct (g ∷ gs) =
        ap₂ (λ m n. m + n) (pool-total provider distinct g) (pools-total provider distinct gs)

    -- The amount under a name that is not empty, of the merged pools, is that of the SDK's pools and, added up, of the buckets with
    -- the name of all other accounts. It holds of what is used and of the totals.
    pub merge_account_pools-total :
        (merge_sdk : Text → List Account → List MergedPool) (provider : Text)
        (accounts : List Account)
        → total_of of_pool (merge_account_pools percent merge_sdk provider accounts)
          ≡ total_of of_pool (sdk_part merge_sdk provider (filter is_sdk accounts))
            + total_of of_account (filter (λ c. not (is_sdk c)) accounts)
    unfolding merge_account_pools merge_http
    merge_account_pools-total merge_sdk provider accounts =
        total_of-append of_pool (sdk_part merge_sdk provider (filter is_sdk accounts)) _
        ∙ ap (λ n. total_of of_pool (sdk_part merge_sdk provider (filter is_sdk accounts)) + n)
            (pools-total provider (is_distinct groups) groups
              ∙ (group_accounts-total others [] ∙ omega arith))
      where
        others : List Account
        others = filter (λ c. not (is_sdk c)) accounts

        groups : List ConnGroup
        groups = group_accounts others []
