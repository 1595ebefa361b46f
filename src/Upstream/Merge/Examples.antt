-- ===== src/Upstream/Merge/Examples.antt =====
-- The theorem of the merged amounts at two accounts that share a bucket.
use nineguard.Base.{ℕ, ◌+◌, ◌/◌, ◌*◌, ◌≡◌, refl, List, [], ◌∷◌, not, none, false, filter}
use nineguard.Base.Text.{Text, codes}
use nineguard.Upstream.Merge.{
  PoolBucket, Account, MergedPool, is_sdk, sdk_part, merge_account_pools,
}
use nineguard.Upstream.Merge.Sums.{
  total_of, of_pool, of_account, used-IsSummed, merge_account_pools-total,
}

abbrev weekly_bucket : ℕ → PoolBucket
weekly_bucket n = record {
  name = codes " Weekly";
  used = n;
  total = 100;
  remaining = 0;
  remaining_percentage = 0;
  reset_at = none;
  is_credit_balance = false;
  warning = false;
}

abbrev account_of : ℕ → Account
account_of n = record {
  connection = record {
    connection_id = codes "c";
    provider = codes "claude";
    account_label = codes "a@b.c";
    plan = [];
    status = codes "ok";
    buckets = [];
  };
  source = [];
  amounts = weekly_bucket n ∷ [];
}

abbrev share : ℕ → ℕ → ℕ
share remaining total = remaining * 100 / total

abbrev no_pools : Text → List Account → List MergedPool
no_pools provider accounts = []

abbrev accounts : List Account
accounts = account_of 30 ∷ account_of 12 ∷ []

merge_account_pools-total_example :
    total_of
      (of_pool (λ b. b.used) (λ a. a.used) used-IsSummed (codes "Weekly") refl)
      (merge_account_pools share no_pools (codes "9router") accounts)
    ≡ total_of
        (of_pool (λ b. b.used) (λ a. a.used) used-IsSummed (codes "Weekly") refl)
        (sdk_part no_pools (codes "9router") (filter is_sdk accounts))
      + total_of
          (of_account (λ b. b.used) (λ a. a.used) used-IsSummed (codes "Weekly") refl)
          (filter (λ c. not (is_sdk c)) accounts)
merge_account_pools-total_example =
    merge_account_pools-total (λ b. b.used) (λ a. a.used) used-IsSummed (codes "Weekly") refl share
      no_pools (codes "9router") accounts
