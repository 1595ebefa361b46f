-- ===== src/Upstream/Alert/Alternation.antt =====
-- The alerts are edges: about each connection and each bucket they alternate.
use nineguard.Base.{
  ℕ, ◌≡◌, refl, ap, ◌∙◌, ◌⊎◌, inl, inr, List, [], ◌∷◌, ◌++◌, Option, none, some, Bool, true, false,
  not, ◌&&◌, ◌||◌, arith, if◌then◌else◌, Bool-cases, Option-cases,
}
use nineguard.Base.Text.{Text, codes, text_eq, text_eq→eq}
use nineguard.Upstream.Alert.{
  QuotaBucket, ConnectionQuota, ProviderQuotaResult, QuotaAlerter, Alert, conn_failed,
  conn_recovered, quota_low, quota_recovered, new_quota_alerter, flag, conn_key, bucket_key,
  percent_bucket_fresh, Observed, observe_status, set_warned, observe_warning, observe_bucket,
  then_observe, observe_buckets, observe_connection, observe_connections, observe_all, observe,
}

-- One alert read by an observer of `key` who knows whether it is down: `none` is an alert out of turn.
abbrev pub turn : Bool → Bool → Option Bool
turn true true = none
turn true false = some true
turn false true = some false
turn false false = none

-- Whether the alert concerns the connection, or the bucket, of this key, and if so whether it is bad news.
abbrev pub about_conn : Text → Alert → Option Bool
about_conn key (conn_failed k) = if text_eq key k then some true else none
about_conn key (conn_recovered k) = if text_eq key k then some false else none
about_conn key (quota_low k credit) = none
about_conn key (quota_recovered k credit) = none

abbrev pub about_bucket : Text → Alert → Option Bool
about_bucket key (conn_failed k) = none
about_bucket key (conn_recovered k) = none
about_bucket key (quota_low k credit) = if text_eq key k then some true else none
about_bucket key (quota_recovered k credit) = if text_eq key k then some false else none

abbrev pub read_alert : Option Bool → Bool → Option Bool
read_alert none down = some down
read_alert (some bad) down = turn bad down

abbrev pub bind : Option Bool → (Bool → Option Bool) → Option Bool
bind none f = none
bind (some b) f = f b

-- The observer's view after all the alerts; `none` if one of them is out of turn.
abbrev pub follow : (Alert → Option Bool) → List Alert → Bool → Option Bool
follow about [] down = some down
follow about (x ∷ xs) down = bind (read_alert (about x) down) (follow about xs)

follow-append :
    (about : Alert → Option Bool) (xs ys : List Alert) (down : Bool)
    → follow about (xs ++ ys) down ≡ bind (follow about xs down) (follow about ys)
follow-append about [] ys down = refl
follow-append about (x ∷ xs) ys down = elim (Option-cases (read_alert (about x) down)) [
  | inl e ↦ rw e refl
  | inr (b, e) ↦ rw e (follow-append about xs ys b)
]

-- A step keeps the observer's view equal to what the state holds.
abbrev Follows : (Alert → Option Bool) → (QuotaAlerter → Bool) → (QuotaAlerter → Observed) → Type 0
Follows about view step =
    (a : QuotaAlerter) → follow about (step a).1 (view a) ≡ some (view (step a).0)

then-Follows :
    (about : Alert → Option Bool) (view : QuotaAlerter → Bool)
    (first next : QuotaAlerter → Observed)
    → Follows about view first
    → Follows about view next
    → Follows about view (λ a. then_observe (first a) next)
then-Follows about view first next h k a =
    follow-append about (first a).1 (next (first a).0).1 (view a)
    ∙ (ap (λ o. bind o (follow about (next (first a).0).1)) (h a) ∙ k (first a).0)

abbrev down : Text → QuotaAlerter → Bool
down key a = flag (a.conn_error key)

abbrev warned : Text → QuotaAlerter → Bool
warned key a = flag (a.bucket_warned key)

status-down : (key k status : Text) → Follows (about_conn key) (down key) (observe_status k status)
unfolding observe_status
status-down key k status a = elim (Bool-cases (text_eq key k)) [
  | inl e ↦ let same = ap (λ x. a.conn_error x) (text_eq→eq key k e) in ground (arith, same)
  | inr e ↦ ground arith
]

warning-down :
    (key k : Text) (credit now_bad : Bool) (was : Option Bool)
    → Follows (about_conn key) (down key) (observe_warning k credit now_bad was)
unfolding observe_warning set_warned
warning-down key k credit true (some true) a = refl
warning-down key k credit true (some false) a = refl
warning-down key k credit true none a = refl
warning-down key k credit false (some true) a = refl
warning-down key k credit false (some false) a = refl
warning-down key k credit false none a = refl

status-warned :
    (key k status : Text) → Follows (about_bucket key) (warned key) (observe_status k status)
unfolding observe_status
status-warned key k status a = ground arith

warning-warned :
    (key k : Text) (credit bad : Bool) (a : QuotaAlerter)
    → follow
        (about_bucket key)
        (observe_warning k credit bad (a.bucket_warned k) a).1
        (warned key a)
      ≡ some (warned key (observe_warning k credit bad (a.bucket_warned k) a).0)
unfolding observe_warning set_warned
warning-warned key k credit bad a = elim (Bool-cases (text_eq key k)) [
  | inl e ↦
      let same = ap (λ x. a.bucket_warned x) (text_eq→eq key k e) in
      each bad (a.bucket_warned k) (inl (e, same))
  | inr e ↦ each bad (a.bucket_warned k) (inr e)
]
  where
    each :
        (bad : Bool) (was : Option Bool)
        → ((text_eq key k ≡ true) × (a.bucket_warned key ≡ was)) ⊎ (text_eq key k ≡ false)
        → follow (about_bucket key) (observe_warning k credit bad was a).1 (warned key a)
          ≡ some (warned key (observe_warning k credit bad was a).0)
    each true (some true) h = refl
    each true (some false) h = ground arith
    each true none h = ground arith
    each false (some true) h = ground arith
    each false (some false) h = refl
    each false none h = ground arith

bucket-down :
    (key provider connection : Text) (now : ℕ) (b : QuotaBucket)
    → Follows (about_conn key) (down key) (observe_bucket provider connection now b)
unfolding observe_bucket
bucket-down key provider connection now b a =
    elim (Bool-cases (text_eq b.unit (codes "percent") && not (percent_bucket_fresh b now))) [
      | inl e ↦ rw e refl
      | inr e ↦ rw e (
          warning-down key (bucket_key provider connection b) b.is_credit_balance b.warning
            (a.bucket_warned (bucket_key provider connection b)) a)
    ]

bucket-warned :
    (key provider connection : Text) (now : ℕ) (b : QuotaBucket)
    → Follows (about_bucket key) (warned key) (observe_bucket provider connection now b)
unfolding observe_bucket
bucket-warned key provider connection now b a =
    elim (Bool-cases (text_eq b.unit (codes "percent") && not (percent_bucket_fresh b now))) [
      | inl e ↦ rw e refl
      | inr e ↦
          rw e
            (warning-warned key (bucket_key provider connection b) b.is_credit_balance b.warning a)
    ]

-- A view that the two kinds of steps keep is kept by a whole observation.
module _ (about : Alert → Option Bool) (view : QuotaAlerter → Bool)
    (status_kept : (k status : Text) → Follows about view (observe_status k status))
    (bucket_kept : (provider connection : Text) (now : ℕ) (b : QuotaBucket)
      → Follows about view (observe_bucket provider connection now b)) where
  buckets-Follows :
      (provider connection : Text) (now : ℕ) (bs : List QuotaBucket)
      → Follows about view (observe_buckets provider connection now bs)
  unfolding observe_buckets
  buckets-Follows provider connection now [] a = refl
  buckets-Follows provider connection now (b ∷ bs) a =
      then-Follows about view (observe_bucket provider connection now b)
        (observe_buckets provider connection now bs) (bucket_kept provider connection now b)
        (buckets-Follows provider connection now bs) a

  connections-Follows :
      (provider : Text) (now : ℕ) (cs : List ConnectionQuota)
      → Follows about view (observe_connections provider now cs)
  unfolding observe_connections observe_connection
  connections-Follows provider now [] a = refl
  connections-Follows provider now (c ∷ cs) a =
      then-Follows about view (observe_connection provider now c)
        (observe_connections provider now cs)
        (λ x.
          then-Follows about view (observe_status (conn_key provider c.connection_id) c.status)
            (observe_buckets provider c.connection_id now c.buckets)
            (status_kept (conn_key provider c.connection_id) c.status)
            (buckets-Follows provider c.connection_id now c.buckets) x)
        (connections-Follows provider now cs) a

  observe-Follows :
      (res : Option ProviderQuotaResult) (now : ℕ) → Follows about view (λ a. observe a res now)
  unfolding observe observe_all
  observe-Follows none now a = refl
  observe-Follows (some res) now a =
      elim (Bool-cases
        (text_eq res.status (codes "unsupported") || text_eq res.quota_type (codes "disabled"))) [
          | inl e ↦ rw e refl
          | inr e ↦ rw e (all_of res.connections)
        ]
    where
      all_of :
          (cs : List ConnectionQuota)
          → follow about (observe_all res now cs a).1 (view a)
            ≡ some (view (observe_all res now cs a).0)
      all_of [] = status_kept (conn_key res.provider_id []) res.status a
      all_of (c ∷ cs) = connections-Follows res.provider_id now (c ∷ cs) a

-- Observations one after the other.
unfoldable pub observe_each : List (Option ProviderQuotaResult × ℕ) → QuotaAlerter → Observed
observe_each [] a = (a, [])
observe_each ((res, now) ∷ rest) a = then_observe (observe a res now) (observe_each rest)

each-Follows :
    (about : Alert → Option Bool) (view : QuotaAlerter → Bool)
    → ((res : Option ProviderQuotaResult) (now : ℕ) → Follows about view (λ a. observe a res now))
    → (rest : List (Option ProviderQuotaResult × ℕ)) → Follows about view (observe_each rest)
unfolding observe_each
each-Follows about view h [] a = refl
each-Follows about view h ((res, now) ∷ rest) a =
    then-Follows about view (λ x. observe x res now) (observe_each rest) (h res now)
      (each-Follows about view h rest) a

-- Over any observations by a new alerter, the alerts about a connection alternate: an error first,
-- then a recovery, then an error; and the state holds whether the last one was an error.
connection_alerts_alternate :
    (seen : List (Option ProviderQuotaResult × ℕ)) (key : Text)
    → let (a, alerts) = observe_each seen new_quota_alerter in
      follow (about_conn key) alerts false ≡ some (flag (a.conn_error key))
connection_alerts_alternate seen key =
    each-Follows (about_conn key) (down key)
      (observe-Follows (about_conn key) (down key) (status-down key) (bucket-down key)) seen
      new_quota_alerter

-- The same of each bucket: a low quota first, then a recovery, and so on in turn; and the state
-- holds whether the last alert was of a low quota.
pub bucket_alerts_alternate :
    (seen : List (Option ProviderQuotaResult × ℕ)) (key : Text)
    → let (a, alerts) = observe_each seen new_quota_alerter in
      follow (about_bucket key) alerts false ≡ some (flag (a.bucket_warned key))
bucket_alerts_alternate seen key =
    each-Follows (about_bucket key) (warned key)
      (observe-Follows (about_bucket key) (warned key) (status-warned key) (bucket-warned key)) seen
      new_quota_alerter
