-- ===== src/Upstream/Alert.antt =====
-- internal/upstream/alert.go: `QuotaAlerter`, and `PercentBucketFresh` of sdk_pool.go.
-- An `Alert` carries the key of the state map that the code looked up; `message` is what it emits.
-- Instants are nanoseconds. Of the float `RemainingPercent` only its presence is read here.
pub mod Alternation
mod Examples
use nineguard.Base.{
  ℕ, suc, ◌+◌, ◌*◌, ◌≡◌, List, [], ◌∷◌, ◌++◌, map, Option, none, some, Bool, true, false, not, ◌&&◌,
  ◌||◌, leb, ltb, if◌then◌else◌, empty, insert, ℤ, pos, negsuc,
}
use nineguard.Base.Text.{Text, codes, text_eq, decimal}

pub record QuotaBucket : Type 0 where
  pub name : Text
  pub unit : Text
  pub scope : Text
  pub window_minutes : ℤ
  pub is_credit_balance : Bool
  pub warning : Bool
  pub has_remaining_percent : Bool
  pub incomplete : Bool
  pub observation_state : Text
  pub observed_at : Option ℕ
  pub reset_at : Option ℕ

pub record ConnectionQuota : Type 0 where
  pub connection_id : Text
  pub provider : Text
  pub account_label : Text
  pub plan : Text
  pub status : Text
  pub buckets : List QuotaBucket

pub record ProviderQuotaResult : Type 0 where
  pub provider_id : Text
  pub quota_type : Text
  pub status : Text
  pub connections : List ConnectionQuota

pub record QuotaAlerter : Type 0 where
  pub bucket_warned : Text → Option Bool
  pub conn_error : Text → Option Bool

pub data Alert : Type 0 where
  conn_failed conn_recovered : Text → Alert
  quota_low quota_recovered : Text → Bool → Alert

unfoldable pub message : Alert → Text
message (conn_failed key) = codes "upstream_connection_error: upstream connection error"
message (conn_recovered key) = codes "upstream_connection_recovered: upstream connection recovered"
message (quota_low key credit) =
    if credit
    then codes "upstream_quota_low: upstream credit balance exhausted"
    else codes "upstream_quota_low: upstream quota running low"
message (quota_recovered key credit) =
    if credit
    then codes "upstream_quota_recovered: upstream credit balance restored"
    else codes "upstream_quota_recovered: upstream quota recovered"

abbrev pub new_quota_alerter : QuotaAlerter
new_quota_alerter = record { bucket_warned = empty; conn_error = empty }

abbrev pub five_minutes : ℕ
five_minutes = 300000000000

-- A read of a map of Booleans: false when the key is missing.
abbrev pub flag : Option Bool → Bool
flag none = false
flag (some b) = b

-- `o != nil && now.Sub(*o) <= 5*time.Minute`, and `r == nil || now.Before(*r)`.
abbrev recently : Option ℕ → ℕ → Bool
recently none now = false
recently (some at) now = leb now (at + five_minutes)

abbrev not_reset : Option ℕ → ℕ → Bool
not_reset none now = true
not_reset (some at) now = ltb now at

unfoldable pub percent_bucket_fresh : QuotaBucket → ℕ → Bool
unfolding text_eq
percent_bucket_fresh b now =
    text_eq b.unit (codes "percent")
    && b.has_remaining_percent
    && not b.incomplete
    && text_eq b.observation_state (codes "observed")
    && recently b.observed_at now
    && not_reset b.reset_at now

-- `%d` of an int64.
abbrev signed : ℤ → Text
signed (pos n) = decimal n
signed (negsuc n) = b'-' ∷ decimal (suc n)

unfoldable pub conn_key : Text → Text → Text
conn_key provider connection = provider ++ (codes "|" ++ connection)

unfoldable pub bucket_key : Text → Text → QuotaBucket → Text
unfolding conn_key text_eq decimal
bucket_key provider connection b =
    let key = conn_key provider connection ++ (codes "|" ++ b.name) in
    if text_eq b.unit (codes "percent")
    then key ++ (codes "|" ++ (b.scope ++ (codes "|" ++ signed b.window_minutes)))
    else key

-- The state after a step, with the alerts of the step in order.
abbrev pub Observed : Type 0
Observed = QuotaAlerter × List Alert

-- The blocks for an error and for a recovery, of a connection or of a provider without any.
unfoldable pub observe_status : Text → Text → QuotaAlerter → Observed
unfolding text_eq
observe_status key status a =
    let in_error = flag (a.conn_error key) in
    if text_eq status (codes "error")
    then (if in_error
        then (a, [])
        else (record a { conn_error = insert key true a.conn_error }, conn_failed key ∷ []))
    else if text_eq status (codes "ok")
    then (if in_error
        then (record a { conn_error = insert key false a.conn_error }, conn_recovered key ∷ [])
        else (a, []))
    else (a, [])

-- What the body of the inner loop does to the warning state of a bucket.
unfoldable pub set_warned : Text → Bool → QuotaAlerter → QuotaAlerter
set_warned key b a = record a { bucket_warned = insert key b a.bucket_warned }

unfoldable pub observe_warning : Text → Bool → Bool → Option Bool → QuotaAlerter → Observed
unfolding set_warned
observe_warning key credit true (some true) a = (a, [])
observe_warning key credit true (some false) a = (set_warned key true a, quota_low key credit ∷ [])
observe_warning key credit true none a = (set_warned key true a, quota_low key credit ∷ [])
observe_warning key credit false (some true) a =
    (set_warned key false a, quota_recovered key credit ∷ [])
observe_warning key credit false (some false) a = (a, [])
observe_warning key credit false none a = (set_warned key false a, [])

unfoldable pub observe_bucket : Text → Text → ℕ → QuotaBucket → QuotaAlerter → Observed
unfolding percent_bucket_fresh bucket_key observe_warning text_eq
observe_bucket provider connection now b a =
    let key = bucket_key provider connection b in
    if text_eq b.unit (codes "percent") && not (percent_bucket_fresh b now)
    then (a, [])
    else observe_warning key b.is_credit_balance b.warning (a.bucket_warned key) a

-- One step, then another on its state.
abbrev pub then_observe : Observed → (QuotaAlerter → Observed) → Observed
then_observe (a, alerts) next = let (a', more) = next a in (a', alerts ++ more)

unfoldable pub observe_buckets : Text → Text → ℕ → List QuotaBucket → QuotaAlerter → Observed
unfolding observe_bucket
observe_buckets provider connection now [] a = (a, [])
observe_buckets provider connection now (b ∷ bs) a =
    then_observe (observe_bucket provider connection now b a)
      (observe_buckets provider connection now bs)

unfoldable pub observe_connection : Text → ℕ → ConnectionQuota → QuotaAlerter → Observed
unfolding observe_status conn_key observe_buckets
observe_connection provider now c a =
    then_observe (observe_status (conn_key provider c.connection_id) c.status a)
      (observe_buckets provider c.connection_id now c.buckets)

unfoldable pub observe_connections : Text → ℕ → List ConnectionQuota → QuotaAlerter → Observed
unfolding observe_connection
observe_connections provider now [] a = (a, [])
observe_connections provider now (c ∷ cs) a =
    then_observe (observe_connection provider now c a) (observe_connections provider now cs)

unfoldable pub observe_all :
    ProviderQuotaResult → ℕ → List ConnectionQuota → QuotaAlerter → Observed
unfolding observe_status conn_key observe_connections
observe_all res now [] a = observe_status (conn_key res.provider_id []) res.status a
observe_all res now (c ∷ cs) a = observe_connections res.provider_id now (c ∷ cs) a

-- `Observe`; a nil result is `none`.
unfoldable pub observe : QuotaAlerter → Option ProviderQuotaResult → ℕ → Observed
unfolding observe_all text_eq
observe a none now = (a, [])
observe a (some res) now =
    if text_eq res.status (codes "unsupported") || text_eq res.quota_type (codes "disabled")
    then (a, [])
    else observe_all res now res.connections a
