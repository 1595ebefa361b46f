-- ===== src/RateLimit.antt =====
-- internal/handler/ratelimit.go: the limiter in front of the login and recovery endpoints.
-- An instant is a number of nanoseconds since the zero `time.Time`, so 0 is the zero time. Each
-- method runs under the mutex and reads the clock once: the reading is its argument `now`.
pub mod Runs
pub mod Ip
pub mod Lockout
pub mod Failures
pub mod Cleanup
mod Examples
use nineguard.Base.{
  ℕ, ◌+◌, ◌-◌, ◌*◌, ◌/◌, List, [], ◌∷◌, ◌++◌, Option, none, some, Bool, true, false, not, ◌&&◌, ltb,
  leb, ◌==◌, if◌then◌else◌, length, filter, empty, insert, delete,
}
use nineguard.Base.Text.{Text, codes, to_lower, trim_space}

abbrev pub second : ℕ
second = 1000000000

abbrev pub ip_rate_limit_window : ℕ
ip_rate_limit_window = 60 * second

abbrev pub ip_rate_limit_max : ℕ
ip_rate_limit_max = 10

abbrev pub user_lockout_window : ℕ
user_lockout_window = 900 * second

abbrev pub user_lockout_max_fail : ℕ
user_lockout_max_fail = 5

pub record UserLockState : Type 0 where
  pub failures : ℕ
  pub locked_until : ℕ
  pub last_seen : ℕ

pub record RateLimiter : Type 0 where
  pub ip_requests : Text → Option (List ℕ)
  pub user_locks : Text → Option UserLockState

abbrev pub new_rate_limiter : RateLimiter
new_rate_limiter = record { ip_requests = empty; user_locks = empty }

-- `t.After(now.Add(-ipRateLimitWindow))`, with the window on the other side: `-` stops at 0 here.
abbrev pub recent : ℕ → List ℕ → List ℕ
recent now = filter (λ t. ltb now (t + ip_rate_limit_window))

-- Reading a missing key of a Go map of slices gives the empty slice.
abbrev pub timestamps : Option (List ℕ) → List ℕ
timestamps none = []
timestamps (some ts) = ts

-- `int(math.Ceil(d.Seconds()))`, at least 1.
abbrev pub ceil_secs : ℕ → ℕ
ceil_secs d = let secs = (d + (second - 1)) / second in if ltb secs 1 then 1 else secs

abbrev first : List ℕ → ℕ
first [] = 0
first (t ∷ ts) = t

-- The decision on the timestamps still in the window: what is stored, and the answer.
unfoldable pub decide_ip : ℕ → List ℕ → List ℕ × Bool × ℕ
decide_ip now valid =
    if leb ip_rate_limit_max (length valid)
    then (valid, false, ceil_secs (first valid + ip_rate_limit_window - now))
    else (valid ++ now ∷ [], true, 0)

unfoldable pub allow_ip : RateLimiter → ℕ → Text → RateLimiter × Bool × ℕ
unfolding decide_ip
allow_ip rl now ip =
    let (stored, allowed, secs) = decide_ip now (recent now (timestamps (rl.ip_requests ip))) in
    (record rl { ip_requests = insert ip stored rl.ip_requests }, allowed, secs)

unfoldable pub user_lock_key : Text → Text → Text
unfolding to_lower trim_space
user_lock_key action username =
    to_lower (trim_space action) ++ codes ":" ++ to_lower (trim_space username)

-- `if !state.lockedUntil.IsZero() { state.failures = 0; state.lockedUntil = time.Time{} }`.
abbrev pub expire : UserLockState → UserLockState
expire s = if s.locked_until == 0 then s else record s { failures = 0; locked_until = 0 }

-- `IsUserLocked` at an entry: the entry after the call, and the answer.
unfoldable pub check_lock : ℕ → UserLockState → UserLockState × Bool × ℕ
check_lock now s =
    if ltb now s.locked_until
    then (s, true, ceil_secs (s.locked_until - now))
    else (expire s, false, 0)

-- The entry is shared by pointer: what the call changes in it is stored.
unfoldable pub check_entry : RateLimiter → ℕ → Text → Option UserLockState → RateLimiter × Bool × ℕ
unfolding check_lock
check_entry rl now key none = (rl, false, 0)
check_entry rl now key (some s) =
    let (s', locked, secs) = check_lock now s in
    (record rl { user_locks = insert key s' rl.user_locks }, locked, secs)

unfoldable pub is_user_locked : RateLimiter → ℕ → Text → Text → RateLimiter × Bool × ℕ
unfolding check_entry
is_user_locked rl now action username =
    let key = user_lock_key action username in check_entry rl now key (rl.user_locks key)

abbrev pub or_new_state : Option UserLockState → UserLockState
or_new_state none = record { failures = 0; locked_until = 0; last_seen = 0 }
or_new_state (some s) = s

-- The counting part of `RecordUserFailure`, at an entry that is not locked now.
unfoldable pub count_failure : ℕ → UserLockState → UserLockState × Bool × ℕ
count_failure now s =
    let n = s.failures + 1 in
    if leb user_lockout_max_fail n
    then (
      record s { failures = n; locked_until = now + user_lockout_window },
      true,
      user_lockout_window / second,
    )
    else (record s { failures = n }, false, 0)

unfoldable pub fail_state : ℕ → UserLockState → UserLockState × Bool × ℕ
unfolding count_failure
fail_state now s =
    let seen = record s { last_seen = now } in
    if ltb now s.locked_until
    then (seen, true, ceil_secs (s.locked_until - now))
    else count_failure now (expire seen)

unfoldable pub record_user_failure : RateLimiter → ℕ → Text → Text → RateLimiter × Bool × ℕ
unfolding fail_state
record_user_failure rl now action username =
    let key = user_lock_key action username in
    let (s', locked, secs) = fail_state now (or_new_state (rl.user_locks key)) in
    (record rl { user_locks = insert key s' rl.user_locks }, locked, secs)

unfoldable pub record_user_success : RateLimiter → Text → Text → RateLimiter
record_user_success rl action username = record rl {
  user_locks = delete (user_lock_key action username) rl.user_locks;
}

-- One entry of each of the two loops of `Cleanup`; `none` is a deleted key.
unfoldable pub clean_ip : ℕ → Option (List ℕ) → Option (List ℕ)
clean_ip now none = none
clean_ip now (some ts) = elim (recent now ts) [ [] ↦ none | t ∷ rest ↦ some (t ∷ rest) ]

unfoldable pub clean_lock : ℕ → Option UserLockState → Option UserLockState
clean_lock now none = none
clean_lock now (some s) =
    if not (ltb now s.locked_until) && ltb (s.last_seen + user_lockout_window) now
    then none
    else some s

unfoldable pub cleanup : RateLimiter → ℕ → RateLimiter
unfolding clean_ip clean_lock
cleanup rl now = record {
  ip_requests = λ ip. clean_ip now (rl.ip_requests ip);
  user_locks = λ key. clean_lock now (rl.user_locks key);
}
