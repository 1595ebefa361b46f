-- ===== src/RateLimit/Lockout.antt =====
-- The per-user lockout of `IsUserLocked`, `RecordUserFailure` and `RecordUserSuccess`.
use nineguard.Base.{
  ℕ, ◌+◌, ◌*◌, ◌≤◌, ◌<◌, ◌≡◌, refl, ◌≢◌, ◌⊎◌, inl, inr, List, [], ◌∷◌, Option, none, some, true,
  false, arith, if◌then◌else◌, Bool-cases,
}
use nineguard.Base.Text.{Text, text_eq, text_eq→eq}
use nineguard.RateLimit.{
  UserLockState, RateLimiter, new_rate_limiter, second, user_lockout_max_fail, or_new_state,
  check_lock, check_entry, fail_state, clean_lock, user_lock_key, allow_ip, is_user_locked,
  record_user_failure, record_user_success, cleanup,
}
use nineguard.RateLimit.Runs.{
  Call, allows, checks, fails, succeeds, cleans, step, run, Ordered, last_time,
}

check_some : ℕ → Option UserLockState → Option UserLockState
check_some now none = none
check_some now (some s) = some (check_lock now s).0

-- The entry of one key after one call.
lock_step : ℕ → Call → Text → Option UserLockState → Option UserLockState
lock_step now (allows ip) key o = o
lock_step now (checks a u) key o = if text_eq key (user_lock_key a u) then check_some now o else o
lock_step now (fails a u) key o =
    if text_eq key (user_lock_key a u) then some (fail_state now (or_new_state o)).0 else o
lock_step now (succeeds a u) key o = if text_eq key (user_lock_key a u) then none else o
lock_step now cleans key o = clean_lock now o

check_entry-user_locks :
    (rl : RateLimiter) (now : ℕ) (k key : Text) (o : Option UserLockState)
    → rl.user_locks k ≡ o
    → (check_entry rl now k o).0.user_locks key
      ≡ (if text_eq key k then check_some now (rl.user_locks key) else rl.user_locks key)
unfolding check_entry check_some
check_entry-user_locks rl now k key none found = elim (Bool-cases (text_eq key k)) [
  | inl e ↦ rw (e, text_eq→eq key k e, found)
  | inr e ↦ rw e
]
check_entry-user_locks rl now k key (some s) found = elim (Bool-cases (text_eq key k)) [
  | inl e ↦ rw (e, text_eq→eq key k e, found)
  | inr e ↦ rw e
]

step-user_locks :
    (rl : RateLimiter) (now : ℕ) (c : Call) (key : Text)
    → (step rl now c).user_locks key ≡ lock_step now c key (rl.user_locks key)
unfolding step lock_step allow_ip is_user_locked record_user_failure record_user_success cleanup
step-user_locks rl now (allows ip) key = refl
step-user_locks rl now (checks a u) key =
    check_entry-user_locks rl now (user_lock_key a u) key (rl.user_locks (user_lock_key a u)) refl
step-user_locks rl now (fails a u) key = elim (Bool-cases (text_eq key (user_lock_key a u))) [
  | inl e ↦ rw (e, text_eq→eq key (user_lock_key a u) e)
  | inr e ↦ rw e
]
step-user_locks rl now (succeeds a u) key = refl
step-user_locks rl now cleans key = refl

-- An entry is either not locked, with at most four failures, or was locked by the fifth.
abbrev pub IsSound : UserLockState → Type 0
IsSound s =
    ((s.locked_until ≡ 0) × (s.failures < user_lockout_max_fail))
    ⊎ ((s.locked_until ≢ 0) × (s.failures ≡ user_lockout_max_fail))

check_lock-IsSound : (now : ℕ) (s : UserLockState) → IsSound s → IsSound (check_lock now s).0
unfolding check_lock
check_lock-IsSound now s h = ground arith

fail_state-IsSound : (now : ℕ) (s : UserLockState) → IsSound s → IsSound (fail_state now s).0
unfolding fail_state
fail_state-IsSound now s h = ground arith

abbrev pub Sound : Option UserLockState → Type 0
Sound none = Unit {0}
Sound (some s) = IsSound s

lock_step-Sound :
    (now : ℕ) (c : Call) (key : Text) (o : Option UserLockState)
    → Sound o
    → Sound (lock_step now c key o)
unfolding lock_step check_some clean_lock
lock_step-Sound now (allows ip) key o h = h
lock_step-Sound now (checks a u) key none h = ground arith
lock_step-Sound now (checks a u) key (some s) h = ground (arith, check_lock-IsSound now s)
lock_step-Sound now (fails a u) key none h =
    ground (arith, fail_state-IsSound now (or_new_state none))
lock_step-Sound now (fails a u) key (some s) h = ground (arith, fail_state-IsSound now s)
lock_step-Sound now (succeeds a u) key none h = ground arith
lock_step-Sound now (succeeds a u) key (some s) h = ground arith
lock_step-Sound now cleans key none h = h
lock_step-Sound now cleans key (some s) h = ground arith

run-Sound :
    (cs : List (ℕ × Call)) (rl : RateLimiter) (key : Text)
    → Sound (rl.user_locks key)
    → Sound ((run rl cs).user_locks key)
unfolding run
run-Sound [] rl key h = h
run-Sound ((now, c) ∷ cs) rl key h =
    run-Sound cs (step rl now c) key
      (rw (step-user_locks rl now c key) (lock_step-Sound now c key (rl.user_locks key) h))

-- After any calls on a new limiter, every entry has either no lock and fewer than five failures, or
-- a lock and exactly five.
locks-Sound : (cs : List (ℕ × Call)) (key : Text) → Sound ((run new_rate_limiter cs).user_locks key)
locks-Sound cs key = run-Sound cs new_rate_limiter key tt

-- The call records no success for `key`.
abbrev pub Spares : Text → Call → Type 0
Spares key (succeeds a u) = text_eq key (user_lock_key a u) ≡ false
Spares key (allows ip) = Unit {0}
Spares key (checks a u) = Unit {0}
Spares key (fails a u) = Unit {0}
Spares key cleans = Unit {0}

abbrev pub NoSuccess : Text → List (ℕ × Call) → Type 0
NoSuccess key [] = Unit {0}
NoSuccess key ((now, c) ∷ cs) = Spares key c × NoSuccess key cs

-- There is an entry and it is locked until `til`.
abbrev pub LockedUntil : ℕ → Option UserLockState → Type 0
LockedUntil til none = ⊥
LockedUntil til (some s) = s.locked_until ≡ til

lock_step-LockedUntil :
    (now til : ℕ) (c : Call) (key : Text) (o : Option UserLockState)
    → now < til
    → Spares key c
    → LockedUntil til o
    → LockedUntil til (lock_step now c key o)
unfolding lock_step check_some check_lock fail_state clean_lock
lock_step-LockedUntil now til c key none lt free h = absurd h
lock_step-LockedUntil now til (allows ip) key (some s) lt free h = h
lock_step-LockedUntil now til (checks a u) key (some s) lt free h = ground arith
lock_step-LockedUntil now til (fails a u) key (some s) lt free h = ground arith
lock_step-LockedUntil now til (succeeds a u) key (some s) lt free h = ground arith
lock_step-LockedUntil now til cleans key (some s) lt free h = ground arith

pub last_time-le : (t : ℕ) (cs : List (ℕ × Call)) → Ordered t cs → t ≤ last_time t cs
last_time-le t [] o = omega arith
last_time-le t ((now, c) ∷ cs) o = omega (arith, last_time-le now cs o.1)

run-LockedUntil :
    (cs : List (ℕ × Call)) (rl : RateLimiter) (t til : ℕ) (key : Text)
    → Ordered t cs
    → last_time t cs < til
    → NoSuccess key cs
    → LockedUntil til (rl.user_locks key)
    → LockedUntil til ((run rl cs).user_locks key)
unfolding run
run-LockedUntil [] rl t til key o lt free h = h
run-LockedUntil ((now, c) ∷ cs) rl t til key o lt free h =
    run-LockedUntil cs (step rl now c) now til key o.1 lt free.1 (
      rw (step-user_locks rl now c key) (
        lock_step-LockedUntil now til c key (rl.user_locks key)
          (omega (arith, last_time-le now cs o.1)) free.0 h))

check_entry-locked :
    (rl : RateLimiter) (n til : ℕ) (key : Text) (o : Option UserLockState)
    → n < til
    → LockedUntil til o
    → ((check_entry rl n key o).1 ≡ true)
      × (til ≤ n + (check_entry rl n key o).2 * second)
      × (n + (check_entry rl n key o).2 * second < til + second)
unfolding check_entry
check_entry-locked rl n til key none lt h = absurd h
check_entry-locked rl n til key (some s) lt h = ground arith

-- A user locked until `til` stays locked before that instant: after any calls under a clock that
-- does not go back and has not reached `til`, with no success recorded for the user, and cleanups
-- and further failures included, a check at n < til answers "locked", with the remaining
-- time rounded up to whole seconds.
pub lock_holds :
    (rl : RateLimiter) (cs : List (ℕ × Call)) (t til n : ℕ) (action username : Text)
    → LockedUntil til (rl.user_locks (user_lock_key action username))
    → Ordered t cs
    → NoSuccess (user_lock_key action username) cs
    → last_time t cs ≤ n
    → n < til
    → ((is_user_locked (run rl cs) n action username).1 ≡ true)
      × (til ≤ n + (is_user_locked (run rl cs) n action username).2 * second)
      × (n + (is_user_locked (run rl cs) n action username).2 * second < til + second)
unfolding is_user_locked
lock_holds rl cs t til n action username h o free le lt =
    let key = user_lock_key action username in
    check_entry-locked (run rl cs) n til key ((run rl cs).user_locks key) lt
      (run-LockedUntil cs rl t til key o (omega arith) free h)

check_entry-expired :
    (rl : RateLimiter) (n til : ℕ) (key : Text) (o : Option UserLockState)
    → Sound o
    → LockedUntil til o
    → 0 < til
    → til ≤ n
    → ((check_entry rl n key o).1 ≡ false) × ((fail_state n (or_new_state o)).1 ≡ false)
unfolding check_entry check_lock fail_state
check_entry-expired rl n til key none s h pos le = absurd h
check_entry-expired rl n til key (some e) s h pos le = ground arith

-- A lock until `til` is over at any n ≥ `til`: a check then answers "not locked", and one more
-- failure then does not lock the user again, since the count starts from zero.
pub lock_expires :
    (rl : RateLimiter) (n til : ℕ) (action username : Text)
    → Sound (rl.user_locks (user_lock_key action username))
    → LockedUntil til (rl.user_locks (user_lock_key action username))
    → 0 < til
    → til ≤ n
    → ((is_user_locked rl n action username).1 ≡ false)
      × ((record_user_failure rl n action username).1 ≡ false)
unfolding is_user_locked record_user_failure
lock_expires rl n til a u s h pos le =
    check_entry-expired rl n til (user_lock_key a u) (rl.user_locks (user_lock_key a u)) s h pos le
