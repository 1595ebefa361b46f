-- ===== src/RateLimit/Failures.antt =====
-- Consecutive failures of one user, which `RecordUserFailure` counts up to the lock.
use nineguard.Base.{
  ℕ, ◌+◌, ◌≤◌, ◌<◌, ◌≡◌, ◌⊎◌, List, [], ◌∷◌, Option, none, some, true, arith, suc, length,
}
use native.Mathlib.Nat.{add-zero, add-suc, suc-add}
use native.Mathlib.Numerals.{add-one}
use nineguard.Base.Text.{Text, text_eq_refl}
use nineguard.RateLimit.{
  UserLockState, RateLimiter, user_lockout_window, or_new_state, check_entry, fail_state,
  user_lock_key, is_user_locked, record_user_failure,
}
use nineguard.RateLimit.Runs.{Call, fails, step, run, Ordered, last_time}
use nineguard.RateLimit.Lockout.{Sound, last_time-le}

-- The entry is absent or its lock is over at `now`.
abbrev pub Unlocked : ℕ → Option UserLockState → Type 0
Unlocked now none = Unit {0}
Unlocked now (some s) = s.locked_until ≤ now

-- After i failures: still counting, or locked until at least `til`.
abbrev pub Progress : ℕ → ℕ → Option UserLockState → Type 0
Progress i til none = ⊥
Progress i til (some s) =
    ((s.locked_until ≡ 0) × (i ≤ s.failures) × (s.failures ≤ 4)) ⊎ (til ≤ s.locked_until)

pub first_fail :
    (now : ℕ) (o : Option UserLockState)
    → Sound o
    → Unlocked now o
    → Progress 1 (now + user_lockout_window) (some (fail_state now (or_new_state o)).0)
unfolding fail_state
first_fail now none s u = ground arith
first_fail now (some e) s u = ground arith

pub next_fail :
    (i now til : ℕ) (o : Option UserLockState)
    → now < til
    → til ≤ now + user_lockout_window
    → Progress i til o
    → Progress (i + 1) til (some (fail_state now (or_new_state o)).0)
unfolding fail_state
next_fail i now til none lt le p = absurd p
next_fail i now til (some e) lt le p = ground arith

step-fails :
    (rl : RateLimiter) (now : ℕ) (a u : Text)
    → (step rl now (fails a u)).user_locks (user_lock_key a u)
      ≡ some (fail_state now (or_new_state (rl.user_locks (user_lock_key a u)))).0
unfolding step record_user_failure
step-fails rl now a u = rw (text_eq_refl (user_lock_key a u))

abbrev pub fails_at : Text → Text → List ℕ → List (ℕ × Call)
fails_at a u [] = []
fails_at a u (now ∷ ts) = (now, fails a u) ∷ fails_at a u ts

run-fails :
    (ts : List ℕ) (rl : RateLimiter) (a u : Text) (i t til : ℕ)
    → Ordered t (fails_at a u ts)
    → last_time t (fails_at a u ts) < til
    → til ≤ t + user_lockout_window
    → Progress i til (rl.user_locks (user_lock_key a u))
    → Progress (i + length ts) til ((run rl (fails_at a u ts)).user_locks (user_lock_key a u))
unfolding run
run-fails [] rl a u i t til o lt le p = ground (arith, add-zero i)
run-fails (now ∷ ts) rl a u i t til o lt le p =
    rw (add-suc i (length ts), ← suc-add i (length ts))
      (run-fails ts (step rl now (fails a u)) a u (suc i) now til o.1 lt (omega (arith, o.0)) (
        rw (step-fails rl now a u, ← add-one i)
          (next_fail i now til (rl.user_locks (user_lock_key a u))
            (omega (arith, last_time-le now (fails_at a u ts) o.1)) (omega (arith, o.0)) p)))

check_entry-Progress :
    (rl : RateLimiter) (n i til : ℕ) (key : Text) (o : Option UserLockState)
    → n < til
    → 5 ≤ i
    → Progress i til o
    → (check_entry rl n key o).1 ≡ true
unfolding check_entry
check_entry-Progress rl n i til key none lt five p = absurd p
check_entry-Progress rl n i til key (some s) lt five p = ground arith

-- Five or more failures of an unlocked user in a row, under a clock that does not go back and all
-- within less than fifteen minutes of the first, lock the user: the next check before the fifteen
-- minutes after the first failure are over answers "locked".
pub five_failures_lock :
    (rl : RateLimiter) (action username : Text) (t n : ℕ) (ts : List ℕ)
    → Sound (rl.user_locks (user_lock_key action username))
    → Unlocked t (rl.user_locks (user_lock_key action username))
    → 4 ≤ length ts
    → Ordered t (fails_at action username ts)
    → last_time t (fails_at action username ts) ≤ n
    → n < t + user_lockout_window
    → (is_user_locked (run rl (fails_at action username (t ∷ ts))) n action username).1 ≡ true
unfolding is_user_locked run
five_failures_lock rl a u t n ts s free four o le lt =
    let key = user_lock_key a u in
    let rl' = step rl t (fails a u) in
    check_entry-Progress (run rl' (fails_at a u ts)) n (1 + length ts) (t + user_lockout_window) key
      ((run rl' (fails_at a u ts)).user_locks key) lt (omega arith)
      (run-fails ts rl' a u 1 t (t + user_lockout_window) o (omega arith) (omega arith)
        (rw (step-fails rl t a u) (first_fail t (rl.user_locks key) s free)))
