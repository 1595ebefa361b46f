-- ===== src/RateLimit/Runs.antt =====
-- Sequences of calls to one limiter, in the order in which they take the mutex, and the grants
-- that an address got in them.
use nineguard.Base.{ℕ, ◌≤◌, List, [], ◌∷◌, ◌++◌, Bool, false, ◌&&◌, if◌then◌else◌}
use nineguard.Base.Text.{Text, text_eq}
use nineguard.RateLimit.{
  RateLimiter, allow_ip, is_user_locked, record_user_failure, record_user_success, cleanup,
}

pub data Call : Type 0 where
  allows : Text → Call
  checks fails succeeds : Text → Text → Call
  cleans : Call

unfoldable pub step : RateLimiter → ℕ → Call → RateLimiter
step rl now (allows ip) = (allow_ip rl now ip).0
step rl now (checks a u) = (is_user_locked rl now a u).0
step rl now (fails a u) = (record_user_failure rl now a u).0
step rl now (succeeds a u) = record_user_success rl a u
step rl now cleans = cleanup rl now

unfoldable pub run : RateLimiter → List (ℕ × Call) → RateLimiter
run rl [] = rl
run rl ((now, c) ∷ cs) = run (step rl now c) cs

-- Whether the call lets a request of `ip` through.
unfoldable pub grants_now : RateLimiter → ℕ → Call → Text → Bool
grants_now rl now (allows j) ip = text_eq ip j && (allow_ip rl now j).1
grants_now rl now _ ip = false

-- The instants at which `ip` was let through, oldest first, after those in `h`.
unfoldable pub grants : RateLimiter → List ℕ → List (ℕ × Call) → Text → List ℕ
grants rl h [] ip = h
grants rl h ((now, c) ∷ cs) ip =
    grants (step rl now c) (if grants_now rl now c ip then h ++ now ∷ [] else h) cs ip

-- The clock does not go back from one call to the next.
abbrev pub Ordered : ℕ → List (ℕ × Call) → Type 0
Ordered t [] = Unit {0}
Ordered t ((now, c) ∷ cs) = (t ≤ now) × Ordered now cs

abbrev pub last_time : ℕ → List (ℕ × Call) → ℕ
last_time t [] = t
last_time t ((now, c) ∷ cs) = last_time now cs
