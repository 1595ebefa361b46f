-- ===== src/RateLimit/Examples.antt =====
-- The theorems of the limiter at concrete inputs.
use nineguard.Base.{ℕ, ◌+◌, ◌*◌, ◌≤◌, ◌<◌, ◌≡◌, refl, List, [], ◌∷◌, some, true, arith, length}
use nineguard.Base.Text.{Text, codes}
use nineguard.RateLimit.{
  RateLimiter, new_rate_limiter, second, recent, allow_ip, is_user_locked, user_lock_key, cleanup,
}
use nineguard.RateLimit.Runs.{Call, allows, fails, cleans, run, grants}
use nineguard.RateLimit.Ip.{grants_bounded}
use nineguard.RateLimit.Lockout.{lock_holds}
use nineguard.RateLimit.Cleanup.{cleanup_transparent}

abbrev home : Text
home = codes "1.2"

abbrev burst : List (ℕ × Call)
burst =
    (1, allows home)
    ∷ (2, allows home)
    ∷ (2, cleans)
    ∷ (3, allows home)
    ∷ (4, allows home)
    ∷ (5, allows home)
    ∷ (6, allows home)
    ∷ (7, allows home)
    ∷ (8, allows home)
    ∷ (9, allows home)
    ∷ (10, allows home)
    ∷ (11, allows home)
    ∷ []

grants_bounded_example : length (recent 11 (grants new_rate_limiter [] burst home)) ≤ 10
grants_bounded_example = grants_bounded burst home 11 (omega arith) (omega arith)

abbrev full : RateLimiter
full = record new_rate_limiter {
  ip_requests = λ ip. some (1 ∷ 1 ∷ 1 ∷ 1 ∷ 1 ∷ 1 ∷ 1 ∷ 1 ∷ 1 ∷ 1 ∷ []);
}

abbrev locked : RateLimiter
locked = record new_rate_limiter {
  user_locks = λ key. some (record { failures = 5; locked_until = 900; last_seen = 0 });
}

lock_holds_example :
    let rl = run locked ((10, fails (codes "login") (codes "bob")) ∷ []) in
    ((is_user_locked rl 20 (codes "login") (codes "bob")).1 ≡ true)
    × (900 ≤ 20 + (is_user_locked rl 20 (codes "login") (codes "bob")).2 * second)
    × (20 + (is_user_locked rl 20 (codes "login") (codes "bob")).2 * second < 900 + second)
lock_holds_example =
    lock_holds locked ((10, fails (codes "login") (codes "bob")) ∷ []) 0 900 20 (codes "login")
      (codes "bob") refl (omega arith) (tt, tt) (omega arith) (omega arith)

cleanup_transparent_example :
    ((allow_ip (cleanup full 3) 5 home).1 ≡ (allow_ip full 5 home).1)
    × ((allow_ip (cleanup full 3) 5 home).2 ≡ (allow_ip full 5 home).2)
    × ((is_user_locked (cleanup full 3) 5 home home).1 ≡ (is_user_locked full 5 home home).1)
    × ((is_user_locked (cleanup full 3) 5 home home).2 ≡ (is_user_locked full 5 home home).2)
cleanup_transparent_example = cleanup_transparent full 3 5 home home home (omega arith)

-- Keys of the lock table ignore case and surrounding white space.
key_folds : user_lock_key (codes " Login") (codes "BOB ") ≡ codes "login:bob"
unfolding user_lock_key
key_folds = refl
