-- ===== src/RateLimit/Cleanup.antt =====
-- `Cleanup` and the later answers of `AllowIP` and `IsUserLocked`.
use nineguard.Base.{ℕ, ◌≤◌, ◌≡◌, refl, Option, none, some, arith}
use nineguard.Base.Text.{Text}
use nineguard.RateLimit.{
  UserLockState, RateLimiter, timestamps, check_entry, user_lock_key, clean_lock, allow_ip,
  is_user_locked, cleanup,
}
use nineguard.RateLimit.Ip.{recent-recent, clean_ip-timestamps}

check_entry-clean :
    (rl rl' : RateLimiter) (m n : ℕ) (key : Text) (o : Option UserLockState)
    → m ≤ n
    → ((check_entry rl' n key (clean_lock m o)).1 ≡ (check_entry rl n key o).1)
      × ((check_entry rl' n key (clean_lock m o)).2 ≡ (check_entry rl n key o).2)
unfolding check_entry clean_lock
check_entry-clean rl rl' m n key none le = (refl, refl)
check_entry-clean rl rl' m n key (some s) le = ground arith

-- A cleanup at m changes no answer of `AllowIP` or `IsUserLocked` at any n ≥ m, neither the
-- decision nor the seconds to wait.
pub cleanup_transparent :
    (rl : RateLimiter) (m n : ℕ) (ip action username : Text)
    → m ≤ n
    → ((allow_ip (cleanup rl m) n ip).1 ≡ (allow_ip rl n ip).1)
      × ((allow_ip (cleanup rl m) n ip).2 ≡ (allow_ip rl n ip).2)
      × ((is_user_locked (cleanup rl m) n action username).1
          ≡ (is_user_locked rl n action username).1)
      × ((is_user_locked (cleanup rl m) n action username).2
          ≡ (is_user_locked rl n action username).2)
unfolding allow_ip is_user_locked cleanup
cleanup_transparent rl m n ip action username le =
    let key = user_lock_key action username in
    let same = check_entry-clean rl (cleanup rl m) m n key (rl.user_locks key) le in
    (
      rw (
        clean_ip-timestamps m (rl.ip_requests ip),
        recent-recent m n (timestamps (rl.ip_requests ip)) le,
      ),
      rw (
        clean_ip-timestamps m (rl.ip_requests ip),
        recent-recent m n (timestamps (rl.ip_requests ip)) le,
      ),
      same.0,
      same.1,
    )
