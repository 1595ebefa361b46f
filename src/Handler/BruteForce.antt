-- ===== src/Handler/BruteForce.antt =====
-- Wrong passwords for one name at `AuthLogin`: the limiter and the accounts together.
use nineguard.Base.{
  ℕ, suc, ◌+◌, ◌≤◌, ◌<◌, ◌≡◌, refl, sym, ap, subst, ◌∙◌, List, [], ◌∷◌, Option, none, some, Bool,
  true, false, not, arith, length, if◌then◌else◌,
}
use native.Mathlib.Nat.{add-zero, add-suc, suc-add}
use native.Mathlib.Numerals.{add-one}
use nineguard.Base.Text.{Text, codes, trim_space, is_blank, text_eq_refl}
use nineguard.RateLimit.{
  UserLockState, RateLimiter, user_lockout_window, or_new_state, check_lock, fail_state, allow_ip,
  user_lock_key, check_entry, is_user_locked, record_user_failure,
}
use nineguard.RateLimit.Lockout.{Sound}
use nineguard.RateLimit.Failures.{Progress}
use nineguard.Auth.{AuthStore, Sql, Bcrypt, AuthError, Result, ok, err, User}
use nineguard.Auth.Accounts.{login}
use nineguard.Handler.{
  Clock, Server, Reply, too_many_requests, failed, with_limiter, check_ip_limit, unless_locked,
  login_reply, login_body, auth_login,
}

pub record Attempt : Type 0 where
  pub at : Clock
  pub ip : Text
  pub password : Text
  pub token : Option Text
  pub sql : Sql

abbrev pub login_key : Text → Text
login_key name = user_lock_key (codes "login") (trim_space name)

-- The entry of the name, before and after.
abbrev pub lock_of : Server → Text → Option UserLockState
lock_of srv name = srv.limiter.user_locks (login_key name)

-- The entry after `IsUserLocked`.
abbrev looked_at : ℕ → Option UserLockState → Option UserLockState
looked_at now none = none
looked_at now (some s) = some (check_lock now s).0

abbrev NotLocked : ℕ → Option UserLockState → Type 0
NotLocked now none = Unit {0}
NotLocked now (some s) = (check_lock now s).1 ≡ false

-- A stage that does not stop with a reply of its own hands over to the next.
handed_over :
    (b : Bool) (x m : Server × Reply) {retry c : ℕ} {e : AuthError}
    → x.1 ≡ too_many_requests retry
    → (if b then x else m).1 ≡ failed c e
    → (b ≡ false) × ((if b then x else m) ≡ m)
handed_over true x m stop h = absurd (differ (sym stop ∙ h))
  where
    differ : {retry c : ℕ} {e : AuthError} → too_many_requests retry ≡ failed c e → ⊥
    differ h = cc
handed_over false x m stop h = (refl, refl)

admitted :
    (srv : Server) (now : ℕ) (ip : Text) (next : Server → Server × Reply) {c : ℕ} {e : AuthError}
    → (check_ip_limit srv now ip next).1 ≡ failed c e
    → check_ip_limit srv now ip next ≡ next (with_limiter srv (allow_ip srv.limiter now ip).0)
unfolding check_ip_limit
admitted srv now ip next h =
    let (rl, allowed, retry) = allow_ip srv.limiter now ip in
    (handed_over (not allowed) (with_limiter srv rl, too_many_requests retry)
      (next (with_limiter srv rl)) refl h).1

check_entry-looks :
    (rl : RateLimiter) (now : ℕ) (key : Text) (o : Option UserLockState)
    → rl.user_locks key ≡ o
    → (check_entry rl now key o).1 ≡ false
    → NotLocked now o × ((check_entry rl now key o).0.user_locks key ≡ looked_at now o)
unfolding check_entry
check_entry-looks rl now key none same open_e = (tt, same)
check_entry-looks rl now key (some s) same open_e = (open_e, rw (text_eq_refl key))

unlocked :
    (srv : Server) (now : ℕ) (action name : Text) (next : Server → Server × Reply) {c : ℕ}
    {e : AuthError}
    → (unless_locked srv now action name next).1 ≡ failed c e
    → let rl = (is_user_locked srv.limiter now action name).0 in
      let key = user_lock_key action name in
      NotLocked now (srv.limiter.user_locks key)
      × (rl.user_locks key ≡ looked_at now (srv.limiter.user_locks key))
      × (unless_locked srv now action name next ≡ next (with_limiter srv rl))
unfolding unless_locked is_user_locked
unlocked srv now action name next h =
    let key = user_lock_key action name in
    let (rl, locked, retry) = check_entry srv.limiter now key (srv.limiter.user_locks key) in
    let (open_e, same) =
      handed_over locked (with_limiter srv rl, too_many_requests retry) (next (with_limiter srv rl))
        refl h in
    let (free, looks) =
      check_entry-looks srv.limiter now key (srv.limiter.user_locks key) refl open_e in
    (free, looks, same)

login_reply-failed :
    (srv : Server) (now : ℕ) (name : Text) (m : AuthStore × Result (User × Text)) {e : AuthError}
    → (login_reply srv now name m).1 ≡ failed 401 e
    → (login_reply srv now name m).0.limiter.user_locks (user_lock_key (codes "login") name)
      ≡ some
          (fail_state now
            (or_new_state (srv.limiter.user_locks (user_lock_key (codes "login") name)))).0
unfolding record_user_failure
login_reply-failed srv now name (st, err e) h =
    rw (text_eq_refl (user_lock_key (codes "login") name))
login_reply-failed srv now name (st, ok (u, t)) h = cc

-- What an attempt that is answered 401 does to the entry of its name.
failed_attempt :
    (bcrypt : Bcrypt) (srv : Server) (name : Text) (x : Attempt) {e : AuthError}
    → is_blank (trim_space name) ≡ false
    → (auth_login bcrypt x.sql srv x.at x.ip (some (name, x.password)) x.token).1 ≡ failed 401 e
    → NotLocked x.at.checked (lock_of srv name)
      × (lock_of (auth_login bcrypt x.sql srv x.at x.ip (some (name, x.password)) x.token).0 name
          ≡ some
              (fail_state x.at.ended (or_new_state (looked_at x.at.checked (lock_of srv name)))).0)
unfolding auth_login allow_ip
failed_attempt bcrypt srv name x {e} given h =
    let user = trim_space name in
    let key = user_lock_key (codes "login") user in
    let srv1 = with_limiter srv (allow_ip srv.limiter x.at.arrived x.ip).0 in
    let srv2 =
      with_limiter srv1 (is_user_locked srv1.limiter x.at.checked (codes "login") user).0 in
    let ends = λ (s : Server).
      login_reply s x.at.ended user
        (login bcrypt x.sql s.accounts x.at.ended user x.password x.token) in
    let body = login_body bcrypt x.sql x.at (some (name, x.password)) x.token in
    let begun : body srv1 ≡ unless_locked srv1 x.at.checked (codes "login") user ends = rw given in
    let let_in = admitted srv x.at.arrived x.ip body h ∙ begun in
    let (free, looks, same) =
      unlocked srv1 x.at.checked (codes "login") user ends
        (subst (λ (m : Server × Reply). m.1 ≡ failed 401 e) let_in h) in
    let all = let_in ∙ same in
    let noted =
      login_reply-failed srv2 x.at.ended user
        (login bcrypt x.sql srv2.accounts x.at.ended user x.password x.token)
        (subst (λ (m : Server × Reply). m.1 ≡ failed 401 e) all h) in
    (
      free,
      ap (λ (m : Server × Reply). m.0.limiter.user_locks key) all
          ∙ noted
          ∙ ap (λ y. some (fail_state x.at.ended (or_new_state y)).0) looks,
    )

-- The server after attempts for one name.
pub attempts : Bcrypt → Server → Text → List Attempt → Server
attempts bcrypt srv name [] = srv
attempts bcrypt srv name (x ∷ xs) =
    attempts bcrypt (auth_login bcrypt x.sql srv x.at x.ip (some (name, x.password)) x.token).0 name
      xs

-- Each of them is answered 401.
abbrev pub Rejected : Bcrypt → Server → Text → List Attempt → Type 0
Rejected bcrypt srv name [] = Unit {0}
Rejected bcrypt srv name (x ∷ xs) =
    let (srv', reply) = auth_login bcrypt x.sql srv x.at x.ip (some (name, x.password)) x.token in
    ((e : AuthError) × (reply ≡ failed 401 e)) × Rejected bcrypt srv' name xs

-- Their clocks show at least `from`, and less than `til`.
abbrev pub Within : ℕ → ℕ → List Attempt → Type 0
Within from til [] = Unit {0}
Within from til (x ∷ xs) =
    (from ≤ x.at.ended) × (x.at.checked < til) × (x.at.ended < til) × Within from til xs

first_rejected :
    (checked ended : ℕ) (o : Option UserLockState)
    → Sound o
    → NotLocked checked o
    → Progress 1
        (ended + user_lockout_window)
        (some (fail_state ended (or_new_state (looked_at checked o))).0)
unfolding check_lock fail_state
first_rejected checked ended none s u = ground arith
first_rejected checked ended (some e) s u = ground arith

next_rejected :
    (i checked ended til : ℕ) (o : Option UserLockState)
    → checked < til
    → ended < til
    → til ≤ ended + user_lockout_window
    → NotLocked checked o
    → Progress i til o
    → Progress (i + 1) til (some (fail_state ended (or_new_state (looked_at checked o))).0)
unfolding check_lock fail_state
next_rejected i checked ended til none lt lt' le u p = absurd p
next_rejected i checked ended til (some e) lt lt' le u p = ground arith

run-Rejected :
    (bcrypt : Bcrypt) (name : Text) (xs : List Attempt) (srv : Server) (i from til : ℕ)
    → is_blank (trim_space name) ≡ false
    → til ≤ from + user_lockout_window
    → Within from til xs
    → Rejected bcrypt srv name xs
    → Progress i til (lock_of srv name)
    → Progress (i + length xs) til (lock_of (attempts bcrypt srv name xs) name)
unfolding attempts
run-Rejected bcrypt name [] srv i from til given le w r p = ground (arith, add-zero i)
run-Rejected bcrypt name (x ∷ xs) srv i from til given le (late, lt, lt', w) ((e, failed_e), r) p =
    let (free, same) = failed_attempt bcrypt srv name x given failed_e in
    let next =
      next_rejected i x.at.checked x.at.ended til (lock_of srv name) lt lt' (omega arith) free p in
    rw (add-suc i (length xs), ← suc-add i (length xs))
      (run-Rejected bcrypt name xs
        (auth_login bcrypt x.sql srv x.at x.ip (some (name, x.password)) x.token).0 (suc i) from til
        given le w r (rw (same, ← add-one i) next))

check_entry-Progress :
    (rl : RateLimiter) (n i til : ℕ) (key : Text) (o : Option UserLockState)
    → n < til
    → 5 ≤ i
    → Progress i til o
    → (check_entry rl n key o).1 ≡ true
unfolding check_entry check_lock
check_entry-Progress rl n i til key none lt five p = absurd p
check_entry-Progress rl n i til key (some s) lt five p = ground arith

-- Stopped by the limiter: 429, and the accounts are as they were.
abbrev Stopped : AuthStore → Server × Reply → Type 0
Stopped st m = (retry : ℕ) × (m.1 ≡ too_many_requests retry) × (m.0.accounts ≡ st)

gate :
    (st : AuthStore) (b : Bool) (x m : Server × Reply)
    → Stopped st x
    → Stopped st m
    → Stopped st (if b then x else m)
gate st true x m h k = h
gate st false x m h k = k

locked-Stopped :
    (bcrypt : Bcrypt) (srv : Server) (name : Text) (x : Attempt) (i til : ℕ)
    → is_blank (trim_space name) ≡ false
    → x.at.checked < til
    → 5 ≤ i
    → Progress i til (lock_of srv name)
    → Stopped srv.accounts (auth_login bcrypt x.sql srv x.at x.ip (some (name, x.password)) x.token)
unfolding auth_login check_ip_limit unless_locked is_user_locked allow_ip
locked-Stopped bcrypt srv name x i til given lt five p =
    let (rl, allowed, retry) = allow_ip srv.limiter x.at.arrived x.ip in
    let (rl', held, secs) = check_entry rl x.at.checked (login_key name) (lock_of srv name) in
    let locked =
      check_entry-Progress rl x.at.checked i til (login_key name) (lock_of srv name) lt five p in
    let body =
      login_body bcrypt x.sql x.at (some (name, x.password)) x.token (with_limiter srv rl) in
    let inner : Stopped srv.accounts body = rw (given, locked) (secs, refl, refl) in
    gate srv.accounts (not allowed) (with_limiter srv rl, too_many_requests retry) body
      (retry, refl, refl) inner

-- Five or more attempts in a row to log in under one name that are answered 401, from whatever
-- addresses, lock the name: until fifteen minutes after the end of the first, any attempt under
-- the name, with whatever password, is answered 429 and changes nothing of the accounts.
pub brute_force_locked :
    (bcrypt : Bcrypt) (srv : Server) (name : Text) (x : Attempt) (more : List Attempt) (y : Attempt)
    → is_blank (trim_space name) ≡ false
    → Sound (lock_of srv name)
    → 4 ≤ length more
    → Rejected bcrypt srv name (x ∷ more)
    → Within x.at.ended (x.at.ended + user_lockout_window) more
    → y.at.checked < x.at.ended + user_lockout_window
    → let later = attempts bcrypt srv name (x ∷ more) in
      let (after, reply) =
        auth_login bcrypt y.sql later y.at y.ip (some (name, y.password)) y.token in
      (retry : ℕ) × (reply ≡ too_many_requests retry) × (after.accounts ≡ later.accounts)
unfolding attempts
brute_force_locked bcrypt srv name x more y given sound four ((e, failed_e), r) w lt =
    let (free, same) = failed_attempt bcrypt srv name x given failed_e in
    let til = x.at.ended + user_lockout_window in
    let srv' = (auth_login bcrypt x.sql srv x.at x.ip (some (name, x.password)) x.token).0 in
    let one = first_rejected x.at.checked x.at.ended (lock_of srv name) sound free in
    locked-Stopped bcrypt (attempts bcrypt srv' name more) name y (1 + length more) til given lt
      (omega arith)
      (run-Rejected bcrypt name more srv' 1 x.at.ended til given (omega arith) w r (rw same one))
