-- ===== src/Handler.antt =====
-- internal/handler/handler.go: the handlers of sign-in and recovery, which put the limiter before the
-- accounts. A request is its decoded parts, with `none` for a body that does not decode; audit and log
-- lines are left out. `Clock` has the readings of the clock of one request.
pub mod Users
pub mod BruteForce
mod Examples
use nineguard.Base.{
  ℕ, ◌+◌, List, [], ◌∷◌, Option, none, some, Bool, true, false, not, ◌||◌, ltb, if◌then◌else◌,
  length,
}
use nineguard.Base.Text.{Text, codes, trim_space, is_blank}
use nineguard.Base.Split.{split_byte}
use nineguard.RateLimit.{
  RateLimiter, allow_ip, is_user_locked, record_user_failure, record_user_success,
}
use nineguard.Auth.{logout, AuthStore, Sql, Bcrypt, AuthError, Result, ok, err, User}
use nineguard.Auth.Accounts.{
  update_profile, set_up, login, change_password, set_recovery_question, get_recovery_question,
  recover_password,
}

-- When the address is checked, when the lock is, and when the attempt ends.
pub record Clock : Type 0 where
  pub arrived : ℕ
  pub checked : ℕ
  pub ended : ℕ

pub record Server : Type 0 where
  pub limiter : RateLimiter
  pub accounts : AuthStore

pub data Reply : Type 0 where
  -- 429, with `Retry-After`.
  too_many_requests : ℕ → Reply
  -- A status with a fixed text, and one with the text of an error.
  refused : ℕ → Reply
  failed : ℕ → AuthError → Reply
  -- 200; `session` also sets the cookie, which is `Secure` behind TLS.
  done : Reply
  session : User → Text → Reply
  account : User → Reply
  accounts : List User → Reply
  question : Text → Text → Reply

-- `strings.Split(forwarded, ",")[0]`.
abbrev first_part : List Text → Text
first_part [] = []
first_part (p ∷ ps) = p

-- `getClientIP`; `split_host_port` is `net.SplitHostPort`.
unfoldable pub get_client_ip : (Text → Option Text) → Text → Text → Text
get_client_ip split_host_port forwarded remote_addr =
    let ip = trim_space (first_part (split_byte b',' forwarded)) in
    if not (is_blank forwarded || is_blank ip)
    then ip
    else elim (split_host_port remote_addr) [ none ↦ remote_addr | some host ↦ host ]

abbrev pub with_limiter : Server → RateLimiter → Server
with_limiter srv rl = record srv { limiter = rl }

-- `checkIPLimit` before a handler: a refused request goes no further.
unfoldable pub check_ip_limit : Server → ℕ → Text → (Server → Server × Reply) → Server × Reply
check_ip_limit srv now ip next =
    let (rl, allowed, retry) = allow_ip srv.limiter now ip in
    if not allowed
    then (with_limiter srv rl, too_many_requests retry)
    else next (with_limiter srv rl)

-- `IsUserLocked` before an attempt.
unfoldable pub unless_locked : Server → ℕ → Text → Text → (Server → Server × Reply) → Server × Reply
unless_locked srv now action username next =
    let (rl, locked, retry) = is_user_locked srv.limiter now action username in
    if locked then (with_limiter srv rl, too_many_requests retry) else next (with_limiter srv rl)

-- What the limiter is told of an attempt.
abbrev pub note_failure : Server → ℕ → Text → Text → Server
note_failure srv now action username =
    with_limiter srv (record_user_failure srv.limiter now action username).0

abbrev pub note_success : Server → Text → Text → Server
note_success srv action username =
    with_limiter srv (record_user_success srv.limiter action username)

abbrev pub login_reply : Server → ℕ → Text → AuthStore × Result (User × Text) → Server × Reply
login_reply srv now username (st, err e) =
    (note_failure (record srv { accounts = st }) now (codes "login") username, failed 401 e)
login_reply srv now username (st, ok (u, token)) =
    (note_success (record srv { accounts = st }) (codes "login") username, session u token)

abbrev pub recovery_reply : Server → ℕ → Text → AuthStore × Result (Unit {0}) → Server × Reply
recovery_reply srv now username (st, err e) =
    (note_failure (record srv { accounts = st }) now (codes "recovery") username, refused 400)
recovery_reply srv now username (st, ok t) =
    (note_success (record srv { accounts = st }) (codes "recovery") username, done)

abbrev pub setup_reply : Server → AuthStore × Result (User × Text) → Server × Reply
setup_reply srv (st, err e) = (record srv { accounts = st }, failed 400 e)
setup_reply srv (st, ok (u, token)) = (record srv { accounts = st }, session u token)

abbrev pub or_done : ℕ → Server → AuthStore × Result (Unit {0}) → Server × Reply
or_done status srv (st, err e) = (record srv { accounts = st }, failed status e)
or_done status srv (st, ok t) = (record srv { accounts = st }, done)

-- The current password is asked for by a login, which opens a session of its own.
abbrev pub confirmed :
    Server → AuthStore × Result (User × Text) → (Server → Server × Reply) → Server × Reply
confirmed srv (st, err e) next = (record srv { accounts = st }, refused 400)
confirmed srv (st, ok u) next = next (record srv { accounts = st })

-- The question that is shown: a decoy where there is none. `decoy` is `DecoyRecoveryQuestion`.
abbrev pub question_or : Text → Result Text → Text
question_or decoy (ok q) = q
question_or decoy (err e) = decoy

-- `AuthLogout`; the cookie is cleared in any case.
unfoldable pub auth_logout : Sql → Server → Option Text → Server × Reply
auth_logout o srv none = (srv, done)
auth_logout o srv (some token) = (record srv { accounts = (logout o srv.accounts token).0 }, done)

-- `GetProfile` and `UpdateProfile`.
unfoldable pub get_profile : Server → Option User → Server × Reply
get_profile srv none = (srv, refused 401)
get_profile srv (some u) = (srv, account u)

abbrev pub updated : Server → AuthStore × Result User → Server × Reply
updated srv (st, ok u) = (record srv { accounts = st }, account u)
updated srv (st, err e) = (record srv { accounts = st }, failed 400 e)

unfoldable pub update_profile_handler : Sql → Server → Option User → Option Text → Server × Reply
update_profile_handler o srv none body = (srv, refused 401)
update_profile_handler o srv (some u) none = (srv, refused 400)
update_profile_handler o srv (some u) (some display_name) =
    updated srv (update_profile o srv.accounts u.id display_name)

-- `GetRecoveryQuestion`.
unfoldable pub get_recovery_question_handler :
    (Text → Text) → Sql → Server → ℕ → Text → Text → Server × Reply
get_recovery_question_handler decoy o srv now ip raw_username = check_ip_limit srv now ip (λ srv.
    let username = trim_space raw_username in
    if is_blank username then (srv, refused 400) else (
      srv,
      question raw_username
          (question_or (decoy username) (get_recovery_question o srv.accounts username)),
    ))

module _ (bcrypt : Bcrypt) where
  -- `AuthSetup`.
  unfoldable pub auth_setup :
      Sql → Server → ℕ → Option (Text × Text) → Text → Option Text → Server × Reply
  auth_setup o srv now none salt token = (srv, refused 400)
  auth_setup o srv now (some (username, password)) salt token =
      if ltb (length username) 2 || ltb (length password) 6
      then (srv, refused 400)
      else setup_reply srv (set_up bcrypt o srv.accounts now username password salt token)

  abbrev pub login_body : Sql → Clock → Option (Text × Text) → Option Text → Server → Server × Reply
  login_body o t none token srv = (srv, refused 400)
  login_body o t (some (raw_username, password)) token srv =
      let username = trim_space raw_username in
      if is_blank username
      then (srv, refused 400)
      else unless_locked srv t.checked (codes "login") username (λ srv.
        login_reply srv t.ended username
          (login bcrypt o srv.accounts t.ended username password token))

  -- `AuthLogin`.
  unfoldable pub auth_login :
      Sql → Server → Clock → Text → Option (Text × Text) → Option Text → Server × Reply
  auth_login o srv t ip body token = check_ip_limit srv t.arrived ip (login_body o t body token)

  abbrev pub recovery_body :
      Sql → Clock → Option (Text × Text × Text) → Text → Server → Server × Reply
  recovery_body o t none salt srv = (srv, refused 400)
  recovery_body o t (some (raw_username, answer, password)) salt srv =
      let username = trim_space raw_username in
      if is_blank username || is_blank (trim_space answer)
      then (srv, refused 400)
      else if ltb (length password) 6
      then (srv, refused 400)
      else unless_locked srv t.checked (codes "recovery") username (λ srv.
        recovery_reply srv t.ended username
          (recover_password bcrypt o srv.accounts username answer password salt))

  -- `RecoverPassword`.
  unfoldable pub recover_password_handler :
      Sql → Server → Clock → Text → Option (Text × Text × Text) → Text → Server × Reply
  recover_password_handler o srv t ip body salt =
      check_ip_limit srv t.arrived ip (recovery_body o t body salt)

  -- `UpdatePassword`, for the user in the context.
  unfoldable pub update_password :
      Sql → Server → ℕ → Option User → Option (Text × Text) → Text → Option Text → Server × Reply
  update_password o srv now none body salt token = (srv, refused 401)
  update_password o srv now (some u) none salt token = (srv, refused 400)
  update_password o srv now (some u) (some (current, password)) salt token =
      confirmed srv (login bcrypt o srv.accounts now u.username current token)
        (λ srv. or_done 400 srv (change_password bcrypt o srv.accounts u.id password salt))

  -- `SetRecoveryQuestion`; without authentication the password is not asked for.
  unfoldable pub set_recovery_question_handler :
      Bool
      → Sql
      → Server
      → ℕ
      → Option User
      → Option (Text × Text × Text)
      → Text
      → Option Text
      → Server × Reply
  set_recovery_question_handler auth_enabled o srv now none body salt token = (srv, refused 401)
  set_recovery_question_handler auth_enabled o srv now (some u) none salt token = (srv, refused 400)
  set_recovery_question_handler auth_enabled o srv now (some u) (some (q, answer, current)) salt
        token =
      if is_blank (trim_space q) || is_blank (trim_space answer)
      then (srv, refused 400)
      else let set = λ (srv : Server).
        or_done 400 srv (set_recovery_question bcrypt o srv.accounts u.id q answer salt) in
        if auth_enabled
        then confirmed srv (login bcrypt o srv.accounts now u.username current token) set
        else set srv
