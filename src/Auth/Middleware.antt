-- ===== src/Auth/Middleware.antt =====
-- internal/auth/auth.go: who a request is from, and which requests need a user. A request is its path
-- and its session cookie; what comes out is the user in the context of the next handler.
use nineguard.Base.{ℕ, [], Option, none, some, Bool, true, not, ◌||◌, if◌then◌else◌}
use nineguard.Base.Text.{Text, codes, text_eq, has_prefix}
use nineguard.Auth.{AuthStore, Sql, Result, ok, err, User, admin, validate_session}

pub data Outcome : Type 0 where
  -- The next handler runs, with the user that its context has.
  served : Option User → Outcome
  -- 401.
  authentication_required invalid_session : Outcome

-- The user while authentication is off.
abbrev pub dummy_admin : User
dummy_admin = record {
  id = 1;
  username = admin;
  display_name = codes "Administrator";
  role = admin;
  created_at = 0;
  last_login_at = none;
  has_recovery = true;
  recovery_question = [];
}

abbrev pub serve_valid : AuthStore × Result User → AuthStore × Outcome
serve_valid (st, ok u) = (st, served (some u))
serve_valid (st, err e) = (st, served none)

abbrev pub require_valid : AuthStore × Result User → AuthStore × Outcome
require_valid (st, ok u) = (st, served (some u))
require_valid (st, err e) = (st, invalid_session)

abbrev pub by_cookie : Sql → AuthStore → ℕ → Option Text → AuthStore × Outcome
by_cookie o st now none = (st, served none)
by_cookie o st now (some token) = serve_valid (validate_session o st now token)

abbrev pub require_cookie : Sql → AuthStore → ℕ → Option Text → AuthStore × Outcome
require_cookie o st now none = (st, authentication_required)
require_cookie o st now (some token) = require_valid (validate_session o st now token)

-- `Middleware`.
unfoldable pub middleware : Bool → Sql → AuthStore → ℕ → Option Text → AuthStore × Outcome
middleware auth_enabled o st now cookie =
    if not auth_enabled then (st, served (some dummy_admin)) else by_cookie o st now cookie

abbrev pub is_exempt : Text → Bool
is_exempt path =
    not (has_prefix path (codes "/api/v1/"))
    || has_prefix path (codes "/api/v1/auth/")
    || text_eq path (codes "/api/v1/config")

-- `RequireAuthMiddleware`.
unfoldable pub require_auth_middleware :
    Bool → Sql → AuthStore → ℕ → Text → Option Text → AuthStore × Outcome
unfolding middleware
require_auth_middleware auth_enabled o st now path cookie =
    if is_exempt path
    then middleware auth_enabled o st now cookie
    else if not auth_enabled
    then middleware auth_enabled o st now cookie
    else require_cookie o st now cookie
