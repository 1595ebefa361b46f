-- ===== src/Auth/Guard.antt =====
-- Which requests `RequireAuthMiddleware` lets through.
use nineguard.Base.{ℕ, ◌≤◌, ◌≡◌, refl, List, Option, none, some, true, false}
use nineguard.Base.Text.{Text}
use nineguard.Auth.{
  Session, AuthStore, Sql, Bcrypt, Result, ok, err, User, empty_store, validate_session,
}
use nineguard.Auth.Middleware.{
  served, require_valid, require_cookie, is_exempt, require_auth_middleware,
}
use nineguard.Auth.Runs.{Event, run}
use nineguard.Auth.Tokens.{sign_ins, Known, validate_session-signed_in}

require_valid-served :
    (m : AuthStore × Result User) {who : Option User}
    → (require_valid m).1 ≡ served who
    → (u : User) × (who ≡ some u) × (m.1 ≡ ok u)
require_valid-served (st, ok u) e = (u, cc, refl)
require_valid-served (st, err x) e = cc

require_cookie-served :
    (o : Sql) (st : AuthStore) (now : ℕ) (cookie : Option Text) {who : Option User}
    → (require_cookie o st now cookie).1 ≡ served who
    → (token : Text) × (u : User) × (cookie ≡ some token)
      × (who ≡ some u)
      × ((validate_session o st now token).1 ≡ ok u)
require_cookie-served o st now none e = cc
require_cookie-served o st now (some token) e =
    let (u, who, valid) = require_valid-served (validate_session o st now token) e in
    (token, u, refl, who, valid)

-- While authentication is on, and after any operations on empty tables, a request for a path that is
-- not exempt is served only with the cookie of a session that a `Setup` or `Login` opened under that
-- token for the user whom the handler sees, at most thirty days before.
pub require_auth-signed_in :
    (bcrypt : Bcrypt) (cs : List Event) (o : Sql) (now : ℕ) (path : Text) (cookie : Option Text)
    (who : Option User)
    → is_exempt path ≡ false
    → (require_auth_middleware true o (run bcrypt empty_store cs) now path cookie).1 ≡ served who
    → (token : Text) × (u : User) × (s : Session) × (cookie ≡ some token)
      × (who ≡ some u)
      × Known (sign_ins bcrypt empty_store cs) s
      × (s.token ≡ token)
      × (s.user_id ≡ u.id)
      × (now ≤ s.expires_at)
unfolding require_auth_middleware
require_auth-signed_in bcrypt cs o now path cookie who guarded e =
    let st = run bcrypt empty_store cs in
    let (token, u, sent, seen, valid) = require_cookie-served o st now cookie (rw guarded at e) in
    let (s, known, named, owner, le) = validate_session-signed_in bcrypt cs o now token u valid in
    (token, u, s, sent, seen, known, named, owner, le)
