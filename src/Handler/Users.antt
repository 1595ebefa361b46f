-- ===== src/Handler/Users.antt =====
-- internal/handler/handler.go: the handlers of user management. The id in the path is a number, or
-- `none` where it does not parse; a negative one, which no row has, is left out.
use nineguard.Base.{ℕ, ◌==◌, List, Option, none, some, Bool, not, ◌&&◌, if◌then◌else◌}
use nineguard.Base.Text.{Text, text_eq, is_blank}
use nineguard.Auth.{AuthStore, Sql, Bcrypt, AuthError, administrator, Result, ok, err, User, admin}
use nineguard.Auth.Accounts.{
  list_users, delete_user, create_user, reset_user_password, reset_user_recovery,
}
use nineguard.Handler.{Server, Reply, refused, failed, done, accounts, or_done, updated}

-- Only an administrator goes on.
abbrev pub as_admin : Server → Option User → (User → Server × Reply) → Server × Reply
as_admin srv none next = (srv, refused 403)
as_admin srv (some u) next = if text_eq u.role admin then next u else (srv, refused 403)

abbrev pub users_listed : Server → Result (List User) → Server × Reply
users_listed srv (ok us) = (srv, accounts us)
users_listed srv (err e) = (srv, refused 500)

-- `strings.Contains(err.Error(), "cannot reset")`.
abbrev reset_status : AuthError → ℕ
reset_status administrator = 403
reset_status e = 400

-- A reset, and what is done after it succeeded.
abbrev pub reset_then :
    Server → AuthStore × Result (Unit {0}) → (Server → Server × Reply) → Server × Reply
reset_then srv (st, err e) next = (record srv { accounts = st }, failed (reset_status e) e)
reset_then srv (st, ok t) next = next (record srv { accounts = st })

abbrev pub reply_done : Server → Server × Reply
reply_done srv = (srv, done)

-- `ListUsers`.
unfoldable pub list_users_handler : Sql → Server → Option User → Server × Reply
list_users_handler o srv user =
    as_admin srv user (λ u. users_listed srv (list_users o srv.accounts))

-- `DeleteUser`.
unfoldable pub delete_user_handler : Sql → Server → Option User → Option ℕ → Server × Reply
delete_user_handler o srv user none = as_admin srv user (λ u. (srv, refused 400))
delete_user_handler o srv user (some id) = as_admin srv user (λ u.
    if u.id == id then (srv, refused 400) else or_done 400 srv (delete_user o srv.accounts id))

-- `ResetUserRecovery`.
unfoldable pub reset_user_recovery_handler : Sql → Server → Option User → Option ℕ → Server × Reply
reset_user_recovery_handler o srv user none = as_admin srv user (λ u. (srv, refused 400))
reset_user_recovery_handler o srv user (some id) =
    as_admin srv user (λ u. reset_then srv (reset_user_recovery o srv.accounts id) reply_done)

module _ (bcrypt : Bcrypt) where
  -- `CreateUser`.
  unfoldable pub create_user_handler :
      Sql → Server → ℕ → Option User → Option (Text × Text × Text × Text) → Text → Server × Reply
  create_user_handler o srv now user none salt = as_admin srv user (λ u. (srv, refused 400))
  create_user_handler o srv now user (some (username, display_name, password, role)) salt =
      as_admin srv user (λ u.
        updated srv
          (create_user bcrypt o srv.accounts now username display_name password role salt))

  -- `ResetUserPassword`.
  unfoldable pub reset_user_password_handler :
      Sql → Server → Option User → Option ℕ → Option Text → Text → Server × Reply
  reset_user_password_handler o srv user (some id) (some password) salt =
      as_admin srv user (λ u.
        reset_then srv (reset_user_password bcrypt o srv.accounts id password salt) reply_done)
  reset_user_password_handler o srv user _ _ salt = as_admin srv user (λ u. (srv, refused 400))

  abbrev pub reset_body : Sql → Server → ℕ → Text → Bool → Text → Server × Reply
  reset_body o srv id password recovery salt =
      let then_recovery = λ (srv : Server).
        if recovery
        then reset_then srv (reset_user_recovery o srv.accounts id) reply_done
        else reply_done srv in
      if is_blank password && not recovery
      then (srv, refused 400)
      else if is_blank password
      then then_recovery srv
      else reset_then srv (reset_user_password bcrypt o srv.accounts id password salt) then_recovery

  -- `ResetUser`.
  unfoldable pub reset_user_handler :
      Sql → Server → Option User → Option ℕ → Option (Text × Bool) → Text → Server × Reply
  reset_user_handler o srv user (some id) (some (password, recovery)) salt =
      as_admin srv user (λ u. reset_body o srv id password recovery salt)
  reset_user_handler o srv user _ _ salt = as_admin srv user (λ u. (srv, refused 400))
