-- ===== src/Auth.antt =====
-- internal/auth/auth.go: the tables of users and sessions, with the schema of internal/db/db.go.
-- An INSERT keeps the unique columns unique, and ids come from AUTOINCREMENT. No statement writes
-- NULL to a recovery column, whose default is "". `Bcrypt` stands for golang.org/x/crypto/bcrypt.
pub mod Accounts
pub mod Middleware
pub mod Runs
pub mod Valid
pub mod Keeps
pub mod Deleted
pub mod Governed
pub mod Admins
pub mod Tokens
pub mod Recovery
pub mod Guard
mod Examples
use nineguard.Base.{
  ℕ, ◌+◌, ◌*◌, ◌/◌, ◌==◌, ◌≡◌, List, [], ◌∷◌, ◌++◌, Option, none, some, Bool, true, false, not,
  ◌&&◌, ◌||◌, ltb, if◌then◌else◌, filter, any,
}
use nineguard.Base.Text.{Text, codes, text_eq, trim_space, is_blank}

-- A row of `users`; the API shows all of it but the two hashes.
pub record UserRow : Type 0 where
  pub id : ℕ
  pub username : Text
  pub display_name : Text
  pub password_hash : Text
  pub role : Text
  pub recovery_question : Text
  pub recovery_answer_hash : Text
  pub created_at : ℕ
  pub last_login_at : Option ℕ

pub record Session : Type 0 where
  pub token : Text
  pub user_id : ℕ
  pub expires_at : ℕ

pub record AuthStore : Type 0 where
  pub users : List UserRow
  pub sessions : List Session
  -- The id of the next user.
  pub next_id : ℕ

abbrev pub empty_store : AuthStore
empty_store = record { users = []; sessions = []; next_id = 1 }

-- Which statements of an operation succeed: `counts` is the query of the number of users or
-- administrators, `reads` that of one user or session, `writes` the main statement, `marks` the
-- UPDATE of `last_login_at`, `opens` the INSERT of a session, `ends` the DELETE of sessions;
-- `cascades` says whether SQLite enforces foreign keys, so that a user's sessions go with the user.
pub record Sql : Type 0 where
  pub counts : Bool
  pub reads : Bool
  pub writes : Bool
  pub marks : Bool
  pub opens : Bool
  pub ends : Bool
  pub cascades : Bool

-- `generate` is given the salt.
pub record Bcrypt : Type 0 where
  pub generate : Text → Text → Option Text
  pub compare_hash : Text → Text → Bool

pub data AuthError : Type 0 where
  database_failed hash_failed token_failed already_set_up bad_credentials no_rows : AuthError
  session_expired last_administrator password_short user_not_found administrator : AuthError
  empty_question answer_short no_question empty_name : AuthError
  -- `RecoveryError`, whose text is the same for all three.
  recovery_user_unknown recovery_not_set recovery_answer_wrong : AuthError

pub data Result {ℓ} (A : Type ℓ) : Type ℓ where
  ok : A → Result A
  err : AuthError → Result A

-- `User`, as the API shows it.
pub record User : Type 0 where
  pub id : ℕ
  pub username : Text
  pub display_name : Text
  pub role : Text
  pub created_at : ℕ
  pub last_login_at : Option ℕ
  pub has_recovery : Bool
  pub recovery_question : Text

abbrev pub admin : Text
admin = codes "admin"

-- 30 days.
abbrev pub session_length : ℕ
session_length = 30 * 24 * 3600 * 1000000000

-- `CURRENT_TIMESTAMP` has whole seconds.
abbrev pub current_timestamp : ℕ → ℕ
current_timestamp now = now / 1000000000 * 1000000000

-- What the operations scan into a `User`.
abbrev pub user_of : UserRow → User
user_of r = record {
  id = r.id;
  username = r.username;
  display_name = r.display_name;
  role = r.role;
  created_at = r.created_at;
  last_login_at = r.last_login_at;
  has_recovery = not (is_blank (trim_space r.recovery_answer_hash));
  recovery_question = r.recovery_question;
}

-- The queries by a unique column.
unfoldable pub find_name : Text → List UserRow → Option UserRow
find_name name [] = none
find_name name (r ∷ rs) = if text_eq name r.username then some r else find_name name rs

unfoldable pub find_user : ℕ → List UserRow → Option UserRow
find_user id [] = none
find_user id (r ∷ rs) = if id == r.id then some r else find_user id rs

unfoldable pub find_session : Text → List Session → Option Session
find_session token [] = none
find_session token (s ∷ ss) = if text_eq token s.token then some s else find_session token ss

-- `UPDATE … WHERE id = ?` and `DELETE … WHERE id = ?`.
unfoldable pub update_user_row : ℕ → (UserRow → UserRow) → List UserRow → List UserRow
update_user_row id f [] = []
update_user_row id f (r ∷ rs) = (if id == r.id then f r else r) ∷ update_user_row id f rs

unfoldable pub delete_user_row : ℕ → List UserRow → List UserRow
delete_user_row id rs = filter (λ r. not (id == r.id)) rs

-- `DELETE FROM sessions`, by token and by user.
unfoldable pub delete_token : Text → List Session → List Session
delete_token token ss = filter (λ s. not (text_eq token s.token)) ss

unfoldable pub delete_sessions_of : ℕ → List Session → List Session
delete_sessions_of id ss = filter (λ s. not (id == s.user_id)) ss

abbrev pub has_row {ℓ} : {A : Type ℓ} → Option A → Bool
has_row none = false
has_row (some a) = true

abbrev pub is_admin : UserRow → Bool
is_admin r = text_eq r.role admin

unfoldable pub count_admins : List UserRow → ℕ
count_admins [] = 0
count_admins (r ∷ rs) = (if is_admin r then 1 else 0) + count_admins rs

-- `if role != "admin" { role = "operator" }`.
abbrev pub normal_role : Text → Text
normal_role role = if text_eq role admin then role else codes "operator"

-- The INSERT of a user; the username is UNIQUE.
unfoldable pub insert_user :
    Sql → AuthStore → ℕ → Text → Text → Text → Text → Option ℕ → AuthStore × Result User
insert_user o st now username display_name hash role last_login =
    if not o.writes || has_row (find_name username st.users)
    then (st, err database_failed)
    else let r : UserRow = record {
      id = st.next_id;
      username = username;
      display_name = display_name;
      password_hash = hash;
      role = role;
      recovery_question = [];
      recovery_answer_hash = [];
      created_at = current_timestamp now;
      last_login_at = last_login;
    } in
      (
        record st { users = st.users ++ (r ∷ []); next_id = st.next_id + 1 },
        ok (record (user_of r) {
          created_at = now;
          last_login_at = none;
          has_recovery = false;
          recovery_question = [];
        }),
      )

-- `createSession`, with what `crypto/rand` gave.
unfoldable pub create_session : Sql → AuthStore → ℕ → ℕ → Option Text → AuthStore × Result Text
create_session o st now id none = (st, err token_failed)
create_session o st now id (some token) =
    if not o.opens || has_row (find_session token st.sessions) then (st, err database_failed) else (
      record st {
        sessions =
            record { token = token; user_id = id; expires_at = now + session_length } ∷ st.sessions;
      },
      ok token,
    )

-- A session for a user who was let in.
abbrev pub signed_in : User → AuthStore × Result Text → AuthStore × Result (User × Text)
signed_in u (st, ok token) = (st, ok (u, token))
signed_in u (st, err e) = (st, err e)

-- `Logout`.
unfoldable pub logout : Sql → AuthStore → Text → AuthStore × Result (Unit {0})
logout o st token =
    if o.ends
    then (record st { sessions = delete_token token st.sessions }, ok tt)
    else (st, err database_failed)

-- `ValidateSession`, on the joined row.
abbrev pub with_user : Session → Option UserRow → Option (Session × UserRow)
with_user s none = none
with_user s (some r) = some (s, r)

abbrev pub joined : Option Session → List UserRow → Option (Session × UserRow)
joined none users = none
joined (some s) users = with_user s (find_user s.user_id users)

abbrev pub check_expiry :
    Sql → AuthStore → ℕ → Text → Option (Session × UserRow) → AuthStore × Result User
check_expiry o st now token none = (st, err no_rows)
check_expiry o st now token (some (s, r)) =
    if ltb s.expires_at now
    then (
      (if o.ends then record st { sessions = delete_token token st.sessions } else st),
      err session_expired,
    )
    else (st, ok (user_of r))

unfoldable pub validate_session : Sql → AuthStore → ℕ → Text → AuthStore × Result User
validate_session o st now token =
    if o.reads
    then check_expiry o st now token (joined (find_session token st.sessions) st.users)
    else (st, err database_failed)
