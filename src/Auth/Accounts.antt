-- ===== src/Auth/Accounts.antt =====
-- internal/auth/auth.go: the operations on accounts. What `crypto/rand` gives is an argument: the token
-- of a session, if there is one, and the salt of a hash.
use nineguard.Base.{
  ℕ, ◌==◌, List, [], ◌∷◌, Option, none, some, Bool, true, false, not, ◌&&◌, ◌||◌, ltb, leb,
  if◌then◌else◌, length, map,
}
use nineguard.Base.Text.{Text, trim_space, to_lower, is_blank}
use nineguard.Auth.{
  UserRow, AuthStore, Sql, Bcrypt, database_failed, hash_failed, already_set_up, bad_credentials,
  no_rows, last_administrator, password_short, user_not_found, administrator, empty_question,
  answer_short, no_question, empty_name, recovery_user_unknown, recovery_not_set,
  recovery_answer_wrong, Result, ok, err, User, admin, current_timestamp, user_of, find_name,
  find_user, update_user_row, delete_user_row, delete_sessions_of, is_admin, count_admins,
  normal_role, insert_user, create_session, signed_in,
}

abbrev pub no_users : List UserRow → Bool
no_users [] = true
no_users (r ∷ rs) = false

-- `NeedsSetup`.
unfoldable pub needs_setup : Sql → AuthStore → Result Bool
needs_setup o st = if o.counts then ok (no_users st.users) else err database_failed

-- An UPDATE of one user's row that fails as a whole or changes the row, if there is one.
abbrev pub write_user : Sql → AuthStore → ℕ → (UserRow → UserRow) → AuthStore × Result (Unit {0})
write_user o st id f =
    if o.writes
    then (record st { users = update_user_row id f st.users }, ok tt)
    else (st, err database_failed)

abbrev pub read_back : Sql → AuthStore → ℕ → Option UserRow → AuthStore × Result User
read_back o st id none = (st, err no_rows)
read_back o st id (some r) = (st, if o.reads then ok (user_of r) else err database_failed)

-- … and then the row is read.
abbrev pub then_read : Sql → ℕ → AuthStore × Result (Unit {0}) → AuthStore × Result User
then_read o id (st, ok t) = read_back o st id (find_user id st.users)
then_read o id (st, err e) = (st, err e)

-- `DELETE FROM sessions WHERE user_id = ?` after a change that succeeded; its error is ignored.
abbrev pub then_end_sessions :
    Sql → ℕ → AuthStore × Result (Unit {0}) → AuthStore × Result (Unit {0})
then_end_sessions o id (st, ok t) =
    ((if o.ends then record st { sessions = delete_sessions_of id st.sessions } else st), ok t)
then_end_sessions o id (st, err e) = (st, err e)

abbrev pub role_is_admin : Option UserRow → Bool
role_is_admin none = false
role_is_admin (some r) = is_admin r

-- `ListUsers`, in the order of the ids.
unfoldable pub list_users : Sql → AuthStore → Result (List User)
list_users o st = if o.reads then ok (map user_of st.users) else err database_failed

-- The user is an administrator, and no other is counted; a query that fails leaves "" or 0.
abbrev pub is_last_admin : Sql → AuthStore → ℕ → Bool
is_last_admin o st id =
    o.reads
    && role_is_admin (find_user id st.users)
    && leb (if o.counts then count_admins st.users else 0) 1

abbrev pub without_user : Sql → AuthStore → ℕ → AuthStore
without_user o st id = record st {
  users = delete_user_row id st.users;
  sessions = if o.cascades then delete_sessions_of id st.sessions else st.sessions;
}

-- `DeleteUser`.
unfoldable pub delete_user : Sql → AuthStore → ℕ → AuthStore × Result (Unit {0})
delete_user o st id =
    if is_last_admin o st id
    then (st, err last_administrator)
    else if o.writes
    then (without_user o st id, ok tt)
    else (st, err database_failed)

-- Another user has the name.
abbrev pub name_taken : ℕ → Option UserRow → Bool
name_taken id none = false
name_taken id (some r) = not (id == r.id)

-- The columns that `UpdateUser` sets.
abbrev pub edited_user : Text → Text → Text → UserRow → UserRow
edited_user username display_name role r = record r {
  username = username;
  display_name = display_name;
  role = normal_role role;
}

-- `UpdateUser`; the username stays UNIQUE.
unfoldable pub update_user : Sql → AuthStore → ℕ → Text → Text → Text → AuthStore × Result User
update_user o st id username display_name role =
    if name_taken id (find_name username st.users)
    then (st, err database_failed)
    else then_read o id (write_user o st id (edited_user username display_name role))

-- `UpdateProfile`.
unfoldable pub update_profile : Sql → AuthStore → ℕ → Text → AuthStore × Result User
update_profile o st id display_name =
    if is_blank (trim_space display_name)
    then (st, err empty_name)
    else then_read o id
        (write_user o st id (λ r. record r { display_name = trim_space display_name }))

abbrev pub unless_admin_row :
    AuthStore → Option UserRow → AuthStore × Result (Unit {0}) → AuthStore × Result (Unit {0})
unless_admin_row st none done = (st, err user_not_found)
unless_admin_row st (some r) done = if is_admin r then (st, err administrator) else done

-- What the operations that an administrator has on other users ask first.
abbrev pub unless_admin :
    Sql → AuthStore → Option UserRow → AuthStore × Result (Unit {0}) → AuthStore × Result (Unit {0})
unless_admin o st found done =
    if not o.reads then (st, err database_failed) else unless_admin_row st found done

-- `ResetUserRecovery`.
unfoldable pub reset_user_recovery : Sql → AuthStore → ℕ → AuthStore × Result (Unit {0})
reset_user_recovery o st id =
    unless_admin o st (find_user id st.users)
      (write_user o st id (λ r. record r { recovery_question = []; recovery_answer_hash = [] }))

abbrev pub question_of : Option UserRow → Result Text
question_of none = err user_not_found
question_of (some r) =
    if is_blank (trim_space r.recovery_answer_hash) || is_blank (trim_space r.recovery_question)
    then err no_question
    else ok r.recovery_question

-- `GetRecoveryQuestion`.
unfoldable pub get_recovery_question : Sql → AuthStore → Text → Result Text
get_recovery_question o st username =
    if o.reads then question_of (find_name (trim_space username) st.users) else err database_failed

-- `createSession` for a user who was just inserted.
abbrev pub open_session :
    Sql → ℕ → Option Text → AuthStore × Result User → AuthStore × Result (User × Text)
open_session o now token (st, ok u) = signed_in u (create_session o st now u.id token)
open_session o now token (st, err e) = (st, err e)

module _ (bcrypt : Bcrypt) where
  abbrev pub set_up_with :
      Sql → AuthStore → ℕ → Text → Option Text → Option Text → AuthStore × Result (User × Text)
  set_up_with o st now username token none = (st, err hash_failed)
  set_up_with o st now username token (some hash) =
      open_session o now token
        (insert_user o st now username username hash admin (some (current_timestamp now)))

  -- `Setup`.
  unfoldable pub set_up :
      Sql → AuthStore → ℕ → Text → Text → Text → Option Text → AuthStore × Result (User × Text)
  set_up o st now username password salt token =
      if not o.counts
      then (st, err database_failed)
      else if not (no_users st.users)
      then (st, err already_set_up)
      else set_up_with o st now username token (bcrypt.generate salt password)

  -- `Login`, on the row of the username; an unknown user costs a comparison with a dummy hash.
  abbrev pub login_row :
      Sql → AuthStore → ℕ → Text → Option Text → Option UserRow → AuthStore × Result (User × Text)
  login_row o st now password token none = (st, err bad_credentials)
  login_row o st now password token (some r) =
      if bcrypt.compare_hash r.password_hash password
      then signed_in (user_of r) (
          create_session o
            (if o.marks
              then record st {
                users =
                    update_user_row r.id
                      (λ x. record x { last_login_at = some (current_timestamp now) }) st.users;
              }
              else st)
            now r.id token)
      else (st, err bad_credentials)

  unfoldable pub login :
      Sql → AuthStore → ℕ → Text → Text → Option Text → AuthStore × Result (User × Text)
  login o st now username password token =
      if not o.reads
      then (st, err database_failed)
      else login_row o st now password token (find_name username st.users)

  abbrev pub create_user_with :
      Sql → AuthStore → ℕ → Text → Text → Text → Option Text → AuthStore × Result User
  create_user_with o st now username display_name role none = (st, err hash_failed)
  create_user_with o st now username display_name role (some hash) =
      insert_user o st now username display_name hash (normal_role role) none

  -- `CreateUser`.
  unfoldable pub create_user :
      Sql → AuthStore → ℕ → Text → Text → Text → Text → Text → AuthStore × Result User
  create_user o st now username display_name password role salt =
      create_user_with o st now username display_name role (bcrypt.generate salt password)

  abbrev pub write_hash : Sql → AuthStore → ℕ → Option Text → AuthStore × Result (Unit {0})
  write_hash o st id none = (st, err hash_failed)
  write_hash o st id (some hash) = write_user o st id (λ r. record r { password_hash = hash })

  -- `ChangePassword`; it ends no session.
  unfoldable pub change_password : Sql → AuthStore → ℕ → Text → Text → AuthStore × Result (Unit {0})
  change_password o st id password salt = write_hash o st id (bcrypt.generate salt password)

  -- `ResetUserPassword`.
  unfoldable pub reset_user_password :
      Sql → AuthStore → ℕ → Text → Text → AuthStore × Result (Unit {0})
  unfolding change_password
  reset_user_password o st id password salt =
      if ltb (length password) 6
      then (st, err password_short)
      else unless_admin o st (find_user id st.users)
          (then_end_sessions o id (change_password o st id password salt))

  abbrev pub write_recovery :
      Sql → AuthStore → ℕ → Text → Option Text → AuthStore × Result (Unit {0})
  write_recovery o st id question none = (st, err hash_failed)
  write_recovery o st id question (some hash) =
      write_user o st id
        (λ r. record r { recovery_question = question; recovery_answer_hash = hash })

  -- `SetRecoveryQuestion`.
  unfoldable pub set_recovery_question :
      Sql → AuthStore → ℕ → Text → Text → Text → AuthStore × Result (Unit {0})
  set_recovery_question o st id question answer salt =
      let answer' = trim_space (to_lower answer) in
      if is_blank (trim_space question)
      then (st, err empty_question)
      else if ltb (length answer') 2
      then (st, err answer_short)
      else write_recovery o st id (trim_space question) (bcrypt.generate salt answer')

  abbrev pub recover_row :
      Sql → AuthStore → Text → Text → Text → Option UserRow → AuthStore × Result (Unit {0})
  recover_row o st answer password salt none = (st, err recovery_user_unknown)
  recover_row o st answer password salt (some r) =
      if is_blank (trim_space r.recovery_answer_hash)
      then (st, err recovery_not_set)
      else if not (bcrypt.compare_hash r.recovery_answer_hash (trim_space (to_lower answer)))
      then (st, err recovery_answer_wrong)
      else then_end_sessions o r.id (change_password o st r.id password salt)

  -- `RecoverPassword`.
  unfoldable pub recover_password :
      Sql → AuthStore → Text → Text → Text → Text → AuthStore × Result (Unit {0})
  unfolding change_password
  recover_password o st username answer password salt =
      if ltb (length password) 6
      then (st, err password_short)
      else if not o.reads
      then (st, err database_failed)
      else recover_row o st answer password salt (find_name (trim_space username) st.users)
