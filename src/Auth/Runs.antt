-- ===== src/Auth/Runs.antt =====
-- Sequences of the operations of internal/auth/auth.go that change the tables. The database has one
-- connection, and every operation here is one step.
use nineguard.Base.{ℕ, List, [], ◌∷◌, Option, none, some, ◌+◌}
use nineguard.Base.Text.{Text}
use nineguard.Auth.{
  Session, Result, ok, err, User, session_length, AuthStore, Sql, Bcrypt, logout, validate_session,
}
use nineguard.Auth.Accounts.{
  delete_user, update_user, update_profile, reset_user_recovery, set_up, login, create_user,
  change_password, reset_user_password, set_recovery_question, recover_password,
}

-- A call of each, with its arguments.
pub data Call : Type 0 where
  sets_up : Text → Text → Text → Option Text → Call
  logs_in : Text → Text → Option Text → Call
  logs_out : Text → Call
  validates : Text → Call
  creates : Text → Text → Text → Text → Text → Call
  updates : ℕ → Text → Text → Text → Call
  renames : ℕ → Text → Call
  changes_password : ℕ → Text → Text → Call
  deletes : ℕ → Call
  resets_password : ℕ → Text → Text → Call
  resets_recovery : ℕ → Call
  sets_question : ℕ → Text → Text → Text → Call
  recovers : Text → Text → Text → Text → Call

-- A call, the clock, and which of its statements succeed.
abbrev pub Event : Type 0
Event = Sql × ℕ × Call

module _ (bcrypt : Bcrypt) where
  unfoldable pub step : AuthStore → Sql → ℕ → Call → AuthStore
  step st o now (sets_up name password salt token) =
      (set_up bcrypt o st now name password salt token).0
  step st o now (logs_in name password token) = (login bcrypt o st now name password token).0
  step st o now (logs_out token) = (logout o st token).0
  step st o now (validates token) = (validate_session o st now token).0
  step st o now (creates name display password role salt) =
      (create_user bcrypt o st now name display password role salt).0
  step st o now (updates id name display role) = (update_user o st id name display role).0
  step st o now (renames id display) = (update_profile o st id display).0
  step st o now (changes_password id password salt) =
      (change_password bcrypt o st id password salt).0
  step st o now (deletes id) = (delete_user o st id).0
  step st o now (resets_password id password salt) =
      (reset_user_password bcrypt o st id password salt).0
  step st o now (resets_recovery id) = (reset_user_recovery o st id).0
  step st o now (sets_question id question answer salt) =
      (set_recovery_question bcrypt o st id question answer salt).0
  step st o now (recovers name answer password salt) =
      (recover_password bcrypt o st name answer password salt).0

  -- The session that a call opens: a successful `Setup` or `Login` does.
  abbrev session_of : ℕ → Result (User × Text) → Option Session
  session_of now (ok (u, token)) =
      some (record { token = token; user_id = u.id; expires_at = now + session_length })
  session_of now (err e) = none

  unfoldable pub opened_by : AuthStore → Sql → ℕ → Call → Option Session
  opened_by st o now (sets_up name password salt token) =
      session_of now (set_up bcrypt o st now name password salt token).1
  opened_by st o now (logs_in name password token) =
      session_of now (login bcrypt o st now name password token).1
  opened_by st o now _ = none

  unfoldable pub run : AuthStore → List Event → AuthStore
  run st [] = st
  run st ((o, now, c) ∷ cs) = run (step st o now c) cs
