-- ===== src/Auth/Keeps/Steps.antt =====
-- The operations of internal/auth/auth.go keep what the ways to write the tables keep.
use nineguard.Base.{
  filter, not, ℕ, ◌≡◌, refl, inl, inr, List, [], ◌∷◌, Option, none, some, Bool-cases, Bool-cases,
  inl, inr,
}
use nineguard.Base.Text.{Text, text_eq}
use nineguard.Auth.{
  user_of, current_timestamp, delete_token, UserRow, AuthStore, Sql, Bcrypt, find_name, find_user,
  update_user_row, database_failed, logout, validate_session, Session, admin, ok, err,
}
use nineguard.Auth.Accounts.{
  no_users, update_profile, reset_user_recovery, set_up, login, create_user, change_password,
  reset_user_password, set_recovery_question, recover_password, set_up_with, login_row,
  create_user_with, write_hash, write_recovery, recover_row,
}
use nineguard.Auth.Runs.{
  opened_by, Call, sets_up, logs_in, logs_out, validates, creates, updates, renames,
  changes_password, deletes, resets_password, resets_recovery, sets_question, recovers, Event, step,
  run,
}
use nineguard.Auth.Keeps.{
  Closed, Holds, CallKeeps, Signs, session_for, either, store_either, sign_in-keeps,
  insert_user-keeps, open_session-keeps, write_user-keeps, then_read-keeps, then_end_sessions-keeps,
  unless_admin-keeps, check_expiry-keeps,
}

module _ (P : List UserRow → ℕ → List Session → Type 0) (Opens : Session → Type 0)
    (closed : Closed P Opens) where
  module _ (bcrypt : Bcrypt) where
    set_up_with-keeps :
        (o : Sql) (st : AuthStore) (now : ℕ) (name : Text) (token hash : Option Text)
        → Signs P Opens closed now (set_up_with bcrypt o st now name token hash)
        → Holds P st
        → Holds P (set_up_with bcrypt o st now name token hash).0
    set_up_with-keeps o st now name token none signs h = h
    set_up_with-keeps o st now name token (some hash) signs h =
        open_session-keeps P Opens closed o now token _ signs
          (insert_user-keeps P Opens closed o st now name name hash admin _ h)

    login_row-keeps :
        (o : Sql) (st : AuthStore) (now : ℕ) (password : Text) (token : Option Text)
        (found : Option UserRow)
        → Signs P Opens closed now (login_row bcrypt o st now password token found)
        → Holds P st
        → Holds P (login_row bcrypt o st now password token found).0
    login_row-keeps o st now password token none signs h = h
    login_row-keeps o st now password token (some r) signs h =
        elim (Bool-cases (bcrypt.compare_hash r.password_hash password)) [
          | inl e ↦ rw e (
              sign_in-keeps P Opens closed o _ now (user_of r) token (λ u t f. signs u t (rw e f))
                (store_either P Opens closed o.marks
                  (record st {
                    users =
                        update_user_row r.id
                          (λ x. record x { last_login_at = some (current_timestamp now) }) st.users;
                  })
                  st
                  (record {
                    held =
                        closed.edited r.id _ st.users st.next_id st.sessions (λ x. (refl, refl))
                          h.held;
                  })
                  h))
          | inr e ↦ rw e h
        ]

    create_user_with-keeps :
        (o : Sql) (st : AuthStore) (now : ℕ) (name display role : Text) (hash : Option Text)
        → Holds P st
        → Holds P (create_user_with bcrypt o st now name display role hash).0
    create_user_with-keeps o st now name display role none h = h
    create_user_with-keeps o st now name display role (some hash) h =
        insert_user-keeps P Opens closed o st now name display hash _ none h

    write_hash-keeps :
        (o : Sql) (st : AuthStore) (id : ℕ) (hash : Option Text)
        → Holds P st
        → Holds P (write_hash bcrypt o st id hash).0
    write_hash-keeps o st id none h = h
    write_hash-keeps o st id (some hash) h =
        write_user-keeps P Opens closed o st id _ (λ r. (refl, refl)) h

    write_recovery-keeps :
        (o : Sql) (st : AuthStore) (id : ℕ) (question : Text) (hash : Option Text)
        → Holds P st
        → Holds P (write_recovery bcrypt o st id question hash).0
    write_recovery-keeps o st id question none h = h
    write_recovery-keeps o st id question (some hash) h =
        write_user-keeps P Opens closed o st id _ (λ r. (refl, refl)) h

    recover_row-keeps :
        (o : Sql) (st : AuthStore) (answer password salt : Text) (found : Option UserRow)
        → Holds P st
        → Holds P (recover_row bcrypt o st answer password salt found).0
    unfolding change_password
    recover_row-keeps o st answer password salt none h = h
    recover_row-keeps o st answer password salt (some r) h =
        search
          (either {0} P Opens closed, then_end_sessions-keeps P Opens closed, write_hash-keeps, h)

    set_up-keeps :
        (o : Sql) (st : AuthStore) (now : ℕ) (name password salt : Text) (token : Option Text)
        → Signs P Opens closed now (set_up bcrypt o st now name password salt token)
        → Holds P st
        → Holds P (set_up bcrypt o st now name password salt token).0
    unfolding set_up
    set_up-keeps o st now name password salt token signs h = elim (Bool-cases (not o.counts)) [
      | inl e ↦ rw e h
      | inr e ↦ elim (Bool-cases (not (no_users st.users))) [
        | inl used ↦ rw (e, used) h
        | inr free ↦
            rw (e, free)
              (set_up_with-keeps o st now name token (bcrypt.generate salt password)
                (λ u t f. signs u t (rw (e, free) f)) h)
      ]
    ]

    login-keeps :
        (o : Sql) (st : AuthStore) (now : ℕ) (name password : Text) (token : Option Text)
        → Signs P Opens closed now (login bcrypt o st now name password token)
        → Holds P st
        → Holds P (login bcrypt o st now name password token).0
    unfolding login
    login-keeps o st now name password token signs h = elim (Bool-cases (not o.reads)) [
      | inl e ↦ rw e h
      | inr e ↦ rw e (
          login_row-keeps o st now password token (find_name name st.users)
            (λ u t f. signs u t (rw e f)) h)
    ]

    logout-keeps :
        (o : Sql) (st : AuthStore) (token : Text) → Holds P st → Holds P (logout o st token).0
    unfolding logout delete_token
    logout-keeps o st token h =
        let keep = λ (s : Session). not (text_eq token s.token) in
        either P Opens closed o.ends (record st { sessions = filter keep st.sessions }, ok tt)
          (st, err database_failed)
          (record { held = closed.ended keep st.users st.next_id st.sessions h.held }) h

    pub step-keeps :
        (st : AuthStore) (o : Sql) (now : ℕ) (c : Call)
        → CallKeeps P o c
        → ((s : Session) → opened_by bcrypt st o now c ≡ some s → Opens s)
        → Holds P st
        → Holds P (step bcrypt st o now c)
    unfolding step opened_by validate_session create_user update_profile change_password
        reset_user_password reset_user_recovery set_recovery_question recover_password
    step-keeps st o now (sets_up name password salt token) k opens h =
        set_up-keeps o st now name password salt token (λ u t f. opens (session_for now u t) (rw f))
          h
    step-keeps st o now (logs_in name password token) k opens h =
        login-keeps o st now name password token (λ u t f. opens (session_for now u t) (rw f)) h
    step-keeps st o now (logs_out token) k opens h = logout-keeps o st token h
    step-keeps st o now (validates token) k opens h =
        either P Opens closed _ _ _ (check_expiry-keeps P Opens closed o st now token _ h) h
    step-keeps st o now (creates name display password role salt) k opens h =
        create_user_with-keeps o st now name display role (bcrypt.generate salt password) h
    step-keeps st o now (updates id name display role) k opens h = k st h
    step-keeps st o now (renames id display) k opens h = either P Opens closed _ _ _ h (
        then_read-keeps P Opens closed o id _
          (write_user-keeps P Opens closed o st id _ (λ r. (refl, refl)) h))
    step-keeps st o now (changes_password id password salt) k opens h =
        write_hash-keeps o st id (bcrypt.generate salt password) h
    step-keeps st o now (deletes id) k opens h = k st h
    step-keeps st o now (resets_password id password salt) k opens h = search (
      either {0} P Opens closed,
      unless_admin-keeps P Opens closed,
      then_end_sessions-keeps P Opens closed,
      write_hash-keeps,
      h,
    )
    step-keeps st o now (resets_recovery id) k opens h =
        unless_admin-keeps P Opens closed o st (find_user id st.users) _ h
          (write_user-keeps P Opens closed o st id _ (λ r. (refl, refl)) h)
    step-keeps st o now (sets_question id question answer salt) k opens h =
        search (either {0} P Opens closed, write_recovery-keeps, h)
    step-keeps st o now (recovers name answer password salt) k opens h =
        search (either {0} P Opens closed, recover_row-keeps, h)

    -- What is asked of the calls of a run: `Opens` for the sessions that they open.
    abbrev pub RunKeeps : AuthStore → List Event → Type 0
    RunKeeps st [] = Unit {0}
    RunKeeps st ((o, now, c) ∷ cs) =
        CallKeeps P o c
        × ((s : Session) → opened_by bcrypt st o now c ≡ some s → Opens s)
        × RunKeeps (step bcrypt st o now c) cs

    pub run-keeps :
        (st : AuthStore) (cs : List Event)
        → RunKeeps st cs
        → Holds P st
        → Holds P (run bcrypt st cs)
    unfolding run
    run-keeps st [] k h = h
    run-keeps st ((o, now, c) ∷ cs) k h =
        run-keeps (step bcrypt st o now c) cs k.2 (step-keeps st o now c k.0 k.1 h)
