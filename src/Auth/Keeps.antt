-- ===== src/Auth/Keeps.antt =====
-- A property of the table of users that every operation keeps if the ways to write the table do.
pub mod Steps
use nineguard.Base.{
  filter, not, ◌||◌, ◌==◌, ℕ, ◌+◌, ◌≡◌, refl, inl, inr, List, [], ◌∷◌, ◌++◌, Option, none, some,
  Bool, true, false, Bool-cases, Bool-cases, inl, inr, if◌then◌else◌,
}
use nineguard.Base.Text.{Text, text_eq}
use nineguard.Auth.{
  session_length, user_of, current_timestamp, find_session, delete_token, UserRow, AuthStore, Sql,
  Bcrypt, Result, User, find_name, find_user, update_user_row, delete_user_row, create_session,
  insert_user, database_failed, logout, validate_session, has_row, signed_in, Session, admin,
  delete_sessions_of, check_expiry, ok, err,
}
use nineguard.Auth.Accounts.{
  name_taken, is_last_admin, no_users, edited_user, delete_user, update_user, update_profile,
  reset_user_recovery, set_up, login, create_user, change_password, reset_user_password,
  set_recovery_question, recover_password, write_user, then_read, read_back, then_end_sessions,
  unless_admin, open_session, set_up_with, login_row, create_user_with, write_hash, write_recovery,
  recover_row,
}
use nineguard.Auth.Runs.{
  opened_by, Call, sets_up, logs_in, logs_out, validates, creates, updates, renames,
  changes_password, deletes, resets_password, resets_recovery, sets_question, recovers, Event, step,
  run,
}

-- An UPDATE that sets columns other than the id and the role.
abbrev pub KeepsIdRole : (UserRow → UserRow) → Type 0
KeepsIdRole f = (r : UserRow) → ((f r).id ≡ r.id) × ((f r).role ≡ r.role)

-- `P` speaks of the users, the next id and the sessions; the sessions that are opened meet `Opens`.
pub record Closed (P : List UserRow → ℕ → List Session → Type 0) (Opens : Session → Type 0)
    : Type 0 where
  pub edited :
      (id : ℕ) (f : UserRow → UserRow) (us : List UserRow) (n : ℕ) (ss : List Session)
      → KeepsIdRole f
      → P us n ss
      → P (update_user_row id f us) n ss
  pub added :
      (r : UserRow) (us : List UserRow) (n : ℕ) (ss : List Session)
      → r.id ≡ n
      → P us n ss
      → P (us ++ (r ∷ [])) (n + 1) ss
  pub opened :
      (s : Session) (us : List UserRow) (n : ℕ) (ss : List Session)
      → Opens s
      → P us n ss
      → P us n (s ∷ ss)
  pub ended :
      (keep : Session → Bool) (us : List UserRow) (n : ℕ) (ss : List Session)
      → P us n ss
      → P us n (filter keep ss)

-- The session that a sign-in opens.
abbrev pub session_for : ℕ → User → Text → Session
session_for now u token = record {
  token = token;
  user_id = u.id;
  expires_at = now + session_length;
}

pub signed_in-given :
    (u : User) (m : AuthStore × Result Text) {t : Text} → m.1 ≡ ok t → (signed_in u m).1 ≡ ok (u, t)
signed_in-given u (st, ok t) e = cc
signed_in-given u (st, err x) e = cc

module _ (P : List UserRow → ℕ → List Session → Type 0) where
  pub record Holds (st : AuthStore) : Type 0 where
    pub held : P st.users st.next_id st.sessions

  -- What is asked of the two calls that may change a role or drop a user.
  abbrev pub CallKeeps : Sql → Call → Type 0
  CallKeeps o (updates id name display role) =
      (st : AuthStore) → Holds st → Holds (update_user o st id name display role).0
  CallKeeps o (deletes id) = (st : AuthStore) → Holds st → Holds (delete_user o st id).0
  CallKeeps o _ = Unit {0}

  module _ (Opens : Session → Type 0) (closed : Closed P Opens) where
    -- Whoever is signed in by `m` may have the session.
    abbrev pub Signs : ℕ → AuthStore × Result (User × Text) → Type 0
    Signs now m = (u : User) (t : Text) → m.1 ≡ ok (u, t) → Opens (session_for now u t)

    -- Whichever branch is taken.
    pub either {ℓ} :
        {A : Type ℓ} (b : Bool) (x y : AuthStore × A)
        → Holds x.0
        → Holds y.0
        → Holds (if b then x else y).0
    either true x y h k = h
    either false x y h k = k

    pub store_either : (b : Bool) (x y : AuthStore) → Holds x → Holds y → Holds (if b then x else y)
    store_either true x y h k = h
    store_either false x y h k = k

    pub sign_in-keeps :
        (o : Sql) (st : AuthStore) (now : ℕ) (u : User) (token : Option Text)
        → Signs now (signed_in u (create_session o st now u.id token))
        → Holds st
        → Holds (signed_in u (create_session o st now u.id token)).0
    unfolding create_session
    sign_in-keeps o st now u none signs h = h
    sign_in-keeps o st now u (some t) signs h =
        elim (Bool-cases (not o.opens || has_row (find_session t st.sessions))) [
          | inl e ↦ rw e h
          | inr e ↦
              let s = session_for now u t in
              let fine =
                signs u t (signed_in-given u (create_session o st now u.id (some t)) (rw e)) in
              rw e (record { held = closed.opened s st.users st.next_id st.sessions fine h.held })
        ]

    pub insert_user-keeps :
        (o : Sql) (st : AuthStore) (now : ℕ) (name display hash role : Text) (last : Option ℕ)
        → Holds st
        → Holds (insert_user o st now name display hash role last).0
    unfolding insert_user
    insert_user-keeps o st now name display hash role last h =
        either _ _ _ h
          (record { held = closed.added _ st.users st.next_id st.sessions refl h.held })

    pub open_session-keeps :
        (o : Sql) (now : ℕ) (token : Option Text) (m : AuthStore × Result User)
        → Signs now (open_session o now token m)
        → Holds m.0
        → Holds (open_session o now token m).0
    open_session-keeps o now token (st, ok u) signs h = sign_in-keeps o st now u token signs h
    open_session-keeps o now token (st, err e) signs h = h

    pub write_user-keeps :
        (o : Sql) (st : AuthStore) (id : ℕ) (f : UserRow → UserRow)
        → KeepsIdRole f
        → Holds st
        → Holds (write_user o st id f).0
    write_user-keeps o st id f k h =
        either _ _ _ (record { held = closed.edited id f st.users st.next_id st.sessions k h.held })
          h

    pub read_back-keeps :
        (o : Sql) (st : AuthStore) (id : ℕ) (found : Option UserRow)
        → Holds st
        → Holds (read_back o st id found).0
    read_back-keeps o st id none h = h
    read_back-keeps o st id (some r) h = h

    pub then_read-keeps :
        (o : Sql) (id : ℕ) (m : AuthStore × Result (Unit {0}))
        → Holds m.0
        → Holds (then_read o id m).0
    then_read-keeps o id (st, ok t) h = read_back-keeps o st id (find_user id st.users) h
    then_read-keeps o id (st, err e) h = h

    -- A DELETE of sessions that may fail.
    pub ending :
        (b : Bool) (keep : Session → Bool) (st : AuthStore)
        → Holds st
        → Holds (if b then record st { sessions = filter keep st.sessions } else st)
    ending true keep st h = record {
      held = closed.ended keep st.users st.next_id st.sessions h.held;
    }
    ending false keep st h = h

    pub then_end_sessions-keeps :
        (o : Sql) (id : ℕ) (m : AuthStore × Result (Unit {0}))
        → Holds m.0
        → Holds (then_end_sessions o id m).0
    unfolding delete_sessions_of
    then_end_sessions-keeps o id (st, ok t) h = ending o.ends (λ s. not (id == s.user_id)) st h
    then_end_sessions-keeps o id (st, err e) h = h

    pub unless_admin-keeps :
        (o : Sql) (st : AuthStore) (found : Option UserRow) (done : AuthStore × Result (Unit {0}))
        → Holds st
        → Holds done.0
        → Holds (unless_admin o st found done).0
    unless_admin-keeps o st none done h k = either _ _ _ h h
    unless_admin-keeps o st (some r) done h k = search (either, h, k)

    pub check_expiry-keeps :
        (o : Sql) (st : AuthStore) (now : ℕ) (token : Text) (m : Option (Session × UserRow))
        → Holds st
        → Holds (check_expiry o st now token m).0
    unfolding delete_token
    check_expiry-keeps o st now token none h = h
    check_expiry-keeps o st now token (some (s, r)) h =
        either _ _ _ (ending o.ends (λ s. not (text_eq token s.token)) st h) h

    -- What gives `CallKeeps` for the two calls.
    pub update_user-keeps :
        ((id : ℕ) (f : UserRow → UserRow) (us : List UserRow) (n : ℕ) (ss : List Session)
          → ((r : UserRow) → (f r).id ≡ r.id)
          → P us n ss
          → P (update_user_row id f us) n ss)
        → (o : Sql) (id : ℕ) (name display role : Text) → CallKeeps o (updates id name display role)
    unfolding update_user
    update_user-keeps edit o id name display role st h =
        elim (Bool-cases (name_taken id (find_name name st.users))) [
          | inl e ↦ rw e h
          | inr e ↦ rw e (
              then_read-keeps o id (write_user o st id (edited_user name display role)) (
                either _ _ _
                  (record {
                    held =
                        edit id (edited_user name display role) st.users st.next_id st.sessions
                          (λ r. refl) h.held;
                  })
                  h))
        ]

    pub delete_user-keeps :
        (o : Sql) (id : ℕ)
        → ((st : AuthStore)
            → is_last_admin o st id ≡ false
            → Holds st
            → P (delete_user_row id st.users) st.next_id st.sessions)
        → CallKeeps o (deletes id)
    unfolding delete_user delete_sessions_of
    delete_user-keeps o id cut st h = elim (Bool-cases (is_last_admin o st id)) [
      | inl e ↦ rw e h
      | inr e ↦
          let dropped : Holds (record st { users = delete_user_row id st.users }) = record {
            held = cut st e h;
          } in
          rw e (either _ _ _ (without o.cascades st dropped) h)
    ]
      where
        without :
            (b : Bool) (st : AuthStore)
            → Holds (record st { users = delete_user_row id st.users })
            → Holds (record st {
              users = delete_user_row id st.users;
              sessions = if b then delete_sessions_of id st.sessions else st.sessions;
            })
        without true st h = record { held = closed.ended _ _ st.next_id st.sessions h.held }
        without false st h = h
