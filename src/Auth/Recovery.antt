-- ===== src/Auth/Recovery.antt =====
-- What a recovery of a password leaves behind.
use nineguard.Base.{
  ℕ, ◌==◌, ◌≡◌, ◌≢◌, refl, sym, ap, subst, inl, inr, List, [], ◌∷◌, Option, none, some, Bool, true,
  false, arith, Bool-cases, not, ==_iff, if◌then◌else◌, ◌∙◌, ltb, length,
}
use nineguard.Base.Text.{Text, text_eq, trim_space, to_lower, is_blank}
use nineguard.Auth.{
  UserRow, Session, AuthStore, Sql, Bcrypt, Result, ok, err, User, find_name, find_session,
  update_user_row, delete_sessions_of, validate_session, user_of, create_session, password_short,
  database_failed, recovery_not_set, recovery_answer_wrong,
}
use nineguard.Auth.Accounts.{
  recover_password, recover_row, change_password, write_hash, then_end_sessions, login,
}
use nineguard.Auth.Valid.{
  passed_store, not_stopped, not_stopped_store, validate_session-ok, find_user-id,
}

-- A hash matches the password that it was made of.
pub record IsFaithful (bcrypt : Bcrypt) : Type 0 where
  pub matching :
      (salt password hash : Text)
      → bcrypt.generate salt password ≡ some hash
      → bcrypt.compare_hash hash password ≡ true

abbrev pub with_hash : Text → UserRow → UserRow
with_hash hash r = record r { password_hash = hash }

-- The tables after a password of the user was set and the sessions of the user were ended.
abbrev pub recovered : AuthStore → ℕ → Text → AuthStore
recovered st id hash = record st {
  users = update_user_row id (with_hash hash) st.users;
  sessions = delete_sessions_of id st.sessions;
}

ended_store :
    (o : Sql) (id : ℕ) (m : AuthStore × Result (Unit {0}))
    → o.ends ≡ true
    → (then_end_sessions o id m).1 ≡ ok tt
    → (m.1 ≡ ok tt)
      × ((then_end_sessions o id m).0
          ≡ record m.0 { sessions = delete_sessions_of id m.0.sessions })
ended_store o id (st, ok t) ends e = (refl, rw ends)
ended_store o id (st, err x) ends e = cc

write_hash-ok :
    (bcrypt : Bcrypt) (o : Sql) (st : AuthStore) (id : ℕ) (hash : Option Text)
    → (write_hash bcrypt o st id hash).1 ≡ ok tt
    → (h : Text) × (hash ≡ some h)
      × ((write_hash bcrypt o st id hash).0
          ≡ record st { users = update_user_row id (with_hash h) st.users })
write_hash-ok bcrypt o st id none e = cc
write_hash-ok bcrypt o st id (some h) e = (
  h,
  refl,
  passed_store o.writes (record st { users = update_user_row id (with_hash h) st.users }, ok tt) st
      database_failed e,
)

recover_row-ok :
    (bcrypt : Bcrypt) (o : Sql) (st : AuthStore) (answer password salt : Text)
    (found : Option UserRow)
    → o.ends ≡ true
    → (recover_row bcrypt o st answer password salt found).1 ≡ ok tt
    → (r : UserRow) × (h : Text) × (found ≡ some r)
      × (bcrypt.compare_hash r.recovery_answer_hash (trim_space (to_lower answer)) ≡ true)
      × (bcrypt.generate salt password ≡ some h)
      × ((recover_row bcrypt o st answer password salt found).0 ≡ recovered st r.id h)
unfolding change_password
recover_row-ok bcrypt o st answer password salt none ends e = cc
recover_row-ok bcrypt o st answer password salt (some r) ends e =
    let hash = bcrypt.generate salt password in
    let set = then_end_sessions o r.id (write_hash bcrypt o st r.id hash) in
    let wrong = not (bcrypt.compare_hash r.recovery_answer_hash (trim_space (to_lower answer))) in
    let checked : AuthStore × Result (Unit {0}) =
      if wrong then (st, err recovery_answer_wrong) else set in
    let unset = is_blank (trim_space r.recovery_answer_hash) in
    let (_, e1) = not_stopped unset checked st recovery_not_set e in
    let (right, e2) = not_stopped wrong set st recovery_answer_wrong e1 in
    let (e3, store) = ended_store o r.id (write_hash bcrypt o st r.id hash) ends e2 in
    let (h, made, wrote) = write_hash-ok bcrypt o st r.id hash e3 in
    (
      r,
      h,
      refl,
      not_not (bcrypt.compare_hash r.recovery_answer_hash (trim_space (to_lower answer))) right,
      made,
      not_stopped_store unset checked st recovery_not_set e
          ∙ not_stopped_store wrong set st recovery_answer_wrong e1
          ∙ store
          ∙ ap (λ (m : AuthStore). record m { sessions = delete_sessions_of r.id m.sessions })
              wrote,
    )
  where
    not_not : (b : Bool) → not b ≡ false → b ≡ true
    not_not true e = refl
    not_not false e = cc

find_name-update :
    (name hash : Text) (us : List UserRow) {r : UserRow}
    → find_name name us ≡ some r
    → find_name name (update_user_row r.id (with_hash hash) us) ≡ some (with_hash hash r)
unfolding find_name update_user_row
find_name-update name hash [] e = cc
find_name-update name hash (x ∷ us) {r} e = elim (Bool-cases (text_eq name x.username)) [
  | inl t ↦
      subst
        (λ y.
          find_name name (update_user_row y.id (with_hash hash) (x ∷ us)) ≡ some (with_hash hash y))
        (some_row (rw t at e)) (rw ((==_iff x.id x.id).1 refl, t) refl)
  | inr f ↦ elim (Bool-cases (r.id == x.id)) [
    | inl t ↦ rw (t, f) (find_name-update name hash us (rw f at e))
    | inr t ↦ rw (t, f) (find_name-update name hash us (rw f at e))
  ]
]
  where
    some_row : {a b : UserRow} → some a ≡ some b → a ≡ b
    some_row e = cc

no_session_left :
    (token : Text) (id : ℕ) (ss : List Session) {s : Session}
    → find_session token (delete_sessions_of id ss) ≡ some s
    → s.user_id ≢ id
unfolding find_session delete_sessions_of
no_session_left token id [] e = cc
no_session_left token id (x ∷ ss) {s} e = elim (Bool-cases (id == x.user_id)) [
  | inl t ↦ no_session_left token id ss (rw t at e)
  | inr f ↦ elim (Bool-cases (text_eq token x.token)) [
    | inl u ↦ subst (λ (y : Session). y.user_id ≢ id) (some_session (rw (f, u) at e)) (apart f)
    | inr u ↦ no_session_left token id ss (rw (f, u) at e)
  ]
]
  where
    some_session : {a b : Session} → some a ≡ some b → a ≡ b
    some_session e = cc

    apart : (id == x.user_id) ≡ false → x.user_id ≢ id
    apart f e = ground arith

-- The login that follows.
login_after :
    (bcrypt : Bcrypt) (o : Sql) (st : AuthStore) (now : ℕ) (name password token : Text)
    (r : UserRow)
    → o.reads ≡ true
    → o.opens ≡ true
    → find_session token st.sessions ≡ none
    → find_name name st.users ≡ some r
    → bcrypt.compare_hash r.password_hash password ≡ true
    → (login bcrypt o st now name password (some token)).1 ≡ ok (user_of r, token)
unfolding login create_session
login_after bcrypt o st now name password token r reads opens free found fits = ground arith

-- Nobody is in the tables as the user, and the user can log in with the password.
abbrev pub OnlyBy : Bcrypt → UserRow → Text → Text → AuthStore → Type 0
OnlyBy bcrypt r name password st =
    ((o : Sql) (now : ℕ) (token : Text) (u : User)
      → (validate_session o st now token).1 ≡ ok u
      → u.id ≢ r.id)
    × ((o : Sql) (now : ℕ) (token : Text)
        → o.reads ≡ true
        → o.opens ≡ true
        → find_session token st.sessions ≡ none
        → (u : User) × ((login bcrypt o st now name password (some token)).1 ≡ ok (u, token))
          × (u.id ≡ r.id))

recovered-OnlyBy :
    (bcrypt : Bcrypt) (st : AuthStore) (name password salt hash : Text) (r : UserRow)
    → IsFaithful bcrypt
    → find_name name st.users ≡ some r
    → bcrypt.generate salt password ≡ some hash
    → OnlyBy bcrypt r name password (recovered st r.id hash)
recovered-OnlyBy bcrypt st name password salt hash r faithful found made =
    let later = recovered st r.id hash in
    (
      λ o now token u e.
          let (s, x, open_s, owner, _, same) = validate_session-ok o later now token e in
          let id_of : u.id ≡ s.user_id =
            ap (λ (y : User). y.id) same ∙ find_user-id s.user_id later.users owner in
          subst (λ i. i ≢ r.id) (sym id_of) (no_session_left token r.id st.sessions open_s),
      λ o now token reads opens free. (
        user_of (with_hash hash r),
        login_after bcrypt o later now name password token (with_hash hash r) reads opens free
            (find_name-update name hash st.users found) (faithful.matching salt password hash made),
        refl,
      ),
    )

-- When `RecoverPassword` succeeds, and with it the statement that ends the sessions, the answer
-- matched the stored hash of the user of that name; no session of that user is accepted any more; and
-- with the new password, a fresh token and statements that succeed, the user can log in.
pub recover_password-recovers :
    (bcrypt : Bcrypt) (o : Sql) (st : AuthStore) (username answer password salt : Text)
    → IsFaithful bcrypt
    → o.ends ≡ true
    → (recover_password bcrypt o st username answer password salt).1 ≡ ok tt
    → (r : UserRow) × (find_name (trim_space username) st.users ≡ some r)
      × (bcrypt.compare_hash r.recovery_answer_hash (trim_space (to_lower answer)) ≡ true)
      × OnlyBy bcrypt r
          (trim_space username)
          password
          (recover_password bcrypt o st username answer password salt).0
unfolding recover_password
recover_password-recovers bcrypt o st username answer password salt faithful ends e =
    let name = trim_space username in
    let row = recover_row bcrypt o st answer password salt (find_name name st.users) in
    let short = ltb (length password) 6 in
    let read : AuthStore × Result (Unit {0}) =
      if not o.reads then (st, err database_failed) else row in
    let (_, e1) = not_stopped short read st password_short e in
    let (_, e2) = not_stopped (not o.reads) row st database_failed e1 in
    let (r, h, found, right, made, store) =
      recover_row-ok bcrypt o st answer password salt (find_name name st.users) ends e2 in
    let same =
      not_stopped_store short read st password_short e
      ∙ not_stopped_store (not o.reads) row st database_failed e1
      ∙ store in
    (
      r,
      found,
      right,
      subst (OnlyBy bcrypt r name password) (sym same)
          (recovered-OnlyBy bcrypt st name password salt h r faithful found made),
    )
