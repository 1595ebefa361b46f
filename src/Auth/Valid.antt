-- ===== src/Auth/Valid.antt =====
-- What an accepted session and an accepted login say about the tables.
use nineguard.Base.{
  sym, ◌∙◌, ==_iff, not, ℕ, ◌≤◌, ◌≡◌, refl, inl, inr, subst, ap, Option, none, some, List, [], ◌∷◌,
  true, arith, Bool-cases, Bool, false, if◌then◌else◌, ltb, All, ◌==◌,
}
use nineguard.Base.Text.{Text, text_eq}
use nineguard.Auth.{
  UserRow, Session, AuthStore, Sql, Bcrypt, Result, ok, err, User, user_of, find_name, find_user,
  find_session, joined, with_user, check_expiry, validate_session, create_session, signed_in,
  AuthError, database_failed, bad_credentials, last_administrator, update_user_row,
  current_timestamp,
}
use nineguard.Auth.Accounts.{delete_user, is_last_admin, without_user, login, login_row}

-- What came out of a guarded step that succeeded.
pub passed {ℓ} :
    {A : Type ℓ} {v : A} (b : Bool) (m : AuthStore × Result A) (st : AuthStore) (e : AuthError)
    → (if b then m else (st, err e)).1 ≡ ok v
    → (b ≡ true) × (m.1 ≡ ok v)
passed true m st e h = (refl, h)
passed false m st e h = cc

pub passed_store {ℓ} :
    {A : Type ℓ} {v : A} (b : Bool) (m : AuthStore × Result A) (st : AuthStore) (e : AuthError)
    → (if b then m else (st, err e)).1 ≡ ok v
    → (if b then m else (st, err e)).0 ≡ m.0
passed_store true m st e h = refl
passed_store false m st e h = cc

pub not_stopped_store {ℓ} :
    {A : Type ℓ} {v : A} (b : Bool) (m : AuthStore × Result A) (st : AuthStore) (e : AuthError)
    → (if b then (st, err e) else m).1 ≡ ok v
    → (if b then (st, err e) else m).0 ≡ m.0
not_stopped_store true m st e h = cc
not_stopped_store false m st e h = refl

pub not_stopped {ℓ} :
    {A : Type ℓ} {v : A} (b : Bool) (m : AuthStore × Result A) (st : AuthStore) (e : AuthError)
    → (if b then (st, err e) else m).1 ≡ ok v
    → (b ≡ false) × (m.1 ≡ ok v)
not_stopped true m st e h = cc
not_stopped false m st e h = (refl, h)

with_user-some :
    (s : Session) (found : Option UserRow) {s' : Session} {r : UserRow}
    → with_user s found ≡ some (s', r)
    → (s ≡ s') × (found ≡ some r)
with_user-some s none e = cc
with_user-some s (some r) e = (cc, cc)

joined-some :
    (f : Option Session) (us : List UserRow) {s : Session} {r : UserRow}
    → joined f us ≡ some (s, r)
    → (f ≡ some s) × (find_user s.user_id us ≡ some r)
joined-some none us e = cc
joined-some (some s) us {r = r} e =
    let (same, found) = with_user-some s (find_user s.user_id us) e in
    (ap some same, subst (λ x. find_user x.user_id us ≡ some r) same found)

check_expiry-ok :
    (o : Sql) (st : AuthStore) (now : ℕ) (token : Text) (m : Option (Session × UserRow)) {u : User}
    → (check_expiry o st now token m).1 ≡ ok u
    → (s : Session) × (r : UserRow) × (m ≡ some (s, r)) × (now ≤ s.expires_at) × (u ≡ user_of r)
check_expiry-ok o st now token none e = cc
check_expiry-ok o st now token (some (s, r)) e = elim (Bool-cases (ltb s.expires_at now)) [
  | inl late ↦ cc (rw late at e)
  | inr fresh ↦ (s, r, refl, ground arith, given (rw fresh at e))
]
  where
    given : {a b : User} → ok a ≡ ok b → b ≡ a
    given e = cc

-- An accepted session stands in the table, has not expired, and its user is a row.
pub validate_session-ok :
    (o : Sql) (st : AuthStore) (now : ℕ) (token : Text) {u : User}
    → (validate_session o st now token).1 ≡ ok u
    → (s : Session) × (r : UserRow) × (find_session token st.sessions ≡ some s)
      × (find_user s.user_id st.users ≡ some r)
      × (now ≤ s.expires_at)
      × (u ≡ user_of r)
unfolding validate_session
validate_session-ok o st now token e =
    let m = joined (find_session token st.sessions) st.users in
    let (_, done) = passed o.reads (check_expiry o st now token m) st database_failed e in
    let (s, r, found, le, same) = check_expiry-ok o st now token m done in
    let (a, b) = joined-some (find_session token st.sessions) st.users found in
    (s, r, a, b, le, same)

module _ (bcrypt : Bcrypt) where
  login_row-ok :
      (o : Sql) (st : AuthStore) (now : ℕ) (password : Text) (token : Option Text)
      (found : Option UserRow) {u : User} {t : Text}
      → (login_row bcrypt o st now password token found).1 ≡ ok (u, t)
      → (r : UserRow) × (found ≡ some r)
        × (bcrypt.compare_hash r.password_hash password ≡ true)
        × (u ≡ user_of r)
  login_row-ok o st now password token none e = cc
  login_row-ok o st now password token (some r) {u} {t} e =
      let m =
        if o.marks
        then record st {
          users =
              update_user_row r.id (λ x. record x { last_login_at = some (current_timestamp now) })
                st.users;
        }
        else st in
      let (fits, done) =
        passed (bcrypt.compare_hash r.password_hash password)
          (signed_in (user_of r) (create_session o m now r.id token)) st bad_credentials e in
      (r, refl, fits, signed_in-ok (user_of r) (create_session o m now r.id token) done)
    where
      signed_in-ok :
          {u : User} {t : Text} (v : User) (m : AuthStore × Result Text)
          → (signed_in v m).1 ≡ ok (u, t)
          → u ≡ v
      signed_in-ok v (st, ok t) e = cc
      signed_in-ok v (st, err x) e = cc

  -- An accepted login is that of a row whose hash the password matches.
  pub login-ok :
      (o : Sql) (st : AuthStore) (now : ℕ) (name password : Text) (token : Option Text) {u : User}
      {t : Text}
      → (login bcrypt o st now name password token).1 ≡ ok (u, t)
      → (r : UserRow) × (find_name name st.users ≡ some r)
        × (bcrypt.compare_hash r.password_hash password ≡ true)
        × (u ≡ user_of r)
  unfolding login
  login-ok o st now name password token e =
      login_row-ok o st now password token (find_name name st.users)
        (not_stopped (not o.reads)
          (login_row bcrypt o st now password token (find_name name st.users)) st database_failed
          e).1

some_injective : {a b : UserRow} → some a ≡ some b → a ≡ b
some_injective e = cc

pub find_user-id : (id : ℕ) (us : List UserRow) {r : UserRow} → find_user id us ≡ some r → r.id ≡ id
unfolding find_user
find_user-id id [] e = cc
find_user-id id (x ∷ us) e = elim (Bool-cases (id == x.id)) [
  | inl t ↦
      ap (λ (r : UserRow). r.id) (sym (some_injective (rw t at e))) ∙ sym ((==_iff id x.id).0 t)
  | inr t ↦ find_user-id id us (rw t at e)
]

-- A row that a query finds is one of the rows.
pub find_user-All :
    (P : UserRow → Type 0) (id : ℕ) (us : List UserRow) {r : UserRow}
    → All P us
    → find_user id us ≡ some r
    → P r
unfolding find_user
find_user-All P id [] h e = cc
find_user-All P id (x ∷ us) h e = elim (Bool-cases (id == x.id)) [
  | inl t ↦ subst P (some_injective (rw t at e)) h.0
  | inr t ↦ find_user-All P id us h.1 (rw t at e)
]

pub find_name-All :
    (P : UserRow → Type 0) (name : Text) (us : List UserRow) {r : UserRow}
    → All P us
    → find_name name us ≡ some r
    → P r
unfolding find_name
find_name-All P name [] h e = cc
find_name-All P name (x ∷ us) h e = elim (Bool-cases (text_eq name x.username)) [
  | inl t ↦ subst P (some_injective (rw t at e)) h.0
  | inr t ↦ find_name-All P name us h.1 (rw t at e)
]

-- A deletion that succeeds was not that of the last administrator, and drops the row.
pub delete_user-ok :
    (o : Sql) (st : AuthStore) (id : ℕ)
    → (delete_user o st id).1 ≡ ok tt
    → (is_last_admin o st id ≡ false) × ((delete_user o st id).0 ≡ without_user o st id)
unfolding delete_user
delete_user-ok o st id e = branch (is_last_admin o st id) o.writes (without_user o st id) e
  where
    outcome : Bool → Bool → AuthStore → AuthStore × Result (Unit {0})
    outcome b w st' =
        if b
        then (st, err last_administrator)
        else if w
        then (st', ok tt)
        else (st, err database_failed)

    branch :
        (b w : Bool) (st' : AuthStore)
        → (outcome b w st').1 ≡ ok tt
        → (b ≡ false) × ((outcome b w st').0 ≡ st')
    branch true w st' e = cc
    branch false true st' e = (refl, refl)
    branch false false st' e = cc
