-- ===== src/Auth/Admins.antt =====
-- There is always an administrator, and so no second setup.
use nineguard.Base.{
  not, ◌||◌, ℕ, ◌<◌, ◌≡◌, refl, List, [], ◌∷◌, Option, none, some, true, false, arith, All,
}
use nineguard.Base.Text.{Text, text_eq}
use nineguard.Auth.{
  UserRow, AuthStore, Sql, Bcrypt, Result, ok, err, User, empty_store, count_admins, insert_user,
  find_name, has_row, database_failed, admin, current_timestamp,
}
use nineguard.Auth.Accounts.{set_up, set_up_with, open_session, no_users}
use nineguard.Auth.Runs.{step, Call, Event, run, updates, deletes}
use nineguard.Auth.Valid.{not_stopped}
use nineguard.Auth.Keeps.{open_session-keeps, CallKeeps, Holds}
use nineguard.Auth.Keeps.Steps.{RunKeeps, run-keeps}
use nineguard.Auth.Governed.{Governed, Governed-closed, delete_user-Governed}

-- The calls that `admin_remains` allows: no role is changed, and the query of the role of a user to
-- be deleted succeeds.
abbrev pub SparesAdmins : Event → Type 0
SparesAdmins (o, now, updates id name display role) = ⊥
SparesAdmins (o, now, deletes id) = o.reads ≡ true
SparesAdmins (o, now, _) = Unit {0}

spared-CallKeeps :
    (o : Sql) (now : ℕ) (c : Call) → SparesAdmins (o, now, c) → CallKeeps Governed o c
spared-CallKeeps o now (updates id name display role) h = absurd h
spared-CallKeeps o now (deletes id) h = delete_user-Governed o id h
spared-CallKeeps o now _ h = tt

spared-RunKeeps :
    (bcrypt : Bcrypt) (st : AuthStore) (cs : List Event)
    → All SparesAdmins cs
    → RunKeeps Governed (λ s. Unit {0}) Governed-closed bcrypt st cs
spared-RunKeeps bcrypt st [] h = tt
spared-RunKeeps bcrypt st ((o, now, c) ∷ cs) h = (
  spared-CallKeeps o now c h.0,
  λ s e. tt,
  spared-RunKeeps bcrypt (step bcrypt st o now c) cs h.1,
)

opened-ok :
    (o : Sql) (now : ℕ) (token : Option Text) (m : AuthStore × Result User) {v : User × Text}
    → (open_session o now token m).1 ≡ ok v
    → (u : User) × (m.1 ≡ ok u)
opened-ok o now token (st, ok u) e = (u, refl)
opened-ok o now token (st, err x) e = cc

first_user-Governed :
    (o : Sql) (now : ℕ) (name hash : Text) (last : Option ℕ) {u : User}
    → (insert_user o empty_store now name name hash admin last).1 ≡ ok u
    → Holds Governed (insert_user o empty_store now name name hash admin last).0
unfolding insert_user find_name count_admins text_eq
first_user-Governed o now name hash last e =
    let (free, _) = not_stopped (not o.writes || has_row (find_name name [])) _ _ _ e in
    rw free (record { held = (omega arith, (tt, tt), (omega arith, tt)) })

set_up_with-Governed :
    (bcrypt : Bcrypt) (o : Sql) (now : ℕ) (name : Text) (token hash : Option Text) {v : User × Text}
    → (set_up_with bcrypt o empty_store now name token hash).1 ≡ ok v
    → Holds Governed (set_up_with bcrypt o empty_store now name token hash).0
set_up_with-Governed bcrypt o now name token none e = cc
set_up_with-Governed bcrypt o now name token (some hash) e =
    let last = some (current_timestamp now) in
    let m = insert_user o empty_store now name name hash admin last in
    let (u, inserted) = opened-ok o now token m e in
    open_session-keeps Governed (λ s. Unit {0}) Governed-closed o now token m (λ u t e. tt)
      (first_user-Governed o now name hash last inserted)

set_up-Governed :
    (bcrypt : Bcrypt) (o : Sql) (now : ℕ) (name password salt : Text) (token : Option Text)
    {v : User × Text}
    → (set_up bcrypt o empty_store now name password salt token).1 ≡ ok v
    → Holds Governed (set_up bcrypt o empty_store now name password salt token).0
unfolding set_up
set_up-Governed bcrypt o now name password salt token e =
    let (counted, done) =
      not_stopped (not o.counts)
        (set_up_with bcrypt o empty_store now name token (bcrypt.generate salt password))
        empty_store database_failed e in
    rw counted (set_up_with-Governed bcrypt o now name token (bcrypt.generate salt password) done)

some_user : (us : List UserRow) → 0 < count_admins us → no_users us ≡ false
unfolding count_admins
some_user [] h = absurd (omega arith)
some_user (r ∷ us) h = refl

no_second_setup :
    (bcrypt : Bcrypt) (o : Sql) (st : AuthStore) (now : ℕ) (name password salt : Text)
    (token : Option Text)
    → 0 < count_admins st.users
    → (set_up bcrypt o st now name password salt token).0 ≡ st
unfolding set_up
no_second_setup bcrypt o st now name password salt token h = ground (arith, some_user st.users)

-- After a successful `Setup` of empty tables, and any operations other than `UpdateUser`, in which the
-- query of the role of a user to be deleted does not fail, there is an administrator; and no further
-- `Setup` changes anything.
pub admin_remains :
    (bcrypt : Bcrypt) (o : Sql) (now : ℕ) (name password salt : Text) (token : Option Text)
    (u : User) (t : Text) (cs : List Event)
    → (set_up bcrypt o empty_store now name password salt token).1 ≡ ok (u, t)
    → All SparesAdmins cs
    → let later = run bcrypt (set_up bcrypt o empty_store now name password salt token).0 cs in
      (0 < count_admins later.users)
      × ((o' : Sql) (now' : ℕ) (name' password' salt' : Text) (token' : Option Text)
          → (set_up bcrypt o' later now' name' password' salt' token').0 ≡ later)
admin_remains bcrypt o now name password salt token u t cs e spared =
    let st = (set_up bcrypt o empty_store now name password salt token).0 in
    let governed =
      run-keeps Governed (λ s. Unit {0}) Governed-closed bcrypt st cs
        (spared-RunKeeps bcrypt st cs spared)
        (set_up-Governed bcrypt o now name password salt token e) in
    (
      governed.held.0,
      λ o' now' name' password' salt' token'.
          no_second_setup bcrypt o' (run bcrypt st cs) now' name' password' salt' token'
            governed.held.0,
    )
