-- ===== src/Auth/Deleted.antt =====
-- A user who was deleted never comes back: ids are not used again.
use nineguard.Base.{
  ℕ, ◌<◌, ◌==◌, ◌≡◌, ◌≢◌, inl, inr, List, [], ◌∷◌, ◌++◌, Option, arith, subst, sym, Bool-cases, All,
}
use nineguard.Base.Text.{Text}
use nineguard.Auth.{
  Session, UserRow, AuthStore, Sql, Bcrypt, ok, User, update_user_row, delete_user_row,
  validate_session,
}
use nineguard.Auth.Accounts.{delete_user, login}
use nineguard.Auth.Valid.{
  delete_user-ok, validate_session-ok, login-ok, find_user-All, find_name-All,
}
use nineguard.Auth.Runs.{step, Call, Event, run, updates, deletes}
use nineguard.Auth.Keeps.{Closed, CallKeeps, Holds, update_user-keeps, delete_user-keeps}
use nineguard.Auth.Keeps.Steps.{RunKeeps, run-keeps}

-- No row has the id, and none will.
abbrev Gone : ℕ → List UserRow → ℕ → List Session → Type 0
Gone i us n ss = All (λ r. r.id ≢ i) us × (i < n)

pub update-Gone :
    (i id : ℕ) (f : UserRow → UserRow) (us : List UserRow)
    → ((r : UserRow) → (f r).id ≡ r.id)
    → All (λ r. r.id ≢ i) us
    → All (λ r. r.id ≢ i) (update_user_row id f us)
unfolding update_user_row
update-Gone i id f [] k h = tt
update-Gone i id f (r ∷ us) k h = (
  elim (Bool-cases (id == r.id)) [ inl e ↦ rw (e, k r) h.0 | inr e ↦ rw e h.0 ],
  update-Gone i id f us k h.1,
)

pub append-Gone :
    (i : ℕ) (r : UserRow) (us : List UserRow)
    → r.id ≢ i
    → All (λ r. r.id ≢ i) us
    → All (λ r. r.id ≢ i) (us ++ (r ∷ []))
append-Gone i r [] ne h = (ne, tt)
append-Gone i r (x ∷ us) ne h = (h.0, append-Gone i r us ne h.1)

pub delete-Gone :
    (i id : ℕ) (us : List UserRow)
    → All (λ r. r.id ≢ i) us
    → All (λ r. r.id ≢ i) (delete_user_row id us)
unfolding delete_user_row
delete-Gone i id [] h = tt
delete-Gone i id (r ∷ us) h = elim (Bool-cases (id == r.id)) [
  | inl e ↦ rw e (delete-Gone i id us h.1)
  | inr e ↦ rw e (h.0, delete-Gone i id us h.1)
]

delete_self-Gone : (i : ℕ) (us : List UserRow) → All (λ r. r.id ≢ i) (delete_user_row i us)
unfolding delete_user_row
delete_self-Gone i [] = tt
delete_self-Gone i (r ∷ us) = elim (Bool-cases (i == r.id)) [
  | inl e ↦ rw e (delete_self-Gone i us)
  | inr e ↦ rw e ((λ (x : r.id ≡ i). ground arith), delete_self-Gone i us)
]

Gone-closed : (i : ℕ) → Closed (Gone i) (λ s. Unit {0})
Gone-closed i = record {
  edited = λ id f us n ss k h. (update-Gone i id f us (λ r. (k r).0) h.0, h.1);
  added = λ r us n ss e h. (append-Gone i r us (λ x. omega arith) h.0, omega arith);
  opened = λ s us n ss fine h. h;
  ended = λ keep us n ss h. h;
}

any_call-keeps_Gone : (i : ℕ) (o : Sql) (c : Call) → CallKeeps (Gone i) o c
any_call-keeps_Gone i o (updates id name display role) =
    update_user-keeps (Gone i) (λ s. Unit {0}) (Gone-closed i)
      (λ id f us n ss k h. (update-Gone i id f us k h.0, h.1)) o id name display role
any_call-keeps_Gone i o (deletes id) =
    delete_user-keeps (Gone i) (λ s. Unit {0}) (Gone-closed i) o id
      (λ st e h. (delete-Gone i id st.users h.held.0, h.held.1))
any_call-keeps_Gone i o _ = tt

any_run-keeps_Gone :
    (bcrypt : Bcrypt) (i : ℕ) (st : AuthStore) (cs : List Event)
    → RunKeeps (Gone i) (λ s. Unit {0}) (Gone-closed i) bcrypt st cs
any_run-keeps_Gone bcrypt i st [] = tt
any_run-keeps_Gone bcrypt i st ((o, now, c) ∷ cs) =
    (any_call-keeps_Gone i o c, λ s e. tt, any_run-keeps_Gone bcrypt i (step bcrypt st o now c) cs)

delete_user-Gone :
    (o : Sql) (st : AuthStore) (id : ℕ)
    → id < st.next_id
    → (delete_user o st id).1 ≡ ok tt
    → Holds (Gone id) (delete_user o st id).0
delete_user-Gone o st id known done =
    rw (delete_user-ok o st id done).1 (record { held = (delete_self-Gone id st.users, known) })

-- Once `DeleteUser` has deleted a user, no session and no login ever gives that user again, whatever
-- the operations that follow and whichever of their statements fail.
pub deleted_stays_out :
    (bcrypt : Bcrypt) (o : Sql) (st : AuthStore) (id : ℕ) (cs : List Event) (o' : Sql) (now : ℕ)
    → id < st.next_id
    → (delete_user o st id).1 ≡ ok tt
    → let later = run bcrypt (delete_user o st id).0 cs in
      ((token : Text) (u : User) → (validate_session o' later now token).1 ≡ ok u → u.id ≢ id)
      × ((name password : Text) (token : Option Text) (u : User) (t : Text)
          → (login bcrypt o' later now name password token).1 ≡ ok (u, t)
          → u.id ≢ id)
deleted_stays_out bcrypt o st id cs o' now known done =
    let later = run bcrypt (delete_user o st id).0 cs in
    let gone =
      (run-keeps (Gone id) (λ s. Unit {0}) (Gone-closed id) bcrypt (delete_user o st id).0 cs
        (any_run-keeps_Gone bcrypt id (delete_user o st id).0 cs)
        (delete_user-Gone o st id known done)).held.0 in
    (
      λ token u e.
          let (s, r, _, found, _, same) = validate_session-ok o' later now token e in
          subst (λ x. x.id ≢ id) (sym same)
            (find_user-All (λ r. r.id ≢ id) s.user_id later.users gone found),
      λ name password token u t e.
          let (r, found, _, same) = login-ok bcrypt o' later now name password token e in
          subst (λ x. x.id ≢ id) (sym same)
            (find_name-All (λ r. r.id ≢ id) name later.users gone found),
    )
