-- ===== src/Auth/Tokens.antt =====
-- Every session goes back to a sign-in.
use nineguard.Base.{
  ℕ, ◌≤◌, ◌≡◌, sym, ap, subst, inl, inr, ◌⊎◌, List, [], ◌∷◌, Option, none, some, Bool, All,
  Bool-cases, filter, ◌∙◌,
}
use nineguard.Base.Text.{Text, text_eq, text_eq→eq}
use nineguard.Auth.{
  UserRow, Session, AuthStore, Sql, Bcrypt, ok, User, empty_store, find_session, validate_session,
}
use nineguard.Auth.Runs.{Call, Event, step, run, opened_by, updates, deletes}
use nineguard.Auth.Keeps.{Closed, CallKeeps, update_user-keeps, delete_user-keeps}
use nineguard.Auth.Keeps.Steps.{RunKeeps, run-keeps}
use nineguard.Auth.Valid.{validate_session-ok, find_user-id}

abbrev noted : Option Session → List Session → List Session
noted none log = log
noted (some s) log = s ∷ log

-- The sessions that the calls of a run opened, by what `Setup` and `Login` answered.
pub sign_ins : Bcrypt → AuthStore → List Event → List Session
sign_ins bcrypt st [] = []
sign_ins bcrypt st ((o, now, c) ∷ cs) =
    noted (opened_by bcrypt st o now c) (sign_ins bcrypt (step bcrypt st o now c) cs)

abbrev pub Known : List Session → Session → Type 0
Known [] s = ⊥
Known (x ∷ log) s = (s ≡ x) ⊎ Known log s

Known-noted :
    (s : Session) (o : Option Session) (log : List Session) → Known log s → Known (noted o log) s
Known-noted s none log h = h
Known-noted s (some x) log h = inr h

Known-noted_self :
    (s : Session) (o : Option Session) (log : List Session) → o ≡ some s → Known (noted o log) s
Known-noted_self s none log e = cc
Known-noted_self s (some x) log e = inl (cc)

All-filter :
    (Q : Session → Type 0) (keep : Session → Bool) (ss : List Session)
    → All Q ss
    → All Q (filter keep ss)
All-filter Q keep [] h = tt
All-filter Q keep (s ∷ ss) h = elim (Bool-cases (keep s)) [
  | inl e ↦ rw e (h.0, All-filter Q keep ss h.1)
  | inr e ↦ rw e (All-filter Q keep ss h.1)
]

module _ (Q : Session → Type 0) where
  abbrev Sessions : List UserRow → ℕ → List Session → Type 0
  Sessions us n ss = All Q ss

  Sessions-closed : Closed Sessions Q
  Sessions-closed = record {
    edited = λ id f us n ss k h. h;
    added = λ r us n ss e h. h;
    opened = λ s us n ss fine h. (fine, h);
    ended = λ keep us n ss h. All-filter Q keep ss h;
  }

  any_call-keeps_Sessions : (o : Sql) (c : Call) → CallKeeps Sessions o c
  any_call-keeps_Sessions o (updates id name display role) =
      update_user-keeps Sessions Q Sessions-closed (λ id f us n ss k h. h) o id name display role
  any_call-keeps_Sessions o (deletes id) =
      delete_user-keeps Sessions Q Sessions-closed o id (λ st e h. h.held)
  any_call-keeps_Sessions o _ = tt

  run-Sessions :
      (bcrypt : Bcrypt) (st : AuthStore) (cs : List Event)
      → ((s : Session) → Known (sign_ins bcrypt st cs) s → Q s)
      → RunKeeps Sessions Q Sessions-closed bcrypt st cs
  unfolding sign_ins
  run-Sessions bcrypt st [] k = tt
  run-Sessions bcrypt st ((o, now, c) ∷ cs) k =
      let rest = sign_ins bcrypt (step bcrypt st o now c) cs in
      let now_opened = opened_by bcrypt st o now c in
      (
        any_call-keeps_Sessions o c,
        λ s e. k s (Known-noted_self s now_opened rest e),
        run-Sessions bcrypt (step bcrypt st o now c) cs
            (λ s h. k s (Known-noted s now_opened rest h)),
      )

find_session-All :
    (Q : Session → Type 0) (token : Text) (ss : List Session) {s : Session}
    → All Q ss
    → find_session token ss ≡ some s
    → Q s × (s.token ≡ token)
unfolding find_session
find_session-All Q token [] h e = cc
find_session-All Q token (x ∷ ss) h e = elim (Bool-cases (text_eq token x.token)) [
  | inl t ↦
      let same = some_injective (rw t at e) in
      (
        subst Q same h.0,
        ap (λ (y : Session). y.token) (sym same) ∙ sym (text_eq→eq token x.token t),
      )
  | inr t ↦ find_session-All Q token ss h.1 (rw t at e)
]
  where
    some_injective : {a b : Session} → some a ≡ some b → a ≡ b
    some_injective e = cc

-- After any operations on empty tables, whichever of their statements fail, a session that
-- `ValidateSession` accepts was opened under that token by a `Setup` or `Login` that let the same
-- user in, and its thirty days are not over.
pub validate_session-signed_in :
    (bcrypt : Bcrypt) (cs : List Event) (o : Sql) (now : ℕ) (token : Text) (u : User)
    → (validate_session o (run bcrypt empty_store cs) now token).1 ≡ ok u
    → (s : Session) × Known (sign_ins bcrypt empty_store cs) s
      × (s.token ≡ token)
      × (s.user_id ≡ u.id)
      × (now ≤ s.expires_at)
validate_session-signed_in bcrypt cs o now token u e =
    let Q = Known (sign_ins bcrypt empty_store cs) in
    let st = run bcrypt empty_store cs in
    let all =
      (run-keeps (Sessions Q) Q (Sessions-closed Q) bcrypt empty_store cs
        (run-Sessions Q bcrypt empty_store cs (λ s h. h)) (record { held = tt })).held in
    let (s, r, found, owner, le, same) = validate_session-ok o st now token e in
    let (known, named) = find_session-All Q token st.sessions all found in
    (
      s,
      known,
      named,
      sym (ap (λ (x : User). x.id) same ∙ find_user-id s.user_id st.users owner),
      le,
    )
