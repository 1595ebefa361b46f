-- ===== src/Auth/Examples.antt =====
-- The theorems of the accounts at concrete inputs, with a hash that is the password itself.
use nineguard.Base.{
  ℕ, ◌<◌, ◌≤◌, ◌≡◌, ◌≢◌, refl, List, [], ◌∷◌, Option, none, some, true, false, arith,
}
use nineguard.Base.Text.{Text, codes, text_eq, text_eq_refl, trim_space, to_lower, has_prefix}
use nineguard.Auth.{
  UserRow, Session, AuthStore, Sql, Bcrypt, Result, ok, User, admin, empty_store, find_name,
  count_admins, validate_session, find_user, find_session, insert_user, create_session,
}
use nineguard.Auth.Accounts.{delete_user, set_up, login, recover_password}
use nineguard.Auth.Middleware.{served, require_auth_middleware}
use nineguard.Auth.Runs.{Event, run, step, sets_up, creates, deletes}
use nineguard.Auth.Deleted.{deleted_stays_out}
use nineguard.Auth.Admins.{admin_remains}
use nineguard.Auth.Tokens.{sign_ins, Known}
use nineguard.Auth.Guard.{require_auth-signed_in}
use nineguard.Auth.Recovery.{IsFaithful, OnlyBy, recover_password-recovers}

abbrev plain : Bcrypt
plain = record { generate = λ salt p. some p; compare_hash = λ h p. text_eq h p }

plain-IsFaithful : IsFaithful plain
plain-IsFaithful = record { matching = λ salt p hash e. rw (same e) (text_eq_refl hash) }
  where
    same : {p hash : Text} → some p ≡ some hash → p ≡ hash
    same e = cc

abbrev fine : Sql
fine = record {
  counts = true;
  reads = true;
  writes = true;
  marks = true;
  opens = true;
  ends = true;
  cascades = true;
}

abbrev root : UserRow
root = record {
  id = 1;
  username = codes "root";
  display_name = codes "root";
  password_hash = codes "secret";
  role = admin;
  recovery_question = codes "pet?";
  recovery_answer_hash = codes "rex";
  created_at = 0;
  last_login_at = none;
}

abbrev guest : UserRow
guest = record root { id = 2; username = codes "guest"; role = codes "operator" }

abbrev two_users : AuthStore
two_users = record {
  users = root ∷ guest ∷ [];
  sessions = record { token = codes "t"; user_id = 2; expires_at = 9 } ∷ [];
  next_id = 3;
}

abbrev again : List Event
again = (fine, 5, creates (codes "guest") [] (codes "secret") [] []) ∷ []

delete_guest : (delete_user fine two_users 2).1 ≡ ok tt
unfolding delete_user find_user count_admins text_eq
delete_guest = refl

deleted_stays_out_example :
    let later = run plain (delete_user fine two_users 2).0 again in
    ((token : Text) (u : User) → (validate_session fine later 6 token).1 ≡ ok u → u.id ≢ 2)
    × ((name password : Text) (token : Option Text) (u : User) (t : Text)
        → (login plain fine later 6 name password token).1 ≡ ok (u, t)
        → u.id ≢ 2)
deleted_stays_out_example =
    deleted_stays_out plain fine two_users 2 again fine 6 (omega arith) delete_guest

abbrev new_admin : User
new_admin = record {
  id = 1;
  username = codes "root";
  display_name = codes "root";
  role = admin;
  created_at = 4;
  last_login_at = none;
  has_recovery = true;
  recovery_question = [];
}

abbrev set_up_root : AuthStore × Result (User × Text)
set_up_root = set_up plain fine empty_store 4 (codes "root") (codes "secret") [] (some (codes "t"))

set_up_root-ok : set_up_root.1 ≡ ok (record new_admin { has_recovery = false }, codes "t")
unfolding set_up insert_user create_session find_name find_session
set_up_root-ok = refl

abbrev more : List Event
more = (fine, 5, creates (codes "guest") [] (codes "secret") [] []) ∷ (fine, 6, deletes 1) ∷ []

admin_remains_example :
    let later = run plain set_up_root.0 more in
    (0 < count_admins later.users)
    × ((o : Sql) (now : ℕ) (name password salt : Text) (token : Option Text)
        → (set_up plain o later now name password salt token).0 ≡ later)
admin_remains_example =
    admin_remains plain fine 4 (codes "root") (codes "secret") [] (some (codes "t"))
      (record new_admin { has_recovery = false }) (codes "t") more set_up_root-ok (tt, (refl, tt))

abbrev history : List Event
history = (fine, 4, sets_up (codes "root") (codes "secret") [] (some (codes "t"))) ∷ []

abbrev seen : Option User
seen = some (record new_admin { created_at = 0; has_recovery = false; last_login_at = some 0 })

served_root :
    (require_auth_middleware true fine
      (run plain empty_store history)
      7
      (codes "/api/v1/users")
      (some (codes "t"))).1
    ≡ served seen
unfolding require_auth_middleware run step set_up insert_user create_session find_name find_session
    find_user text_eq has_prefix validate_session trim_space
served_root = refl

require_auth-signed_in_example :
    (token : Text) × (u : User) × (s : Session) × (some (codes "t") ≡ some token)
    × (seen ≡ some u)
    × Known (sign_ins plain empty_store history) s
    × (s.token ≡ token)
    × (s.user_id ≡ u.id)
    × (7 ≤ s.expires_at)
unfolding has_prefix text_eq
require_auth-signed_in_example =
    require_auth-signed_in plain history fine 7 (codes "/api/v1/users") (some (codes "t")) seen refl
      served_root

recover_guest :
    (recover_password plain fine two_users (codes " guest") (codes "Rex ") (codes "forgot") []).1
    ≡ ok tt
unfolding recover_password find_name text_eq trim_space to_lower
recover_guest = refl

recover_password-recovers_example :
    (r : UserRow) × (find_name (trim_space (codes " guest")) two_users.users ≡ some r)
    × (text_eq r.recovery_answer_hash (trim_space (to_lower (codes "Rex "))) ≡ true)
    × OnlyBy plain r
        (trim_space (codes " guest"))
        (codes "forgot")
        (recover_password plain fine two_users
          (codes " guest")
          (codes "Rex ")
          (codes "forgot")
          []).0
recover_password-recovers_example =
    recover_password-recovers plain fine two_users (codes " guest") (codes "Rex ") (codes "forgot")
      [] plain-IsFaithful refl recover_guest
