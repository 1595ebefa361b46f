-- ===== src/Handler/Examples.antt =====
-- Six attempts to log in with a wrong password.
use nineguard.Base.{ℕ, ◌≡◌, refl, List, [], ◌∷◌, none, some, true, arith}
use nineguard.Base.Text.{codes, text_eq, trim_space}
use nineguard.RateLimit.{
  new_rate_limiter, allow_ip, is_user_locked, record_user_failure, user_lock_key,
}
use nineguard.Auth.{Sql, Bcrypt, bad_credentials, admin, find_name}
use nineguard.Auth.Accounts.{login}
use nineguard.Handler.{Server, too_many_requests, auth_login, check_ip_limit, unless_locked}
use nineguard.Handler.BruteForce.{Attempt, attempts, Rejected, brute_force_locked}

abbrev plain : Bcrypt
plain = record { generate = λ salt p. some p; compare_hash = λ h p. text_eq h p }

abbrev fine : Sql
fine = record {
  counts = true;
  reads = true;
  writes = true;
  marks = true;
  opens = true;
  ends = true;
  cascades = true;
}

abbrev server : Server
server = record {
  limiter = new_rate_limiter;
  accounts = record {
    users =
        record {
          id = 1;
          username = codes "ann";
          display_name = codes "ann";
          password_hash = codes "secret";
          role = admin;
          recovery_question = [];
          recovery_answer_hash = [];
          created_at = 0;
          last_login_at = none;
        }
        ∷ [];
    sessions = [];
    next_id = 2;
  };
}

abbrev guess : ℕ → Attempt
guess n = record {
  at = record { arrived = n; checked = n; ended = n };
  ip = codes "1.2";
  password = codes "guess";
  token = some (codes "t");
  sql = fine;
}

abbrev guesses : List Attempt
guesses = guess 2 ∷ guess 3 ∷ guess 4 ∷ guess 5 ∷ []

abbrev right : Attempt
right = record (guess 6) { password = codes "secret"; ip = codes "3.4" }

all-Rejected : Rejected plain server (codes " ann") (guess 1 ∷ guesses)
unfolding auth_login check_ip_limit unless_locked allow_ip is_user_locked record_user_failure
    user_lock_key login find_name text_eq trim_space
all-Rejected = (
  (bad_credentials, refl),
  (
    (bad_credentials, refl),
    ((bad_credentials, refl), ((bad_credentials, refl), ((bad_credentials, refl), tt))),
  ),
)

brute_force_locked_example :
    let later = attempts plain server (codes " ann") (guess 1 ∷ guesses) in
    let (after, reply) =
      auth_login plain fine later right.at right.ip
        (some (codes " ann", codes "secret"))
        (some (codes "t")) in
    (retry : ℕ) × (reply ≡ too_many_requests retry) × (after.accounts ≡ later.accounts)
unfolding trim_space user_lock_key
brute_force_locked_example =
    brute_force_locked plain server (codes " ann") (guess 1) guesses right refl tt (omega arith)
      all-Rejected (omega arith) (omega arith)
