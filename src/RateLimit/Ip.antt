-- ===== src/RateLimit/Ip.antt =====
-- The sliding window of `AllowIP`.
use nineguard.Base.{
  ℕ, ◌+◌, ◌*◌, ◌≤◌, ◌≡◌, refl, sym, ap, subst, ◌∙◌, inl, inr, List, [], ◌∷◌, ◌++◌, Option, none,
  some, true, false, arith, ltb, leb, if◌then◌else◌, Bool-cases, length, length-append,
  filter-append, length-filter-le,
}
use nineguard.Base.Text.{Text, text_eq, text_eq_refl, text_eq→eq}
use nineguard.RateLimit.{
  RateLimiter, new_rate_limiter, second, ip_rate_limit_max, ip_rate_limit_window, recent,
  timestamps, decide_ip, allow_ip, is_user_locked, record_user_failure, record_user_success,
  clean_ip, cleanup,
}
use nineguard.RateLimit.Runs.{
  Call, allows, checks, fails, succeeds, cleans, step, run, grants_now, grants, Ordered, last_time,
}

-- What has left the window stays out of it.
pub recent-recent : (m n : ℕ) (ts : List ℕ) → m ≤ n → recent n (recent m ts) ≡ recent n ts
recent-recent m n [] h = refl
recent-recent m n (t ∷ ts) h = ground (arith, recent-recent m n ts h)

pub recent-shrinks : (m n : ℕ) (ts : List ℕ) → m ≤ n → length (recent n ts) ≤ length (recent m ts)
recent-shrinks m n ts h = omega (
  arith,
  ap length (recent-recent m n ts h),
  length-filter-le (λ t. ltb n (t + ip_rate_limit_window)) (recent m ts),
)

pub clean_ip-timestamps :
    (now : ℕ) (o : Option (List ℕ)) → timestamps (clean_ip now o) ≡ recent now (timestamps o)
unfolding clean_ip
clean_ip-timestamps now none = refl
clean_ip-timestamps now (some ts) = ground arith

-- The stored timestamps of an address after one call.
abbrev stored : RateLimiter → Text → List ℕ
stored rl ip = timestamps (rl.ip_requests ip)

-- From `t` on the store shows the same grants in the window as the whole history does, and it
-- holds at most ten.
record Tracks (t : ℕ) (h s : List ℕ) : Type 0 where
  same : (n : ℕ) → t ≤ n → recent n h ≡ recent n s
  short : length s ≤ ip_rate_limit_max

Tracks-later : {t m : ℕ} {h s : List ℕ} → t ≤ m → Tracks t h s → Tracks m h s
Tracks-later {t} {m} le k = record { same = λ n q. k.same n (omega arith); short = k.short }

Tracks-recent : (t m : ℕ) (h s : List ℕ) → t ≤ m → Tracks t h s → Tracks m h (recent m s)
Tracks-recent t m h s le k = record {
  same = λ n q. k.same n (omega arith) ∙ sym (recent-recent m n s q);
  short = omega (arith, k.short, length-filter-le (λ x. ltb m (x + ip_rate_limit_window)) s);
}

Tracks-grant :
    (m : ℕ) (h s : List ℕ) → Tracks m h s → length s ≤ 9 → Tracks m (h ++ m ∷ []) (s ++ m ∷ [])
Tracks-grant m h s k few = record {
  same = λ n q. rw (
    filter-append (λ x. ltb n (x + ip_rate_limit_window)) h (m ∷ []),
    filter-append (λ x. ltb n (x + ip_rate_limit_window)) s (m ∷ []),
    k.same n q,
  );
  short = omega (arith, length-append s (m ∷ []));
}

Tracks-decide :
    (m : ℕ) (h s : List ℕ)
    → Tracks m h s
    → Tracks m (if (decide_ip m s).1 then h ++ m ∷ [] else h) (decide_ip m s).0
unfolding decide_ip
Tracks-decide m h s k = elim (Bool-cases (leb ip_rate_limit_max (length s))) [
  | inl full ↦ rw full k
  | inr room ↦ rw room (Tracks-grant m h s k (ground arith))
]

is_user_locked-ip_requests :
    (rl : RateLimiter) (m : ℕ) (a u : Text)
    → (is_user_locked rl m a u).0.ip_requests ≡ rl.ip_requests
unfolding is_user_locked
is_user_locked-ip_requests rl m a u = ground arith

Tracks-step :
    (rl : RateLimiter) (t m : ℕ) (c : Call) (ip : Text) (h : List ℕ)
    → t ≤ m
    → Tracks t h (stored rl ip)
    → Tracks m (if grants_now rl m c ip then h ++ m ∷ [] else h) (stored (step rl m c) ip)
unfolding step grants_now allow_ip
Tracks-step rl t m (allows j) ip h le k = elim (Bool-cases (text_eq ip j)) [
  | inl e ↦ rw e (
      subst
        (λ x.
          Tracks m (if (decide_ip m (recent m (stored rl x))).1 then h ++ m ∷ [] else h)
            (decide_ip m (recent m (stored rl x))).0)
        (text_eq→eq ip j e)
        (Tracks-decide m h (recent m (stored rl ip))
          (Tracks-recent m m h (stored rl ip) (omega arith) (Tracks-later le k))))
  | inr e ↦ rw e (Tracks-later le k)
]
Tracks-step rl t m (checks a u) ip h le k =
    rw (is_user_locked-ip_requests rl m a u) (Tracks-later le k)
Tracks-step rl t m (fails a u) ip h le k = unfold record_user_failure in Tracks-later le k
Tracks-step rl t m (succeeds a u) ip h le k = unfold record_user_success in Tracks-later le k
Tracks-step rl t m cleans ip h le k =
    unfold cleanup in
    rw (clean_ip-timestamps m (rl.ip_requests ip)) (Tracks-recent t m h (stored rl ip) le k)

Tracks-grants :
    (cs : List (ℕ × Call)) (rl : RateLimiter) (t : ℕ) (h : List ℕ) (ip : Text)
    → Ordered t cs
    → Tracks t h (stored rl ip)
    → Tracks (last_time t cs) (grants rl h cs ip) (stored (run rl cs) ip)
unfolding run grants
Tracks-grants [] rl t h ip o k = k
Tracks-grants ((m, c) ∷ cs) rl t h ip o k =
    Tracks-grants cs (step rl m c) m (if grants_now rl m c ip then h ++ m ∷ [] else h) ip o.1
      (Tracks-step rl t m c ip h o.0 k)

Tracks-new : (ip : Text) → Tracks 0 [] (stored new_rate_limiter ip)
Tracks-new ip = record { same = λ n q. refl; short = omega arith }

-- However the calls of all methods are interleaved on a new limiter, under a clock that does not
-- go back: at every instant n from the last call on, at most ten requests of an address were let
-- through within the minute before n.
pub grants_bounded :
    (cs : List (ℕ × Call)) (ip : Text) (n : ℕ)
    → Ordered 0 cs
    → last_time 0 cs ≤ n
    → length (recent n (grants new_rate_limiter [] cs ip)) ≤ ip_rate_limit_max
grants_bounded cs ip n o le =
    let k = Tracks-grants cs new_rate_limiter 0 [] ip o (Tracks-new ip) in
    rw (k.same n le) (
      omega (
        arith,
        k.short,
        length-filter-le (λ t. ltb n (t + ip_rate_limit_window))
            (stored (run new_rate_limiter cs) ip),
      ))

-- Once the oldest of at most ten timestamps has left the window there is room.
decide_ip-retry :
    (now n : ℕ) (valid : List ℕ)
    → length valid ≤ ip_rate_limit_max
    → (decide_ip now valid).1 ≡ false
    → now + (decide_ip now valid).2 * second ≤ n
    → (1 ≤ (decide_ip now valid).2) × ((decide_ip n (recent n (decide_ip now valid).0)).1 ≡ true)
unfolding decide_ip
decide_ip-retry now n [] short refused waited = cc
decide_ip-retry now n (t ∷ ts) short refused waited =
    ground (arith, length-filter-le (λ (x : ℕ). ltb n (x + ip_rate_limit_window)) ts)

-- A refused address that stays quiet for the number of seconds it was told is let through again,
-- at any later instant too, provided that the store held at most ten timestamps of it. The answer
-- is at least one second.
allow_ip-retry :
    (rl : RateLimiter) (now n : ℕ) (ip : Text)
    → length (timestamps (rl.ip_requests ip)) ≤ ip_rate_limit_max
    → (allow_ip rl now ip).1 ≡ false
    → now + (allow_ip rl now ip).2 * second ≤ n
    → (1 ≤ (allow_ip rl now ip).2) × ((allow_ip (allow_ip rl now ip).0 n ip).1 ≡ true)
unfolding allow_ip
allow_ip-retry rl now n ip short refused waited = rw (text_eq_refl ip) (
    decide_ip-retry now n (recent now (timestamps (rl.ip_requests ip)))
      (omega (
        arith,
        short,
        length-filter-le (λ t. ltb now (t + ip_rate_limit_window)) (timestamps (rl.ip_requests ip)),
      ))
      refused waited)
