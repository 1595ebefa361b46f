-- ===== src/Quota/Search.antt =====
-- The search of `quotaWindow` among the candidate resets, back and then on to the bracketing pair.
use native.Mathlib.Decide.{dec_lt}
use nineguard.Base.{
  ℕ, zero, suc, ◌+◌, ◌-◌, ◌≤◌, ◌<◌, ◌≡◌, refl, ap, ◌⊎◌, inl, inr, arith, lt→ltb, le→not-ltb,
}
use nineguard.Quota.{go_back, go_on, find_window}

-- The search backwards stops at a value that is not after `now`, one step before a later one.
go_back-le :
    (s : ℕ → ℕ) (now i k : ℕ)
    → k ≤ i
    → s 0 ≤ now
    → (go_back s now i k ≤ k)
      × (s (go_back s now i k) ≤ now)
      × ((go_back s now i k ≡ k) ⊎ (now < s (go_back s now i k + 1)))
unfolding go_back
go_back-le s now zero zero h lo = (omega arith, lo, inl refl)
go_back-le s now zero (suc k) h lo = absurd (omega arith)
go_back-le s now (suc i) zero h lo = elim (dec_lt now (s 0)) [
  | yes after ↦ absurd (omega arith)
  | no here ↦ ground arith
]
go_back-le s now (suc i) (suc k) h lo = elim (dec_lt now (s (suc k))) [
  | yes after ↦
      let back : suc k - 1 ≡ k = omega arith in
      let next : k + 1 ≡ suc k = omega arith in
      rw (lt→ltb now (s (suc k)) after, go_back, back)
        (go_back-shift k (go_back-le s now i k (omega arith) lo) (rw next after))
  | no here ↦
      rw (le→not-ltb now (s (suc k)) (omega arith), go_back) (omega arith, omega arith, inl refl)
]
  where
    go_back-shift :
        (k : ℕ) {r : ℕ}
        → (r ≤ k) × (s r ≤ now) × ((r ≡ k) ⊎ (now < s (r + 1)))
        → now < s (k + 1)
        → (r ≤ suc k) × (s r ≤ now) × ((r ≡ suc k) ⊎ (now < s (r + 1)))
    go_back-shift k (le, lo, inl e) after = (omega arith, lo, inr (rw e after))
    go_back-shift k (le, lo, inr far) after = (omega arith, lo, inr far)

-- The search onwards stops one step before a value that is after `now`.
go_on-lt :
    (s : ℕ → ℕ) (now i k : ℕ)
    → s k ≤ now
    → now < s (k + suc i)
    → (k ≤ go_on s now (suc i) k)
      × (s (go_on s now (suc i) k) ≤ now)
      × (now < s (go_on s now (suc i) k + 1))
unfolding go_on
go_on-lt s now zero k lo hi =
    let e : k + suc zero ≡ k + 1 = omega arith in
    rw (lt→ltb now (s (k + 1)) (rw e at hi), go_on) (omega arith, lo, rw e at hi)
go_on-lt s now (suc i) k lo hi = elim (dec_lt now (s (k + 1))) [
  | yes here ↦ rw (lt→ltb now (s (k + 1)) here, go_on) (omega arith, lo, here)
  | no on ↦
      let e : k + suc (suc i) ≡ k + 1 + suc i = omega arith in
      let (le, low, high) = go_on-lt s now i (k + 1) (omega arith) (rw e at hi) in
      rw (le→not-ltb now (s (k + 1)) (omega arith), go_on) (omega (arith, le), low, high)
]

go_on-stop : (s : ℕ → ℕ) (now i k : ℕ) → now < s (k + 1) → go_on s now (suc i) k ≡ k
unfolding go_on
go_on-stop s now i k h = rw (lt→ltb now (s (k + 1)) h, go_on)

-- What the whole search finds where `now` lies between S(0) and S(8).
pub find_window-brackets :
    (s : ℕ → ℕ) (now : ℕ)
    → s 0 ≤ now
    → now < s 8
    → (k : ℕ) × (find_window s now ≡ (s k, s (k + 1))) × (s k ≤ now) × (now < s (k + 1))
unfolding find_window
find_window-brackets s now lo hi =
    let k = go_back s now 4 4 in
    let (le, here, stopped) = go_back-le s now 4 4 (omega arith) lo in
    elim stopped [
      | inl e ↦
          let (far, low, high) = go_on-lt s now 3 k here (rw e hi) in
          (go_on s now 4 k, refl, low, high)
      | inr after ↦ (k, ap (λ j. (s j, s (j + 1))) (go_on-stop s now 3 k after), here, after)
    ]
