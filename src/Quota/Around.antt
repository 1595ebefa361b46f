-- ===== src/Quota/Around.antt =====
-- The candidate resets lie around the local day they are computed for.
use nineguard.Base.{ℕ, zero, suc, ◌+◌, ◌-◌, ◌*◌, ◌≤◌, ◌<◌, ◌≡◌, subst, true, arith}
use nineguard.Calendar.{month_start, month_of, days_in}
use nineguard.Calendar.Months.{month_of-bounds, month_start-suc, days_in-bounds}
use nineguard.Quota.{
  Period, ResetSchedule, daily, weekly, monthly, total, never, unset, unknown, clamp_int,
  is_scheduled, or_default,
}
use nineguard.Quota.Regular.{reset_day, index_of, Modern, clamp_day, clamp_weekday}

month_start-add : (k j : ℕ) → 12 ≤ k → month_start k + 28 * j ≤ month_start (k + j)
month_start-add k zero h = let e : k + zero ≡ k = omega arith in rw e (omega arith)
month_start-add k (suc j) h =
    let e : k + suc j ≡ k + j + 1 = omega arith in
    rw e (omega (arith, month_start-add k j h, month_start-suc (k + j) (omega arith)))

monthly_around :
    (i n v w : ℕ)
    → 12 ≤ i
    → month_start (i + 4) ≤ n
    → n < month_start (i + 5)
    → v ≤ days_in i
    → (month_start i + (v - 1) + 2 ≤ n) × (n + 2 ≤ month_start (i + 8) + w)
monthly_around i n v w h lo hi le =
    (omega (arith, month_start-add i 4 h, days_in-bounds i h), omega (arith, month_start-eight))
  where
    month_start-eight : month_start (i + 5) + 28 * 3 ≤ month_start (i + 8)
    month_start-eight =
        let e : i + 8 ≡ i + 5 + 3 = omega arith in rw e (month_start-add (i + 5) 3 (omega arith))

-- The resets around a local day: the fourth before its day, week or month, and the fourth after.
pub reset_day-around :
    (sched : ResetSchedule) (period : Period) (n : ℕ)
    → is_scheduled period ≡ true
    → Modern n
    → (reset_day sched period (index_of period n + 0 - 4) + 2 ≤ n)
      × (n + 2 ≤ reset_day sched period (index_of period n + 8 - 4))
unfolding reset_day index_of
reset_day-around sched daily n h (old, m) = omega arith
reset_day-around sched weekly n h (old, m) = omega (arith, clamp_weekday sched.weekday)
reset_day-around sched monthly n h (old, m) =
    let i = month_of n - 4 in
    let now : month_of n ≡ i + 4 = omega arith in
    let next : month_of n + 1 ≡ i + 5 = omega arith in
    let before : month_of n + 0 - 4 ≡ i = omega arith in
    let after : month_of n + 8 - 4 ≡ i + 8 = omega arith in
    let (lo, hi, _) = month_of-bounds n in
    rw (before, after)
      (monthly_around i n (clamp_int sched.day 1 (days_in i))
        (clamp_int sched.day 1 (days_in (i + 8)) - 1) (omega arith)
        (subst (λ x. month_start x ≤ n) now lo) (rw next at hi)
        (clamp_day sched.day i (omega arith)).1)
reset_day-around sched total n h m = cc
reset_day-around sched never n h m = cc
reset_day-around sched unset n h m = cc
reset_day-around sched (unknown p) n h m = cc

pub index_of-ge : (period : Period) (n : ℕ) → Modern n → 16 ≤ index_of period n
unfolding index_of
index_of-ge weekly n m = omega arith
index_of-ge monthly n m = m.1
index_of-ge daily n m = omega arith
index_of-ge _ n m = omega arith

pub or_default-fits :
    (period : Period) (now start reset_at : ℕ)
    → start ≤ now
    → now < reset_at
    → or_default period now (start, reset_at) ≡ (start, reset_at)
unfolding or_default
or_default-fits _ now start reset_at lo hi = ground arith
