-- ===== src/Calendar/Months.antt =====
-- The day numbers of the calendar agree: each day lies in its month, and months follow one another.
use Prim.Native.Nat.{min}
use native.Mathlib.Decide.{dec_lt}
use nineguard.Base.{
  ℕ, zero, suc, ◌+◌, ◌-◌, ◌*◌, ◌/◌, ◌%◌, ◌≤◌, ◌<◌, ◌≡◌, ◌⊎◌, inl, inr, Bool, true, false, arith,
  if◌then◌else◌,
}
use nineguard.Calendar.{
  is_leap, year_start, year_of, before_month, month_in, month_in_year, month_start, month_of,
  days_in,
}

year_len : Bool → ℕ
year_len leap = if leap then 366 else 365

year_start-suc :
    (p : ℕ) → year_start (suc (suc p)) ≡ year_start (suc p) + year_len (is_leap (suc p))
unfolding year_start is_leap year_len
year_start-suc p = ground arith

year_of-start : (n : ℕ) → year_start (year_of n) ≤ n
unfolding year_start year_of
year_of-start n = omega arith

year_len-ge : (leap : Bool) → 365 ≤ year_len leap
unfolding year_len
year_len-ge leap = ground arith

-- The year in which a four-year cycle ends is a leap year, but for the turn of a century.
is_leap-fourth :
    (a c q : ℕ)
    → q ≤ 24
    → c ≤ 3
    → (q < 24) ⊎ (c ≡ 3)
    → is_leap (400 * a + 100 * c + 4 * q + 4) ≡ true
unfolding is_leap
is_leap-fourth a c q hq hc (inl few) = ground (arith, mod_hundred)
  where
    mod_hundred : (400 * a + 100 * c + 4 * q + 4) % 100 ≡ 4 * q + 4
    mod_hundred = omega arith
is_leap-fourth a c q hq hc (inr last) = ground arith

century :
    (n : ℕ)
    → ¬ (n < year_start (year_of n) + 365)
    → ((n % 146097 - 36524 * min 3 (n % 146097 / 36524)) / 1461 < 24)
      ⊎ (min 3 (n % 146097 / 36524) ≡ 3)
unfolding year_start year_of
century n last = elim (dec_lt (min 3 (n % 146097 / 36524)) 3) [
  | yes early ↦ inl (omega arith)
  | no late ↦ inr (omega arith)
]

-- The last day that `year_of` gives to a year, 365 days after its first, is that of a leap year.
year_of-day :
    (n : ℕ)
    → (n < year_start (year_of n) + 365)
      ⊎ ((n ≡ year_start (year_of n) + 365) × (is_leap (year_of n) ≡ true))
unfolding year_start year_of
year_of-day n =
    let a = n / 146097 in
    let c = min 3 (n % 146097 / 36524) in
    let q = (n % 146097 - 36524 * c) / 1461 in
    elim (dec_lt n (year_start (year_of n) + 365)) [
      | yes few ↦ inl few
      | no last ↦
          let e : year_of n ≡ 400 * a + 100 * c + 4 * q + 4 = omega arith in
          inr
            (omega arith, rw e (is_leap-fourth a c q (omega arith) (omega arith) (century n last)))
    ]

year_of-end : (n : ℕ) → n < year_start (year_of n) + year_len (is_leap (year_of n))
unfolding year_len
year_of-end n = elim (year_of-day n) [
  | inl few ↦ omega (arith, year_len-ge (is_leap (year_of n)))
  | inr last ↦ rw last.1 (omega arith)
]

year_of-pos : (n : ℕ) → 1 ≤ year_of n
unfolding year_of
year_of-pos n = omega arith

month_in-bounds :
    (leap : Bool) (d : ℕ)
    → d < year_len leap
    → (month_in leap d < 12)
      × (before_month leap (month_in leap d) ≤ d)
      × (d < before_month leap (suc (month_in leap d)))
unfolding month_in before_month year_len
month_in-bounds true d h = ground arith
month_in-bounds false d h = ground arith

month_start-split :
    (y m : ℕ) → m < 12 → month_start (12 * y + m) ≡ year_start y + before_month (is_leap y) m
unfolding month_start
month_start-split y m h =
    let year : (12 * y + m) / 12 ≡ y = omega arith in
    let month : (12 * y + m) % 12 ≡ m = omega arith in rw (year, month)

-- The month after the m-th of a year, December included.
month_start-next :
    (p m : ℕ)
    → m < 12
    → month_start (12 * suc p + m + 1) ≡ year_start (suc p) + before_month (is_leap (suc p)) (suc m)
month_start-next p m h = elim (dec_lt m 11) [
  | yes early ↦
      let e : 12 * suc p + m + 1 ≡ 12 * suc p + suc m = omega arith in
      rw (e, month_start-split (suc p) (suc m) (omega arith))
  | no late ↦
      let e : 12 * suc p + m + 1 ≡ 12 * suc (suc p) + 0 = omega arith in
      let december : m ≡ 11 = omega arith in
      rw (e, month_start-split (suc (suc p)) 0 (omega arith), december, year_start-suc p)
        (december_len (year_start (suc p)) (is_leap (suc p)) (is_leap (suc (suc p))))
]
  where
    december_len :
        (n : ℕ) (leap next : Bool)
        → n + year_len leap + before_month next 0 ≡ n + before_month leap 12
    december_len n leap next = unfold year_len before_month in ground arith

month_in_year-bounds :
    (p n : ℕ)
    → year_start (suc p) ≤ n
    → n < year_start (suc p) + year_len (is_leap (suc p))
    → (month_start (month_in_year (suc p) n) ≤ n)
      × (n < month_start (month_in_year (suc p) n + 1))
      × (12 ≤ month_in_year (suc p) n)
unfolding month_in_year
month_in_year-bounds p n lo hi =
    let d = n - year_start (suc p) in
    let m = month_in (is_leap (suc p)) d in
    let inside = month_in-bounds (is_leap (suc p)) d (omega arith) in
    (
      omega (arith, inside, month_start-split (suc p) m inside.0),
      omega (arith, inside, month_start-next p m inside.0),
      omega arith,
    )

month_in_year-day :
    (y n : ℕ)
    → 1 ≤ y
    → year_start y ≤ n
    → n < year_start y + year_len (is_leap y)
    → (month_start (month_in_year y n) ≤ n)
      × (n < month_start (month_in_year y n + 1))
      × (12 ≤ month_in_year y n)
month_in_year-day zero n pos lo hi = absurd (omega arith)
month_in_year-day (suc p) n pos lo hi = month_in_year-bounds p n lo hi

-- A day number lies in the month that `month_of` gives, which is one of year 1 or later.
pub month_of-bounds :
    (n : ℕ)
    → (month_start (month_of n) ≤ n) × (n < month_start (month_of n + 1)) × (12 ≤ month_of n)
unfolding month_of
month_of-bounds n =
    month_in_year-day (year_of n) n (year_of-pos n) (year_of-start n) (year_of-end n)

before_month-suc :
    (leap : Bool) (m : ℕ)
    → m < 12
    → (before_month leap m + 28 ≤ before_month leap (suc m))
      × (before_month leap (suc m) ≤ before_month leap m + 31)
unfolding before_month
before_month-suc true m h = ground arith
before_month-suc false m h = ground arith

-- Months from year 1 on have 28 to 31 days.
pub month_start-suc :
    (k : ℕ)
    → 12 ≤ k
    → (month_start k + 28 ≤ month_start (k + 1)) × (month_start (k + 1) ≤ month_start k + 31)
month_start-suc k h =
    let p = k / 12 - 1 in
    let m = k % 12 in
    let e : k ≡ 12 * suc p + m = omega arith in
    let small : m < 12 = omega arith in
    rw (e, month_start-split (suc p) m small, month_start-next p m small)
      (before_month-step (year_start (suc p)) (is_leap (suc p)) m small)
  where
    before_month-step :
        (n : ℕ) (leap : Bool) (m : ℕ)
        → m < 12
        → (n + before_month leap m + 28 ≤ n + before_month leap (suc m))
          × (n + before_month leap (suc m) ≤ n + before_month leap m + 31)
    before_month-step n leap m h =
        (omega (arith, before_month-suc leap m h), omega (arith, before_month-suc leap m h))

-- The length of a month.
pub days_in-bounds :
    (k : ℕ)
    → 12 ≤ k
    → (28 ≤ days_in k) × (days_in k ≤ 31) × (month_start k + days_in k ≡ month_start (k + 1))
unfolding days_in
days_in-bounds k h = (
  omega (arith, month_start-suc k h),
  omega (arith, month_start-suc k h),
  omega (arith, month_start-suc k h),
)
