-- ===== src/Quota/Tiling.antt =====
-- In a regular zone the Quota Windows of a schedule tile time: no gap and no overlap.
use native.Mathlib.Decide.{dec_lt}
use nineguard.Base.{
  ℕ, zero, suc, ◌+◌, ◌-◌, ◌/◌, ◌%◌, ◌≤◌, ◌<◌, ◌≡◌, sym, ap, ap₂, subst, ◌∙◌, true, Option, some,
  arith,
}
use nineguard.Base.Text.{Text}
use nineguard.Quota.{
  Location, Period, ResetSchedule, is_scheduled, nth, or_default, window_at, window_of, load,
  parse_clock, schedule_window,
}
use nineguard.Quota.Regular.{
  IsRegular, reset_day, reset_instant, index_of, Modern, nth-reset_instant, reset_day-suc,
}
use nineguard.Quota.Around.{reset_day-around, index_of-ge, or_default-fits}
use nineguard.Quota.Search.{find_window-brackets}

-- A local date after April of year 2, in a zone that is regular at the time of day `minute`.
module _ (loc : Location) (sched : ResetSchedule) (minute : ℕ) (period : Period)
    (scheduled : is_scheduled period ≡ true)
    (regular : IsRegular loc (minute / 60) (minute % 60)) where
  abbrev resets : ℕ → ℕ
  resets = reset_instant loc sched minute period

  instant_mono :
      (d j : ℕ)
      → loc.instant d (minute / 60) (minute % 60)
        < loc.instant (d + suc j) (minute / 60) (minute % 60)
  instant_mono d zero = let e : d + 1 ≡ suc d = omega arith in rw e (regular.later d)
  instant_mono d (suc j) =
      let e : d + suc (suc j) ≡ suc (d + suc j) = omega arith in
      rw e (omega (arith, instant_mono d j, regular.later (d + suc j)))

  resets-suc : (i : ℕ) → 12 ≤ i → resets i < resets (suc i)
  resets-suc i h =
      let d = reset_day sched period i in
      let gap = reset_day sched period (suc i) - d - 1 in
      let e : reset_day sched period (suc i) ≡ d + suc gap =
        omega (arith, reset_day-suc sched period i scheduled h) in
      subst
        (λ x. loc.instant d (minute / 60) (minute % 60) < loc.instant x (minute / 60) (minute % 60))
        (sym e) (instant_mono d gap)

  resets_mono : (i j : ℕ) → 12 ≤ i → resets i < resets (i + suc j)
  resets_mono i zero h = let e : i + 1 ≡ suc i = omega arith in rw e (resets-suc i h)
  resets_mono i (suc j) h =
      let e : i + suc (suc j) ≡ suc (i + suc j) = omega arith in
      rw e (omega (arith, resets_mono i j h, resets-suc (i + suc j) (omega arith)))

  resets-lt : (i j : ℕ) → 12 ≤ i → i < j → resets i < resets j
  resets-lt i j h lt =
      let e : j ≡ i + suc (j - i - 1) = omega arith in rw e (resets_mono i (j - i - 1) h)

  resets-le : (i j : ℕ) → 12 ≤ i → i ≤ j → resets i ≤ resets j
  resets-le i j h le = elim (dec_lt i j) [
    | yes lt ↦ omega (arith, resets-lt i j h lt)
    | no eq ↦ let e : i ≡ j = omega arith in rw e (omega arith)
  ]

  -- The window is one between two consecutive resets.
  record IsTile (now i : ℕ) : Type 0 where
    late : 12 ≤ i
    window : window_at loc sched minute period now ≡ (resets i, resets (i + 1))
    started : resets i ≤ now
    running : now < resets (i + 1)

  window_at-IsTile : (now : ℕ) → Modern (loc.local_day now) → (i : ℕ) × IsTile now i
  unfolding window_at
  window_at-IsTile now m =
      let n = loc.local_day now in
      let s = nth loc sched minute n period in
      let same = λ (k : ℕ). nth-reset_instant loc sched minute period n k scheduled m in
      let around = reset_day-around sched period n scheduled m in
      let lo : s 0 ≤ now =
        rw (same 0)
          (regular.past now (reset_day sched period (index_of period n + 0 - 4)) around.0) in
      let hi : now < s 8 =
        rw (same 8)
          (regular.future now (reset_day sched period (index_of period n + 8 - 4)) around.1) in
      let (k, found, started, running) = find_window-brackets s now lo hi in
      let i = index_of period n + k - 4 in
      let next : index_of period n + (k + 1) - 4 ≡ i + 1 = omega (arith, index_of-ge period n m) in
      let here : s k ≡ resets i = same k in
      let there : s (k + 1) ≡ resets (i + 1) = same (k + 1) ∙ ap resets next in
      (
        i,
        record {
          late = omega (arith, index_of-ge period n m);
          window = rw scheduled (
              ap (or_default period now) found
              ∙ or_default-fits period now (s k) (s (k + 1)) started running
              ∙ ap₂ (λ a b. (a, b)) here there);
          started = subst (λ x. x ≤ now) here started;
          running = subst (λ x. now < x) there running;
        },
      )

  tiles-agree :
      (now n i j : ℕ) → IsTile now i → IsTile n j → resets i ≤ n → n < resets (i + 1) → i ≡ j
  tiles-agree now n i j t u lo hi = elim (dec_lt j i) [
    | yes before ↦
        absurd (omega (arith, u.running, resets-le (j + 1) i (omega (arith, u.late)) (omega arith)))
    | no behind ↦ elim (dec_lt i j) [
      | yes after ↦
          absurd
            (omega (arith, u.started, resets-le (i + 1) j (omega (arith, t.late)) (omega arith)))
      | no ahead ↦ omega arith
    ]
  ]

  -- An instant of the window of `now` has the same window.
  same_window :
      (now n : ℕ)
      → Modern (loc.local_day now)
      → Modern (loc.local_day n)
      → (window_at loc sched minute period now).0 ≤ n
      → n < (window_at loc sched minute period now).1
      → window_at loc sched minute period n ≡ window_at loc sched minute period now
  same_window now n m m' lo hi =
      let (i, t) = window_at-IsTile now m in
      let (j, u) = window_at-IsTile n m' in
      let e =
        tiles-agree now n i j t u (subst (λ w. w.0 ≤ n) t.window lo)
          (subst (λ w. n < w.1) t.window hi) in
      u.window ∙ ap (λ (k : ℕ). (resets k, resets (k + 1))) (sym e) ∙ sym t.window

  -- At the reset the next window begins.
  next_window :
      (now n : ℕ)
      → Modern (loc.local_day now)
      → Modern (loc.local_day n)
      → n ≡ (window_at loc sched minute period now).1
      → (window_at loc sched minute period n).0 ≡ n
  next_window now n m m' reset =
      let (i, t) = window_at-IsTile now m in
      let (j, u) = window_at-IsTile n m' in
      let at : n ≡ resets (i + 1) = reset ∙ ap (λ w. w.1) t.window in
      let e : i + 1 ≡ j = tile_at n (i + 1) j (omega (arith, t.late)) u at in
      ap (λ w. w.0) u.window ∙ ap resets (sym e) ∙ sym at
    where
      tile_at : (n i j : ℕ) → 12 ≤ i → IsTile n j → n ≡ resets i → i ≡ j
      tile_at n i j late u at = elim (dec_lt j i) [
        | yes before ↦
            absurd
              (omega (arith, u.running, resets-le (j + 1) i (omega (arith, u.late)) (omega arith)))
        | no behind ↦ elim (dec_lt i j) [
          | yes after ↦ absurd (omega (arith, u.started, resets-lt i j late after))
          | no ahead ↦ omega arith
        ]
      ]

-- Where the schedule's zone loads and its clock is valid, its Quota Windows tile time: every
-- instant inside the current window has that same window, and the instant of its reset starts the
-- next one. It holds in a zone that is regular at that time of day, for local dates after April
-- of year 2.
pub windows_tile :
    (zones : Text → Option Location) (period : Period) (sched : ResetSchedule) (loc : Location)
    (minute now n : ℕ)
    → is_scheduled period ≡ true
    → load zones (some sched) ≡ some loc
    → parse_clock sched.time ≡ some minute
    → IsRegular loc (minute / 60) (minute % 60)
    → Modern (loc.local_day now)
    → Modern (loc.local_day n)
    → let (start, reset_at) = schedule_window zones period (some sched) now in
      ((start ≤ n)
        → (n < reset_at)
        → schedule_window zones period (some sched) n ≡ (start, reset_at))
      × (n ≡ reset_at → (schedule_window zones period (some sched) n).0 ≡ reset_at)
unfolding schedule_window window_of
windows_tile zones period sched loc minute now n h loaded clock regular m m' =
    rw (loaded, clock, window_of)
      (
        same_window loc sched minute period h regular now n m m',
        λ e. next_window loc sched minute period h regular now n m m' e ∙ e,
      )
