-- ===== src/Keys/Schedule/Rows.antt =====
-- What the bulk changes of schedules do to each row of the keys.
use nineguard.Base.{
  ℕ, ◌≡◌, refl, sym, subst, inl, inr, List, [], ◌∷◌, Option, none, some, Bool, true, arith,
  Bool-cases, Option-cases,
}
use nineguard.Base.Text.{Text}
use nineguard.Quota.{Location, Period, ResetSchedule, is_scheduled, calc_quota_window}
use nineguard.Keys.Schedule.{
  Codec, KeyScheduleRow, Error, Result, ok, err, is_empty, parse_schedule, parse_pins, row_rule,
}
use nineguard.Keys.Schedule.Bulk.{
  ScheduleStore, cons_result, repin_row, clear_own, clear_row, write_one, write_rows, commit,
}
use nineguard.Keys.Schedule.Stored.{
  IsFaithful, parse_pins-WellFormed, effective_none, effective_some, start_kept,
}

module _ (zones : Text → Option Location) (codec : Codec) (faithful : IsFaithful codec) where
  -- The quota window of a row, under a Global Reset Schedule.
  abbrev pub window : Period → Option ResetSchedule → KeyScheduleRow → ℕ → ℕ × ℕ
  window period global r now = calc_quota_window zones period (row_rule zones codec global r) now

  -- The row after the loop of `SetGlobalSchedule`.
  abbrev pub rewritten : KeyScheduleRow → Option KeyScheduleRow → KeyScheduleRow
  rewritten r none = r
  rewritten r (some r') = r'

  -- What a bulk change does to one row: its identity stays, and its window starts where it did.
  pub record Keeps (period : Period) (old new : Option ResetSchedule) (now : ℕ)
      (r r' : KeyScheduleRow) : Type 0 where
    pub same_id : r'.id ≡ r.id
    pub same_start : (window period new r' now).0 ≡ (window period old r now).0

  pub repin_row-Keeps :
      (period : Period) (old new : Option ResetSchedule) (now : ℕ) (r : KeyScheduleRow)
      → is_scheduled period ≡ true
      → Keeps period old new now r (rewritten r (repin_row zones codec old new now r))
  unfolding repin_row row_rule
  repin_row-Keeps period old new now r h =
      elim (Option-cases (parse_schedule zones codec r.own_raw)) [
        | inr (own, custom) ↦ rw custom (record {
          same_id = refl;
          same_start = rw (
            custom,
            effective_some zones codec faithful own old,
            effective_some zones codec faithful own new,
          );
        })
        | inl following ↦ rw following (record {
          same_id = refl;
          same_start =
              rw
                (
                  following,
                  effective_none zones codec faithful old,
                  effective_none zones codec faithful new,
                )
                (start_kept zones codec faithful period old new (parse_pins zones codec r.pins_raw)
                  now h (parse_pins-WellFormed zones codec faithful r.pins_raw));
        })
      ]

  pub parse_schedule-blank : parse_schedule zones codec [] ≡ none
  unfolding parse_schedule
  parse_schedule-blank = refl

  pub clear_row-Keeps :
      (period : Period) (global : Option ResetSchedule) (now : ℕ) (r : KeyScheduleRow)
      → is_scheduled period ≡ true
      → Keeps period global global now r (rewritten r (clear_row zones codec global now r))
  unfolding clear_row clear_own row_rule
  clear_row-Keeps period global now r h =
      elim (Option-cases (parse_schedule zones codec r.own_raw)) [
        | inr (own, custom) ↦ rw custom (record {
          same_id = refl;
          same_start =
              rw
                (
                  custom,
                  parse_schedule-blank,
                  effective_some zones codec faithful own global,
                  effective_none zones codec faithful global,
                )
                (start_kept zones codec faithful period (some own) global
                  (parse_pins zones codec r.pins_raw) now h
                  (parse_pins-WellFormed zones codec faithful r.pins_raw));
        })
        | inl following ↦ elim (Bool-cases (is_empty r.own_raw)) [
          | inl blank ↦ rw (following, blank) (record { same_id = refl; same_start = refl })
          | inr junk ↦
              rw (following, junk)
                (record { same_id = refl; same_start = rw (following, parse_schedule-blank) })
        ]
      ]

  -- Row by row.
  abbrev pub AllKept :
      Period
      → Option ResetSchedule
      → Option ResetSchedule
      → ℕ
      → List KeyScheduleRow
      → List KeyScheduleRow
      → Type 0
  AllKept period old new now [] [] = Unit {0}
  AllKept period old new now [] (r' ∷ rs') = ⊥
  AllKept period old new now (r ∷ rs) [] = ⊥
  AllKept period old new now (r ∷ rs) (r' ∷ rs') =
      Keeps period old new now r r' × AllKept period old new now rs rs'

  cons_result-ok :
      (r : KeyScheduleRow) (rest : Result (List KeyScheduleRow)) (rows : List KeyScheduleRow)
      → cons_result r rest ≡ ok rows
      → (rs : List KeyScheduleRow) × (rest ≡ ok rs) × (rows ≡ r ∷ rs)
  cons_result-ok r (ok rs) rows h = (rs, refl, ground arith)
  cons_result-ok r (err e) rows h = cc

  write_one-ok :
      (written : Text → Bool) (failed : Text → Error) (r : KeyScheduleRow)
      (o : Option KeyScheduleRow) (rest : Result (List KeyScheduleRow)) (rows : List KeyScheduleRow)
      → write_one zones codec written failed r o rest ≡ ok rows
      → (rs : List KeyScheduleRow) × (rest ≡ ok rs) × (rows ≡ rewritten r o ∷ rs)
  unfolding write_one
  write_one-ok written failed r none rest rows h = cons_result-ok r rest rows h
  write_one-ok written failed r (some r') rest rows h = elim (Bool-cases (written r.id)) [
    | inl done ↦ cons_result-ok r' rest rows (rw done at h)
    | inr lost ↦ cc (rw lost at h)
  ]

  pub write_rows-AllKept :
      (written : Text → Bool) (failed : Text → Error)
      (change : KeyScheduleRow → Option KeyScheduleRow) (period : Period)
      (old new : Option ResetSchedule) (now : ℕ)
      → ((r : KeyScheduleRow) → Keeps period old new now r (rewritten r (change r)))
      → (rs rows : List KeyScheduleRow) → write_rows zones codec written failed change rs ≡ ok rows
      → AllKept period old new now rs rows
  unfolding write_rows
  write_rows-AllKept written failed change period old new now keep [] rows h =
      let e : [] ≡ rows = ground arith in subst (λ x. AllKept period old new now [] x) e tt
  write_rows-AllKept written failed change period old new now keep (r ∷ rs) rows h =
      let (rows', rest, e) =
        write_one-ok written failed r (change r) (write_rows zones codec written failed change rs)
          rows h in
      subst (λ x. AllKept period old new now (r ∷ rs) x) (sym e)
        (keep r, write_rows-AllKept written failed change period old new now keep rs rows' rest)

  pub commit-ok :
      (commits : Bool) (build : List KeyScheduleRow → ScheduleStore)
      (res : Result (List KeyScheduleRow)) (st' : ScheduleStore)
      → commit zones codec commits build res ≡ ok st'
      → (rows : List KeyScheduleRow) × (res ≡ ok rows) × (build rows ≡ st')
  unfolding commit
  commit-ok commits build (ok rows) st' h = elim (Bool-cases commits) [
    | inl done ↦ (rows, refl, ground arith)
    | inr lost ↦ cc (rw lost at h)
  ]
  commit-ok commits build (err e) st' h = cc
