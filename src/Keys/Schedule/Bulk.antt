-- ===== src/Keys/Schedule/Bulk.antt =====
-- internal/keys/global_schedule.go: the bulk changes of the Global Reset Schedule. A SQL transaction
-- is a new list of rows that is kept only if every statement and the commit succeed; `Outcome` says
-- which of them do.
use nineguard.Base.{
  ℕ, ◌+◌, ◌-◌, List, [], ◌∷◌, Option, none, some, Bool, not, ◌&&◌, if◌then◌else◌, length,
}
use nineguard.Base.Text.{Text}
use nineguard.Quota.{Location, ResetSchedule}
use nineguard.Keys.Schedule.{
  Codec, KeyScheduleRow, Error, Result, ok, err, invalid_schedule, database_error, pin_failed,
  clear_failed, has_value, is_empty, validate, parse_schedule, parse_pins, encode_schedule,
  encode_pins, pins_after_change,
}

-- The rows, and the cached Global Reset Schedule with its stored text.
pub record ScheduleStore : Type 0 where
  pub rows : List KeyScheduleRow
  pub setting_raw : Text
  pub global_sched : Option ResetSchedule

-- Which steps of a transaction succeed.
pub record Outcome : Type 0 where
  pub begins : Bool
  pub reads : Bool
  pub setting_written : Bool
  pub row_written : Text → Bool
  pub commits : Bool

-- The cut of a result: an error rolls the transaction back, so the store stays as it was.
abbrev pub after : ScheduleStore → Result ScheduleStore → ScheduleStore
after st (ok st') = st'
after st (err e) = st

abbrev pub cons_result :
    KeyScheduleRow → Result (List KeyScheduleRow) → Result (List KeyScheduleRow)
cons_result r (ok rs) = ok (r ∷ rs)
cons_result r (err e) = err e

module _ (zones : Text → Option Location) (codec : Codec) where
  -- One row of the loop of `SetGlobalSchedule`, and of `ClearScheduleOverrides`: `none` is a
  -- `continue`, without a statement.
  unfoldable pub repin_row :
      Option ResetSchedule → Option ResetSchedule → ℕ → KeyScheduleRow → Option KeyScheduleRow
  repin_row old_global new_global now r =
      if has_value (parse_schedule zones codec r.own_raw)
      then none
      else some (record r {
        pins_raw = encode_pins zones codec (
            pins_after_change zones codec old_global new_global (parse_pins zones codec r.pins_raw)
              now);
      })

  unfoldable pub clear_own :
      Option ResetSchedule → Option ResetSchedule → ℕ → KeyScheduleRow → Option KeyScheduleRow
  clear_own none global now r =
      if is_empty r.own_raw then none else some (record r { own_raw = [] })
  clear_own (some own) global now r = some (record r {
    own_raw = [];
    pins_raw =
        encode_pins zones codec
          (pins_after_change zones codec (some own) global (parse_pins zones codec r.pins_raw) now);
  })

  unfoldable pub clear_row : Option ResetSchedule → ℕ → KeyScheduleRow → Option KeyScheduleRow
  clear_row global now r = clear_own (parse_schedule zones codec r.own_raw) global now r

  -- The loop over the rows: the first statement that fails ends it.
  unfoldable pub write_one :
      (Text → Bool)
      → (Text → Error)
      → KeyScheduleRow
      → Option KeyScheduleRow
      → Result (List KeyScheduleRow)
      → Result (List KeyScheduleRow)
  write_one written failed r none rest = cons_result r rest
  write_one written failed r (some r') rest =
      if written r.id then cons_result r' rest else err (failed r.id)

  unfoldable pub write_rows :
      (Text → Bool)
      → (Text → Error)
      → (KeyScheduleRow → Option KeyScheduleRow)
      → List KeyScheduleRow
      → Result (List KeyScheduleRow)
  unfolding write_one
  write_rows written failed change [] = ok []
  write_rows written failed change (r ∷ rs) =
      write_one written failed r (change r) (write_rows written failed change rs)

  -- The end of a transaction.
  unfoldable pub commit :
      Bool
      → (List KeyScheduleRow → ScheduleStore)
      → Result (List KeyScheduleRow)
      → Result ScheduleStore
  commit commits build (ok rows) = if commits then ok (build rows) else err database_error
  commit commits build (err e) = err e

  unfoldable pub set_global_schedule :
      Outcome → ScheduleStore → Option ResetSchedule → ℕ → Result ScheduleStore
  set_global_schedule o st s now =
      if has_value s && not (validate zones codec s)
      then err invalid_schedule
      else if not o.begins
      then err database_error
      else if not o.reads
      then err database_error
      else if not o.setting_written
      then err database_error
      else commit o.commits
          (λ rows. record {
            rows = rows;
            setting_raw = encode_schedule zones codec s;
            global_sched = s;
          })
          (write_rows o.row_written pin_failed (repin_row st.global_sched s now) st.rows)

  unfoldable pub clear_schedule_overrides : Outcome → ScheduleStore → ℕ → Result ScheduleStore
  clear_schedule_overrides o st now =
      if not o.begins
      then err database_error
      else if not o.reads
      then err database_error
      else commit o.commits (λ rows. record st { rows = rows })
          (write_rows o.row_written clear_failed (clear_row st.global_sched now) st.rows)

  -- `ReloadGlobalSchedule`.
  unfoldable pub reload_global_schedule : ScheduleStore → ScheduleStore
  unfolding parse_schedule
  reload_global_schedule st = record st { global_sched = parse_schedule zones codec st.setting_raw }

-- `ScheduleCounts`: how many keys follow the global schedule, and how many have their own.
abbrev custom_rows : List KeyScheduleRow → ℕ
custom_rows [] = 0
custom_rows (r ∷ rs) = (if is_empty r.own_raw then 0 else 1) + custom_rows rs

unfoldable pub schedule_counts : ScheduleStore → ℕ × ℕ
schedule_counts st = (length st.rows - custom_rows st.rows, custom_rows st.rows)
