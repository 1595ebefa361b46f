-- ===== src/Keys/Schedule/Usage.antt =====
-- Changing schedules forgets no usage: the running window of every key keeps its start.
use nineguard.Base.{ℕ, ◌≡◌, sym, ap, subst, Option, true, arith}
use nineguard.Base.Text.{Text}
use nineguard.Quota.{Location, Period, ResetSchedule, is_scheduled}
use nineguard.Keys.Schedule.{Codec, Error, ok, encode_schedule}
use nineguard.Keys.Schedule.Bulk.{
  ScheduleStore, Outcome, repin_row, clear_row, write_rows, set_global_schedule,
  clear_schedule_overrides,
}
use nineguard.Keys.Schedule.Stored.{IsFaithful}
use nineguard.Keys.Schedule.Rows.{
  AllKept, repin_row-Keeps, clear_row-Keeps, write_rows-AllKept, commit-ok,
}

module _ (zones : Text → Option Location) (codec : Codec) (faithful : IsFaithful codec) where
  -- A successful `SetGlobalSchedule` forgets no usage: for each key, in order, the running window of
  -- each scheduled period keeps its start, whether the key follows the global schedule or not; and
  -- the new schedule, or its absence, is the one in the cache and in the settings.
  pub set_global_keeps_usage :
      (o : Outcome) (st st' : ScheduleStore) (s : Option ResetSchedule) (now : ℕ) (period : Period)
      → is_scheduled period ≡ true
      → set_global_schedule zones codec o st s now ≡ ok st'
      → AllKept zones codec faithful period st.global_sched s now st.rows st'.rows
        × (st'.global_sched ≡ s)
        × (st'.setting_raw ≡ encode_schedule zones codec s)
  unfolding set_global_schedule
  set_global_keeps_usage o st st' s now period scheduled h =
      let (rows, written, built) =
        commit-ok zones codec faithful o.commits
          (λ rs. record {
            rows = rs;
            setting_raw = encode_schedule zones codec s;
            global_sched = s;
          })
          (write_rows zones codec o.row_written Error.pin_failed
            (repin_row zones codec st.global_sched s now) st.rows)
          st' (ground arith) in
      (
        subst (λ x. AllKept zones codec faithful period st.global_sched s now st.rows x)
            (ap (λ x. x.rows) built)
            (write_rows-AllKept zones codec faithful o.row_written Error.pin_failed
              (repin_row zones codec st.global_sched s now) period st.global_sched s now
              (λ r. repin_row-Keeps zones codec faithful period st.global_sched s now r scheduled)
              st.rows rows written),
        sym (ap (λ x. x.global_sched) built),
        sym (ap (λ x. x.setting_raw) built),
      )

  -- A successful `ClearScheduleOverrides` forgets no usage either, of the keys that held a schedule
  -- of their own too, and it leaves the global schedule as it is.
  pub clear_overrides_keeps_usage :
      (o : Outcome) (st st' : ScheduleStore) (now : ℕ) (period : Period)
      → is_scheduled period ≡ true
      → clear_schedule_overrides zones codec o st now ≡ ok st'
      → AllKept zones codec faithful period st.global_sched st.global_sched now st.rows st'.rows
        × (st'.global_sched ≡ st.global_sched)
  unfolding clear_schedule_overrides
  clear_overrides_keeps_usage o st st' now period scheduled h =
      let (rows, written, built) =
        commit-ok zones codec faithful o.commits (λ rs. record st { rows = rs })
          (write_rows zones codec o.row_written Error.clear_failed
            (clear_row zones codec st.global_sched now) st.rows)
          st' (ground arith) in
      (
        subst
            (λ x. AllKept zones codec faithful period st.global_sched st.global_sched now st.rows x)
            (ap (λ x. x.rows) built)
            (write_rows-AllKept zones codec faithful o.row_written Error.clear_failed
              (clear_row zones codec st.global_sched now) period st.global_sched st.global_sched now
              (λ r. clear_row-Keeps zones codec faithful period st.global_sched now r scheduled)
              st.rows rows written),
        sym (ap (λ x. x.global_sched) built),
      )
