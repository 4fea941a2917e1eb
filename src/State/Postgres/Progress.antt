-- ===== src/State/Postgres/Progress.antt =====
-- pgstore.go, how far each Datastream has come: GetPollCursor, AdvancePollCursor, SetLastPolledAt,
-- ObservationExists, RecordObservationWrite, PurgeOldWriteLog.
use clappform_sensor_things.State.Postgres.Tables.{
  Db, LogRow, head_fault, is_lost, spent, tail_faults, executed, is_behind, is_datastream_id,
  is_logged, round_trip,
}
use Prim.Native.Nat.{ℕ}
use clappform_sensor_things.Failure.{
  Action, Effect, Error, Result, already_exists, err, not_found, ok, text,
}
use clappform_sensor_things.Prelude.{
  Bool, Option, String, count_where, exists_where, find_first, if◌then◌else◌, keep_where, leb, ltb,
  none, some, suc, update_where, ◌&&◌, ◌*◌, ◌-◌, ◌∷◌,
}
use clappform_sensor_things.Canonical.{Float64, Time, day, micros}
use clappform_sensor_things.State.{DatastreamRow}
use clappform_sensor_things.Prelude.Int.{ℤ}

-- A NULL cursor is the zero time.
abbrev pub cursor_time : Option Time → Time
cursor_time none = 0
cursor_time (some t) = t

abbrev pub cursor_of : Option DatastreamRow → Result Time
cursor_of none = err not_found
cursor_of (some row) = ok (cursor_time row.poll_cursor)

unfoldable pub get_poll_cursor : ℕ → Action Db Time
get_poll_cursor datastream_id =
    round_trip λ db. (cursor_of (find_first (is_datastream_id datastream_id) db.datastreams), db)

-- UPDATE ... WHERE id = $1 AND (poll_cursor IS NULL OR poll_cursor < $2)
advance_to : ℕ → Time → Effect Db
advance_to datastream_id new_cursor = executed λ db. (
  none,
  record db {
    datastreams =
        update_where
          (λ (r : DatastreamRow).
            is_datastream_id datastream_id r && is_behind r.poll_cursor new_cursor)
          (λ (r : DatastreamRow). record r { poll_cursor = some new_cursor }) db.datastreams;
  },
)

unfoldable pub advance_poll_cursor : ℕ → Time → Effect Db
unfolding advance_to
advance_poll_cursor datastream_id new_cursor = advance_to datastream_id (micros new_cursor)

unfoldable pub set_last_polled_at : ℕ → Time → Effect Db
set_last_polled_at datastream_id ts = executed λ db. (
  none,
  record db {
    datastreams =
        update_where (is_datastream_id datastream_id)
          (λ (r : DatastreamRow). record r { last_polled_at = some (micros ts) }) db.datastreams;
  },
)

unfoldable pub observation_exists : ℕ → Time → Action Db Bool
observation_exists datastream_id t =
    round_trip λ db. (ok (exists_where (is_logged datastream_id (micros t)) db.write_log), db)

-- The insert into the write log: a unique violation is ErrAlreadyExists, and the foreign key is
-- checked at the end of the statement. A failed insert has used its number.
insert_log_row : ℕ → Time → Float64 → String → ℤ → Effect Db
insert_log_row datastream_id t result raw_id sta_id db =
    if exists_where (is_logged datastream_id t) db.write_log
    then (some already_exists, record db { next_log = suc db.next_log })
    else if exists_where (is_datastream_id datastream_id) db.datastreams
    then (
      none,
      record db {
        write_log =
            record {
              id = db.next_log;
              datastream_id = datastream_id;
              phenomenon_time = t;
              result = result;
              raw_observation_id = raw_id;
              sta_observation_id = sta_id;
              written_at = db.clock;
            }
            ∷ db.write_log;
        next_log = suc db.next_log;
      },
    )
    else (some text, record db { next_log = suc db.next_log })

-- UPDATE ... WHERE id = $1 AND (last_written_at IS NULL OR last_written_at < $2)
touch_last_written : ℕ → Time → Effect Db
touch_last_written datastream_id t db = (
  none,
  record db {
    datastreams =
        update_where
          (λ (r : DatastreamRow). is_datastream_id datastream_id r && is_behind r.last_written_at t)
          (λ (r : DatastreamRow). record r { last_written_at = some t }) db.datastreams;
  },
)

-- Rollback: the rows are as at the begin of the transaction; sequences and round trips are not.
rolled_back : Db → Option Error × Db → Option Error × Db
rolled_back before (e, db) =
    (e, record before { next_log = db.next_log; faults = db.faults; committed = db.committed })

-- `if err != nil { return err }`, under the deferred rollback to `before`.
and_then : Db → Effect Db → Option Error × Db → Option Error × Db
unfolding rolled_back
and_then before k (none, db) = k db
and_then before k (some e, db) = rolled_back before (some e, db)

-- COMMIT: when no answer comes, it may have taken effect all the same.
commit : Db → Effect Db
unfolding rolled_back
commit before db =
    if head_fault db.faults
    then (if is_lost db
        then (some text, record (spent db) { committed = tail_faults db.committed })
        else rolled_back before
            (some text, record (spent db) { committed = tail_faults db.committed }))
    else (none, spent db)

-- begin, insert, update, commit: four round trips
write_in_transaction : ℕ → Time → Float64 → String → ℤ → Effect Db
unfolding insert_log_row touch_last_written and_then commit
write_in_transaction datastream_id t result raw_id sta_id = executed λ begun.
    and_then begun
      (λ inserted.
        and_then begun (commit begun) (executed (touch_last_written datastream_id t) inserted))
      (executed (insert_log_row datastream_id t result raw_id sta_id) begun)

unfoldable pub record_observation_write : ℕ → Time → Float64 → String → ℤ → Effect Db
unfolding write_in_transaction
record_observation_write datastream_id t result raw_id sta_id =
    write_in_transaction datastream_id (micros t) result raw_id sta_id

-- DELETE ... WHERE written_at < NOW() - days
unfoldable pub purge_old_write_log : ℕ → Action Db ℕ
purge_old_write_log retention_days = round_trip λ db. (
  ok (
      count_where (λ (r : LogRow). ltb r.written_at (db.clock - retention_days * day))
        db.write_log),
  record db {
    write_log =
        keep_where (λ (r : LogRow). leb (db.clock - retention_days * day) r.written_at)
          db.write_log;
  },
)
