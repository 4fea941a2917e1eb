-- ===== src/State/Postgres/Integrity/Runs.antt =====
-- pgstore.go: a run of calls and a purge keep the constraints of migrations.sql.
use clappform_sensor_things.Prelude.{List, [], ◌∷◌, ℕ}
use clappform_sensor_things.State.Contract.{Call}
use clappform_sensor_things.State.Contract
use clappform_sensor_things.State.Postgres.Integrity.{IsConsistent}
use clappform_sensor_things.State.Postgres.Integrity.Calls.{
  upsert_thing-IsConsistent, set_sta_thing_id-IsConsistent, upsert_datastream-IsConsistent,
  set_sta_datastream_id-IsConsistent, get_poll_cursor-IsConsistent,
  advance_poll_cursor-IsConsistent, set_last_polled_at-IsConsistent,
  observation_exists-IsConsistent, record_observation_write-IsConsistent,
  set_watchdog_state-IsConsistent, purge_old_write_log-IsConsistent,
}
use clappform_sensor_things.State.Postgres.Progress.{purge_old_write_log}
use clappform_sensor_things.State.Postgres.Refines.{run}
use clappform_sensor_things.State.Postgres.Service.{postgres_store}
use clappform_sensor_things.State.Postgres.Steps.{perform}
use clappform_sensor_things.State.Postgres.Tables.{Db}

perform-IsConsistent : (c : Call) (db : Db) → IsConsistent db → IsConsistent (perform c db).1
unfolding perform postgres_store
perform-IsConsistent (Contract.upsert_thing v n m) db h = upsert_thing-IsConsistent v n m db h
perform-IsConsistent (Contract.set_sta_thing_id id sta) db h =
    set_sta_thing_id-IsConsistent id sta db h
perform-IsConsistent (Contract.upsert_datastream thing op cadence) db h =
    upsert_datastream-IsConsistent thing op cadence db h
perform-IsConsistent (Contract.set_sta_datastream_id id sta) db h =
    set_sta_datastream_id-IsConsistent id sta db h
perform-IsConsistent (Contract.get_poll_cursor id) db h = get_poll_cursor-IsConsistent id db h
perform-IsConsistent (Contract.advance_poll_cursor id t) db h =
    advance_poll_cursor-IsConsistent id t db h
perform-IsConsistent (Contract.set_last_polled_at id t) db h =
    set_last_polled_at-IsConsistent id t db h
perform-IsConsistent (Contract.observation_exists id t) db h =
    observation_exists-IsConsistent id t db h
perform-IsConsistent (Contract.record_observation_write id t x raw sta) db h =
    record_observation_write-IsConsistent id t x raw sta db h
perform-IsConsistent (Contract.set_watchdog_state s) db h = set_watchdog_state-IsConsistent s db h

-- The constraints of migrations.sql hold after whatever of the ten calls are made of tables on which they
-- hold, whichever of the round trips fail, and after a purge of the write log as well: no primary or
-- UNIQUE key has two rows, no number is ahead of its sequence, and no reference is without its row.
pub run-IsConsistent :
    (cs : List Call) (days : ℕ) (db : Db)
    → IsConsistent db
    → IsConsistent (run cs db).1 × IsConsistent (purge_old_write_log days (run cs db).1).1
unfolding run
run-IsConsistent [] days db h = (h, purge_old_write_log-IsConsistent days db h)
run-IsConsistent (c ∷ cs) days db h =
    run-IsConsistent cs days (perform c db).1 (perform-IsConsistent c db h)
