-- ===== src/State/Postgres/Replies.antt =====
-- pgstore.go, the reply of each call of a Store.
use clappform_sensor_things.State.Contract.{Known, Call, Reply, Event, Allowed, after, Accepts}
use clappform_sensor_things.State.Contract
use clappform_sensor_things.State.Postgres.Entities.{
  upsert_thing, set_sta_thing_id, set_sta_datastream_id, affected,
}
use clappform_sensor_things.State.Postgres.Progress.{
  get_poll_cursor, observation_exists, advance_poll_cursor, set_last_polled_at,
  record_observation_write, cursor_of, cursor_time,
}
use clappform_sensor_things.State.Postgres.Alerts.{set_watchdog_state}
use mathlib.Core.Option
use clappform_sensor_things.State.{WatchdogState, DatastreamRow}
use clappform_sensor_things.State.Postgres.Tables.{Db, head_fault, is_datastream_id}
use clappform_sensor_things.State.Postgres.Steady.{cursor_at}
use clappform_sensor_things.State.Postgres.Log.{logged}
use clappform_sensor_things.Canonical.{Time, Float64}
use clappform_sensor_things.Failure.{Error, not_found}
use clappform_sensor_things.Prelude.{
  false, ◌⊎◌, List, String, [], arith, none, ℕ, ◌∷◌, ◌≡◌, ◌≢◌, true, some, Option, find_first,
  exists_where, Bool-cases, inl, inr, refl,
}
use clappform_sensor_things.Prelude.Int.{ℤ}
use clappform_sensor_things.State.Postgres.Cursors.{stored_cursor}
use clappform_sensor_things.State.Postgres.Tables.{is_thing}
use clappform_sensor_things.State.Postgres.Log.{acted}

-- A search finds a row or none.
pub some-or-none : {A : Type 0} (o : Option A) → (o ≡ none) ⊎ ((a : A) × (o ≡ some a))
some-or-none none = inl refl
some-or-none (some a) = inr (a, refl)

cursor_of-IsCursor :
    (o : Option DatastreamRow)
    → Contract.IsCursor
        (cursor_of o)
        (Option.map (λ (r : DatastreamRow). cursor_time r.poll_cursor) o)
cursor_of-IsCursor none = inr (refl, refl)
cursor_of-IsCursor (some r) = refl

pub get_poll_cursor-IsCursor :
    (id : ℕ) (db : Db) → Contract.IsCursor (get_poll_cursor id db).0 (cursor_at db id)
unfolding get_poll_cursor
get_poll_cursor-IsCursor id db = elim (Bool-cases (head_fault db.faults)) [
  | inl e ↦ rw e (inl refl)
  | inr e ↦ rw e (cursor_of-IsCursor (find_first (is_datastream_id id) db.datastreams))
]

pub observation_exists-IsAnswer :
    (id : ℕ) (t : Time) (db : Db)
    → Contract.IsAnswer (observation_exists id t db).0 (logged db id t)
unfolding observation_exists
observation_exists-IsAnswer id t db = elim (Bool-cases (head_fault db.faults)) [
  | inl e ↦ rw e refl
  | inr e ↦ rw e refl
]

-- The row that the foreign key asks for has a cursor.
referenced-cursor :
    (id : ℕ) (rows : List DatastreamRow)
    → exists_where (is_datastream_id id) rows ≡ true
    → stored_cursor rows id ≢ none
referenced-cursor id [] h = λ e. absurd cc
referenced-cursor id (r ∷ rows) h = ground (arith, referenced-cursor id rows)

absent-cursor :
    (id : ℕ) (rows : List DatastreamRow)
    → exists_where (is_datastream_id id) rows ≡ false
    → stored_cursor rows id ≡ none
absent-cursor id [] h = refl
absent-cursor id (r ∷ rows) h = ground (arith, absent-cursor id rows)

pub set_sta_datastream_id-IsUpdated :
    (id : ℕ) (sta : ℤ) (db : Db)
    → Contract.IsUpdated (set_sta_datastream_id id sta db).0 (cursor_at db id)
unfolding set_sta_datastream_id affected
set_sta_datastream_id-IsUpdated id sta db = elim (Bool-cases (head_fault db.faults)) [
  | inl e ↦ rw e (inl refl)
  | inr e ↦ elim (Bool-cases (exists_where (is_datastream_id id) db.datastreams)) [
    | inl k ↦ rw (e, k) (referenced-cursor id db.datastreams k)
    | inr k ↦ rw (e, k) (inr (refl, absent-cursor id db.datastreams k))
  ]
]

pub upsert_thing-IsNumber : (v n m : String) (db : Db) → Contract.IsNumber (upsert_thing v n m db).0
unfolding upsert_thing
upsert_thing-IsNumber v n m db = elim (Bool-cases (head_fault db.faults)) [
  | inl e ↦ rw e refl
  | inr e ↦ elim (some-or-none (find_first (is_thing v n) db.things)) [
    | inl k ↦ rw (e, k) tt
    | inr (r, k) ↦ rw (e, k) tt
  ]
]

pub set_sta_thing_id-IsDone :
    (id : ℕ) (sta : ℤ) (db : Db)
    → ((set_sta_thing_id id sta db).0 ≡ some not_found)
      ⊎ Contract.IsDone (set_sta_thing_id id sta db).0
unfolding set_sta_thing_id affected
set_sta_thing_id-IsDone id sta db = ground arith

pub set_last_polled_at-IsDone :
    (id : ℕ) (t : Time) (db : Db) → Contract.IsDone (set_last_polled_at id t db).0
unfolding set_last_polled_at
set_last_polled_at-IsDone id t db = ground arith

pub advance_poll_cursor-IsDone :
    (id : ℕ) (t : Time) (db : Db) → Contract.IsDone (advance_poll_cursor id t db).0
unfolding advance_poll_cursor
advance_poll_cursor-IsDone id t db = ground arith

pub set_watchdog_state-IsDone :
    (s : WatchdogState) (db : Db) → Contract.IsDone (set_watchdog_state s db).0
unfolding set_watchdog_state
set_watchdog_state-IsDone s db = ground arith

pub acted-IsRecorded :
    (id : ℕ) (t : Time) (x : Float64) (raw : String) (sta : ℤ) (db : Db) (r : Option Error)
    → acted id t x raw sta db ≡ r
    → Contract.IsRecorded r (cursor_at db id) (logged db id t)
unfolding record_observation_write acted
acted-IsRecorded id t x raw sta db none h = ground (arith, referenced-cursor id db.datastreams)
acted-IsRecorded id t x raw sta db (some e) h = ground arith

pub record_observation_write-IsRecorded :
    (id : ℕ) (t : Time) (x : Float64) (raw : String) (sta : ℤ) (db : Db) (r : Option Error)
    → (record_observation_write id t x raw sta db).0 ≡ r
    → Contract.IsRecorded r (cursor_at db id) (logged db id t)
unfolding record_observation_write
record_observation_write-IsRecorded id t x raw sta db none h =
    ground (arith, referenced-cursor id db.datastreams)
record_observation_write-IsRecorded id t x raw sta db (some e) h = ground arith
