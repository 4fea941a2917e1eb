-- ===== src/State/Postgres/Steps.antt =====
-- pgstore.go, each call of a Store by itself: what it replies and what the tables hold after it.
use clappform_sensor_things.State.Contract.{Known, Call, Reply, Event, Allowed, after, Accepts}
use clappform_sensor_things.State.Contract
use clappform_sensor_things.State.Postgres.Entities.{
  upsert_thing, set_sta_thing_id, set_sta_datastream_id, affected,
}
use clappform_sensor_things.State.Postgres.Progress.{
  get_poll_cursor, observation_exists, advance_poll_cursor, set_last_polled_at,
  record_observation_write,
}
use clappform_sensor_things.State.Postgres.Alerts.{set_watchdog_state}
use clappform_sensor_things.State.{WatchdogState}
use clappform_sensor_things.State.Postgres.Service.{postgres_store}
use clappform_sensor_things.State.Postgres.Tables.{Db}
use clappform_sensor_things.State.Postgres.Steady.{
  cursor_at, record_observation_write-steady, set_last_polled_at-steady,
  set_sta_datastream_id-steady,
}
use clappform_sensor_things.State.Postgres.Log.{
  is_in_log, is_in_log-record_observation_write, acted, acted-cases,
}
use clappform_sensor_things.Canonical.{Time, Float64}
use clappform_sensor_things.Prelude.{String, arith, none, ℕ, ◌≡◌, ◌≤◌, refl}
use clappform_sensor_things.Prelude.Int.{ℤ}
use clappform_sensor_things.State.Postgres.Cursors.{stored_cursor-advance_poll_cursor}
use clappform_sensor_things.State.Postgres.Replies.{
  get_poll_cursor-IsCursor, observation_exists-IsAnswer, set_sta_datastream_id-IsUpdated,
  upsert_thing-IsNumber, set_sta_thing_id-IsDone, set_last_polled_at-IsDone,
  advance_poll_cursor-IsDone, set_watchdog_state-IsDone, acted-IsRecorded,
  record_observation_write-IsRecorded,
}

-- What a Db knows.
abbrev pub known : Db → Known
known db = record { cursor = cursor_at db; written = is_in_log db }

-- The numbers from the sequence on are not taken.
abbrev pub IsFresh : Db → Type 0
IsFresh db = (j : ℕ) → db.next_datastream ≤ j → cursor_at db j ≡ none

unfoldable pub perform : (c : Call) → Db → Reply c × Db
unfolding postgres_store
perform (Contract.upsert_thing vendor native name) = postgres_store.upsert_thing vendor native name
perform (Contract.set_sta_thing_id id sta) = postgres_store.set_sta_thing_id id sta
perform (Contract.upsert_datastream thing op cadence) =
    postgres_store.upsert_datastream thing op cadence
perform (Contract.set_sta_datastream_id id sta) = postgres_store.set_sta_datastream_id id sta
perform (Contract.get_poll_cursor id) = postgres_store.get_poll_cursor id
perform (Contract.advance_poll_cursor id t) = postgres_store.advance_poll_cursor id t
perform (Contract.set_last_polled_at id t) = postgres_store.set_last_polled_at id t
perform (Contract.observation_exists id t) = postgres_store.observation_exists id t
perform (Contract.record_observation_write id t x raw sta) =
    postgres_store.record_observation_write id t x raw sta
perform (Contract.set_watchdog_state s) = postgres_store.set_watchdog_state s

-- One call: as which reply it acts, that this and its own reply are allowed, and that the next Db knows what
-- the contract says.
pub record IsStep (c : Call) (db : Db) : Type 0 where
  pub acted : Reply c
  pub acts : Contract.ActsAs c (perform c db).0 acted
  pub allowed : Allowed c (perform c db).0 (known db)
  pub acted_allowed : Allowed c acted (known db)
  pub cursor : (j : ℕ) → cursor_at (perform c db).1 j ≡ (after c acted (known db)).cursor j
  pub written :
      (j : ℕ) (u : Time) → is_in_log (perform c db).1 j u ≡ (after c acted (known db)).written j u
  pub next : db.next_datastream ≤ (perform c db).1.next_datastream
  pub unknown :
      (j : ℕ)
      → (perform c db).1.next_datastream ≤ j
      → cursor_at db j ≡ none
      → (after c acted (known db)).cursor j ≡ none

pub upsert_thing-IsStep : (v n m : String) (db : Db) → IsStep (Contract.upsert_thing v n m) db
unfolding perform postgres_store upsert_thing
upsert_thing-IsStep v n m db = record {
  acted = (perform (Contract.upsert_thing v n m) db).0;
  acts = refl;
  allowed = upsert_thing-IsNumber v n m db;
  acted_allowed = upsert_thing-IsNumber v n m db;
  cursor = λ j. ground arith;
  written = λ j u. ground arith;
  next = ground arith;
  unknown = λ j l h. h;
}

pub set_sta_thing_id-IsStep :
    (id : ℕ) (sta : ℤ) (db : Db) → IsStep (Contract.set_sta_thing_id id sta) db
unfolding perform postgres_store set_sta_thing_id affected
set_sta_thing_id-IsStep id sta db = record {
  acted = (perform (Contract.set_sta_thing_id id sta) db).0;
  acts = refl;
  allowed = set_sta_thing_id-IsDone id sta db;
  acted_allowed = set_sta_thing_id-IsDone id sta db;
  cursor = λ j. ground arith;
  written = λ j u. ground arith;
  next = ground arith;
  unknown = λ j l h. h;
}

pub set_sta_datastream_id-IsStep :
    (id : ℕ) (sta : ℤ) (db : Db) → IsStep (Contract.set_sta_datastream_id id sta) db
unfolding perform postgres_store
set_sta_datastream_id-IsStep id sta db = record {
  acted = (perform (Contract.set_sta_datastream_id id sta) db).0;
  acts = refl;
  allowed = set_sta_datastream_id-IsUpdated id sta db;
  acted_allowed = set_sta_datastream_id-IsUpdated id sta db;
  cursor = set_sta_datastream_id-steady id sta db;
  written = λ j u. unfold set_sta_datastream_id affected in ground arith;
  next = unfold set_sta_datastream_id affected in ground arith;
  unknown = λ j l h. h;
}

pub set_last_polled_at-IsStep :
    (id : ℕ) (t : Time) (db : Db) → IsStep (Contract.set_last_polled_at id t) db
unfolding perform postgres_store
set_last_polled_at-IsStep id t db = record {
  acted = (perform (Contract.set_last_polled_at id t) db).0;
  acts = refl;
  allowed = set_last_polled_at-IsDone id t db;
  acted_allowed = set_last_polled_at-IsDone id t db;
  cursor = set_last_polled_at-steady id t db;
  written = λ j u. unfold set_last_polled_at in ground arith;
  next = unfold set_last_polled_at in ground arith;
  unknown = λ j l h. h;
}

pub set_watchdog_state-IsStep :
    (s : WatchdogState) (db : Db) → IsStep (Contract.set_watchdog_state s) db
unfolding perform postgres_store set_watchdog_state
set_watchdog_state-IsStep s db = record {
  acted = (perform (Contract.set_watchdog_state s) db).0;
  acts = refl;
  allowed = set_watchdog_state-IsDone s db;
  acted_allowed = set_watchdog_state-IsDone s db;
  cursor = λ j. ground arith;
  written = λ j u. ground arith;
  next = ground arith;
  unknown = λ j l h. h;
}

pub get_poll_cursor-IsStep : (id : ℕ) (db : Db) → IsStep (Contract.get_poll_cursor id) db
unfolding perform postgres_store get_poll_cursor
get_poll_cursor-IsStep id db = record {
  acted = (perform (Contract.get_poll_cursor id) db).0;
  acts = refl;
  allowed = get_poll_cursor-IsCursor id db;
  acted_allowed = get_poll_cursor-IsCursor id db;
  cursor = λ j. ground arith;
  written = λ j u. ground arith;
  next = ground arith;
  unknown = λ j l h. h;
}

pub observation_exists-IsStep :
    (id : ℕ) (t : Time) (db : Db) → IsStep (Contract.observation_exists id t) db
unfolding perform postgres_store observation_exists
observation_exists-IsStep id t db = record {
  acted = (perform (Contract.observation_exists id t) db).0;
  acts = refl;
  allowed = observation_exists-IsAnswer id t db;
  acted_allowed = observation_exists-IsAnswer id t db;
  cursor = λ j. ground arith;
  written = λ j u. ground arith;
  next = ground arith;
  unknown = λ j l h. h;
}

pub advance_poll_cursor-IsStep :
    (id : ℕ) (t : Time) (db : Db) → IsStep (Contract.advance_poll_cursor id t) db
unfolding perform postgres_store
advance_poll_cursor-IsStep id t db = record {
  acted = (perform (Contract.advance_poll_cursor id t) db).0;
  acts = refl;
  allowed = advance_poll_cursor-IsDone id t db;
  acted_allowed = advance_poll_cursor-IsDone id t db;
  cursor = λ j. stored_cursor-advance_poll_cursor id j t db;
  written = λ j u. unfold advance_poll_cursor in ground arith;
  next = unfold advance_poll_cursor in ground arith;
  unknown = λ j l h. ground arith;
}

pub record_observation_write-IsStep :
    (id : ℕ) (t : Time) (x : Float64) (raw : String) (sta : ℤ) (db : Db)
    → IsStep (Contract.record_observation_write id t x raw sta) db
unfolding perform postgres_store
record_observation_write-IsStep id t x raw sta db = record {
  acted = acted id t x raw sta db;
  acts = acted-cases id t x raw sta db;
  allowed = record_observation_write-IsRecorded id t x raw sta db _ refl;
  acted_allowed = acted-IsRecorded id t x raw sta db _ refl;
  cursor = record_observation_write-steady id t x raw sta db;
  written = λ j u. is_in_log-record_observation_write id j t u x raw sta db;
  next = unfold record_observation_write in ground arith;
  unknown = λ j l h. h;
}
