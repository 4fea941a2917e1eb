-- ===== src/State/Postgres/Steady.antt =====
-- pgstore.go: the calls that move no poll cursor.
use clappform_sensor_things.Prelude.{
  Bool, List, Option, String, [], arith, refl, some, update_where, ℕ, ◌&&◌, ◌∷◌, ◌≡◌,
}
use clappform_sensor_things.Canonical.{Float64, Time, micros}
use clappform_sensor_things.State.Postgres.Progress.{record_observation_write, set_last_polled_at}
use clappform_sensor_things.Prelude.Int.{ℤ}
use clappform_sensor_things.State.Postgres.Tables.{Db, is_behind, is_datastream_id}
use clappform_sensor_things.State.Postgres.Entities.{affected, set_sta_datastream_id}
use clappform_sensor_things.State.{DatastreamRow}
use clappform_sensor_things.State.Postgres.Cursors.{stored_cursor}

-- The cursor that a Db has for each Datastream.
abbrev pub cursor_at : Db → ℕ → Option Time
cursor_at db j = stored_cursor db.datastreams j

pub stored_cursor-update_where :
    (p : DatastreamRow → Bool) (f : DatastreamRow → DatastreamRow) (rows : List DatastreamRow)
    (j : ℕ)
    → ((r : DatastreamRow) → ((f r).id ≡ r.id) × ((f r).poll_cursor ≡ r.poll_cursor))
    → stored_cursor (update_where p f rows) j ≡ stored_cursor rows j
stored_cursor-update_where p f [] j h = refl
stored_cursor-update_where p f (r ∷ rows) j h =
    ground (arith, h r, stored_cursor-update_where p f rows j h)

pub set_sta_datastream_id-steady :
    (id : ℕ) (sta : ℤ) (db : Db) (j : ℕ)
    → cursor_at (set_sta_datastream_id id sta db).1 j ≡ cursor_at db j
unfolding set_sta_datastream_id affected
set_sta_datastream_id-steady id sta db j = ground (
  arith,
  stored_cursor-update_where (is_datastream_id id)
      (λ (r : DatastreamRow). record r { sta_datastream_id = some sta }) db.datastreams j
      (λ r. (refl, refl)),
)

pub set_last_polled_at-steady :
    (id : ℕ) (t : Time) (db : Db) (j : ℕ)
    → cursor_at (set_last_polled_at id t db).1 j ≡ cursor_at db j
unfolding set_last_polled_at
set_last_polled_at-steady id t db j = ground (
  arith,
  stored_cursor-update_where (is_datastream_id id)
      (λ (r : DatastreamRow). record r { last_polled_at = some (micros t) }) db.datastreams j
      (λ r. (refl, refl)),
)

-- RecordObservationWrite moves no poll cursor, though it writes to the same table.
pub record_observation_write-steady :
    (ds : ℕ) (t : Time) (x : Float64) (raw : String) (sta : ℤ) (db : Db) (j : ℕ)
    → cursor_at (record_observation_write ds t x raw sta db).1 j ≡ cursor_at db j
unfolding record_observation_write
record_observation_write-steady ds t x raw sta db j = ground (
  arith,
  stored_cursor-update_where
      (λ (r : DatastreamRow). is_datastream_id ds r && is_behind r.last_written_at (micros t))
      (λ (r : DatastreamRow). record r { last_written_at = some (micros t) }) db.datastreams j
      (λ r. (refl, refl)),
)
