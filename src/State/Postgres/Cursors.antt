-- ===== src/State/Postgres/Cursors.antt =====
-- pgstore.go, the poll cursors: they only move forward, and only by AdvancePollCursor.
use clappform_sensor_things.Prelude.{
  List, Option, [], arith, find_first, if◌then◌else◌, raise, some, update_where, ℕ, ◌&&◌, ◌==◌, ◌∷◌,
  ◌≡◌, is_none, ◌≤◌,
}
use clappform_sensor_things.State.Postgres.Tables.{is_behind, is_datastream_id, Db}
use clappform_sensor_things.State.Postgres.Progress.{
  cursor_time, advance_poll_cursor, get_poll_cursor,
}
use clappform_sensor_things.State.{DatastreamRow}
use clappform_sensor_things.Canonical.{Time, micros}
use mathlib.Core.Option
use clappform_sensor_things.Failure.{ok}

-- The cursor that GetPollCursor would return for a row, if there is one.
abbrev pub stored_cursor : List DatastreamRow → ℕ → Option Time
stored_cursor rows id =
    Option.map (λ (r : DatastreamRow). cursor_time r.poll_cursor)
      (find_first (is_datastream_id id) rows)

moved : ℕ → Time → List DatastreamRow → List DatastreamRow
moved id t rows =
    update_where (λ (r : DatastreamRow). is_datastream_id id r && is_behind r.poll_cursor t)
      (λ (r : DatastreamRow). record r { poll_cursor = some t }) rows

stored_cursor-moved :
    (id j : ℕ) (t : Time) (rows : List DatastreamRow)
    → stored_cursor (moved id t rows) j ≡ (
        if j == id
        then Option.map (λ (c : Time). raise c t) (stored_cursor rows j)
        else stored_cursor rows j)
unfolding moved
stored_cursor-moved id j t [] = ground arith
stored_cursor-moved id j t (r ∷ rows) = ground (arith, stored_cursor-moved id j t rows)

-- After AdvancePollCursor each Datastream has the cursor that it had, but for the given one after a
-- call with no error: that has the later of its old cursor and the new
-- one to the microsecond.
pub stored_cursor-advance_poll_cursor :
    (id j : ℕ) (t : Time) (db : Db)
    → stored_cursor (advance_poll_cursor id t db).1.datastreams j ≡ (
        if is_none (advance_poll_cursor id t db).0 && j == id
        then Option.map (λ (c : Time). raise c (micros t)) (stored_cursor db.datastreams j)
        else stored_cursor db.datastreams j)
unfolding advance_poll_cursor moved
stored_cursor-advance_poll_cursor id j t db =
    ground (arith, stored_cursor-moved id j (micros t) db.datastreams)

-- A successful GetPollCursor returns the stored cursor, and changes no row.
pub get_poll_cursor-eq-stored :
    (id : ℕ) (db : Db) {c : Time}
    → (get_poll_cursor id db).0 ≡ ok c
    → (stored_cursor db.datastreams id ≡ some c)
      × ((get_poll_cursor id db).1.datastreams ≡ db.datastreams)
unfolding get_poll_cursor
get_poll_cursor-eq-stored id db h = ground arith

-- What GetPollCursor returns after an AdvancePollCursor of the same Datastream is never before what
-- it returned earlier: it is the later of that and the new cursor, or that if the call failed.
pub cursor_monotone :
    (id : ℕ) (t : Time) (db : Db) {c c' : Time}
    → (get_poll_cursor id db).0 ≡ ok c
    → (get_poll_cursor id (advance_poll_cursor id t db).1).0 ≡ ok c'
    → (c ≤ c') × (c' ≡ (if is_none (advance_poll_cursor id t db).0 then raise c (micros t) else c))
cursor_monotone id t db {c} {c'} h k = ground (
  arith,
  get_poll_cursor-eq-stored id db h,
  get_poll_cursor-eq-stored id (advance_poll_cursor id t db).1 k,
  stored_cursor-advance_poll_cursor id id t db,
)
