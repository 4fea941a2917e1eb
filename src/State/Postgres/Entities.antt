-- ===== src/State/Postgres/Entities.antt =====
-- pgstore.go, the rows of Things and Datastreams: UpsertThing, SetSTAThingID, GetThing,
-- UpsertDatastream, SetSTADatastreamID, GetDatastream, ListDatastreams.
use clappform_sensor_things.Prelude.{
  ℕ, suc, String, Bool, true, false, Option, none, some, List, [], ◌∷◌, if◌then◌else◌, find_first,
  update_where, exists_where, ltb,
}
use clappform_sensor_things.Prelude.Int.{ℤ}
use clappform_sensor_things.Failure.{Error, text, not_found, Result, ok, err, Action, Effect}
use clappform_sensor_things.State.{ThingRow, DatastreamRow}
use clappform_sensor_things.State.Postgres.Tables.{
  Db, round_trip, is_thing, is_thing_id, is_datastream, is_datastream_id, executed,
}

-- The update of ON CONFLICT DO UPDATE, which takes a number from the sequence too.
seen_thing : String → String → String → ThingRow → Action Db ℕ
seen_thing vendor native name row db = (
  ok row.id,
  record db {
    things =
        update_where (is_thing vendor native)
          (λ (r : ThingRow). record r { last_seen_at = db.clock; name = name }) db.things;
    next_thing = suc db.next_thing;
  },
)

new_thing : String → String → String → Action Db ℕ
new_thing vendor native name db = (
  ok db.next_thing,
  record db {
    things =
        record {
          id = db.next_thing;
          vendor_id = vendor;
          vendor_native_id = native;
          sta_thing_id = none;
          name = name;
          first_seen_at = db.clock;
          last_seen_at = db.clock;
        }
        ∷ db.things;
    next_thing = suc db.next_thing;
  },
)

unfoldable pub upsert_thing : String → String → String → Action Db ℕ
unfolding seen_thing new_thing
upsert_thing vendor native name = round_trip λ db.
    elim (find_first (is_thing vendor native) db.things) [
      | some row ↦ seen_thing vendor native name row db
      | none ↦ new_thing vendor native name db
    ]

-- `tag.RowsAffected() == 0` is ErrNotFound
unfoldable pub affected : {W : Type 0} → Bool → W → Option Error × W
affected true w = (none, w)
affected false w = (some not_found, w)

unfoldable pub set_sta_thing_id : ℕ → ℤ → Effect Db
unfolding affected
set_sta_thing_id thing_id sta_id = executed λ db.
    affected (exists_where (is_thing_id thing_id) db.things) (record db {
      things =
          update_where (is_thing_id thing_id)
            (λ (r : ThingRow). record r { sta_thing_id = some sta_id }) db.things;
    })

-- `pgx.ErrNoRows` is ErrNotFound
abbrev one_row : {A : Type 0} → Option A → Result A
one_row none = err not_found
one_row (some row) = ok row

unfoldable pub get_thing : ℕ → Action Db ThingRow
get_thing thing_id = round_trip λ db. (one_row (find_first (is_thing_id thing_id) db.things), db)

seen_datastream : ℕ → String → ℤ → DatastreamRow → Action Db ℕ
seen_datastream thing_id op cadence row db = (
  ok row.id,
  record db {
    datastreams =
        update_where (is_datastream thing_id op)
          (λ (r : DatastreamRow). record r { expected_cadence_seconds = cadence }) db.datastreams;
    next_datastream = suc db.next_datastream;
  },
)

-- The insert, with the foreign key on `thing_id`.
new_datastream : ℕ → String → ℤ → Action Db ℕ
new_datastream thing_id op cadence db =
    if exists_where (is_thing_id thing_id) db.things
    then (
      ok db.next_datastream,
      record db {
        datastreams =
            record {
              id = db.next_datastream;
              thing_id = thing_id;
              observed_property = op;
              sta_datastream_id = none;
              poll_cursor = none;
              last_polled_at = none;
              last_written_at = none;
              expected_cadence_seconds = cadence;
            }
            ∷ db.datastreams;
        next_datastream = suc db.next_datastream;
      },
    )
    else (err text, record db { next_datastream = suc db.next_datastream })

unfoldable pub upsert_datastream : ℕ → String → ℤ → Action Db ℕ
unfolding seen_datastream new_datastream
upsert_datastream thing_id op cadence = round_trip λ db.
    elim (find_first (is_datastream thing_id op) db.datastreams) [
      | some row ↦ seen_datastream thing_id op cadence row db
      | none ↦ new_datastream thing_id op cadence db
    ]

unfoldable pub set_sta_datastream_id : ℕ → ℤ → Effect Db
unfolding affected
set_sta_datastream_id datastream_id sta_id = executed λ db.
    affected (exists_where (is_datastream_id datastream_id) db.datastreams) (record db {
      datastreams =
          update_where (is_datastream_id datastream_id)
            (λ (r : DatastreamRow). record r { sta_datastream_id = some sta_id }) db.datastreams;
    })

unfoldable pub get_datastream : ℕ → Action Db DatastreamRow
get_datastream datastream_id =
    round_trip λ db. (one_row (find_first (is_datastream_id datastream_id) db.datastreams), db)

-- ORDER BY id
insert_by_id : DatastreamRow → List DatastreamRow → List DatastreamRow
insert_by_id r [] = r ∷ []
insert_by_id r (x ∷ xs) = if ltb x.id r.id then x ∷ insert_by_id r xs else r ∷ x ∷ xs

by_id : List DatastreamRow → List DatastreamRow
unfolding insert_by_id
by_id [] = []
by_id (x ∷ xs) = insert_by_id x (by_id xs)

unfoldable pub list_datastreams : Action Db (List DatastreamRow)
unfolding by_id
list_datastreams = round_trip λ db. (ok (by_id db.datastreams), db)
