-- ===== src/State/Postgres/Fresh.antt =====
-- pgstore.go, UpsertDatastream: the number that it returns.
use clappform_sensor_things.Prelude.Int.{ℤ}
use clappform_sensor_things.State.Contract.{Known, Call, Reply, Event, Allowed, after, Accepts}
use clappform_sensor_things.State.Contract
use clappform_sensor_things.State.Postgres.Entities.{upsert_datastream}
use clappform_sensor_things.State.{DatastreamRow}
use clappform_sensor_things.State.Postgres.Service.{postgres_store}
use clappform_sensor_things.State.Postgres.Tables.{Db, is_datastream}
use clappform_sensor_things.State.Postgres.Steady.{cursor_at, stored_cursor-update_where}
use clappform_sensor_things.Prelude.{
  exists_where, List, String, [], arith, none, ℕ, ◌∷◌, ◌≡◌, ◌≤◌, Bool, ◌≢◌, some, find_first,
  Bool-cases, inl, inr, refl,
}
use clappform_sensor_things.State.Postgres.Cursors.{stored_cursor}
use clappform_sensor_things.State.Postgres.Replies.{some-or-none}
use clappform_sensor_things.State.Postgres.Tables.{is_thing_id, head_fault}
use clappform_sensor_things.State.Postgres.Steps.{IsFresh, IsStep, perform}

-- A row that a search finds has a cursor.
found-cursor :
    (p : DatastreamRow → Bool) (rows : List DatastreamRow) {r : DatastreamRow}
    → find_first p rows ≡ some r
    → stored_cursor rows r.id ≢ none
found-cursor p [] {r} h = absurd cc
found-cursor p (x ∷ rows) {r} h = elim (Bool-cases (p x)) [
  | inl e ↦ ground arith
  | inr e ↦ ground (arith, found-cursor p rows {r = r})
]

upsert_datastream-cursor :
    (thing : ℕ) (op : String) (cadence : ℤ) (db : Db)
    → IsFresh db
    → (j : ℕ)
    → cursor_at (upsert_datastream thing op cadence db).1 j
      ≡ Contract.made_known (upsert_datastream thing op cadence db).0 (cursor_at db) j
unfolding upsert_datastream
upsert_datastream-cursor thing op cadence db h j =
    elim (some-or-none (find_first (is_datastream thing op) db.datastreams)) [
      | inl e ↦ ground (arith, h j)
      | inr (row, e) ↦ ground (
        arith,
        found-cursor (is_datastream thing op) db.datastreams {r = row} e,
        stored_cursor-update_where (is_datastream thing op)
            (λ (r : DatastreamRow). record r { expected_cadence_seconds = cadence }) db.datastreams
            j (λ r. (refl, refl)),
      )
    ]

upsert_datastream-unknown :
    (thing : ℕ) (op : String) (cadence : ℤ) (db : Db)
    → IsFresh db
    → (j : ℕ) → (upsert_datastream thing op cadence db).1.next_datastream ≤ j
    → cursor_at db j ≡ none
    → Contract.made_known (upsert_datastream thing op cadence db).0 (cursor_at db) j ≡ none
unfolding upsert_datastream
upsert_datastream-unknown thing op cadence db h j l k =
    elim (some-or-none (find_first (is_datastream thing op) db.datastreams)) [
      | inl e ↦ ground arith
      | inr (row, e) ↦
          ground (arith, found-cursor (is_datastream thing op) db.datastreams {r = row} e, h row.id)
    ]

upsert_datastream-IsNumber :
    (thing : ℕ) (op : String) (cadence : ℤ) (db : Db)
    → Contract.IsNumber (upsert_datastream thing op cadence db).0
unfolding upsert_datastream
upsert_datastream-IsNumber thing op cadence db = elim (Bool-cases (head_fault db.faults)) [
  | inl e ↦ rw e refl
  | inr e ↦ elim (some-or-none (find_first (is_datastream thing op) db.datastreams)) [
    | inl new ↦ elim (Bool-cases (exists_where (is_thing_id thing) db.things)) [
      | inl k ↦ rw (e, new, k) tt
      | inr k ↦ rw (e, new, k) refl
    ]
    | inr (row, k) ↦ rw (e, k) tt
  ]
]

pub upsert_datastream-IsStep :
    (thing : ℕ) (op : String) (cadence : ℤ) (db : Db)
    → IsFresh db
    → IsStep (Contract.upsert_datastream thing op cadence) db
unfolding perform postgres_store upsert_datastream
upsert_datastream-IsStep thing op cadence db h = record {
  acted = (upsert_datastream thing op cadence db).0;
  acts = refl;
  allowed = upsert_datastream-IsNumber thing op cadence db;
  acted_allowed = upsert_datastream-IsNumber thing op cadence db;
  cursor = upsert_datastream-cursor thing op cadence db h;
  written = λ j u. ground arith;
  next = ground arith;
  unknown = upsert_datastream-unknown thing op cadence db h;
}
