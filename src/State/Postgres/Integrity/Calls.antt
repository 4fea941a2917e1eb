-- ===== src/State/Postgres/Integrity/Calls.antt =====
-- pgstore.go: each statement keeps the constraints of migrations.sql, whether its round trips fail or not.
use clappform_sensor_things.Prelude.{
  false, Bool, Bool-cases, Option, String, arith, either_way, exists_where, find_first, inl, inr,
  leb, refl, some, suc, true, ℕ, ◌-◌, ◌*◌, ◌&&◌, ◌≡◌,
}
use clappform_sensor_things.Prelude.Int.{ℤ}
use clappform_sensor_things.Canonical.{Float64, Time, day, micros}
use clappform_sensor_things.State.{DatastreamRow, ThingRow, WatchdogState}
use clappform_sensor_things.Failure.{Error}
use clappform_sensor_things.State.Postgres.Alerts.{set_watchdog_state}
use clappform_sensor_things.State.Postgres.Entities.{
  affected, set_sta_datastream_id, set_sta_thing_id, upsert_datastream, upsert_thing,
}
use clappform_sensor_things.State.Postgres.Replies.{some-or-none}
use clappform_sensor_things.State.Postgres.Progress.{
  advance_poll_cursor, get_poll_cursor, observation_exists, purge_old_write_log,
  record_observation_write, set_last_polled_at,
}
use clappform_sensor_things.State.Postgres.Integrity.{IsConsistent, find_first-absent}
use clappform_sensor_things.State.Postgres.Integrity.Rows.{
  logged-Holds, numbers-Holds, purged-Holds, stream_added-Holds, stream_updated-Holds,
  thing_added-Holds, thing_updated-Holds, watched-Holds,
}
use clappform_sensor_things.State.Postgres.Tables.{
  tail_faults, is_lost, Db, LogRow, head_fault, is_behind, is_datastream, is_datastream_id,
  is_logged, is_thing, is_thing_id,
}

pub upsert_thing-IsConsistent :
    (v n m : String) (db : Db) → IsConsistent db → IsConsistent (upsert_thing v n m db).1
unfolding upsert_thing
upsert_thing-IsConsistent v n m db h = elim (Bool-cases (head_fault db.faults)) [
  | inl e ↦ rw e h
  | inr e ↦ elim (some-or-none (find_first (is_thing v n) db.things)) [
    | inl new ↦
        rw (e, new) (thing_added-Holds h _ refl (find_first-absent (is_thing v n) db.things new))
    | inr (row, found) ↦
        rw (e, found)
          (numbers-Holds
            (thing_updated-Holds h (is_thing v n)
              (λ (r : ThingRow). record r { last_seen_at = db.clock; name = m }) (λ i r. refl)
              (λ v' n' r. refl))
            (suc db.next_thing) db.next_datastream db.next_log (omega arith) (omega arith)
            (omega arith))
  ]
]

affected-world : {W : Type 0} (b : Bool) (w : W) → (affected b w).1 ≡ w
unfolding affected
affected-world true w = refl
affected-world false w = refl

pub set_sta_thing_id-IsConsistent :
    (id : ℕ) (sta : ℤ) (db : Db) → IsConsistent db → IsConsistent (set_sta_thing_id id sta db).1
unfolding set_sta_thing_id
set_sta_thing_id-IsConsistent id sta db h = elim (Bool-cases (head_fault db.faults)) [
  | inl e ↦ rw e h
  | inr e ↦
      rw (e, affected-world (exists_where (is_thing_id id) db.things))
        (thing_updated-Holds h (is_thing_id id)
          (λ (r : ThingRow). record r { sta_thing_id = some sta }) (λ i r. refl) (λ v n r. refl))
]

pub upsert_datastream-IsConsistent :
    (thing : ℕ) (op : String) (cadence : ℤ) (db : Db)
    → IsConsistent db
    → IsConsistent (upsert_datastream thing op cadence db).1
unfolding upsert_datastream
upsert_datastream-IsConsistent thing op cadence db h = elim (Bool-cases (head_fault db.faults)) [
  | inl e ↦ rw e h
  | inr e ↦ elim (some-or-none (find_first (is_datastream thing op) db.datastreams)) [
    | inl new ↦ elim (Bool-cases (exists_where (is_thing_id thing) db.things)) [
      | inl parent ↦
          rw (e, new, parent)
            (stream_added-Holds h _ refl
              (find_first-absent (is_datastream thing op) db.datastreams new) parent)
      | inr orphan ↦
          rw (e, new, orphan)
            (numbers-Holds h db.next_thing (suc db.next_datastream) db.next_log (omega arith)
              (omega arith) (omega arith))
    ]
    | inr (row, found) ↦
        rw (e, found)
          (numbers-Holds
            (stream_updated-Holds h (is_datastream thing op)
              (λ (r : DatastreamRow). record r { expected_cadence_seconds = cadence }) (λ i r. refl)
              (λ i o r. refl))
            db.next_thing (suc db.next_datastream) db.next_log (omega arith) (omega arith)
            (omega arith))
  ]
]

pub set_sta_datastream_id-IsConsistent :
    (id : ℕ) (sta : ℤ) (db : Db)
    → IsConsistent db
    → IsConsistent (set_sta_datastream_id id sta db).1
unfolding set_sta_datastream_id
set_sta_datastream_id-IsConsistent id sta db h = elim (Bool-cases (head_fault db.faults)) [
  | inl e ↦ rw e h
  | inr e ↦
      rw (e, affected-world (exists_where (is_datastream_id id) db.datastreams))
        (stream_updated-Holds h (is_datastream_id id)
          (λ (r : DatastreamRow). record r { sta_datastream_id = some sta }) (λ i r. refl)
          (λ i o r. refl))
]

pub advance_poll_cursor-IsConsistent :
    (id : ℕ) (t : Time) (db : Db) → IsConsistent db → IsConsistent (advance_poll_cursor id t db).1
unfolding advance_poll_cursor
advance_poll_cursor-IsConsistent id t db h = elim (Bool-cases (head_fault db.faults)) [
  | inl e ↦ rw e h
  | inr e ↦ rw e (
      stream_updated-Holds h
        (λ (r : DatastreamRow). is_datastream_id id r && is_behind r.poll_cursor (micros t))
        (λ (r : DatastreamRow). record r { poll_cursor = some (micros t) }) (λ i r. refl)
        (λ i o r. refl))
]

pub set_last_polled_at-IsConsistent :
    (id : ℕ) (t : Time) (db : Db) → IsConsistent db → IsConsistent (set_last_polled_at id t db).1
unfolding set_last_polled_at
set_last_polled_at-IsConsistent id t db h = elim (Bool-cases (head_fault db.faults)) [
  | inl e ↦ rw e h
  | inr e ↦ rw e (
      stream_updated-Holds h (is_datastream_id id)
        (λ (r : DatastreamRow). record r { last_polled_at = some (micros t) }) (λ i r. refl)
        (λ i o r. refl))
]

-- PurgeOldWriteLog keeps the constraints.
pub purge_old_write_log-IsConsistent :
    (days : ℕ) (db : Db) → IsConsistent db → IsConsistent (purge_old_write_log days db).1
unfolding purge_old_write_log
purge_old_write_log-IsConsistent days db h = elim (Bool-cases (head_fault db.faults)) [
  | inl e ↦ rw e h
  | inr e ↦ rw e (purged-Holds h (λ (r : LogRow). leb (db.clock - days * day) r.written_at))
]

pub get_poll_cursor-IsConsistent :
    (id : ℕ) (db : Db) → IsConsistent db → IsConsistent (get_poll_cursor id db).1
unfolding get_poll_cursor
get_poll_cursor-IsConsistent id db h = elim (Bool-cases (head_fault db.faults)) [
  | inl e ↦ rw e h
  | inr e ↦ rw e h
]

pub observation_exists-IsConsistent :
    (id : ℕ) (t : Time) (db : Db) → IsConsistent db → IsConsistent (observation_exists id t db).1
unfolding observation_exists
observation_exists-IsConsistent id t db h = elim (Bool-cases (head_fault db.faults)) [
  | inl e ↦ rw e h
  | inr e ↦ rw e h
]

pub set_watchdog_state-IsConsistent :
    (s : WatchdogState) (db : Db) → IsConsistent db → IsConsistent (set_watchdog_state s db).1
unfolding set_watchdog_state
set_watchdog_state-IsConsistent s db h = elim (Bool-cases (head_fault db.faults)) [
  | inl e ↦ rw e h
  | inr e ↦ rw e (
      either_way (λ (r : Option Error × Db). IsConsistent r.1) _ _ _ (λ on. watched-Holds h _ on)
        (λ off. h))
]

pub record_observation_write-IsConsistent :
    (id : ℕ) (t : Time) (x : Float64) (raw : String) (sta : ℤ) (db : Db)
    → IsConsistent db
    → IsConsistent (record_observation_write id t x raw sta db).1
unfolding record_observation_write
record_observation_write-IsConsistent id t x raw sta db h =
    let faults = db.faults in
    let numbered =
      numbers-Holds h db.next_thing db.next_datastream (suc db.next_log) (omega arith) (omega arith)
        (omega arith) in
    elim (Bool-cases (head_fault faults)) [
      | inl e ↦ rw e h
      | inr e ↦ elim (Bool-cases (head_fault (tail_faults faults))) [
        | inl f ↦ rw (e, f) h
        | inr f ↦ elim (Bool-cases (exists_where (is_logged id (micros t)) db.write_log)) [
          | inl l ↦ rw (e, f, l) numbered
          | inr l ↦ elim (Bool-cases (exists_where (is_datastream_id id) db.datastreams)) [
            | inr k ↦ rw (e, f, l, k) numbered
            | inl k ↦ elim (Bool-cases (head_fault (tail_faults (tail_faults faults)))) [
              | inl g ↦ rw (e, f, l, k, g) numbered
              | inr g ↦
                  let whole =
                    stream_updated-Holds (logged-Holds h _ refl l k)
                      (λ (r : DatastreamRow).
                        is_datastream_id id r && is_behind r.last_written_at (micros t))
                      (λ (r : DatastreamRow). record r { last_written_at = some (micros t) })
                      (λ i r. refl) (λ i o r. refl) in
                  elim (Bool-cases (head_fault (tail_faults (tail_faults (tail_faults faults))))) [
                    | inr c ↦ rw (e, f, l, k, g, c) whole
                    | inl c ↦ elim (Bool-cases (is_lost db)) [
                      | inl y ↦ rw (e, f, l, k, g, c, y) whole
                      | inr y ↦ rw (e, f, l, k, g, c, y) numbered
                    ]
                  ]
            ]
          ]
        ]
      ]
    ]
