-- ===== src/State/Postgres/Alerts.antt =====
-- pgstore.go, what the watchdog reads and writes: GetStalenessSnapshot, GetWatchdogState,
-- SetWatchdogState, Ping.
use mathlib.Core.Option
use clappform_sensor_things.State.Postgres.Tables.{Db, executed, is_thing_id, round_trip}
use clappform_sensor_things.Canonical.{Time, micros, second}
use clappform_sensor_things.Prelude.{
  Bool, List, Option, String, count_where, false, find_first, if◌then◌else◌, is_some, keep_where,
  length, ltb, map, none, raise, some, sprint, take, true, ℕ, ◌*◌, ◌-◌, ◌∷◌, [],
}
use clappform_sensor_things.Failure.{Action, Effect, ok, text}
use clappform_sensor_things.State.{
  DatastreamRow, StalenessSnapshot, Status, ThingRow, WatchdogState, status_ok, unknown,
}
use clappform_sensor_things.Prelude.Int.{negsuc, pos, ℤ}

-- GREATEST(3 * expected_cadence_seconds, 3600)
abbrev pub greatest : ℤ → ℕ
greatest (pos c) = raise (3 * c) 3600
greatest (negsuc c) = 3600

abbrev pub threshold_seconds : DatastreamRow → ℕ
threshold_seconds r = greatest r.expected_cadence_seconds

-- last_written_at IS NULL OR EXTRACT(EPOCH FROM (now - last_written_at)) > threshold_seconds
unfoldable pub is_stale_row : Time → DatastreamRow → Bool
is_stale_row now r = elim r.last_written_at [
  | none ↦ true
  | some t ↦ ltb (threshold_seconds r * second) (now - t)
]

-- WHERE last_polled_at IS NOT NULL. The join keeps every row: `thing_id` is a foreign key.
unfoldable pub evaluated : List DatastreamRow → List DatastreamRow
evaluated rows = keep_where (λ (r : DatastreamRow). is_some r.last_polled_at) rows

-- COALESCE(last_written_at, '-infinity') of one row is before that of the other
is_written_before : Option Time → Option Time → Bool
is_written_before (some t) none = false
is_written_before (some t) (some u) = ltb t u
is_written_before none none = false
is_written_before none (some u) = true

insert_by_written : DatastreamRow → List DatastreamRow → List DatastreamRow
unfolding is_written_before
insert_by_written r [] = r ∷ []
insert_by_written r (x ∷ xs) =
    if is_written_before x.last_written_at r.last_written_at
    then x ∷ insert_by_written r xs
    else r ∷ x ∷ xs

by_written : List DatastreamRow → List DatastreamRow
unfolding insert_by_written
by_written [] = []
by_written (x ∷ xs) = insert_by_written x (by_written xs)

name_of : Option ThingRow → String
name_of none = ""
name_of (some t) = t.name

-- thing_name || ' / ' || observed_property
example_name : List ThingRow → DatastreamRow → String
unfolding name_of
example_name things r =
    sprint (name_of (find_first (is_thing_id r.thing_id) things) ∷ " / " ∷ r.observed_property ∷ [])

unfoldable pub snapshot : Time → Db → StalenessSnapshot
unfolding evaluated is_stale_row by_written example_name
snapshot now db =
    let rows = evaluated db.datastreams in
    record {
      total = length rows;
      stale_count = count_where (is_stale_row now) rows;
      example_names =
          map (example_name db.things) (take 5 (by_written (keep_where (is_stale_row now) rows)));
      computed_at = now;
    }

unfoldable pub get_staleness_snapshot : Time → Action Db StalenessSnapshot
unfolding snapshot
get_staleness_snapshot now =
    round_trip λ db. (ok (record (snapshot (micros now) db) { computed_at = now }), db)

-- With no row: ok since now.
seeded : Time → Option WatchdogState → WatchdogState
seeded now none = record { current_status = status_ok; since_ts = now; last_fired_ts = none }
seeded now (some w) = w

unfoldable pub get_watchdog_state : Action Db WatchdogState
unfolding seeded
get_watchdog_state = round_trip λ db. (ok (seeded db.clock db.watchdog), db)

-- CHECK (current_status IN ('ok', 'stale_pending', 'stale'))
abbrev pub is_known : Status → Bool
is_known (unknown s) = false
is_known _ = true

-- The times of the row.
kept : WatchdogState → WatchdogState
kept w = record w {
  since_ts = micros w.since_ts;
  last_fired_ts = Option.map (λ (t : Time). micros t) w.last_fired_ts;
}

unfoldable pub set_watchdog_state : WatchdogState → Effect Db
unfolding kept
set_watchdog_state w = executed λ db.
    if is_known w.current_status
    then (none, record db { watchdog = some (kept w) })
    else (some text, db)

unfoldable pub ping : Effect Db
ping = executed λ db. (none, db)
