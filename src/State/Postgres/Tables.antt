-- ===== src/State/Postgres/Tables.antt =====
-- internal/state/migrations.sql: the four tables with their sequences, and one round trip.
use clappform_sensor_things.Prelude.{
  ℕ, String, Bool, true, false, Option, none, some, List, [], ◌∷◌, if◌then◌else◌, ◌==◌, str_eq,
  ◌&&◌, ltb,
}
use clappform_sensor_things.Prelude.Int.{ℤ}
use clappform_sensor_things.Canonical.{Time, Float64}
use clappform_sensor_things.Failure.{text, err, Action, Error, Effect}
use clappform_sensor_things.State.{ThingRow, DatastreamRow, WatchdogState}

-- translation_state.observation_write_log
pub record LogRow : Type 0 where
  pub id : ℕ
  pub datastream_id : ℕ
  pub phenomenon_time : Time
  pub result : Float64
  pub raw_observation_id : String
  pub sta_observation_id : ℤ
  pub written_at : Time

-- `clock` is NOW(); `next_*` are the sequences of the BIGSERIAL columns. `faults` says which of the coming
-- round trips fail, and `committed` whether a COMMIT among those took effect before its answer was lost.
pub record Db : Type 0 where
  pub things : List ThingRow
  pub next_thing : ℕ
  pub datastreams : List DatastreamRow
  pub next_datastream : ℕ
  pub write_log : List LogRow
  pub next_log : ℕ
  pub watchdog : Option WatchdogState
  pub clock : Time
  pub faults : List Bool
  pub committed : List Bool

abbrev pub head_fault : List Bool → Bool
head_fault [] = false
head_fault (b ∷ bs) = b

abbrev pub tail_faults : List Bool → List Bool
tail_faults [] = []
tail_faults (b ∷ bs) = bs

-- The next COMMIT that fails took effect.
abbrev pub is_lost : Db → Bool
is_lost db = head_fault db.committed

abbrev pub spent : Db → Db
spent db = record db { faults = tail_faults db.faults }

-- One round trip: it fails and changes nothing, or the statement runs.
abbrev pub round_trip : {A : Type 0} → Action Db A → Action Db A
round_trip statement db =
    if head_fault db.faults then (err text, spent db) else statement (spent db)

-- The keys of the tables.
abbrev pub is_thing : String → String → ThingRow → Bool
is_thing vendor native r = str_eq r.vendor_id vendor && str_eq r.vendor_native_id native

abbrev pub is_thing_id : ℕ → ThingRow → Bool
is_thing_id id r = r.id == id

abbrev pub is_datastream : ℕ → String → DatastreamRow → Bool
is_datastream thing_id op r = r.thing_id == thing_id && str_eq r.observed_property op

abbrev pub is_datastream_id : ℕ → DatastreamRow → Bool
is_datastream_id id r = r.id == id

abbrev pub is_logged : ℕ → Time → LogRow → Bool
is_logged ds t r = r.datastream_id == ds && r.phenomenon_time == t

abbrev pub is_log_id : ℕ → LogRow → Bool
is_log_id id r = r.id == id

-- `column IS NULL OR column < t`
abbrev pub is_behind : Option Time → Time → Bool
is_behind none t = true
is_behind (some u) t = ltb u t

-- One round trip of a method that returns only an error.
abbrev pub executed : (Db → Option Error × Db) → Effect Db
executed statement db = if head_fault db.faults then (some text, spent db) else statement (spent db)
