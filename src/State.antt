-- ===== src/State.antt =====
-- internal/state/store.go: the rows, and the persistence contract that the rest of the service
-- calls. `State.Postgres` is the implementation of pgstore.go.
pub mod Postgres
pub mod Contract
use clappform_sensor_things.Prelude.{ℕ, String, Bool, Option, List}
use clappform_sensor_things.Prelude.Int.{ℤ}
use clappform_sensor_things.Canonical.{Time, Float64}
use clappform_sensor_things.Failure.{Action, Effect}

pub data Status : Type 0 where
  status_ok stale_pending stale : Status
  unknown : String → Status

pub record ThingRow : Type 0 where
  pub id : ℕ
  pub vendor_id : String
  pub vendor_native_id : String
  pub sta_thing_id : Option ℤ
  pub name : String
  pub first_seen_at : Time
  pub last_seen_at : Time

pub record DatastreamRow : Type 0 where
  pub id : ℕ
  pub thing_id : ℕ
  pub observed_property : String
  pub sta_datastream_id : Option ℤ
  pub poll_cursor : Option Time
  pub last_polled_at : Option Time
  pub last_written_at : Option Time
  pub expected_cadence_seconds : ℤ

pub record WatchdogState : Type 0 where
  pub current_status : Status
  pub since_ts : Time
  pub last_fired_ts : Option Time

pub record StalenessSnapshot : Type 0 where
  pub total : ℕ
  pub stale_count : ℕ
  pub example_names : List String
  pub computed_at : Time

-- The interface `Store`; a context is left out.
pub record Store (W : Type 0) : Type 0 where
  pub upsert_thing : String → String → String → Action W ℕ
  pub set_sta_thing_id : ℕ → ℤ → Effect W
  pub get_thing : ℕ → Action W ThingRow
  pub upsert_datastream : ℕ → String → ℤ → Action W ℕ
  pub set_sta_datastream_id : ℕ → ℤ → Effect W
  pub get_datastream : ℕ → Action W DatastreamRow
  pub list_datastreams : Action W (List DatastreamRow)
  pub get_poll_cursor : ℕ → Action W Time
  pub advance_poll_cursor : ℕ → Time → Effect W
  pub set_last_polled_at : ℕ → Time → Effect W
  pub observation_exists : ℕ → Time → Action W Bool
  pub record_observation_write : ℕ → Time → Float64 → String → ℤ → Effect W
  pub get_staleness_snapshot : Time → Action W StalenessSnapshot
  pub get_watchdog_state : Action W WatchdogState
  pub set_watchdog_state : WatchdogState → Effect W
  pub purge_old_write_log : ℕ → Action W ℕ
  pub ping : Effect W
