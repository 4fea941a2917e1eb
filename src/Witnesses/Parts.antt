-- ===== src/Witnesses/Parts.antt =====
-- The theorems on the single components, at concrete values.
use mathlib.Core.List.{[]}
use clappform_sensor_things.Prelude.{
  All, false, none, some, is_none, ◌⊎◌, inl, inr, length, refl, true, ◌+◌, ◌↔◌, ◌∷◌, ◌≡◌,
}
use clappform_sensor_things.State.{WatchdogState, stale, stale_pending}
use clappform_sensor_things.Failure.{text}
use clappform_sensor_things.Validator.Rules.{ResultOk, TimeOk, validate_iff}
use clappform_sensor_things.Watchdog.{stale_alert}
use clappform_sensor_things.Watchdog.Machine.{
  TakeTurns, run, run-TakeTurns, stale_ticks, stale_ticks_alert,
}
use clappform_sensor_things.Witnesses.World.{broken_reading, reading, stored}
use clappform_sensor_things.State.Postgres.Log.{HasRowsOf, record_observation_write_atomic}
use clappform_sensor_things.Canonical.{above}
use clappform_sensor_things.Validator.{filter_batch, validate, Config}
use clappform_sensor_things.State.Postgres.Progress.{record_observation_write}
use clappform_sensor_things.State.Postgres.Tables.{Db, is_lost}
use clappform_sensor_things.Prelude.Int.{pos}
use clappform_sensor_things.Validator.Partition.{
  Ascending, IsRejectionOf, filter_batch_partition, passing,
}

-- The COMMIT is lost, and took effect.
abbrev lost : Db
lost = record stored { faults = false ∷ false ∷ false ∷ true ∷ []; committed = true ∷ [] }

record_observation_write_atomic_example :
    let r = record_observation_write 1 500000 (above 0) "r1" (pos 7) lost in
    let whole =
      record_observation_write 1 500000 (above 0) "r1" (pos 7) (record lost { faults = [] }) in
    ((is_none r.0 ≡ false) × HasRowsOf lost r.1)
    ⊎ (((r.0 ≡ none) ⊎ ((r.0 ≡ some text) × (is_lost lost ≡ true)))
        × (whole.0 ≡ none)
        × HasRowsOf whole.1 r.1)
record_observation_write_atomic_example =
    record_observation_write_atomic 1 500000 (above 0) "r1" (pos 7) lost

abbrev pending : WatchdogState
pending = record { current_status = stale_pending; since_ts = 1; last_fired_ts = none }

run-TakeTurns_example :
    TakeTurns stale_alert (run pending ((true, 2) ∷ (false, 3) ∷ (true, 4) ∷ (true, 5) ∷ [])).1
run-TakeTurns_example = run-TakeTurns pending ((true, 2) ∷ (false, 3) ∷ (true, 4) ∷ (true, 5) ∷ [])

stale_ticks_alert_example :
    ((run pending (stale_ticks (2 ∷ 3 ∷ 4 ∷ []))).0.current_status ≡ stale)
    × ((run pending (stale_ticks (2 ∷ 3 ∷ 4 ∷ []))).1 ≡ stale_alert ∷ [])
stale_ticks_alert_example = stale_ticks_alert pending 2 3 (4 ∷ []) (inr (inl refl))

validate_iff_example :
    (validate reading 400000 1000000 300000 ≡ none)
    ↔ (ResultOk reading × TimeOk reading 400000 1000000 300000)
validate_iff_example = validate_iff reading 400000 1000000 300000

abbrev rules : Config
rules = record { clock_skew_tolerance = 300000; now = 1000000 }

filter_batch_partition_example :
    ((filter_batch rules 400000 (reading ∷ broken_reading ∷ [])).0
      ≡ passing rules 400000 (reading ∷ broken_reading ∷ []))
    × (length (filter_batch rules 400000 (reading ∷ broken_reading ∷ [])).0
          + length (filter_batch rules 400000 (reading ∷ broken_reading ∷ [])).1
        ≡ 2)
    × All
        (IsRejectionOf rules 400000 0 (reading ∷ broken_reading ∷ []))
        (filter_batch rules 400000 (reading ∷ broken_reading ∷ [])).1
    × Ascending 0 (filter_batch rules 400000 (reading ∷ broken_reading ∷ [])).1
filter_batch_partition_example = filter_batch_partition rules 400000 (reading ∷ broken_reading ∷ [])
