-- ===== src/Metrics.antt =====
-- internal/metrics/metrics.go: what is counted, with the labels that go with it. A counter is the
-- list of its increments; a gauge, that of the values it was set to.
use clappform_sensor_things.Prelude.{String, ℕ}
use clappform_sensor_things.Prelude.Int.{ℤ}
use clappform_sensor_things.Canonical.{Time}

pub data Metric : Type 0 where
  observations_polled : String → ℕ → Metric
  observations_accepted : String → ℕ → Metric
  observations_written : String → String → Metric
  observations_dropped : String → String → Metric
  observations_skipped : String → String → Metric
  vendor_transient_error : String → Metric
  vendor_permanent_error : String → Metric
  sta_duplicate_entity : String → String → Metric
  rows_purged : ℕ → Metric
  observation_freshness : String → String → ℤ → Metric
  datastreams_stale : ℕ → Metric
  datastreams_total : ℕ → Metric
  alert_fired : String → Metric
  webhook_error : Metric

-- What every component reaches: the registry of metrics, and the clock.
pub record Platform (W : Type 0) : Type 0 where
  pub emit : Metric → W → W
  pub now : W → Time × W
