-- ===== src/Ingest.antt =====
-- internal/ingest/ingest.go: what one call works with, and what it returns. The write path is in
-- `Chain` (the entities), `Write` (one observation) and `Stream` (a batch).
pub mod Chain
pub mod Write
pub mod Stream
pub mod Covered
pub mod Newest
pub mod Loop
pub mod Once
pub mod Frame
pub mod Unchanged
pub mod Replay
use clappform_sensor_things.Oms.Names.{Config as MapperConfig}
use clappform_sensor_things.Prelude.Int.{ℤ}
use clappform_sensor_things.Prelude.{List, String, ℕ}
use clappform_sensor_things.Metrics.{Platform}
use clappform_sensor_things.Frost.Writer.{Writer}
use clappform_sensor_things.Validator.{Rejection}
use clappform_sensor_things.Canonical.{Duration, Time}
use clappform_sensor_things.State.{Store}

-- The mapper, writers, store and clock; `date` and `rfc3339` are the texts of a time in UTC.
pub record Processor (W : Type 0) : Type 0 where
  pub mapper : MapperConfig
  pub writers : List (Writer W)
  pub store : Store W
  pub clock_skew_tolerance : Duration
  pub platform : Platform W
  pub date : Time → String
  pub rfc3339 : Time → String

pub record IngestResult : Type 0 where
  pub received : ℕ
  pub accepted : ℕ
  pub written_per_target : List (String × ℕ)
  pub skipped_idempotent : ℕ
  pub rejected : List Rejection
  pub max_phenomenon_time : Time

pub record ResolvedTarget (W : Type 0) : Type 0 where
  pub writer : Writer W
  pub thing_id : ℤ
  pub ds_id : ℤ
  pub foi_id : ℤ
