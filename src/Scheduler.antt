-- ===== src/Scheduler.antt =====
-- internal/scheduler/scheduler.go: the poll cycle of one Datastream, and what its errors count as.
-- `Cycle` has the cycle of an adapter, whose Datastreams run concurrently.
pub mod Cursor
pub mod Advance
pub mod Cycle
pub mod Interleaving
use clappform_sensor_things.Prelude.{
  List, Option, String, if◌then◌else◌, length, none, some, ℕ, ◌-◌,
}
use clappform_sensor_things.Canonical.{
  Datastream, Duration, Observation, Thing, Time, after, is_zero,
}
use clappform_sensor_things.Ingest.{IngestResult, Processor}
use clappform_sensor_things.State.{Store}
use clappform_sensor_things.Failure.{Error, Result, err, ok}
use clappform_sensor_things.Adapters.{PollAdapter, is_permanent, is_transient}
use clappform_sensor_things.Metrics.{
  Platform, observations_polled, vendor_permanent_error, vendor_transient_error,
}
use clappform_sensor_things.Ingest.Stream.{process_stream}

-- The clock and the metrics are in `platform`. A lookback that would reach before year 1 ends there.
pub record Scheduler (W : Type 0) : Type 0 where
  pub store : Store W
  pub processor : Processor W
  pub platform : Platform W
  pub cursor_init_lookback : Duration

-- One Datastream of an adapter that the scheduler polls.
pub record Job : Type 0 where
  pub thing : Thing
  pub datastream : Datastream
  pub thing_id : ℕ
  pub ds_id : ℕ

module _ {W : Type 0} (s : Scheduler W) where
  -- A nil error counts as nothing; the code never passes one.
  unfoldable pub classify_and_meter : String → Error → W → W
  unfolding is_permanent is_transient
  classify_and_meter vendor e w =
      if is_permanent e
      then s.platform.emit (vendor_permanent_error vendor) w
      else if is_transient e
      then s.platform.emit (vendor_transient_error vendor) w
      else s.platform.emit (vendor_transient_error vendor) w

  -- The zero time starts at now - lookback.
  unfoldable pub seed_cursor : Time → W → Time × W
  seed_cursor cursor w =
      if is_zero cursor
      then ((s.platform.now w).0 - s.cursor_init_lookback, (s.platform.now w).1)
      else (cursor, w)

  -- The end of a cycle, given what ProcessStream returned.
  unfoldable pub advance_after : String → Job → Time → (IngestResult × Option Error) × W → W
  unfolding classify_and_meter
  advance_after vendor job cursor ((res, some e), w) = classify_and_meter vendor e w
  advance_after vendor job cursor ((res, none), w) =
      if after res.max_phenomenon_time cursor
      then (s.store.advance_poll_cursor job.ds_id res.max_phenomenon_time w).1
      else w

  unfoldable pub ingest_polled : String → Job → Time → Result (List Observation) × W → W
  unfolding classify_and_meter advance_after
  ingest_polled vendor job cursor (err e, w) = classify_and_meter vendor e w
  ingest_polled vendor job cursor (ok obs, w) = advance_after vendor job cursor (
      process_stream s.processor vendor job.thing_id job.ds_id job.thing job.datastream cursor obs
        (s.platform.emit (observations_polled vendor (length obs)) w))

  unfoldable pub poll_from : PollAdapter W → Job → Result Time × W → W
  unfolding seed_cursor ingest_polled
  poll_from a job (err e, w) = w
  poll_from a job (ok stored, w) =
      let (cursor, w') = seed_cursor stored w in
      ingest_polled a.vendor_id job cursor (
        a.fetch_observations job.thing.vendor_native_id job.datastream.observed_property cursor 1000
          w')

  -- `defer s.Store.SetLastPolledAt(...)`: on every path, its own error is only logged.
  unfoldable pub run_datastream_cycle : PollAdapter W → Job → W → W
  unfolding poll_from
  run_datastream_cycle a job w =
      let (now, w') = s.platform.now (poll_from a job (s.store.get_poll_cursor job.ds_id w)) in
      (s.store.set_last_polled_at job.ds_id now w').1
