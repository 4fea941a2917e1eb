-- ===== src/Scheduler/Cursor.antt =====
-- scheduler.go, runDatastreamCycle: what a cycle does to the poll cursors.
use clappform_sensor_things.Prelude.{
  Bool, List, Option, String, arith, if◌then◌else◌, is_none, length, none, raise, some, ℕ, ◌&&◌,
  ◌==◌, ◌∙◌, ◌≡◌,
}
use clappform_sensor_things.Metrics.{
  Metric, observations_polled, vendor_permanent_error, vendor_transient_error,
}
use clappform_sensor_things.Failure.{Error, ok}
use clappform_sensor_things.Scheduler.{
  Job, Scheduler, advance_after, classify_and_meter, seed_cursor,
}
use clappform_sensor_things.Canonical.{Observation, ObservedProperty, Time, after, micros}
use clappform_sensor_things.Adapters.{PollAdapter}
use clappform_sensor_things.Ingest.Frame.{Frame}
use clappform_sensor_things.Ingest.{IngestResult}
use clappform_sensor_things.Ingest.Stream.{process_stream}
use clappform_sensor_things.Ingest.Unchanged.{process_stream-Keeps}
use mathlib.Core.Option

-- The cursor of every Datastream is as it was.
abbrev pub SameCursors : {W : Type 0} → (W → ℕ → Option Time) → W → W → Type 0
SameCursors cursor w v = (j : ℕ) → cursor v j ≡ cursor w j

-- What the scheduler relies on: AdvancePollCursor moves one cursor forward, to a time in whole microseconds, GetPollCursor tells it,
-- and no other call moves any.
pub record CursorLaws {W : Type 0} (s : Scheduler W) (a : PollAdapter W)
    (cursor : W → ℕ → Option Time) : Type 0 where
  pub frame : Frame s.processor (SameCursors cursor)
  pub emits : (m : Metric) (w : W) → SameCursors cursor w (s.platform.emit m w)
  pub reads_clock : (w : W) → SameCursors cursor w (s.platform.now w).1
  pub fetches :
      (native : String) (op : ObservedProperty) (since : Time) (limit : ℕ) (w : W)
      → SameCursors cursor w (a.fetch_observations native op since limit w).1
  pub gets : (ds : ℕ) (w : W) → SameCursors cursor w (s.store.get_poll_cursor ds w).1
  pub tells :
      (ds : ℕ) (w : W) {c : Time} → (s.store.get_poll_cursor ds w).0 ≡ ok c → cursor w ds ≡ some c
  pub sets_polled :
      (ds : ℕ) (t : Time) (w : W) → SameCursors cursor w (s.store.set_last_polled_at ds t w).1
  pub advances :
      (ds : ℕ) (t : Time) (w : W) (j : ℕ)
      → cursor (s.store.advance_poll_cursor ds t w).1 j ≡ (
          if is_none (s.store.advance_poll_cursor ds t w).0 && j == ds
          then Option.map (λ (c : Time). raise c (micros t)) (cursor w j)
          else cursor w j)

module _ {W : Type 0} (s : Scheduler W) (a : PollAdapter W) (cursor : W → ℕ → Option Time)
    (laws : CursorLaws s a cursor) where
  pub classify_and_meter-Same :
      (vendor : String) (e : Error) (w : W) → SameCursors cursor w (classify_and_meter s vendor e w)
  unfolding classify_and_meter
  classify_and_meter-Same vendor e w j = ground (
    arith,
    laws.emits (vendor_permanent_error vendor) w j,
    laws.emits (vendor_transient_error vendor) w j,
  )

  pub seed_cursor-Same : (c : Time) (w : W) → SameCursors cursor w (seed_cursor s c w).1
  unfolding seed_cursor
  seed_cursor-Same c w j = ground (arith, laws.reads_clock w j)

  -- ProcessStream itself moves no cursor.
  pub process_stream-Same :
      (job : Job) (since : Time) (obs : List Observation) (w : W)
      → SameCursors cursor w
          (process_stream s.processor a.vendor_id job.thing_id job.ds_id job.thing job.datastream
            since obs
            (s.platform.emit (observations_polled a.vendor_id (length obs)) w)).1
  process_stream-Same job since obs w j =
      process_stream-Keeps s.processor (SameCursors cursor) laws.frame a.vendor_id job.thing_id
        job.ds_id job.thing job.datastream since obs _ j
      ∙ laws.emits _ w j

  -- What advance_after does, by what ProcessStream returned.
  pub advance_after-err :
      (job : Job) (since : Time) (res : IngestResult) (e : Error) (w : W)
      → SameCursors cursor w (advance_after s a.vendor_id job since ((res, some e), w))
  unfolding advance_after
  advance_after-err job since res e w = classify_and_meter-Same a.vendor_id e w

  -- The cursor j after a cycle that found `new` newest, from the cursor `since` on.
  abbrev pub raised : Bool → Time → Time → Option Time → Option Time
  raised done since new c =
      if done && after new since then Option.map (λ (t : Time). raise t (micros new)) c else c

  pub advance_after-ok :
      (job : Job) (since : Time) (res : IngestResult) (w : W) (j : ℕ)
      → let new = res.max_phenomenon_time in
        cursor (advance_after s a.vendor_id job since ((res, none), w)) j
        ≡ raised
            (is_none (s.store.advance_poll_cursor job.ds_id new w).0 && j == job.ds_id)
            since
            new
            (cursor w j)
  unfolding advance_after
  advance_after-ok job since res w j =
      ground (arith, laws.advances job.ds_id res.max_phenomenon_time w j)
