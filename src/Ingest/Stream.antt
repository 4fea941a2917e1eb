-- ===== src/Ingest/Stream.antt =====
-- ingest.go, ProcessStream: validate a batch, resolve the entities, write what was kept.
use clappform_sensor_things.Validator.{
  Reason, Rejection, before_cursor, filter_batch, in_future, is_definitively_rejected,
  missing_result, out_of_bounds_coordinate, out_of_range, Config,
}
use clappform_sensor_things.Prelude.{
  List, Option, String, [], if◌then◌else◌, length, none, not, some, str_eq, ℕ, ◌&&◌, ◌+◌, ◌∷◌,
}
use clappform_sensor_things.Canonical.{
  Datastream, Observation, ObservedProperty, Thing, Time, after, is_zero,
}
use clappform_sensor_things.Ingest.Chain.{record_first, resolve_targets}
use clappform_sensor_things.Ingest.{IngestResult, Processor, ResolvedTarget}
use clappform_sensor_things.Failure.{Error, Result, err, ok}
use clappform_sensor_things.Prelude.Int.{sub_ℕ}
use clappform_sensor_things.Metrics.{
  observation_freshness, observations_accepted, observations_dropped,
}
use clappform_sensor_things.Ingest.Write.{Outcome, write_observation}

-- m[label]++
abbrev pub count_label : String → List (String × ℕ) → List (String × ℕ)
count_label l [] = (l, 1) ∷ []
count_label l ((k, n) ∷ m) = if str_eq k l then (k, n + 1) ∷ m else (k, n) ∷ count_label l m

count_labels : List String → List (String × ℕ) → List (String × ℕ)
count_labels [] m = m
count_labels (l ∷ ls) m = count_labels ls (count_label l m)

unfoldable pub reason_text : Reason → String
reason_text missing_result = "missing_result"
reason_text out_of_range = "out_of_range"
reason_text in_future = "in_future"
reason_text before_cursor = "before_cursor"
reason_text out_of_bounds_coordinate = "out_of_bounds_coordinates"

-- The cover of one rejection: the newest time so far, or that of the rejected observation.
cover_rejection : Rejection → Time → Time
unfolding is_definitively_rejected
cover_rejection r t =
    if is_definitively_rejected r.reason && after r.observation.phenomenon_time t
    then r.observation.phenomenon_time
    else t

unfoldable pub cover_rejections : List Rejection → Time → Time
unfolding cover_rejection
cover_rejections [] t = t
cover_rejections (r ∷ rs) t = cover_rejections rs (cover_rejection r t)

-- One observation that was written, skipped or dropped.
unfoldable pub cover : Observation → Outcome → IngestResult → IngestResult
unfolding count_labels
cover o done res = record res {
  skipped_idempotent = if done.skipped then res.skipped_idempotent + 1 else res.skipped_idempotent;
  written_per_target = count_labels done.wrote res.written_per_target;
  max_phenomenon_time =
      if after o.phenomenon_time res.max_phenomenon_time
      then o.phenomenon_time
      else res.max_phenomenon_time;
}

-- maxResultTime
unfoldable pub newest_result : Observation → Outcome → Time → Time
newest_result o done t = if not done.dropped && after o.result_time t then o.result_time else t

-- The result before anything is written.
unfoldable pub validated :
    List Observation → Time → List Observation → List Rejection → IngestResult
unfolding cover_rejections
validated obs cursor kept rejected = record {
  received = length obs;
  accepted = length kept;
  written_per_target = [];
  skipped_idempotent = 0;
  rejected = rejected;
  max_phenomenon_time = cover_rejections rejected cursor;
}

module _ {W : Type 0} (p : Processor W) (vendor : String) where
  unfoldable pub meter_rejections : List Rejection → W → W
  unfolding reason_text
  meter_rejections [] w = w
  meter_rejections (r ∷ rs) w =
      meter_rejections rs (p.platform.emit (observations_dropped (reason_text r.reason) vendor) w)

  -- The loop over the kept observations; an error ends it with the result so far.
  unfoldable pub write_kept :
      ℕ
      → List (ResolvedTarget W)
      → List Observation
      → IngestResult
      → Time
      → W
      → (IngestResult × Time × Option Error) × W
  unfolding cover newest_result
  write_kept ds_id targets [] res newest w = ((res, newest, none), w)
  write_kept ds_id targets (o ∷ os) res newest w =
      let (done, w') = write_observation p vendor ds_id o targets w in
      elim done [
        | err e ↦ ((res, newest, some e), w')
        | ok d ↦ write_kept ds_id targets os (cover o d res) (newest_result o d newest) w'
      ]

  -- The gauge of the freshness, after the loop.
  unfoldable pub finish :
      ObservedProperty
      → (IngestResult × Time × Option Error) × W
      → (IngestResult × Option Error) × W
  finish op ((res, newest, some e), w) = ((res, some e), w)
  finish op ((res, newest, none), w) =
      let (now, w') = p.platform.now w in
      (
        (res, none),
        if is_zero newest
            then w
            else p.platform.emit (observation_freshness vendor op (sub_ℕ now newest)) w',
      )

  unfoldable pub with_targets :
      ℕ
      → ℕ
      → Datastream
      → List Observation
      → IngestResult
      → Result (List (ResolvedTarget W)) × W
      → (IngestResult × Option Error) × W
  unfolding record_first write_kept finish
  with_targets thing_id ds_id d kept res (err e, w) = ((res, some e), w)
  with_targets thing_id ds_id d kept res (ok targets, w) =
      finish d.observed_property
        (write_kept ds_id targets kept res 0 (record_first p thing_id ds_id targets w))

  -- After the validation, with something kept.
  unfoldable pub write_batch :
      ℕ
      → ℕ
      → Thing
      → Datastream
      → List Observation
      → IngestResult
      → W
      → (IngestResult × Option Error) × W
  unfolding with_targets
  write_batch thing_id ds_id t d [] res w = ((res, none), w)
  write_batch thing_id ds_id t d (o ∷ os) res w =
      with_targets thing_id ds_id d (o ∷ os) res (resolve_targets p t d w)

  unfoldable pub process_stream :
      ℕ → ℕ → Thing → Datastream → Time → List Observation → W → (IngestResult × Option Error) × W
  unfolding write_batch meter_rejections validated
  process_stream thing_id ds_id t d cursor obs w =
      let (now, w0) = p.platform.now w in
      let cfg : Config = record { clock_skew_tolerance = p.clock_skew_tolerance; now = now } in
      let (kept, rejected) = filter_batch cfg cursor obs in
      write_batch thing_id ds_id t d kept (validated obs cursor kept rejected) (
        p.platform.emit (observations_accepted vendor (length kept)) (meter_rejections rejected w0))
