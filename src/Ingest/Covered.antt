-- ===== src/Ingest/Covered.antt =====
-- ingest.go, `MaxPhenomenonTime` and the counts: what a caller may treat as covered.
use clappform_sensor_things.Canonical.{Observation, Time, Datastream, ObservedProperty, Thing}
use clappform_sensor_things.Validator.Partition.{filter_batch_partition}
use clappform_sensor_things.Ingest.Stream.{
  finish, process_stream, validated, with_targets, write_batch,
}
use clappform_sensor_things.Prelude.{
  List, [], ap, arith, refl, ◌∷◌, ◌≡◌, Option, String, none, some, ℕ, ◌∙◌, length, ◌+◌,
}
use clappform_sensor_things.Validator.{Config, filter_from, filter_batch}
use clappform_sensor_things.Failure.{Error, Result, err, ok}
use clappform_sensor_things.Ingest.{IngestResult, Processor, ResolvedTarget}
use clappform_sensor_things.Ingest.Chain.{record_first, resolve_targets}
use clappform_sensor_things.Ingest.Newest.{cover_rejections-eq, newest-filter, newest_of}
use clappform_sensor_things.Ingest.Loop.{SameBatch, loop_covers}

-- What a batch comes to, given the result before anything is written.
abbrev BatchCovers : List Observation → IngestResult → IngestResult × Option Error → Type 0
BatchCovers kept res r =
    SameBatch r.0 res
    × (r.1 ≡ none → r.0.max_phenomenon_time ≡ newest_of res.max_phenomenon_time kept)

module _ {W : Type 0} (p : Processor W) (vendor : String) where
  finish-covers :
      (op : ObservedProperty) (kept : List Observation) (res : IngestResult)
      (r : (IngestResult × Time × Option Error) × W)
      → SameBatch r.0.0 res
        × (r.0.2 ≡ none → r.0.0.max_phenomenon_time ≡ newest_of res.max_phenomenon_time kept)
      → BatchCovers kept res (finish p vendor op r).0
  unfolding finish
  finish-covers op kept res ((res', newest, some e), w) h = (h.0, λ k. cc)
  finish-covers op kept res ((res', newest, none), w) h = h

  with_targets-covers :
      (thing_id ds_id : ℕ) (d : Datastream) (kept : List Observation) (res : IngestResult)
      (r : Result (List (ResolvedTarget W)) × W)
      → BatchCovers kept res (with_targets p vendor thing_id ds_id d kept res r).0
  unfolding with_targets
  with_targets-covers thing_id ds_id d kept res (err e, w) = ((refl, refl, refl), λ h. cc)
  with_targets-covers thing_id ds_id d kept res (ok targets, w) =
      finish-covers d.observed_property kept res _
        (loop_covers p vendor ds_id targets kept res 0 (record_first p thing_id ds_id targets w))

  write_batch-covers :
      (thing_id ds_id : ℕ) (t : Thing) (d : Datastream) (kept : List Observation)
      (res : IngestResult) (w : W)
      → BatchCovers kept res (write_batch p vendor thing_id ds_id t d kept res w).0
  unfolding write_batch
  write_batch-covers thing_id ds_id t d [] res w = ((refl, refl, refl), λ h. refl)
  write_batch-covers thing_id ds_id t d (o ∷ os) res w =
      with_targets-covers thing_id ds_id d (o ∷ os) res (resolve_targets p t d w)

  -- The validator's configuration in a call that starts in w.
  abbrev pub config_at : W → Config
  config_at w = record { clock_skew_tolerance = p.clock_skew_tolerance; now = (p.platform.now w).0 }

  process_stream-covers :
      (thing_id ds_id : ℕ) (t : Thing) (d : Datastream) (cursor : Time) (obs : List Observation)
      (w : W)
      → let split = filter_batch (config_at w) cursor obs in
        BatchCovers split.0
          (validated obs cursor split.0 split.1)
          (process_stream p vendor thing_id ds_id t d cursor obs w).0
  unfolding process_stream
  process_stream-covers thing_id ds_id t d cursor obs w =
      write_batch-covers thing_id ds_id t d _ _ _

  -- Without an error every observation of the batch is covered, and nothing else: the reported time
  -- is the newest of the cursor and of all phenomenon times of the batch.
  pub process_stream-newest_of :
      (thing_id ds_id : ℕ) (t : Thing) (d : Datastream) (cursor : Time) (obs : List Observation)
      (w : W)
      → (process_stream p vendor thing_id ds_id t d cursor obs w).0.1 ≡ none
      → (process_stream p vendor thing_id ds_id t d cursor obs w).0.0.max_phenomenon_time
        ≡ newest_of cursor obs
  unfolding validated filter_batch
  process_stream-newest_of thing_id ds_id t d cursor obs w h =
      (process_stream-covers thing_id ds_id t d cursor obs w).1 h
      ∙ ap (λ (x : Time). newest_of x (filter_from (config_at w) cursor 0 obs).0)
          (cover_rejections-eq (filter_from (config_at w) cursor 0 obs).1 cursor)
      ∙ newest-filter (config_at w) cursor 0 obs cursor

  -- Every observation is accounted for, also in a call that fails: those received are the accepted
  -- and the rejected, and the rejected are those of the validator.
  pub process_stream_counts :
      (thing_id ds_id : ℕ) (t : Thing) (d : Datastream) (cursor : Time) (obs : List Observation)
      (w : W)
      → let res = (process_stream p vendor thing_id ds_id t d cursor obs w).0.0 in
        (res.received ≡ length obs)
        × (res.accepted + length res.rejected ≡ res.received)
        × (res.rejected ≡ (filter_batch (config_at w) cursor obs).1)
  unfolding validated
  process_stream_counts thing_id ds_id t d cursor obs w = ground (
    arith,
    (process_stream-covers thing_id ds_id t d cursor obs w).0,
    filter_batch_partition (config_at w) cursor obs,
  )
