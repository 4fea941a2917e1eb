-- ===== src/Ingest/Unchanged.antt =====
-- ingest.go: the write path calls nothing but what the frame names.
use clappform_sensor_things.Frost.Errors.{is_permanent}
use clappform_sensor_things.Canonical.{
  Datastream, Observation, ObservedProperty, Thing, Time, is_zero,
}
use clappform_sensor_things.Ingest.Write.{
  Outcome, Progress, after_post, conclude, is_already_exists, is_empty, no_progress, on_existence,
  recorded, skip_targets, write_observation, write_targets,
}
use clappform_sensor_things.Ingest.Stream.{
  cover, finish, meter_rejections, newest_result, process_stream, with_targets, write_batch,
  write_kept,
}
use clappform_sensor_things.Prelude.{
  Bool, Bool-cases, List, Option, String, [], false, inl, inr, none, some, true, ℕ, ◌&&◌, ◌∷◌, All,
}
use clappform_sensor_things.Ingest.Covered.{config_at}
use clappform_sensor_things.Ingest.{IngestResult, Processor, ResolvedTarget}
use clappform_sensor_things.Frost.Writer.{post_observation}
use clappform_sensor_things.Ingest.Chain.{record_first, resolve_targets}
use clappform_sensor_things.Failure.{Error, Result, err, ok}
use clappform_sensor_things.Oms.Bodies.{observation_payload}
use clappform_sensor_things.Ingest.Frame.{
  Frame, keeps_if, record_first-Keeps, OnOk, TargetKeeps, resolve_writers-Ends,
}
use clappform_sensor_things.Prelude.Int.{ℤ}
use clappform_sensor_things.Validator.{Rejection, filter_batch}
use clappform_sensor_things.Frost.Entities.{observation_body}

module _ {W : Type 0} (p : Processor W) (R : W → W → Type 0) (frame : Frame p R)
    (vendor : String) where
  -- Targets whose writers keep R.
  abbrev Kept : List (ResolvedTarget W) → Type 0
  Kept targets = All (λ (rt : ResolvedTarget W). TargetKeeps R rt.writer) targets

  skip_targets-Keeps :
      (targets : List (ResolvedTarget W)) (w : W) → R w (skip_targets p vendor targets w)
  unfolding skip_targets
  skip_targets-Keeps [] w = frame.stays w
  skip_targets-Keeps (rt ∷ rts) w = frame.chain (frame.emits _ w) (skip_targets-Keeps rts _)

  after_post-Keeps :
      (rt : ResolvedTarget W) (g : Progress) {w : W} (r : Result (ℤ × Bool) × W)
      → R w r.1
      → R w (after_post p vendor rt g r).1
  unfolding after_post
  after_post-Keeps rt g (err e, v) h = elim (Bool-cases (is_permanent e)) [
    | inl k ↦ rw k (frame.chain h (frame.emits _ v))
    | inr k ↦ rw k h
  ]
  after_post-Keeps rt g (ok (id, true), v) h = frame.chain h (frame.emits _ v)
  after_post-Keeps rt g (ok (id, false), v) h = frame.chain h (frame.emits _ v)

  write_targets-Keeps :
      (o : Observation) (targets : List (ResolvedTarget W)) (g : Progress) (w : W)
      → Kept targets
      → R w (write_targets p vendor o targets g w).1
  unfolding write_targets
  write_targets-Keeps o [] g w good = frame.stays w
  write_targets-Keeps o (rt ∷ rts) g w good =
      let body = observation_body (observation_payload o rt.foi_id) in
      let posted = post_observation rt.writer rt.ds_id o.phenomenon_time body w in
      let next = after_post p vendor rt g posted in
      let kept = after_post-Keeps rt g posted (good.0.posts rt.ds_id o.phenomenon_time body w) in
      elim next.0.0
        as (λ (x : Option Error).
          R w
            (elim x as (λ _. (Option Error × Progress) × W) [
              | some e ↦ ((some e, next.0.1), next.1)
              | none ↦ write_targets p vendor o rts next.0.1 next.1
            ]).1) [
              | some e ↦ kept
              | none ↦ frame.chain kept (write_targets-Keeps o rts next.0.1 next.1 good.1)
            ]

  recorded-Keeps :
      (wrote : List String) (r : Option Error × W) → R r.1 (recorded p vendor wrote r).1
  unfolding recorded
  recorded-Keeps wrote (none, v) = frame.stays v
  recorded-Keeps wrote (some e, v) = elim (Bool-cases (is_already_exists e)) [
    | inl k ↦ rw k (frame.stays v)
    | inr k ↦ rw k (frame.stays v)
  ]

  conclude-Keeps :
      (ds : ℕ) (o : Observation) (r : (Option Error × Progress) × W)
      → R r.1 (conclude p vendor ds o r).1
  unfolding conclude
  conclude-Keeps ds o ((some e, g), v) = frame.stays v
  conclude-Keeps ds o ((none, g), v) = elim (Bool-cases (is_empty g.wrote && g.refused)) [
    | inl k ↦ rw k (frame.stays v)
    | inr k ↦ rw k (
        let added =
          p.store.record_observation_write ds o.phenomenon_time o.result o.raw_observation_id
            g.sta_observation_id v in
        frame.chain (frame.records _ _ _ _ _ v) (recorded-Keeps g.wrote added))
  ]

  on_existence-Keeps :
      (ds : ℕ) (o : Observation) (targets : List (ResolvedTarget W)) (r : Result Bool × W)
      → Kept targets
      → R r.1 (on_existence p vendor ds o targets r).1
  unfolding on_existence
  on_existence-Keeps ds o targets (err e, v) good = frame.stays v
  on_existence-Keeps ds o targets (ok true, v) good = skip_targets-Keeps targets v
  on_existence-Keeps ds o targets (ok false, v) good =
      let start = no_progress p vendor in
      frame.chain (write_targets-Keeps o targets start v good)
        (conclude-Keeps ds o (write_targets p vendor o targets start v))

  write_observation-Keeps :
      (ds : ℕ) (o : Observation) (targets : List (ResolvedTarget W)) (w : W)
      → Kept targets
      → R w (write_observation p vendor ds o targets w).1
  unfolding write_observation
  write_observation-Keeps ds o targets w good =
      frame.chain (frame.exists ds o.phenomenon_time w)
        (on_existence-Keeps ds o targets (p.store.observation_exists ds o.phenomenon_time w) good)

  write_kept-Keeps :
      (ds : ℕ) (targets : List (ResolvedTarget W)) (os : List Observation) (res : IngestResult)
      (t : Time) (w : W)
      → Kept targets
      → R w (write_kept p vendor ds targets os res t w).1
  unfolding write_kept
  write_kept-Keeps ds targets [] res t w good = frame.stays w
  write_kept-Keeps ds targets (o ∷ os) res t w good =
      let done = write_observation p vendor ds o targets w in
      let kept = write_observation-Keeps ds o targets w good in
      elim done.0
        as (λ (x : Result Outcome).
          R w
            (elim x as (λ _. (IngestResult × Time × Option Error) × W) [
              | ok d ↦
                  write_kept p vendor ds targets os (cover o d res) (newest_result o d t) done.1
              | err e ↦ ((res, t, some e), done.1)
            ]).1) [
              | ok d ↦ frame.chain kept (write_kept-Keeps ds targets os _ _ done.1 good)
              | err e ↦ kept
            ]

  finish-Keeps :
      (op : ObservedProperty) (r : (IngestResult × Time × Option Error) × W)
      → R r.1 (finish p vendor op r).1
  unfolding finish
  finish-Keeps op ((res, t, some e), v) = frame.stays v
  finish-Keeps op ((res, t, none), v) =
      keeps_if p R frame (is_zero t) (frame.stays v)
        (frame.chain (frame.reads_clock v) (frame.emits _ _))

  with_targets-Keeps :
      (thing_id ds_id : ℕ) (d : Datastream) (kept : List Observation) (res : IngestResult)
      (r : Result (List (ResolvedTarget W)) × W)
      → OnOk Kept r.0
      → R r.1 (with_targets p vendor thing_id ds_id d kept res r).1
  unfolding with_targets
  with_targets-Keeps thing_id ds_id d kept res (err e, v) good = frame.stays v
  with_targets-Keeps thing_id ds_id d kept res (ok targets, v) good =
      frame.chain (record_first-Keeps p R frame thing_id ds_id targets v) (
        frame.chain (write_kept-Keeps ds_id targets kept res 0 _ good) (
          finish-Keeps d.observed_property (
            write_kept p vendor ds_id targets kept res 0
              (record_first p thing_id ds_id targets v))))

  write_batch-Keeps :
      (thing_id ds_id : ℕ) (t : Thing) (d : Datastream) (kept : List Observation)
      (res : IngestResult) (w : W)
      → R w (write_batch p vendor thing_id ds_id t d kept res w).1
  unfolding write_batch resolve_targets
  write_batch-Keeps thing_id ds_id t d [] res w = frame.stays w
  write_batch-Keeps thing_id ds_id t d (o ∷ os) res w =
      let resolved = resolve_writers-Ends p R frame t d p.writers w frame.targets in
      frame.chain resolved.0
        (with_targets-Keeps thing_id ds_id d (o ∷ os) res (resolve_targets p t d w) resolved.1)

  meter_rejections-Keeps : (rs : List Rejection) (w : W) → R w (meter_rejections p vendor rs w)
  unfolding meter_rejections
  meter_rejections-Keeps [] w = frame.stays w
  meter_rejections-Keeps (r ∷ rs) w = frame.chain (frame.emits _ w) (meter_rejections-Keeps rs _)

  -- Every path of ProcessStream, errors included, leads through nothing but the calls of the frame:
  -- what they keep, it keeps.
  pub process_stream-Keeps :
      (thing_id ds_id : ℕ) (t : Thing) (d : Datastream) (cursor : Time) (obs : List Observation)
      (w : W)
      → R w (process_stream p vendor thing_id ds_id t d cursor obs w).1
  unfolding process_stream
  process_stream-Keeps thing_id ds_id t d cursor obs w = frame.chain (frame.reads_clock w) (
      frame.chain (meter_rejections-Keeps (filter_batch (config_at p vendor w) cursor obs).1 _)
        (frame.chain (frame.emits _ _) (write_batch-Keeps thing_id ds_id t d _ _ _)))
