-- ===== src/Ingest/Loop.antt =====
-- ingest.go, the loop of ProcessStream over the kept observations.
use clappform_sensor_things.Canonical.{Observation, Time}
use clappform_sensor_things.Ingest.Stream.{cover, newest_result, write_kept}
use clappform_sensor_things.Prelude.{
  List, [], arith, refl, ◌∷◌, ◌≡◌, Option, String, none, some, subst, sym, ℕ,
}
use clappform_sensor_things.Failure.{Error, Result, err, ok}
use clappform_sensor_things.Ingest.Write.{Outcome, write_observation}
use clappform_sensor_things.Ingest.{IngestResult, Processor, ResolvedTarget}
use clappform_sensor_things.Ingest.Newest.{newest_of}

-- The part of a result that the write loop does not touch.
abbrev pub SameBatch : IngestResult → IngestResult → Type 0
SameBatch r s = (r.received ≡ s.received) × (r.accepted ≡ s.accepted) × (r.rejected ≡ s.rejected)

module _ {W : Type 0} (p : Processor W) (vendor : String) (ds_id : ℕ)
    (targets : List (ResolvedTarget W)) where
  -- One turn of the loop, and its end.
  write_kept-ok :
      (o : Observation) (os : List Observation) (res : IngestResult) (n : Time) (w w' : W)
      (d : Outcome)
      → write_observation p vendor ds_id o targets w ≡ (ok d, w')
      → write_kept p vendor ds_id targets (o ∷ os) res n w
        ≡ write_kept p vendor ds_id targets os (cover o d res) (newest_result o d n) w'
  unfolding write_kept
  write_kept-ok o os res n w w' d e = ground arith

  write_kept-err :
      (o : Observation) (os : List Observation) (res : IngestResult) (n : Time) (w w' : W)
      (x : Error)
      → write_observation p vendor ds_id o targets w ≡ (err x, w')
      → write_kept p vendor ds_id targets (o ∷ os) res n w ≡ ((res, n, some x), w')
  unfolding write_kept
  write_kept-err o os res n w w' x e = ground arith

  -- A loop that ends without an error covers all that was kept; it never moves the newest time back.
  abbrev pub LoopCovers :
      List Observation → IngestResult → (IngestResult × Time × Option Error) × W → Type 0
  LoopCovers os res r =
      SameBatch r.0.0 res
      × (r.0.2 ≡ none → r.0.0.max_phenomenon_time ≡ newest_of res.max_phenomenon_time os)

  loop-step :
      (o : Observation) (os : List Observation) (res : IngestResult) (n : Time) (w : W)
      (x : Result Outcome × W)
      → write_observation p vendor ds_id o targets w ≡ x
      → ((d : Outcome) (w' : W)
          → LoopCovers os
              (cover o d res)
              (write_kept p vendor ds_id targets os (cover o d res) (newest_result o d n) w'))
      → LoopCovers (o ∷ os) res (write_kept p vendor ds_id targets (o ∷ os) res n w)
  unfolding cover
  loop-step o os res n w (ok d, w') e ih =
      subst (LoopCovers (o ∷ os) res) (sym (write_kept-ok o os res n w w' d e)) (ih d w')
  loop-step o os res n w (err x, w') e ih =
      subst (LoopCovers (o ∷ os) res) (sym (write_kept-err o os res n w w' x e))
        ((refl, refl, refl), λ h. cc)

  pub loop_covers :
      (os : List Observation) (res : IngestResult) (n : Time) (w : W)
      → LoopCovers os res (write_kept p vendor ds_id targets os res n w)
  unfolding write_kept
  loop_covers [] res n w = ((refl, refl, refl), λ h. refl)
  loop_covers (o ∷ os) res n w =
      loop-step o os res n w _ refl
        (λ d w'. loop_covers os (cover o d res) (newest_result o d n) w')
