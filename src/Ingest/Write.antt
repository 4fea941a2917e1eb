-- ===== src/Ingest/Write.antt =====
-- ingest.go, writeObservation: one observation to every target, and one row of the write log.
use clappform_sensor_things.Prelude.{
  Bool, List, Option, String, [], false, if◌then◌else◌, none, some, str_eq, true, ℕ, ◌&&◌, ◌∷◌,
}
use clappform_sensor_things.Canonical.{Observation, after}
use clappform_sensor_things.Ingest.{Processor, ResolvedTarget}
use clappform_sensor_things.Failure.{
  Action, Error, Result, already_exists, err, http_error, ok, permanent, transient, wrapped,
}
use clappform_sensor_things.Metrics.{
  observations_dropped, observations_skipped, observations_written,
}
use clappform_sensor_things.Frost.Errors.{is_permanent}
use clappform_sensor_things.Oms.Bodies.{observation_payload}
use clappform_sensor_things.Prelude.Int.{eqz, pos, ℤ}
use clappform_sensor_things.Frost.Entities.{observation_body}
use clappform_sensor_things.Frost.Writer.{post_observation}

-- The variables of the loop: the labels that took a fresh write, the first new id, and whether a
-- target refused for good.
pub record Progress : Type 0 where
  pub wrote : List String
  pub sta_observation_id : ℤ
  pub refused : Bool

-- (wrote, skipped, dropped)
pub record Outcome : Type 0 where
  pub wrote : List String
  pub skipped : Bool
  pub dropped : Bool

-- wrote[label] = true
abbrev pub add_label : String → List String → List String
add_label l [] = l ∷ []
add_label l (k ∷ ks) = if str_eq k l then k ∷ ks else k ∷ add_label l ks

-- errors.Is(err, state.ErrAlreadyExists)
unfoldable pub is_already_exists : Error → Bool
is_already_exists already_exists = true
is_already_exists (wrapped e) = is_already_exists e
is_already_exists (transient e after) = is_already_exists e
is_already_exists (permanent e) = is_already_exists e
is_already_exists (http_error status e t) = is_already_exists e
is_already_exists _ = false

unfoldable pub is_empty : List String → Bool
is_empty [] = true
is_empty (l ∷ ls) = false

module _ {W : Type 0} (p : Processor W) (vendor : String) where
  -- What one target's answer does: (error to return, the variables after it).
  unfoldable pub after_post :
      ResolvedTarget W → Progress → Result (ℤ × Bool) × W → (Option Error × Progress) × W
  after_post rt g (err e, w) =
      if is_permanent e
      then (
        (none, record g { refused = true }),
        p.platform.emit (observations_dropped "frost_4xx" vendor) w,
      )
      else ((some (wrapped e), g), w)
  after_post rt g (ok (id, true), w) = (
    (
      none,
      record g {
        wrote = add_label rt.writer.label g.wrote;
        sta_observation_id = if eqz g.sta_observation_id (pos 0) then id else g.sta_observation_id;
      },
    ),
    p.platform.emit (observations_written vendor rt.writer.label) w,
  )
  after_post rt g (ok (id, false), w) =
      ((none, g), p.platform.emit (observations_skipped vendor rt.writer.label) w)

  unfoldable pub write_targets :
      Observation → List (ResolvedTarget W) → Progress → W → (Option Error × Progress) × W
  write_targets o [] g w = ((none, g), w)
  write_targets o (rt ∷ rts) g w =
      let ((failed, g'), w') = after_post rt g (
        post_observation rt.writer rt.ds_id o.phenomenon_time
          (observation_body (observation_payload o rt.foi_id)) w) in
      elim failed [ some e ↦ ((some e, g'), w') | none ↦ write_targets o rts g' w' ]

  unfoldable pub skip_targets : List (ResolvedTarget W) → W → W
  skip_targets [] w = w
  skip_targets (rt ∷ rts) w =
      skip_targets rts (p.platform.emit (observations_skipped vendor rt.writer.label) w)

  -- The answer of RecordObservationWrite: a lost race is a skip.
  unfoldable pub recorded : List String → Option Error × W → Result Outcome × W
  unfolding is_already_exists
  recorded wrote (none, w) = (ok (record { wrote = wrote; skipped = false; dropped = false }), w)
  recorded wrote (some e, w) =
      if is_already_exists e
      then (ok (record { wrote = wrote; skipped = true; dropped = false }), w)
      else (err e, w)

  -- Dropped, if nothing landed and a target refused; else the row of the write log.
  unfoldable pub conclude : ℕ → Observation → (Option Error × Progress) × W → Result Outcome × W
  unfolding recorded is_empty
  conclude ds_id o ((some e, g), w) = (err e, w)
  conclude ds_id o ((none, g), w) =
      if is_empty g.wrote && g.refused
      then (ok (record { wrote = g.wrote; skipped = false; dropped = true }), w)
      else recorded g.wrote (
          p.store.record_observation_write ds_id o.phenomenon_time o.result o.raw_observation_id
            g.sta_observation_id w)

  abbrev pub no_progress : Progress
  no_progress = record { wrote = []; sta_observation_id = pos 0; refused = false }

  unfoldable pub on_existence :
      ℕ → Observation → List (ResolvedTarget W) → Result Bool × W → Result Outcome × W
  on_existence ds_id o targets (err e, w) = (err e, w)
  on_existence ds_id o targets (ok true, w) =
      (ok (record { wrote = []; skipped = true; dropped = false }), skip_targets targets w)
  on_existence ds_id o targets (ok false, w) =
      conclude ds_id o (write_targets o targets no_progress w)

  unfoldable pub write_observation : ℕ → Observation → List (ResolvedTarget W) → Action W Outcome
  write_observation ds_id o targets w =
      on_existence ds_id o targets (p.store.observation_exists ds_id o.phenomenon_time w)
