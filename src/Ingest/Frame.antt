-- ===== src/Ingest/Frame.antt =====
-- ingest.go: what the ingest core reaches, and so what it cannot change.
-- A relation R between a world and a later one that every call of one target keeps.
use clappform_sensor_things.Ingest.{Processor, ResolvedTarget}
use clappform_sensor_things.Canonical.{Datastream, Float64, Thing, Time}
use clappform_sensor_things.Prelude.{
  All, Bool, List, String, [], false, if◌then◌else◌, true, ℕ, ◌∷◌,
}
use clappform_sensor_things.Failure.{Action, Result, continue, err, ok}
use clappform_sensor_things.Prelude.Int.{eqz, pos, ℤ}
use clappform_sensor_things.Ingest.Chain.{
  record_first, record_sta_ids, resolve_chain, resolve_writers, with_target,
}
use clappform_sensor_things.Frost.Writer.{Writer, get_or_create, post_observation}
use clappform_sensor_things.Frost.Entities.{Entity, Payload}
use clappform_sensor_things.Frost.Client.{PostPath}
use clappform_sensor_things.Metrics.{Metric}

pub record TargetKeeps {W : Type 0} (R : W → W → Type 0) (wr : Writer W) : Type 0 where
  pub resolves :
      (entity : Entity) (name : String) (path : PostPath) (body : W → Payload) (w : W)
      → R w (get_or_create wr entity name path body w).1
  pub posts : (ds : ℤ) (t : Time) (body : Payload) (w : W) → R w (post_observation wr ds t body w).1

-- A relation that every call of the core's collaborators keeps.
pub record Frame {W : Type 0} (p : Processor W) (R : W → W → Type 0) : Type 0 where
  pub stays : (w : W) → R w w
  pub chain : {u v w : W} → R u v → R v w → R u w
  pub emits : (m : Metric) (w : W) → R w (p.platform.emit m w)
  pub reads_clock : (w : W) → R w (p.platform.now w).1
  pub targets : All (TargetKeeps R) p.writers
  pub sets_thing : (id : ℕ) (sta : ℤ) (w : W) → R w (p.store.set_sta_thing_id id sta w).1
  pub sets_datastream : (id : ℕ) (sta : ℤ) (w : W) → R w (p.store.set_sta_datastream_id id sta w).1
  pub exists : (ds : ℕ) (t : Time) (w : W) → R w (p.store.observation_exists ds t w).1
  pub records :
      (ds : ℕ) (t : Time) (x : Float64) (raw : String) (sta : ℤ) (w : W)
      → R w (p.store.record_observation_write ds t x raw sta w).1

-- What a result has, if the call succeeded.
abbrev pub OnOk : {A : Type 0} → (A → Type 0) → Result A → Type 0
OnOk Q (ok a) = Q a
OnOk Q (err e) = Unit

module _ {W : Type 0} (p : Processor W) (R : W → W → Type 0) (frame : Frame p R) where
  -- A call that began in w keeps R, and its result has Q.
  abbrev Ends : {A : Type 0} → (A → Type 0) → W → Result A × W → Type 0
  Ends Q w r = R w r.1 × OnOk Q r.0

  continue-Ends :
      {A B : Type 0} (P : A → Type 0) (Q : B → Type 0) (w : W) (r : Result A × W)
      (f : A → Action W B)
      → Ends P w r
      → ((a : A) (v : W) → P a → Ends Q v (f a v))
      → Ends Q w (continue r f)
  continue-Ends P Q w (ok a, v) f h k = let next = k a v h.1 in (frame.chain h.0 next.0, next.1)
  continue-Ends P Q w (err e, v) f h k = (h.0, tt)

  anything : {A : Type 0} (w : W) (r : Result A × W) → R w r.1 → Ends (λ (a : A). Unit) w r
  anything w (ok a, v) h = (h, tt)
  anything w (err e, v) h = (h, tt)

  -- A target with its ids, of a writer that keeps R.
  abbrev pub Good : ResolvedTarget W → Type 0
  Good rt = TargetKeeps R rt.writer

  creates :
      (wr : Writer W) (keeps : TargetKeeps R wr) (entity : Entity) (name : String) (path : PostPath)
      (body : W → Payload) (f : ℤ → Action W (ResolvedTarget W)) (w : W)
      → ((id : ℤ) (v : W) → Ends Good v (f id v))
      → Ends Good w (continue (get_or_create wr entity name path body w) f)
  creates wr keeps entity name path body f w k =
      continue-Ends _ Good w (get_or_create wr entity name path body w) f
        (anything w _ (keeps.resolves entity name path body w)) (λ id v h. k id v)

  resolve_chain-Ends :
      (wr : Writer W) (t : Thing) (d : Datastream) (w : W)
      → TargetKeeps R wr
      → Ends Good w (resolve_chain p wr t d w)
  unfolding resolve_chain
  resolve_chain-Ends wr t d w keeps =
      let rest = creates wr keeps _ _ _ _ _ (p.platform.now w).1 λ thing_id w₁.
        creates wr keeps _ _ _ _ _ w₁ λ location_id w₂.
          creates wr keeps _ _ _ _ _ w₂ λ sensor_id w₃. creates wr keeps _ _ _ _ _ w₃ λ op_id w₄.
            creates wr keeps _ _ _ _ _ w₄
              λ ds_id w₅. creates wr keeps _ _ _ _ _ w₅ λ foi_id w₆. (frame.stays w₆, keeps) in
      (frame.chain (frame.reads_clock w) rest.0, rest.1)

  with_target-Ends :
      (w : W) (r : Result (ResolvedTarget W) × W) → Ends Good w r → Ends Good w (with_target p r)
  unfolding with_target
  with_target-Ends w (ok a, v) h = h
  with_target-Ends w (err e, v) h = h

  pub resolve_writers-Ends :
      (t : Thing) (d : Datastream) (wrs : List (Writer W)) (w : W)
      → All (TargetKeeps R) wrs
      → Ends (All Good) w (resolve_writers p t d wrs w)
  unfolding resolve_writers
  resolve_writers-Ends t d [] w keeps = (frame.stays w, tt)
  resolve_writers-Ends t d (wr ∷ wrs) w keeps =
      continue-Ends Good (All Good) w (with_target p (resolve_chain p wr t d w)) _
        (with_target-Ends w (resolve_chain p wr t d w) (resolve_chain-Ends wr t d w keeps.0))
        λ rt v good.
          continue-Ends (All Good) (All Good) v (resolve_writers p t d wrs v) _
            (resolve_writers-Ends t d wrs v keeps.1) λ rest u goods. (frame.stays u, (good, goods))

  pub keeps_if : {w u v : W} (b : Bool) → R w u → R w v → R w (if b then u else v)
  keeps_if true h k = h
  keeps_if false h k = k

  pub record_first-Keeps :
      (thing_id ds_id : ℕ) (targets : List (ResolvedTarget W)) (w : W)
      → R w (record_first p thing_id ds_id targets w)
  unfolding record_first record_sta_ids
  record_first-Keeps thing_id ds_id [] w = frame.stays w
  record_first-Keeps thing_id ds_id (rt ∷ rts) w =
      frame.chain
        (keeps_if (eqz rt.thing_id (pos 0)) (frame.stays w)
          (frame.sets_thing thing_id rt.thing_id w))
        (keeps_if (eqz rt.ds_id (pos 0)) (frame.stays _) (frame.sets_datastream ds_id rt.ds_id _))
