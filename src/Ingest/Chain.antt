-- ===== src/Ingest/Chain.antt =====
-- ingest.go, resolveTargets, resolveChain and recordSTAIDs: the STA entities of a stream on every
-- target, and their ids in the state store.
use clappform_sensor_things.Frost.Entities.{
  datastream_body, datastreams, feature_body, features_of_interest, location_body, locations,
  observed_properties, observed_property_body, sensor_body, sensors, thing_body, things,
}
use clappform_sensor_things.Failure.{Action, Result, err, ok, pure, wrapped, ◌>>=◌, ◌>>◌}
use clappform_sensor_things.Oms.Bodies.{
  datastream_payload, foi_payload, location_payload, observed_property_payload, sensor_payload,
  thing_payload,
}
use clappform_sensor_things.Prelude.Int.{eqz, pos}
use clappform_sensor_things.Prelude.{List, [], if◌then◌else◌, ℕ, ◌∷◌}
use clappform_sensor_things.Oms.Names.{
  datastream_entity_name, foi_entity_name, location_entity_name, thing_entity_name,
}
use clappform_sensor_things.Frost.Writer.{Writer, get_or_create}
use clappform_sensor_things.Frost.Client.{collection, thing_locations}
use clappform_sensor_things.Ingest.{Processor, ResolvedTarget}
use clappform_sensor_things.Canonical.{Datastream, Thing}

module _ {W : Type 0} (p : Processor W) where
  -- Thing, Location, Sensor, ObservedProperty, Datastream, FeatureOfInterest, in this order.
  unfoldable pub resolve_chain : Writer W → Thing → Datastream → Action W (ResolvedTarget W)
  resolve_chain wr t d w =
      let (now, w0) = p.platform.now w in
      let when = p.date now in
      let m = p.mapper in
      (do
        thing_id ←
            get_or_create wr things (thing_entity_name m t) (collection things)
              (λ v. thing_body (thing_payload m t (p.rfc3339 (p.platform.now v).0)))
        get_or_create wr locations (location_entity_name m t when) (thing_locations thing_id)
            (λ v. location_body (location_payload m t when))
        sensor_id ←
            get_or_create wr sensors (sensor_payload m t d).name (collection sensors)
              (λ v. sensor_body (sensor_payload m t d))
        op_id ←
            get_or_create wr observed_properties (observed_property_payload m d).name
              (collection observed_properties)
              (λ v. observed_property_body (observed_property_payload m d))
        ds_id ←
            get_or_create wr datastreams (datastream_entity_name m t d) (collection datastreams)
              (λ v. datastream_body (datastream_payload m t d thing_id sensor_id op_id))
        foi_id ←
            get_or_create wr features_of_interest (foi_entity_name m t)
              (collection features_of_interest) (λ v. feature_body (foi_payload m t))
        pure (record { writer = wr; thing_id = thing_id; ds_id = ds_id; foi_id = foi_id }))
        w0

  -- fmt.Errorf("resolve entity chain on target %q: %w", ...)
  unfoldable pub with_target : {A : Type 0} → Result A × W → Result A × W
  with_target (ok a, w) = (ok a, w)
  with_target (err e, w) = (err (wrapped e), w)

  unfoldable pub resolve_writers :
      Thing → Datastream → List (Writer W) → Action W (List (ResolvedTarget W))
  unfolding resolve_chain with_target
  resolve_writers t d [] = pure []
  resolve_writers t d (wr ∷ wrs) = do
    rt ← λ w. with_target (resolve_chain wr t d w)
    rest ← resolve_writers t d wrs
    pure (rt ∷ rest)

  unfoldable pub resolve_targets : Thing → Datastream → Action W (List (ResolvedTarget W))
  unfolding resolve_writers
  resolve_targets t d = resolve_writers t d p.writers

  -- A failure is logged and swallowed.
  unfoldable pub record_sta_ids : ℕ → ℕ → ResolvedTarget W → W → W
  record_sta_ids thing_id ds_id rt w =
      let w' =
        if eqz rt.thing_id (pos 0)
        then w
        else (p.store.set_sta_thing_id thing_id rt.thing_id w).1 in
      if eqz rt.ds_id (pos 0) then w' else (p.store.set_sta_datastream_id ds_id rt.ds_id w').1

  -- `if len(targets) > 0 { p.recordSTAIDs(..., targets[0]) }`
  unfoldable pub record_first : ℕ → ℕ → List (ResolvedTarget W) → W → W
  unfolding record_sta_ids
  record_first thing_id ds_id [] w = w
  record_first thing_id ds_id (rt ∷ rts) w = record_sta_ids thing_id ds_id rt w
