-- ===== src/Frost/Writer.antt =====
-- internal/frost/writer.go: the upsert of an entity by its name, and the write of an observation.
-- `body` builds the body when an entity is created. Calls for one key are serialised by the singleflight group; the model is one such call.
use clappform_sensor_things.Failure.{Action, Effect, Error, Result, err, ok, text}
use clappform_sensor_things.Prelude.{
  Bool, List, Option, String, [], false, if◌then◌else◌, look, none, some, sprint, true, ◌∷◌, put,
}
use clappform_sensor_things.Prelude.Int.{eqz, ltz, pos, ℤ}
use clappform_sensor_things.Frost.Client.{
  Http, PostPath, datastream_observations, find_by_name, observation_exists, post,
}
use clappform_sensor_things.Frost.Errors.{as_conflict, as_duplicate}
use clappform_sensor_things.Frost.Entities.{Entity, Payload, entity_name}
use clappform_sensor_things.Canonical.{Time}

pub record EntityCache (W : Type 0) : Type 0 where
  pub get : Entity → String → W → Option ℤ
  pub put : Entity → String → ℤ → W → W

-- An MQTT publisher (mqtt.go), by the one method that the writer calls.
pub record ObservationPublisher (W : Type 0) : Type 0 where
  pub publish_observation : ℤ → Payload → Effect W

pub record Writer (W : Type 0) : Type 0 where
  pub label : String
  pub http : Http W
  pub cache : EntityCache W
  pub mqtt : Option (ObservationPublisher W)

-- NewMemEntityCache and its methods, over one map.
pub record MemEntityCache : Type 0 where
  pub ids : List (String × ℤ)

unfoldable pub new_mem_entity_cache : MemEntityCache
new_mem_entity_cache = record { ids = [] }

unfoldable pub cache_key : Entity → String → String
cache_key e name = sprint (entity_name e ∷ "|" ∷ name ∷ [])

unfoldable pub mem_get : Entity → String → MemEntityCache → Option ℤ
unfolding cache_key look
mem_get e name c = look (cache_key e name) c.ids

unfoldable pub mem_put : Entity → String → ℤ → MemEntityCache → MemEntityCache
unfolding cache_key put
mem_put e name id c = record { ids = put (cache_key e name) id c.ids }

module _ {W : Type 0} (wr : Writer W) where
  -- w.Cache.Put(entity, name, id); return id, nil
  remember : Entity → String → ℤ → Action W ℤ
  remember entity name id w = (ok id, wr.cache.put entity name id w)

  -- After a 409: one more lookup, where any error counts, a duplicate too.
  unfoldable pub refetched : Entity → String → (ℤ × Option Error) × W → Result ℤ × W
  unfolding remember
  refetched entity name ((id, some e), w) = (err e, w)
  refetched entity name ((id, none), w) =
      if eqz id (pos 0) then (err text, w) else remember entity name id w

  unfoldable pub created : Entity → String → Result ℤ × W → Result ℤ × W
  unfolding refetched remember
  created entity name (ok id, w) = remember entity name id w
  created entity name (err e, w) =
      if as_conflict e
      then refetched entity name (find_by_name wr.http entity name w)
      else (err e, w)

  unfoldable pub looked_up :
      Entity → String → PostPath → (W → Payload) → (ℤ × Option Error) × W → Result ℤ × W
  unfolding created remember
  looked_up entity name path body ((id, some e), w) =
      if as_duplicate e then remember entity name id w else (err e, w)
  looked_up entity name path body ((id, none), w) =
      if ltz (pos 0) id
      then remember entity name id w
      else created entity name (post wr.http path (body w) w)

  unfoldable pub resolve_uncached : Entity → String → PostPath → (W → Payload) → Action W ℤ
  unfolding looked_up
  resolve_uncached entity name path body w =
      looked_up entity name path body (find_by_name wr.http entity name w)

  -- the function that the flight runs: the cache once more, then the server
  in_flight : Entity → String → PostPath → (W → Payload) → Action W ℤ
  unfolding resolve_uncached
  in_flight entity name path body w = elim (wr.cache.get entity name w) [
    | some id ↦ (ok id, w)
    | none ↦ resolve_uncached entity name path body w
  ]

  unfoldable pub get_or_create : Entity → String → PostPath → (W → Payload) → Action W ℤ
  unfolding in_flight
  get_or_create entity name path body w = elim (wr.cache.get entity name w) [
    | some id ↦ (ok id, w)
    | none ↦ in_flight entity name path body w
  ]

  -- (id, created), or the error
  published : Option Error × W → Result (ℤ × Bool) × W
  published (none, w) = (ok (pos 0, true), w)
  published (some e, w) = (err e, w)

  observation_posted : Result ℤ × W → Result (ℤ × Bool) × W
  observation_posted (ok id, w) = (ok (id, true), w)
  observation_posted (err e, w) = if as_conflict e then (ok (pos 0, false), w) else (err e, w)

  write_absent : ℤ → Payload → Option (ObservationPublisher W) → Action W (ℤ × Bool)
  unfolding published observation_posted
  write_absent ds body (some publisher) w = published (publisher.publish_observation ds body w)
  write_absent ds body none w =
      observation_posted (post wr.http (datastream_observations ds) body w)

  probed : ℤ → Payload → Result Bool × W → Result (ℤ × Bool) × W
  unfolding write_absent
  probed ds body (err e, w) = (err e, w)
  probed ds body (ok true, w) = (ok (pos 0, false), w)
  probed ds body (ok false, w) = write_absent ds body wr.mqtt w

  unfoldable pub post_observation : ℤ → Time → Payload → Action W (ℤ × Bool)
  unfolding probed
  post_observation ds t body w = probed ds body (observation_exists wr.http ds t w)
