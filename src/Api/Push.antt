-- ===== src/Api/Push.antt =====
-- internal/api/push.go: POST /ingest/{vendorID}, from the request to the answer.
use clappform_sensor_things.Prelude.{
  Bool, List, Option, String, [], if◌then◌else◌, is_none, look, ltb, none, put, some, sprint,
  str_eq, ℕ, ◌++◌, ◌+◌, ◌∷◌, ◌||◌,
}
use clappform_sensor_things.Canonical.{Datastream, Observation, ObservedProperty, StringMap, Thing}
use clappform_sensor_things.Ingest.{IngestResult, Processor}
use clappform_sensor_things.Adapters.Registry.{Registry, push_adapter}
use clappform_sensor_things.State.{Store}
use clappform_sensor_things.Failure.{Action, Error, Result, continue, err, ok, text}
use clappform_sensor_things.Adapters.{DecodedBatch, DecodedThing, PushAdapter}
use clappform_sensor_things.Api.{Answer, http_failure, json_body}
use clappform_sensor_things.Ingest.Stream.{process_stream, reason_text}
use clappform_sensor_things.Validator.{Rejection}
use clappform_sensor_things.Oms.Names.{thing_name}

abbrev pub max_push_bytes : ℕ
max_push_bytes = 1048576

-- A request; `size` is the length of its body in bytes, `broken` a body that cannot be read to its end.
pub record Request : Type 0 where
  pub vendor_id : String
  pub headers : StringMap
  pub body : String
  pub size : ℕ
  pub broken : Bool

pub record RejectedItem : Type 0 where
  pub raw_observation_id : String
  pub reason : String

pub record PushResponse : Type 0 where
  pub accepted : ℕ
  pub skipped_idempotent : ℕ
  pub rejected : List RejectedItem

pub record StreamRef : Type 0 where
  pub thing : Thing
  pub ds : Datastream
  pub thing_id : ℕ
  pub ds_id : ℕ

abbrev pub empty_response : PushResponse
empty_response = record { accepted = 0; skipped_idempotent = 0; rejected = [] }

unfoldable pub stream_key : String → ObservedProperty → String
stream_key native op = sprint (native ∷ "|" ∷ op ∷ [])

abbrev pub Groups : Type 0
Groups = List (String × List Observation)

-- grouped[key] = append(grouped[key], o)
unfoldable pub add_to_group : String → Observation → Groups → Groups
add_to_group key o [] = (key, o ∷ []) ∷ []
add_to_group key o ((k, os) ∷ gs) =
    if str_eq k key then (k, os ++ (o ∷ [])) ∷ gs else (k, os) ∷ add_to_group key o gs

-- Step 2: the observations by stream, and those of no known stream rejected.
unfoldable pub group_observations :
    List (String × StreamRef) → List Observation → Groups → PushResponse → Groups × PushResponse
unfolding stream_key add_to_group look
group_observations streams [] groups resp = (groups, resp)
group_observations streams (o ∷ os) groups resp =
    if is_none (look (stream_key o.thing_vendor_native_id o.observed_property) streams)
    then group_observations streams os groups (record resp {
      rejected =
          resp.rejected
          ++ (record { raw_observation_id = o.raw_observation_id; reason = "unknown_datastream" }
              ∷ []);
    })
    else group_observations streams os
        (add_to_group (stream_key o.thing_vendor_native_id o.observed_property) o groups) resp

unfoldable pub rejected_items : List Rejection → List RejectedItem
unfolding reason_text
rejected_items [] = []
rejected_items (r ∷ rs) =
    record { raw_observation_id = r.observation.raw_observation_id; reason = reason_text r.reason }
    ∷ rejected_items rs

-- resp += res
unfoldable pub add_result : IngestResult → PushResponse → PushResponse
unfolding rejected_items
add_result res resp = record {
  accepted = resp.accepted + res.accepted;
  skipped_idempotent = resp.skipped_idempotent + res.skipped_idempotent;
  rejected = resp.rejected ++ rejected_items res.rejected;
}

-- `order` is the order in which Go visits a map.
module _ {W : Type 0} (store : Store W) (p : Processor W) (order : Groups → Groups) where
  -- Step 1. An error ends it with 503.
  streams_registered :
      Thing → ℕ → List Datastream → List (String × StreamRef) → Action W (List (String × StreamRef))
  unfolding stream_key put
  streams_registered t thing_id [] streams w = (ok streams, w)
  streams_registered t thing_id (d ∷ ds) streams w =
      continue (store.upsert_datastream thing_id d.observed_property d.expected_cadence_seconds w)
        λ ds_id. streams_registered t thing_id ds (
          put (stream_key t.vendor_native_id d.observed_property)
            (record { thing = t; ds = d; thing_id = thing_id; ds_id = ds_id }) streams)

  unfoldable pub register_streams :
      List DecodedThing → List (String × StreamRef) → Action W (List (String × StreamRef))
  unfolding streams_registered
  register_streams [] streams w = (ok streams, w)
  register_streams (dt ∷ dts) streams w =
      continue
        (store.upsert_thing dt.thing.vendor_id dt.thing.vendor_native_id
          (thing_name dt.thing.vendor_id dt.thing.vendor_native_id) w)
        λ thing_id v.
          continue (streams_registered dt.thing thing_id dt.datastreams streams v)
            λ more. register_streams dts more

  -- Step 3, for one group; a key of `grouped` is always a key of `streams`.
  unfoldable pub ingest_group :
      String → Option StreamRef → List Observation → W → (IngestResult × Option Error) × W
  unfolding process_stream
  ingest_group vendor none os w = (
    (
      record {
        received = 0;
        accepted = 0;
        written_per_target = [];
        skipped_idempotent = 0;
        rejected = [];
        max_phenomenon_time = 0;
      },
      some text,
    ),
    w,
  )
  ingest_group vendor (some ref) os w =
      process_stream p vendor ref.thing_id ref.ds_id ref.thing ref.ds 0 os w

  unfoldable pub ingest_groups :
      String → List (String × StreamRef) → Groups → PushResponse → W → (PushResponse × ℕ) × W
  unfolding ingest_group look add_result
  ingest_groups vendor streams [] resp w = ((resp, 202), w)
  ingest_groups vendor streams ((key, os) ∷ gs) resp w =
      let ((res, e), w') = ingest_group vendor (look key streams) os w in
      elim e [
        | some e' ↦ ((resp, 503), w')
        | none ↦ ingest_groups vendor streams gs (add_result res resp) w'
      ]

  unfoldable pub grouped_and_ingested :
      String → List Observation → Result (List (String × StreamRef)) × W → (PushResponse × ℕ) × W
  unfolding group_observations ingest_groups
  grouped_and_ingested vendor os (err e, w) = ((empty_response, 503), w)
  grouped_and_ingested vendor os (ok streams, w) =
      let (groups, resp) = group_observations streams os [] empty_response in
      ingest_groups vendor streams (order groups) resp w

  unfoldable pub ingest_batch : String → DecodedBatch → W → (PushResponse × ℕ) × W
  unfolding register_streams grouped_and_ingested
  ingest_batch vendor batch w =
      grouped_and_ingested vendor batch.observations (register_streams batch.things [] w)

  unfoldable pub decoded_and_ingested : String → Result DecodedBatch → W → Answer PushResponse × W
  unfolding ingest_batch
  decoded_and_ingested vendor (err e) w = (http_failure 400 "undecodable body", w)
  decoded_and_ingested vendor (ok batch) w =
      let ((resp, status), w') = ingest_batch vendor batch w in (json_body status resp, w')

  unfoldable pub handled_by : PushAdapter → Request → W → Answer PushResponse × W
  unfolding decoded_and_ingested
  handled_by adapter r w =
      if r.broken || ltb max_push_bytes r.size
      then (http_failure 413 "request body too large", w)
      else elim (adapter.authenticate r.headers r.body) [
        | some e ↦ (http_failure 401 "unauthorized", w)
        | none ↦ decoded_and_ingested r.vendor_id (adapter.decode_push r.body) w
      ]

  unfoldable pub handle_ingest : Registry W → Request → W → Answer PushResponse × W
  unfolding handled_by push_adapter
  handle_ingest registry r w = elim (push_adapter registry r.vendor_id) [
    | none ↦ (http_failure 404 "unknown push vendor", w)
    | some adapter ↦ handled_by adapter r w
  ]
