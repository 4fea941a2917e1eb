-- ===== src/Witnesses/Service.antt =====
-- The theorems on the ingest core, the scheduler and the push endpoint, at the world's values.
use mathlib.Core.List.Permᴰ
use clappform_sensor_things.State.Postgres.Progress.{observation_exists, record_observation_write}
use clappform_sensor_things.Api.Push.{
  Request, Groups, handle_ingest, ingest_batch, add_result, add_to_group, group_observations,
  grouped_and_ingested, ingest_group, ingest_groups, register_streams, rejected_items, stream_key,
}
use clappform_sensor_things.Validator.{
  filter_batch, default_config, filter_from, is_definitively_rejected, validate,
}
use mathlib.Core.List.{[]}
use clappform_sensor_things.Prelude.{
  false, length, refl, ◌+◌, ◌∷◌, ◌≡◌, look, none, put, Bool-cases, upper, List, ℕ, All,
}
use clappform_sensor_things.Scheduler.{run_datastream_cycle}
use clappform_sensor_things.Witnesses.World.{
  broken_reading, container, core, level, level_job, poller, reading, stored, vendor_sulo,
}
use clappform_sensor_things.Witnesses.Laws.{cursor_laws, log_laws, resolved, resolved-PostKeeps}
use clappform_sensor_things.Adapters.{DecodedBatch}
use clappform_sensor_things.Scheduler.Cycle.{
  CycleState, Steps, begun, go, next_stream, next_thing, open_thing, stop, streams_listed,
  thing_upserted,
}
use clappform_sensor_things.Ingest.Write.{
  write_observation, after_post, conclude, is_empty, on_existence, recorded, write_targets,
}
use clappform_sensor_things.Ingest.Covered.{
  config_at, process_stream-newest_of, process_stream_counts,
}
use clappform_sensor_things.State.Postgres.Log.{logged}
use clappform_sensor_things.State.Postgres.Service.{postgres_store}
use clappform_sensor_things.State.Postgres.Steady.{cursor_at}
use clappform_sensor_things.Adapters.Registry.{new_registry}
use clappform_sensor_things.Scheduler.Advance.{Fate, run_datastream_cycle-Fate}
use clappform_sensor_things.Ingest.Once.{Logs, write_observation-Logs}
use clappform_sensor_things.Scheduler.Interleaving.{FillLevel, Steps-FillLevel}
use clappform_sensor_things.Ingest.Stream.{
  process_stream, cover, cover_rejections, finish, meter_rejections, newest_result, validated,
  with_targets, write_batch, write_kept,
}
use clappform_sensor_things.Api.Accounting.{Handles, handle_ingest-Handles, ingest_batch_counts}
use clappform_sensor_things.Frost.Client.{
  decoded, escape_odata_string, find_by_name, found_ids, get_ids, get_status, name_filter, post,
  post_status,
}
use clappform_sensor_things.State.Postgres.Entities.{
  affected, set_sta_datastream_id, set_sta_thing_id, upsert_datastream, upsert_thing,
}
use clappform_sensor_things.Oms.Names.{
  datastream_entity_name, foi_entity_name, location_entity_name, thing_entity_name, datastream_name,
  foi_entity_name, foi_name, human_property, location_name, observed_property_entity_name,
  or_default, sensor_entity_name, sensor_model_firmware, sensor_name, thing_name, title_case,
}
use clappform_sensor_things.Frost.Writer.{
  created, get_or_create, looked_up, post_observation, resolve_uncached,
}
use clappform_sensor_things.Ingest.Chain.{
  record_first, record_sta_ids, resolve_chain, resolve_targets, resolve_writers, with_target,
}
use clappform_sensor_things.Frost.IotId.{parse_iot_id}
use clappform_sensor_things.Oms.Bodies.{observed_property_payload, sensor_payload}
use clappform_sensor_things.State.Postgres.Tables.{Db}
use clappform_sensor_things.Canonical.{Observation}
use clappform_sensor_things.Ingest.{ResolvedTarget}
use clappform_sensor_things.Ingest.Replay.{replayed, write_observation_replay, writes}

run_datastream_cycle-Fate_example :
    Fate poller vendor_sulo cursor_at cursor_laws level_job stored 1
      (cursor_at (run_datastream_cycle poller vendor_sulo level_job stored) 1)
run_datastream_cycle-Fate_example =
    run_datastream_cycle-Fate poller vendor_sulo cursor_at cursor_laws level_job stored 1

ingest_succeeds :
    (process_stream core "sulo" 1 1 container level 400000
      (reading ∷ broken_reading ∷ [])
      stored).0.1
    ≡ none
unfolding process_stream filter_batch validated meter_rejections write_batch with_targets finish
    write_kept write_observation on_existence conclude recorded write_targets after_post
    resolve_targets resolve_writers resolve_chain with_target record_first record_sta_ids core
    postgres_store get_or_create resolve_uncached looked_up created find_by_name found_ids get_ids
    get_status decoded post post_status parse_iot_id post_observation
    clappform_sensor_things.Frost.Client.observation_exists observation_exists
    record_observation_write set_sta_thing_id set_sta_datastream_id affected validate filter_from
    is_empty cover newest_result cover_rejections is_definitively_rejected default_config
    thing_entity_name location_entity_name sensor_payload observed_property_payload
    datastream_entity_name foi_entity_name or_default thing_name location_name sensor_entity_name
    sensor_model_firmware sensor_name observed_property_entity_name human_property datastream_name
    foi_name title_case upper Bool-cases escape_odata_string name_filter
ingest_succeeds = refl

process_stream-newest_of_example :
    (process_stream core "sulo" 1 1 container level 400000
      (reading ∷ broken_reading ∷ [])
      stored).0.0.max_phenomenon_time
    ≡ 500000
process_stream-newest_of_example =
    process_stream-newest_of core "sulo" 1 1 container level 400000 (reading ∷ broken_reading ∷ [])
      stored ingest_succeeds

write_observation-Logs_example :
    Logs core "sulo" logged log_laws 1 500000 stored
      (write_observation core "sulo" 1 reading (resolved ∷ []) stored)
write_observation-Logs_example =
    write_observation-Logs core "sulo" logged log_laws 1 reading (resolved ∷ []) stored
      (resolved-PostKeeps, tt)

abbrev in_between : List (ℕ × Observation × List (ResolvedTarget Db))
in_between = (1, broken_reading, resolved ∷ []) ∷ []

write_observation_replay_example :
    let v =
      writes core "sulo" logged log_laws in_between
        (write_observation core "sulo" 1 reading (resolved ∷ []) stored).1 in
    write_observation core "sulo" 1 reading (resolved ∷ []) v
    ≡ replayed core "sulo" logged log_laws
        (resolved ∷ [])
        (core.store.observation_exists 1 500000 v)
unfolding write_observation on_existence conclude recorded write_targets after_post core
    observation_exists post_observation clappform_sensor_things.Frost.Client.observation_exists post
    record_observation_write
write_observation_replay_example =
    write_observation_replay core "sulo" logged log_laws 1 reading reading (resolved ∷ [])
      (resolved ∷ []) in_between stored (resolved-PostKeeps, tt) ((resolved-PostKeeps, tt), tt) refl
      refl

process_stream_counts_example :
    let res =
      (process_stream core "sulo" 1 1 container level 400000
        (reading ∷ broken_reading ∷ [])
        stored).0.0 in
    (res.received ≡ 2)
    × (res.accepted + length res.rejected ≡ res.received)
    × (res.rejected
        ≡ (filter_batch (config_at core "sulo" stored) 400000 (reading ∷ broken_reading ∷ [])).1)
process_stream_counts_example =
    process_stream_counts core "sulo" 1 1 container level 400000 (reading ∷ broken_reading ∷ [])
      stored

-- The Thing is opened, and its one stream is being polled.
opened_steps :
    (y : CycleState Db) × Steps poller vendor_sulo
      (begun poller vendor_sulo (container ∷ []) stored)
      y
unfolding open_thing thing_upserted streams_listed poller
opened_steps = (
  _,
  go (next_thing container [] [] stored)
      (go (next_stream [] container 1 level [] [] stored) (stop _)),
)

Steps-FillLevel_example : All (FillLevel poller vendor_sulo) opened_steps.0.running
Steps-FillLevel_example = Steps-FillLevel poller vendor_sulo opened_steps.1 tt

abbrev batch : DecodedBatch
batch = record {
  things = record { thing = container; datastreams = level ∷ [] } ∷ [];
  observations = reading ∷ broken_reading ∷ [];
}

abbrev unhurried : Groups → Groups
unhurried gs = gs

batch_accepted : (ingest_batch postgres_store core unhurried "sulo" batch stored).0.1 ≡ 202
unfolding ingest_batch register_streams upsert_thing upsert_datastream grouped_and_ingested
    group_observations ingest_groups ingest_group stream_key add_to_group look put add_result
    rejected_items process_stream filter_batch validated meter_rejections write_batch with_targets
    finish write_kept write_observation on_existence conclude recorded write_targets after_post
    resolve_targets resolve_writers resolve_chain with_target record_first record_sta_ids core
    postgres_store get_or_create resolve_uncached looked_up created find_by_name found_ids get_ids
    get_status decoded post post_status parse_iot_id post_observation
    clappform_sensor_things.Frost.Client.observation_exists observation_exists
    record_observation_write set_sta_thing_id set_sta_datastream_id affected validate filter_from
    is_empty cover newest_result cover_rejections is_definitively_rejected default_config
    thing_entity_name location_entity_name sensor_payload observed_property_payload
    datastream_entity_name foi_entity_name or_default thing_name location_name sensor_entity_name
    sensor_model_firmware sensor_name observed_property_entity_name human_property datastream_name
    foi_name title_case upper Bool-cases escape_odata_string name_filter
batch_accepted = refl

ingest_batch_counts_example :
    let r = (ingest_batch postgres_store core unhurried "sulo" batch stored).0 in
    r.0.accepted + length r.0.rejected ≡ 2
ingest_batch_counts_example =
    ingest_batch_counts postgres_store core unhurried "sulo" batch stored (λ gs. Permᴰ.refl gs)
      batch_accepted

-- The body is one byte too large.
abbrev overlong : Request
overlong = record {
  vendor_id = "collaborall";
  headers = [];
  body = "";
  size = 10485761;
  broken = false;
}

handle_ingest-Handles_example :
    Handles postgres_store core unhurried new_registry overlong stored
      (handle_ingest postgres_store core unhurried new_registry overlong stored)
handle_ingest-Handles_example =
    handle_ingest-Handles postgres_store core unhurried new_registry overlong stored
