-- ===== src/Witnesses/Setup.antt =====
-- The theorems on the configuration, the service's start, the contract of the state store and the push
-- endpoint's groups, at concrete values.
use package.text.Mathlib.TextLemmas.{cons≢nil}
use clappform_sensor_things.Prelude.{
  List, String, [], if◌then◌else◌, keep_where, look, map, none, refl, some, str_eq, ◌∷◌, ◌≡◌, true,
  false, take, ◌&&◌, leb, ltb, ℕ, ◌<◌, arith, Bool-cases,
}
use clappform_sensor_things.Canonical.{Observation, Time, above, fill_level}
use clappform_sensor_things.Prelude.Int.{pos}
use clappform_sensor_things.Config.{Env, boolenv, getenv, int_setting, level_of}
use clappform_sensor_things.Config.Load.{load}
use clappform_sensor_things.Startup.{Outside, start}
use clappform_sensor_things.Startup.Assembled.{Runs, start-Runs}
use clappform_sensor_things.State.Contract.{Call}
use clappform_sensor_things.State.Contract
use clappform_sensor_things.State.Postgres.Integrity.{IsConsistent}
use clappform_sensor_things.State.Postgres.Integrity.Runs.{run-IsConsistent}
use clappform_sensor_things.State.Postgres.Progress.{purge_old_write_log}
use clappform_sensor_things.State.Postgres.Refines.{run}
use clappform_sensor_things.State.Postgres.Tables.{Db}
use clappform_sensor_things.Api.Push.{StreamRef, empty_response, group_observations}
use clappform_sensor_things.Api.Grouping.{
  group_observations-eq-filter, group_or_none, is_unknown, members, unknown_item,
}
use clappform_sensor_things.Adapters.Dummy.{Arithmetic, Dummy, fetch_ticks}
use clappform_sensor_things.Adapters.Dummy.Ticks.{fetch_ticks-has_time, is_boundary}
use clappform_sensor_things.Adapters.Sulo.Levels.{has_time}
use clappform_sensor_things.Frost.Mqtt.{delivered}
use clappform_sensor_things.Startup.Delivered.{answer, reader-ingests, received}
use clappform_sensor_things.Startup.{Service, running}
use clappform_sensor_things.Reader.Sink.{request_of}
use clappform_sensor_things.Api.Push.{handle_ingest, ingest_batch}
use clappform_sensor_things.State.Postgres.Service.{postgres_store}
use clappform_sensor_things.Adapters.Collaborall.{Envelope, to_batch}
use clappform_sensor_things.Prelude.{◌≢◌, subst, sym}
use clappform_sensor_things.Adapters.Registry.{new_registry}
use clappform_sensor_things.Witnesses.World.{core, container, level, reading, stored, vendor_sulo}

-- Only the DSN and the dummy adapter are set.
abbrev environment : Env
environment key =
    if str_eq key "STATE_STORE_DSN"
    then some "postgres://db"
    else if str_eq key "DUMMY_ADAPTER_ENABLED"
    then some "true"
    else none

loads : (load environment).1 ≡ []
unfolding load getenv boolenv int_setting level_of Bool-cases
loads = refl

abbrev arithmetic : Arithmetic
arithmetic = record {
  grid = λ col row. record { lon = above col; lat = above row };
  percentage = λ n. above n;
  padded = λ n. "0001";
  format_int = λ n. "1";
}

abbrev outside : Outside Db
outside = record {
  open_store = λ dsn. none;
  broker = record { is_connected = λ db. (true, db); publish = λ t q b db. (delivered, db) };
  marshal = λ body. some "{}";
  format_int = λ n. "1";
  unmarshal = λ body. none;
  arithmetic = arithmetic;
  clock = λ db. (db.clock, db);
  sulo_calls = λ a. vendor_sulo;
}

start-Runs_example : Runs outside (load environment).0 none (start outside environment)
start-Runs_example = start-Runs outside environment loads

-- The dummy adapter and the push endpoint, with the reader's secret; its only envelope is empty.
abbrev with_secret : Env
with_secret key = if str_eq key "COLLABORALL_INGEST_SECRET" then some "s3cret" else environment key

abbrev empty_envelope : Envelope
empty_envelope = record { things = []; observations = [] }

abbrev listening : Outside Db
listening = record outside { unmarshal = λ body. some empty_envelope }

secret_loads : (load with_secret).1 ≡ []
unfolding load getenv boolenv int_setting level_of Bool-cases
secret_loads = refl

secret_read : (load with_secret).0.collaborall_ingest_secret ≡ "s3cret"
unfolding load getenv boolenv int_setting level_of Bool-cases
secret_read = refl

secret_set : (load with_secret).0.collaborall_ingest_secret ≢ ""
secret_set = subst (λ s. s ≢ "") (sym secret_read) (λ e. cons≢nil e)

started_service : (s : Service Db) × (start listening with_secret ≡ running s)
unfolding start Bool-cases new_registry
started_service = (_, refl)

reader-ingests_example :
    handle_ingest postgres_store core
      (λ gs. gs)
      started_service.0.registry
      (received (request_of "http://push" (load with_secret).0.collaborall_ingest_secret "{}") 2)
      stored
    ≡ answer
        (ingest_batch postgres_store core (λ gs. gs) "collaborall" (to_batch empty_envelope) stored)
reader-ingests_example =
    reader-ingests listening postgres_store core (λ gs. gs) with_secret started_service.0
      "http://push" "{}" 2 empty_envelope stored started_service.1 secret_loads secret_set
      (omega arith) refl

-- Five minutes of cadence: between 400 s and 1000 s there are two boundaries.
abbrev synthetic : Dummy
synthetic = record { arithmetic = arithmetic; things = container ∷ []; cadence = 300 }

fetch_ticks-has_time_example :
    ((u : Time)
      → has_time u (fetch_ticks synthetic 1000 "C1" fill_level 400 0)
        ≡ (is_boundary 300 u && ltb 400 u && leb u 1000))
    × ((limit : ℕ)
        → 0 < limit
        → fetch_ticks synthetic 1000 "C1" fill_level 400 limit
          ≡ take limit (fetch_ticks synthetic 1000 "C1" fill_level 400 0))
fetch_ticks-has_time_example = fetch_ticks-has_time synthetic 1000 400 "C1" (omega arith)

-- A Thing, its Datastream, a write, the same write again, and the cursor.
abbrev calls : List Call
calls =
    Contract.upsert_thing "sulo" "C2" "Sulo Container C2"
    ∷ Contract.upsert_datastream 2 "FILL_LEVEL" (pos 300)
    ∷ Contract.record_observation_write 2 500000 (above 0) "r1" (pos 7)
    ∷ Contract.record_observation_write 2 500000 (above 0) "r1" (pos 7)
    ∷ Contract.advance_poll_cursor 2 500000
    ∷ Contract.get_poll_cursor 2
    ∷ []

-- The third round trip fails.
abbrev failing : Db
failing = record stored { faults = false ∷ false ∷ true ∷ [] }

-- The constraints of one Thing with one Datastream, and nothing in the write log.
failing-IsConsistent : IsConsistent failing
failing-IsConsistent = record {
  thing_ids = λ i. ground arith;
  thing_keys = λ v n. ground arith;
  stream_ids = λ i. ground arith;
  stream_keys = λ i op. ground arith;
  log_ids = λ i. ground arith;
  log_keys = λ i t. omega arith;
  stream_things = λ i op h. ground arith;
  log_streams = λ i t h. absurd cc;
  status = tt;
}

run-IsConsistent_example :
    IsConsistent (run calls failing).1
    × IsConsistent (purge_old_write_log 30 (run calls failing).1).1
run-IsConsistent_example = run-IsConsistent calls 30 failing failing-IsConsistent

abbrev streams : List (String × StreamRef)
streams = ("C1|FILL_LEVEL", record { thing = container; ds = level; thing_id = 1; ds_id = 1 }) ∷ []

-- Two observations of the known stream, and one of an unknown one between them.
abbrev batch : List Observation
batch = reading ∷ record reading { thing_vendor_native_id = "C9" } ∷ reading ∷ []

group_observations-eq-filter_example :
    ((key : String)
      → look key (group_observations streams batch [] empty_response).0
        ≡ group_or_none (members streams key batch))
    × ((group_observations streams batch [] empty_response).1 ≡ record empty_response {
      rejected = map unknown_item (keep_where (is_unknown streams) batch);
    })
group_observations-eq-filter_example = group_observations-eq-filter streams batch
