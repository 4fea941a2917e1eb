-- ===== src/Witnesses/World.antt =====
-- A state store with one Datastream, a FROST-Server that has nothing and takes everything, and a
-- vendor with one reading.
use mathlib.Core.List.{[]}
use clappform_sensor_things.Canonical.{
  Datastream, Observation, Thing, above, fill_level, nan, percent,
}
use clappform_sensor_things.Frost.Client.{Reply, create, find, probe, response, Request}
use clappform_sensor_things.Oms.Names.{default_config}
use clappform_sensor_things.Failure.{ok}
use clappform_sensor_things.Scheduler.{Job, Scheduler}
use clappform_sensor_things.Prelude.{none, some, ◌∷◌}
use clappform_sensor_things.Adapters.{PollAdapter}
use clappform_sensor_things.Prelude.Int.{pos}
use clappform_sensor_things.Metrics.{Platform}
use clappform_sensor_things.Frost.Writer.{Writer}
use clappform_sensor_things.State.Postgres.Service.{postgres_store}
use clappform_sensor_things.Ingest.{Processor}
use clappform_sensor_things.State.Postgres.Tables.{Db}

abbrev pub container : Thing
container = record {
  vendor_id = "sulo";
  vendor_native_id = "C1";
  name = "";
  description = "";
  location = record { lon = above 0; lat = above 0 };
  properties = [];
}

abbrev pub level : Datastream
level = record {
  thing_vendor_native_id = "C1";
  observed_property = fill_level;
  unit = percent;
  sensor_metadata = [];
  expected_cadence_seconds = pos 300;
  name = "";
  description = "";
  observed_property_name = "";
  observed_property_definition = "";
  unit_name = "";
  unit_symbol = "";
  unit_definition = "";
  observation_type = "";
  sensor_name = "";
}

abbrev pub reading : Observation
reading = record {
  thing_vendor_native_id = "C1";
  observed_property = fill_level;
  phenomenon_time = 500000;
  result_time = 500000;
  result = above 0;
  result_raw = some "42";
  raw_observation_id = "r1";
}

-- A NaN, which no batch may keep.
abbrev pub broken_reading : Observation
broken_reading = record reading { result = nan; result_raw = none }

abbrev pub stored : Db
stored = record {
  things =
      record {
        id = 1;
        vendor_id = "sulo";
        vendor_native_id = "C1";
        sta_thing_id = none;
        name = "Sulo Container C1";
        first_seen_at = 1;
        last_seen_at = 1;
      }
      ∷ [];
  next_thing = 2;
  datastreams =
      record {
        id = 1;
        thing_id = 1;
        observed_property = fill_level;
        sta_datastream_id = none;
        poll_cursor = some 400000;
        last_polled_at = none;
        last_written_at = none;
        expected_cadence_seconds = pos 300;
      }
      ∷ [];
  next_datastream = 2;
  write_log = [];
  next_log = 1;
  watchdog = none;
  clock = 1000000;
  faults = [];
  committed = [];
}

abbrev pub quiet : Platform Db
quiet = record { emit = λ m db. db; now = λ db. (db.clock, db) }

abbrev pub taken : Request → Reply
taken (find e name) =
    response (record { status = 200; location = ""; value_ids = some []; body_id = none })
taken (probe ds t) =
    response (record { status = 200; location = ""; value_ids = some []; body_id = none })
taken (create path body) =
    response (record { status = 201; location = ""; value_ids = none; body_id = some (pos 7) })

abbrev pub target : Writer Db
target = record {
  label = "primary";
  http = record { send = λ q db. (taken q, db) };
  cache = record { get = λ e name db. none; put = λ e name id db. db };
  mqtt = none;
}

unfoldable pub core : Processor Db
unfolding default_config postgres_store
core = record {
  mapper = default_config;
  writers = target ∷ [];
  store = postgres_store;
  clock_skew_tolerance = 300000;
  platform = quiet;
  date = λ t. "2026-01-01";
  rfc3339 = λ t. "2026-01-01T00:00:00Z";
}

abbrev pub vendor_sulo : PollAdapter Db
vendor_sulo = record {
  vendor_id = "sulo";
  list_things = λ db. (ok (container ∷ []), db);
  list_datastreams = λ native db. (ok (level ∷ []), db);
  fetch_observations = λ native op since limit db. (ok (reading ∷ []), db);
}

-- The scheduler, over a store that knows every Thing and Datastream.
unfoldable pub poller : Scheduler Db
unfolding core postgres_store
poller = record {
  store = record postgres_store {
    upsert_thing = λ vendor native name db. (ok 1, db);
    upsert_datastream = λ thing_id op cadence db. (ok 1, db);
  };
  processor = core;
  platform = quiet;
  cursor_init_lookback = 100000;
}

abbrev pub level_job : Job
level_job = record { thing = container; datastream = level; thing_id = 1; ds_id = 1 }
