-- ===== src/Lib.antt =====
-- The translation layer of Clappform SensorThings, internal/ and cmd/: readings of waste containers
-- are taken from vendors, by poll or by push, validated, and written to OGC SensorThings (FROST)
-- servers, with their progress in a PostgreSQL state store and a watchdog over their freshness.
--
-- The parts and their files:
--   Canonical    internal/canonical/types.go: Thing, Datastream, Observation. A time.Time is the
--                number of nanoseconds since Go's zero time, a float64 an exact multiple of 2^-1074.
--   Failure      the errors of adapters, frost and state as one data type; Action W A is a call
--                that acts on a world W and returns a value or an error.
--   Metrics      internal/metrics/metrics.go: the metrics as values, with the clock the record Platform.
--   Validator    internal/validator/validator.go: validate, filter_batch (Filter).
--   State        internal/state/store.go: the interface Store. State.Postgres is pgstore.go: Tables has
--                the tables and one round trip, with a list of the round trips that will fail; Entities,
--                Progress and Alerts have the methods, Service puts them together as a Store. Contract
--                is what callers rely on, as a machine that knows only of cursors and written keys.
--                State.Postgres.Integrity has the keys and references of internal/state/migrations.sql.
--   Frost        internal/frost: Client (FindByName, Post, ObservationExists over the record Http),
--                IotId (parseIotIDFromLocation), Writer (GetOrCreate, PostObservation, the cache), Errors,
--                Collections (reader.go: GetAll), Mqtt (mqtt.go: PublishObservation).
--   Oms          internal/oms/mapper.go: Names and Bodies of the entities.
--   Ingest       internal/ingest/ingest.go: Chain (resolveChain, recordSTAIDs), Write
--                (writeObservation), Stream (ProcessStream).
--   Adapters     internal/adapters/adapter.go: the contracts of vendors; Registry; Collaborall is
--                internal/adapters/collaborall, push.go and wire.go; Collaborall.Source is its source/
--                mapping.go, and Source.Fetch source.go (Discover, FetchObservations). Sulo is
--                internal/adapters/sulo, with the filter of toObservations, New, Client (session,
--                get), Pages (paged), Fetch, Mapping (slotView) and Discovery (ListThings). Dummy is
--                internal/adapters/dummy.
--   Scheduler    internal/scheduler/scheduler.go: runDatastreamCycle; Cycle has runAdapterCycle, where
--                discovery and the polls that it starts are a step relation, in any order.
--   Watchdog     internal/watchdog/watchdog.go: step (the alert state machine), tick, fire.
--   Reader       cmd/collaborall-reader: runOnce, chunkEnvelopes and the cursors; Setup has loadConfig
--                and the run, Sink the post, Files the cursor file.
--   Api          internal/api/server.go; Api.Push is push.go (handleIngest, ingestBatch).
--   Config       internal/config/config.go: the settings; Config.Load has Load.
--   Startup      cmd/translation-layer/main.go: run, up to the loops (start).
-- The other modules of each part have its theorems, and Witnesses has runs of them at concrete values.
--
-- How they interact: Scheduler and Api.Push call Ingest.Stream.process_stream for one Datastream at a
-- time; that calls Validator, Frost.Writer (one writer for each target server), Oms and the Store. The
-- scheduler alone moves the cursors of the Store; Reader posts to the endpoint of Api.Push and keeps
-- cursors of its own in a file. Watchdog reads the Store and writes its own row.
--
-- What lies outside is a parameter: Store, Http, EntityCache, Platform and the adapters are records
-- of calls over a world W, and what a theorem needs of them is a record of named laws (LogLaws,
-- Frame, CursorLaws, FrostLaws, CacheLaws). Loops run over lists and need no fuel,
-- but for three: Frost.Collections.follow gets one unit for each page after the first,
-- Reader.chunks one for each observation, since no envelope is empty, and Adapters.Dummy.ticks one
-- more than the clock, since each tick is a later instant. The signals that a run of the reader
-- receives are a list. The context of a call, time-outs, log lines and the texts of errors are left
-- out. PostgreSQL's times are whole microseconds (Canonical.micros, as the driver cuts them off). A
-- statement that fails did not take effect, but a COMMIT may have (Db.committed says which): the lost
-- answer of another statement is not modelled. A poll of one Datastream is one step of a cycle: polls of different Datastreams write to no
-- row in common.
--
-- Go's own packages are modelled where a theorem reads what they do (strings, strconv, os.Rename:
-- Prelude.Strings, Prelude.Int, Reader.Files); its JSON, its time formats, float arithmetic and
-- url.Values.Encode are parameters, and so are the MQTT client and PostgreSQL's failures.
--
-- Not modelled: the SULO probe command, which prints what the API answers; the goroutines, tickers and
-- shutdown of the service, and net/http's listeners; logging; the connection options of MQTT.
pub mod Prelude
pub mod Canonical
pub mod Failure
pub mod Validator
pub mod State
pub mod Metrics
pub mod Watchdog
pub mod Frost
pub mod Oms
pub mod Ingest
pub mod Adapters
pub mod Scheduler
pub mod Api
pub mod Witnesses
pub mod Reader
pub mod Config
pub mod Startup
