-- ===== src/Scheduler/Cycle.antt =====
-- scheduler.go, runAdapterCycle: discovery, and the goroutines that poll the Datastreams. A step
-- takes the next Thing, or the next Datastream, or runs one of the polls that were started; the
-- polls may run in any order, between any steps of the discovery. A poll is one step: polls of
-- different Datastreams share no row that either of them writes.
use clappform_sensor_things.Prelude.{List, [], if◌then◌else◌, str_eq, ℕ, ◌++◌, ◌∷◌}
use clappform_sensor_things.Canonical.{Datastream, Thing, fill_level}
use clappform_sensor_things.Failure.{Result, err, ok}
use clappform_sensor_things.Scheduler.{Job, Scheduler, classify_and_meter, run_datastream_cycle}
use clappform_sensor_things.Adapters.{PollAdapter}
use clappform_sensor_things.Oms.Names.{thing_name}

-- Where a cycle is: the Things still to do, the Datastreams of the Thing that it is at, the polls
-- that were started and did not run yet.
pub record CycleState (W : Type 0) : Type 0 where
  pub todo : List Thing
  pub streams : List (Thing × ℕ × Datastream)
  pub running : List Job
  pub world : W

streams_of : Thing → ℕ → List Datastream → List (Thing × ℕ × Datastream)
streams_of t thing_id [] = []
streams_of t thing_id (d ∷ ds) = (t, thing_id, d) ∷ streams_of t thing_id ds

module _ {W : Type 0} (s : Scheduler W) (a : PollAdapter W) where
  unfoldable pub streams_listed :
      Thing → ℕ → Result (List Datastream) × W → List (Thing × ℕ × Datastream) × W
  unfolding classify_and_meter streams_of
  streams_listed t thing_id (err e, w) = ([], classify_and_meter s a.vendor_id e w)
  streams_listed t thing_id (ok ds, w) = (streams_of t thing_id ds, w)

  unfoldable pub thing_upserted : Thing → Result ℕ × W → List (Thing × ℕ × Datastream) × W
  unfolding streams_listed
  thing_upserted t (err e, w) = ([], w)
  thing_upserted t (ok thing_id, w) =
      streams_listed t thing_id (a.list_datastreams t.vendor_native_id w)

  -- One turn of the outer loop, up to its inner loop.
  unfoldable pub open_thing : Thing → W → List (Thing × ℕ × Datastream) × W
  unfolding thing_upserted
  open_thing t w = thing_upserted t (
      s.store.upsert_thing t.vendor_id t.vendor_native_id
        (thing_name t.vendor_id t.vendor_native_id) w)

  unfoldable pub stream_upserted : Thing → ℕ → Datastream → Result ℕ × W → List Job × W
  stream_upserted t thing_id d (err e, w) = ([], w)
  stream_upserted t thing_id d (ok ds_id, w) =
      (record { thing = t; datastream = d; thing_id = thing_id; ds_id = ds_id } ∷ [], w)

  -- One turn of the inner loop: the poll that it starts, if it does.
  unfoldable pub open_stream : Thing → ℕ → Datastream → W → List Job × W
  unfolding stream_upserted
  open_stream t thing_id d w =
      if str_eq d.observed_property fill_level
      then stream_upserted t thing_id d
          (s.store.upsert_datastream thing_id d.observed_property d.expected_cadence_seconds w)
      else ([], w)

  -- The step relation of a cycle.
  pub data Step : CycleState W → CycleState W → Type 0 where
    next_thing :
        (t : Thing) (ts : List Thing) (running : List Job) (w : W)
        → Step
            (record { todo = t ∷ ts; streams = []; running = running; world = w })
            (record {
              todo = ts;
              streams = (open_thing t w).0;
              running = running;
              world = (open_thing t w).1;
            })
    next_stream :
        (todo : List Thing) (t : Thing) (thing_id : ℕ) (d : Datastream)
        (rest : List (Thing × ℕ × Datastream)) (running : List Job) (w : W)
        → Step
            (record {
              todo = todo;
              streams = (t, thing_id, d) ∷ rest;
              running = running;
              world = w;
            })
            (record {
              todo = todo;
              streams = rest;
              running = running ++ (open_stream t thing_id d w).0;
              world = (open_stream t thing_id d w).1;
            })
    poll :
        (todo : List Thing) (streams : List (Thing × ℕ × Datastream)) (before rest : List Job)
        (job : Job) (w : W)
        → Step
            (record { todo = todo; streams = streams; running = before ++ (job ∷ rest); world = w })
            (record {
              todo = todo;
              streams = streams;
              running = before ++ rest;
              world = run_datastream_cycle s a job w;
            })

  pub data Steps : CycleState W → CycleState W → Type 0 where
    stop : (x : CycleState W) → Steps x x
    go : {x y z : CycleState W} → Step x y → Steps y z → Steps x z

  abbrev pub begun : List Thing → W → CycleState W
  begun ts w = record { todo = ts; streams = []; running = []; world = w }

  -- The schedule that runs each poll as soon as it is started.
  unfoldable pub run_jobs : List Job → W → W
  run_jobs [] w = w
  run_jobs (job ∷ jobs) w = run_jobs jobs (run_datastream_cycle s a job w)

  unfoldable pub run_streams : List (Thing × ℕ × Datastream) → W → W
  unfolding run_jobs
  run_streams [] w = w
  run_streams ((t, thing_id, d) ∷ rest) w =
      let (jobs, w') = open_stream t thing_id d w in run_streams rest (run_jobs jobs w')

  unfoldable pub run_things : List Thing → W → W
  unfolding run_streams
  run_things [] w = w
  run_things (t ∷ ts) w =
      let (streams, w') = open_thing t w in run_things ts (run_streams streams w')

  things_listed : Result (List Thing) × W → W
  unfolding run_things
  things_listed (err e, w) = classify_and_meter s a.vendor_id e w
  things_listed (ok found, w) = run_things found w

  unfoldable pub run_adapter_cycle : W → W
  unfolding things_listed
  run_adapter_cycle w = things_listed (a.list_things w)

-- `tick`: every poll adapter of the registry, in its order.
unfoldable pub tick : {W : Type 0} → Scheduler W → List (PollAdapter W) → W → W
unfolding run_adapter_cycle
tick s [] w = w
tick s (a ∷ rest) w = tick s rest (run_adapter_cycle s a w)
