-- ===== src/Scheduler/Interleaving.antt =====
-- scheduler.go, runAdapterCycle: which polls it starts, under every order in which they run.
use clappform_sensor_things.Prelude.{
  All, All-append, Bool-cases, List, [], arith, eq_iff, inl, inr, str_eq, ℕ, ◌++◌, ◌∷◌, ◌≡◌,
}
use clappform_sensor_things.Canonical.{Datastream, Thing, fill_level}
use clappform_sensor_things.Scheduler.{Job, Scheduler}
use clappform_sensor_things.Scheduler.Cycle.{
  CycleState, Step, Steps, go, open_stream, stop, stream_upserted, next_thing, next_stream, poll,
}
use clappform_sensor_things.Failure.{Result, err, ok}
use clappform_sensor_things.Adapters.{PollAdapter}

module _ {W : Type 0} (s : Scheduler W) (a : PollAdapter W) where
  -- Only fill-level streams are polled.
  abbrev pub FillLevel : Job → Type 0
  FillLevel job = job.datastream.observed_property ≡ fill_level

  stream_upserted-FillLevel :
      (t : Thing) (thing_id : ℕ) (d : Datastream) (r : Result ℕ × W)
      → d.observed_property ≡ fill_level
      → All FillLevel (stream_upserted s a t thing_id d r).0
  unfolding stream_upserted
  stream_upserted-FillLevel t thing_id d (err e, v) f = tt
  stream_upserted-FillLevel t thing_id d (ok ds_id, v) f = (f, tt)

  open_stream-FillLevel :
      (t : Thing) (thing_id : ℕ) (d : Datastream) (w : W)
      → All FillLevel (open_stream s a t thing_id d w).0
  unfolding open_stream
  open_stream-FillLevel t thing_id d w = elim (Bool-cases (str_eq d.observed_property fill_level)) [
    | inl h ↦ rw h (
        stream_upserted-FillLevel t thing_id d _
          (ground (arith, h, eq_iff d.observed_property fill_level)))
    | inr h ↦ rw h tt
  ]

  All-drop_at :
      (job : Job) (before rest : List Job)
      → All FillLevel (before ++ (job ∷ rest))
      → All FillLevel (before ++ rest)
  All-drop_at job [] rest h = h.1
  All-drop_at job (b ∷ before) rest h = (h.0, All-drop_at job before rest h.1)

  Step-FillLevel :
      {x y : CycleState W} → Step s a x y → All FillLevel x.running → All FillLevel y.running
  Step-FillLevel (next_thing t ts running w) h = h
  Step-FillLevel (next_stream todo t thing_id d rest running w) h =
      All-append FillLevel running _ h (open_stream-FillLevel t thing_id d w)
  Step-FillLevel (poll todo streams before rest job w) h = All-drop_at job before rest h

  -- Whatever steps a cycle has made, and whichever of them failed, if the polls outstanding before were of
  -- fill-level streams, so are those after: a cycle, which begins with none, polls no other stream, whatever
  -- the adapter lists.
  pub Steps-FillLevel :
      {x y : CycleState W} → Steps s a x y → All FillLevel x.running → All FillLevel y.running
  Steps-FillLevel (stop x) h = h
  Steps-FillLevel (go step rest) h = Steps-FillLevel rest (Step-FillLevel step h)
