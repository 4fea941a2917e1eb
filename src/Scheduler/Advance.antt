-- ===== src/Scheduler/Advance.antt =====
-- scheduler.go, runDatastreamCycle: the one way in which a cycle moves a cursor.
use clappform_sensor_things.Canonical.{Observation, Time, after, micros}
use clappform_sensor_things.Adapters.{PollAdapter}
use clappform_sensor_things.Prelude.{
  Bool, List, Option, inl, length, none, raise, refl, some, subst, sym, true, ℕ, ◌&&◌, ◌==◌, ◌∙◌,
  ◌≡◌, ◌⊎◌, Bool-cases, ap, arith, inr, is_none,
}
use clappform_sensor_things.Failure.{Error, Result, err, ok}
use clappform_sensor_things.Scheduler.Cursor.{
  CursorLaws, raised, advance_after-err, advance_after-ok, classify_and_meter-Same,
  process_stream-Same, seed_cursor-Same,
}
use clappform_sensor_things.Scheduler.{
  Job, Scheduler, advance_after, ingest_polled, poll_from, run_datastream_cycle, seed_cursor,
}
use clappform_sensor_things.Ingest.Newest.{newest_of}
use clappform_sensor_things.Ingest.{IngestResult}
use clappform_sensor_things.Ingest.Stream.{process_stream}
use clappform_sensor_things.Metrics.{observations_polled}
use mathlib.Core.Option
use clappform_sensor_things.Ingest.Covered.{process_stream-newest_of}

module _ {W : Type 0} (s : Scheduler W) (a : PollAdapter W) (cursor : W → ℕ → Option Time)
    (laws : CursorLaws s a cursor) where
  -- A fetch from `since` on, in the world `start`, and the ingest of what it returned.
  abbrev pub fetched : Job → Time → W → Result (List Observation) × W
  fetched job since start =
      a.fetch_observations job.thing.vendor_native_id job.datastream.observed_property since 1000
        start

  abbrev pub ingested : Job → Time → List Observation → W → (IngestResult × Option Error) × W
  ingested job since obs w =
      process_stream s.processor a.vendor_id job.thing_id job.ds_id job.thing job.datastream since
        obs (s.platform.emit (observations_polled a.vendor_id (length obs)) w)

  -- Where the fetch of a cycle begins that read the cursor `stored` and is in the world v, and the fetch.
  abbrev pub begun_at : Time → W → Time
  begun_at stored v = (seed_cursor s stored v).0

  abbrev pub polled : Job → Time → W → Result (List Observation) × W
  polled job stored v = fetched job (begun_at stored v) (seed_cursor s stored v).1

  -- How a cycle of a job that begins in the world w comes to move its cursor to `new`: it read the cursor
  -- `stored`; the fetch from there on, or from the lookback if it was zero, succeeded with `obs`; so did the
  -- ingest of all of these, in the worlds that these calls leave; and the cursor is raised to the newest of
  -- `obs` and of where the fetch began, in whole microseconds.
  pub record Advanced (job : Job) (w : W) (new : Option Time) : Type 0 where
    pub stored : Time
    pub obs : List Observation
    pub read_ok : (s.store.get_poll_cursor job.ds_id w).0 ≡ ok stored
    pub fetch_ok : (polled job stored (s.store.get_poll_cursor job.ds_id w).1).0 ≡ ok obs
    pub ingest_ok :
        (ingested job
          (begun_at stored (s.store.get_poll_cursor job.ds_id w).1)
          obs
          (polled job stored (s.store.get_poll_cursor job.ds_id w).1).1).0.1
        ≡ none
    pub later :
        let since = begun_at stored (s.store.get_poll_cursor job.ds_id w).1 in
        after (newest_of since obs) since ≡ true
    pub moved :
        new
        ≡ Option.map
            (λ (c : Time).
              raise c
                (micros (newest_of (begun_at stored (s.store.get_poll_cursor job.ds_id w).1) obs)))
            (cursor w job.ds_id)

  -- A cursor after some part of a cycle that began in w.
  abbrev pub Fate : Job → W → ℕ → Option Time → Type 0
  Fate job w j new = (new ≡ cursor w j) ⊎ ((j ≡ job.ds_id) × Advanced job w new)

  raised-Fate :
      (job : Job) (w : W) (j : ℕ) (stored : Time) (obs : List Observation) (b : Bool)
      → let v = (s.store.get_poll_cursor job.ds_id w).1 in
        (s.store.get_poll_cursor job.ds_id w).0 ≡ ok stored
        → (polled job stored v).0 ≡ ok obs
        → (ingested job (begun_at stored v) obs (polled job stored v).1).0.1 ≡ none
        → Fate job w j (
            raised s a cursor laws
              (b && j == job.ds_id)
              (begun_at stored v)
              (newest_of (begun_at stored v) obs)
              (cursor w j))
  raised-Fate job w j stored obs b read_ok fetch_ok ingest_ok =
      let v = (s.store.get_poll_cursor job.ds_id w).1 in
      let since = begun_at stored v in
      elim (Bool-cases ((b && j == job.ds_id) && after (newest_of since obs) since)) [
        | inl k ↦
            let own : j ≡ job.ds_id = ground (arith, k) in
            inr (
              own,
              record {
                stored = stored;
                obs = obs;
                read_ok = read_ok;
                fetch_ok = fetch_ok;
                ingest_ok = ingest_ok;
                later = ground (arith, k);
                moved =
                    (rw k refl)
                    ∙ ap
                        (λ (i : ℕ).
                          Option.map (λ (c : Time). raise c (micros (newest_of since obs)))
                            (cursor w i))
                        own;
              },
            )
        | inr k ↦ inl (rw k refl)
      ]

  advance_after-Fate :
      (job : Job) (w : W) (j : ℕ) (stored : Time) (obs : List Observation)
      (r : (IngestResult × Option Error) × W)
      → let v = (s.store.get_poll_cursor job.ds_id w).1 in
        (s.store.get_poll_cursor job.ds_id w).0 ≡ ok stored
        → (polled job stored v).0 ≡ ok obs
        → ingested job (begun_at stored v) obs (polled job stored v).1 ≡ r
        → cursor r.1 j ≡ cursor w j
        → Fate job w j (cursor (advance_after s a.vendor_id job (begun_at stored v) r) j)
  advance_after-Fate job w j stored obs ((res, some e), u) q f g h =
      inl (advance_after-err s a cursor laws job _ res e u j ∙ h)
  advance_after-Fate job w j stored obs ((res, none), u) q f g h =
      let since = begun_at stored (s.store.get_poll_cursor job.ds_id w).1 in
      let done = ap (λ (x : (IngestResult × Option Error) × W). x.0.1) g in
      let newest =
        sym (ap (λ (x : (IngestResult × Option Error) × W). x.0.0.max_phenomenon_time) g)
        ∙ process_stream-newest_of s.processor a.vendor_id job.thing_id job.ds_id job.thing
            job.datastream since obs _ done in
      let b = is_none (s.store.advance_poll_cursor job.ds_id res.max_phenomenon_time u).0 in
      let own = b && j == job.ds_id in
      subst (Fate job w j)
        (sym (
          advance_after-ok s a cursor laws job since res u j
          ∙ ap (λ (t : Time). raised s a cursor laws own since t (cursor u j)) newest
          ∙ ap (λ (c : Option Time). raised s a cursor laws own since (newest_of since obs) c) h))
        (raised-Fate job w j stored obs b q f done)

  ingest_polled-Fate :
      (job : Job) (w : W) (j : ℕ) (stored : Time) (r : Result (List Observation) × W)
      → let v = (s.store.get_poll_cursor job.ds_id w).1 in
        (s.store.get_poll_cursor job.ds_id w).0 ≡ ok stored
        → polled job stored v ≡ r
        → cursor r.1 j ≡ cursor w j
        → Fate job w j (cursor (ingest_polled s a.vendor_id job (begun_at stored v) r) j)
  unfolding ingest_polled
  ingest_polled-Fate job w j stored (err e, u) q f h =
      inl (classify_and_meter-Same s a cursor laws a.vendor_id e u j ∙ h)
  ingest_polled-Fate job w j stored (ok obs, u) q f h =
      let since = begun_at stored (s.store.get_poll_cursor job.ds_id w).1 in
      advance_after-Fate job w j stored obs (ingested job since obs u) q
        (ap (λ (x : Result (List Observation) × W). x.0) f)
        (ap (λ (x : Result (List Observation) × W). ingested job since obs x.1) f)
        (process_stream-Same s a cursor laws job since obs u j ∙ h)

  poll_from-Fate :
      (job : Job) (w : W) (j : ℕ) (r : Result Time × W)
      → s.store.get_poll_cursor job.ds_id w ≡ r
      → Fate job w j (cursor (poll_from s a job r) j)
  unfolding poll_from
  poll_from-Fate job w j (err e, v) q =
      inl (ap (λ (x : Result Time × W). cursor x.1 j) (sym q) ∙ laws.gets job.ds_id w j)
  poll_from-Fate job w j (ok stored, v) q =
      let same = ap (λ (x : Result Time × W). x.1) q in
      subst
        (λ (u : W).
          Fate job w j
            (cursor (ingest_polled s a.vendor_id job (begun_at stored u) (polled job stored u)) j))
        same
        (ingest_polled-Fate job w j stored
          (polled job stored (s.store.get_poll_cursor job.ds_id w).1)
          (ap (λ (x : Result Time × W). x.0) q) refl
          (laws.fetches _ _ _ 1000 _ j
            ∙ seed_cursor-Same s a cursor laws stored _ j
            ∙ laws.gets job.ds_id w j))

  -- A poll cycle leaves every cursor as it was, or moves that of its own Datastream in one way: it read the
  -- cursor, its fetch from there on succeeded, so did the ingest of everything that this returned, and the
  -- cursor is raised to the newest phenomenon time of these observations, in whole microseconds. An ingest
  -- succeeds too when it rejects or drops observations of the batch.
  pub run_datastream_cycle-Fate :
      (job : Job) (w : W) (j : ℕ) → Fate job w j (cursor (run_datastream_cycle s a job w) j)
  unfolding run_datastream_cycle
  run_datastream_cycle-Fate job w j =
      let v = poll_from s a job (s.store.get_poll_cursor job.ds_id w) in
      subst (Fate job w j) (sym (laws.sets_polled job.ds_id _ _ j ∙ laws.reads_clock v j))
        (poll_from-Fate job w j (s.store.get_poll_cursor job.ds_id w) refl)
