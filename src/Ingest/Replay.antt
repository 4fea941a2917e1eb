-- ===== src/Ingest/Replay.antt =====
-- ingest.go, writeObservation: an observation that is known is not written again.
use clappform_sensor_things.Prelude.{
  All, Bool, List, String, [], arith, false, refl, subst, sym, true, ℕ, ◌∙◌, ◌∷◌, ◌≡◌,
}
use clappform_sensor_things.Ingest.{Processor, ResolvedTarget}
use clappform_sensor_things.Canonical.{Observation, Time}
use clappform_sensor_things.Ingest.Write.{Outcome, on_existence, skip_targets, write_observation}
use clappform_sensor_things.Ingest.Once.{
  LogLaws, PostKeeps, Tells, is_covered, write_observation-Logs,
}
use clappform_sensor_things.Failure.{Result, err, ok}

module _ {W : Type 0} (p : Processor W) (vendor : String) (logged : W → ℕ → Time → Bool)
    (laws : LogLaws p logged) where
  -- How a call ends that finds the key, or cannot read the log.
  abbrev pub replayed : List (ResolvedTarget W) → Result Bool × W → Result Outcome × W
  replayed targets r = elim r.0 [
    | err e ↦ (err e, r.1)
    | ok b ↦ (
      ok (record { wrote = []; skipped = true; dropped = false }),
      skip_targets p vendor targets r.1,
    )
  ]

  on_existence-known :
      (ds : ℕ) (o : Observation) (targets : List (ResolvedTarget W)) (r : Result Bool × W)
      → ((b : Bool) → r.0 ≡ ok b → b ≡ true)
      → on_existence p vendor ds o targets r ≡ replayed targets r
  unfolding on_existence
  on_existence-known ds o targets (err e, w) h = refl
  on_existence-known ds o targets (ok true, w) h = refl
  on_existence-known ds o targets (ok false, w) h = ground (arith, h false refl)

  write_observation-known :
      (ds : ℕ) (o : Observation) (targets : List (ResolvedTarget W)) (w : W)
      → logged w ds o.phenomenon_time ≡ true
      → write_observation p vendor ds o targets w
        ≡ replayed targets (p.store.observation_exists ds o.phenomenon_time w)
  unfolding write_observation
  write_observation-known ds o targets w h =
      on_existence-known ds o targets (p.store.observation_exists ds o.phenomenon_time w)
        (λ b e. sym (laws.exists_tells ds o.phenomenon_time w b e) ∙ h)

  -- Calls of writeObservation one after the other, for any Datastreams, with any result.
  abbrev pub writes : List (ℕ × Observation × List (ResolvedTarget W)) → W → W
  writes [] w = w
  writes ((ds, o, targets) ∷ calls) w = writes calls (write_observation p vendor ds o targets w).1

  abbrev pub AllKeep : List (ℕ × Observation × List (ResolvedTarget W)) → Type 0
  AllKeep [] = Unit
  AllKeep ((ds, o, targets) ∷ calls) = All (PostKeeps logged) targets × AllKeep calls

  writes-logged :
      (calls : List (ℕ × Observation × List (ResolvedTarget W))) (w : W) (j : ℕ) (u : Time)
      → AllKeep calls
      → logged w j u ≡ true
      → logged (writes calls w) j u ≡ true
  writes-logged [] w j u good h = h
  writes-logged ((ds, o, targets) ∷ calls) w j u good h =
      writes-logged calls (write_observation p vendor ds o targets w).1 j u good.1
        ((write_observation-Logs p vendor logged laws ds o targets w good.0).keeps j u h)

  covered-logged :
      (r : Result Outcome) (b : Bool)
      → Tells p vendor logged laws r b
      → is_covered r ≡ true
      → b ≡ true
  covered-logged (ok d) b h k = h ∙ k
  covered-logged (err e) b h k = absurd cc

  -- Where no target touches the write log: after a call of writeObservation that neither failed nor
  -- dropped its observation, and any further calls, a call for the same Datastream and time with any
  -- observation sends nothing to a target and records nothing: all it does is to read the log and to
  -- count a skip for each target, or to fail at the read.
  pub write_observation_replay :
      (ds : ℕ) (o o' : Observation) (targets targets' : List (ResolvedTarget W))
      (calls : List (ℕ × Observation × List (ResolvedTarget W))) (w : W)
      → All (PostKeeps logged) targets
      → AllKeep calls
      → o.phenomenon_time ≡ o'.phenomenon_time
      → is_covered (write_observation p vendor ds o targets w).0 ≡ true
      → let v = writes calls (write_observation p vendor ds o targets w).1 in
        write_observation p vendor ds o' targets' v
        ≡ replayed targets' (p.store.observation_exists ds o'.phenomenon_time v)
  write_observation_replay ds o o' targets targets' calls w good kept same covered =
      let u = (write_observation p vendor ds o targets w).1 in
      write_observation-known ds o' targets' (writes calls u) (
        writes-logged calls u ds o'.phenomenon_time kept (
          subst (λ t. logged u ds t ≡ true) same
            (covered-logged (write_observation p vendor ds o targets w).0 _
              (write_observation-Logs p vendor logged laws ds o targets w good).tells covered)))
