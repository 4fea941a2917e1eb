-- ===== src/Ingest/Once.antt =====
-- ingest.go, writeObservation and the write log: which keys the log has after a call.
use clappform_sensor_things.Metrics.{Metric}
use clappform_sensor_things.Frost.Writer.{post_observation}
use clappform_sensor_things.Frost.Errors.{is_permanent}
use clappform_sensor_things.Prelude.{
  Bool, Bool-cases, List, String, [], false, inl, inr, not, refl, some, true, ℕ, ◌&&◌, ◌∙◌, ◌∷◌,
  ◌≡◌, Option, arith, none, ap, sym, subst, All,
}
use clappform_sensor_things.Ingest.{Processor, ResolvedTarget}
use clappform_sensor_things.Ingest.Write.{
  Outcome, Progress, after_post, is_already_exists, skip_targets, write_targets, conclude,
  on_existence, recorded, write_observation, is_empty, no_progress,
}
use clappform_sensor_things.Canonical.{Float64, Observation, Time}
use clappform_sensor_things.Prelude.Int.{ℤ}
use clappform_sensor_things.Failure.{Error, Result, err, ok}
use clappform_sensor_things.Frost.Entities.{Payload, observation_body}
use clappform_sensor_things.Oms.Bodies.{observation_payload}
use clappform_sensor_things.State.Postgres.Log.{is_same_key}

-- No write of this target touches the log.
abbrev pub PostKeeps : {W : Type 0} → (W → ℕ → Time → Bool) → ResolvedTarget W → Type 0
PostKeeps {W} logged rt =
    (t : Time) (body : Payload) (w : W) (j : ℕ) (u : Time)
    → logged (post_observation rt.writer rt.ds_id t body w).1 j u ≡ logged w j u

-- What the ingest core relies on of its store and its meters. `logged w ds t` says that
-- the write log has a row for the key. A RecordObservationWrite that fails may have added its row.
pub record LogLaws {W : Type 0} (p : Processor W) (logged : W → ℕ → Time → Bool) : Type 0 where
  pub emit_keeps :
      (m : Metric) (w : W) (j : ℕ) (u : Time) → logged (p.platform.emit m w) j u ≡ logged w j u
  pub exists_keeps :
      (ds : ℕ) (t : Time) (w : W) (j : ℕ) (u : Time)
      → logged (p.store.observation_exists ds t w).1 j u ≡ logged w j u
  pub exists_tells :
      (ds : ℕ) (t : Time) (w : W) (b : Bool)
      → (p.store.observation_exists ds t w).0 ≡ ok b
      → logged w ds t ≡ b
  pub record_others :
      (ds : ℕ) (t : Time) (x : Float64) (raw : String) (sta : ℤ) (w : W) (j : ℕ) (u : Time)
      → is_same_key ds t j u ≡ false
      → logged (p.store.record_observation_write ds t x raw sta w).1 j u ≡ logged w j u
  pub record_keeps :
      (ds : ℕ) (t : Time) (x : Float64) (raw : String) (sta : ℤ) (w : W) (j : ℕ) (u : Time)
      → logged w j u ≡ true
      → logged (p.store.record_observation_write ds t x raw sta w).1 j u ≡ true
  pub record_adds :
      (ds : ℕ) (t : Time) (x : Float64) (raw : String) (sta : ℤ) (w : W)
      → (p.store.record_observation_write ds t x raw sta w).0 ≡ none
      → logged (p.store.record_observation_write ds t x raw sta w).1 ds t ≡ true
  pub record_raced :
      (ds : ℕ) (t : Time) (x : Float64) (raw : String) (sta : ℤ) (w : W) (e : Error)
      → (p.store.record_observation_write ds t x raw sta w).0 ≡ some e
      → is_already_exists e ≡ true
      → logged w ds t ≡ true

-- A call that neither failed nor dropped the observation.
abbrev pub is_covered : Result Outcome → Bool
is_covered (ok d) = not d.dropped
is_covered (err e) = false

module _ {W : Type 0} (p : Processor W) (vendor : String) (logged : W → ℕ → Time → Bool)
    (laws : LogLaws p logged) where
  skip_targets-keeps :
      (targets : List (ResolvedTarget W)) (w : W) (j : ℕ) (u : Time)
      → logged (skip_targets p vendor targets w) j u ≡ logged w j u
  unfolding skip_targets
  skip_targets-keeps [] w j u = refl
  skip_targets-keeps (rt ∷ rts) w j u = skip_targets-keeps rts _ j u ∙ laws.emit_keeps _ w j u

  after_post-keeps :
      (rt : ResolvedTarget W) (g : Progress) (r : Result (ℤ × Bool) × W) (j : ℕ) (u : Time)
      → logged (after_post p vendor rt g r).1 j u ≡ logged r.1 j u
  unfolding after_post
  after_post-keeps rt g (err e, w) j u = elim (Bool-cases (is_permanent e)) [
    | inl h ↦ rw h (laws.emit_keeps _ w j u)
    | inr h ↦ rw h refl
  ]
  after_post-keeps rt g (ok (id, true), w) j u = laws.emit_keeps _ w j u
  after_post-keeps rt g (ok (id, false), w) j u = laws.emit_keeps _ w j u

  write_targets-keeps :
      (o : Observation) (targets : List (ResolvedTarget W)) (g : Progress) (w : W) (j : ℕ)
      (u : Time)
      → All (PostKeeps logged) targets
      → logged (write_targets p vendor o targets g w).1 j u ≡ logged w j u
  unfolding write_targets
  write_targets-keeps o [] g w j u good = refl
  write_targets-keeps o (rt ∷ rts) g w j u good =
      let posted =
        post_observation rt.writer rt.ds_id o.phenomenon_time
          (observation_body (observation_payload o rt.foi_id)) w in
      let next = after_post p vendor rt g posted in
      ground (
        arith,
        write_targets-keeps o rts next.0.1 next.1 j u good.1,
        after_post-keeps rt g posted j u,
        good.0 o.phenomenon_time (observation_body (observation_payload o rt.foi_id)) w j u,
      )

  read_keeps :
      (ds : ℕ) (o : Observation) (w : W) (r : Result Bool × W)
      → p.store.observation_exists ds o.phenomenon_time w ≡ r
      → (j : ℕ) (u : Time) → logged r.1 j u ≡ logged w j u
  read_keeps ds o w r h j u =
      ap (λ (x : Result Bool × W). logged x.1 j u) (sym h)
      ∙ laws.exists_keeps ds o.phenomenon_time w j u

  -- What an outcome tells of the key of its observation.
  abbrev pub Tells : Result Outcome → Bool → Type 0
  Tells (ok d) b = b ≡ not d.dropped
  Tells (err e) b = Unit

  -- How a call for the key (ds, t) ends that began in a world w.
  pub record Logs (ds : ℕ) (t : Time) (w : W) (r : Result Outcome × W) : Type 0 where
    pub others : (j : ℕ) (u : Time) → is_same_key ds t j u ≡ false → logged r.1 j u ≡ logged w j u
    pub keeps : (j : ℕ) (u : Time) → logged w j u ≡ true → logged r.1 j u ≡ true
    pub tells : Tells r.0 (logged r.1 ds t)

  -- The log of a world in which a call ends is that of another one.
  from-Logs :
      (ds : ℕ) (t : Time) (w v : W) (r : Result Outcome × W)
      → ((j : ℕ) (u : Time) → logged v j u ≡ logged w j u)
      → Logs ds t v r
      → Logs ds t w r
  from-Logs ds t w v r same l = record {
    others = λ j u h. l.others j u h ∙ same j u;
    keeps = λ j u h. l.keeps j u (same j u ∙ h);
    tells = l.tells;
  }

  recorded-Tells :
      (ds : ℕ) (o : Observation) (g : Progress) (w : W) (r : Option Error × W)
      → p.store.record_observation_write ds o.phenomenon_time o.result o.raw_observation_id
          g.sta_observation_id w
        ≡ r
      → Tells
          (recorded p vendor g.wrote r).0
          (logged (recorded p vendor g.wrote r).1 ds o.phenomenon_time)
  unfolding recorded is_already_exists
  recorded-Tells ds o g w (none, w') h =
      subst (λ (x : Option Error × W). x.0 ≡ none → logged x.1 ds o.phenomenon_time ≡ true) h
        (laws.record_adds ds o.phenomenon_time o.result o.raw_observation_id g.sta_observation_id w)
        refl
  recorded-Tells ds o g w (some e, w') h = elim (Bool-cases (is_already_exists e)) [
    | inl k ↦ rw k (
        subst (λ (x : Option Error × W). logged x.1 ds o.phenomenon_time ≡ true) h
          (laws.record_keeps ds o.phenomenon_time o.result o.raw_observation_id g.sta_observation_id
            w ds o.phenomenon_time
            (laws.record_raced ds o.phenomenon_time o.result o.raw_observation_id
              g.sta_observation_id w e (ap (λ (x : Option Error × W). x.0) h) k)))
    | inr k ↦ rw k tt
  ]

  recorded-world : (ws : List String) (r : Option Error × W) → (recorded p vendor ws r).1 ≡ r.1
  unfolding recorded
  recorded-world ws (none, w) = refl
  recorded-world ws (some e, w) = elim (Bool-cases (is_already_exists e)) [
    | inl k ↦ rw k refl
    | inr k ↦ rw k refl
  ]

  recorded-Logs :
      (ds : ℕ) (o : Observation) (g : Progress) (w : W)
      → Logs ds o.phenomenon_time w (
          recorded p vendor g.wrote (
            p.store.record_observation_write ds o.phenomenon_time o.result o.raw_observation_id
              g.sta_observation_id w))
  recorded-Logs ds o g w =
      let r =
        p.store.record_observation_write ds o.phenomenon_time o.result o.raw_observation_id
          g.sta_observation_id w in
      let same = recorded-world g.wrote r in
      record {
        others = λ j u h.
            ap (λ x. logged x j u) same
            ∙ laws.record_others ds o.phenomenon_time o.result o.raw_observation_id
                g.sta_observation_id w j u h;
        keeps = λ j u h.
            ap (λ x. logged x j u) same
            ∙ laws.record_keeps ds o.phenomenon_time o.result o.raw_observation_id
                g.sta_observation_id w j u h;
        tells = recorded-Tells ds o g w r refl;
      }

  conclude-Logs :
      (ds : ℕ) (o : Observation) (r : (Option Error × Progress) × W)
      → logged r.1 ds o.phenomenon_time ≡ false
      → Logs ds o.phenomenon_time r.1 (conclude p vendor ds o r)
  unfolding conclude
  conclude-Logs ds o ((some e, g), w) new = record {
    others = λ j u h. refl;
    keeps = λ j u h. h;
    tells = tt;
  }
  conclude-Logs ds o ((none, g), w) new = elim (Bool-cases (is_empty g.wrote && g.refused)) [
    | inl h ↦ rw h (record { others = λ j u k. refl; keeps = λ j u k. k; tells = new })
    | inr h ↦ rw h (recorded-Logs ds o g w)
  ]

  on_existence-Logs :
      (ds : ℕ) (o : Observation) (targets : List (ResolvedTarget W)) (w : W) (r : Result Bool × W)
      → All (PostKeeps logged) targets
      → p.store.observation_exists ds o.phenomenon_time w ≡ r
      → Logs ds o.phenomenon_time w (on_existence p vendor ds o targets r)
  unfolding on_existence
  on_existence-Logs ds o targets w (err e, w') good h =
      from-Logs ds o.phenomenon_time w w' _ (read_keeps ds o w (err e, w') h)
        (record { others = λ j u k. refl; keeps = λ j u k. k; tells = tt })
  on_existence-Logs ds o targets w (ok true, w') good h =
      let known = laws.exists_tells ds o.phenomenon_time w true (ap (λ r. r.0) h) in
      let same : (j : ℕ) (u : Time) → logged (skip_targets p vendor targets w') j u ≡ logged w j u =
        λ j u. skip_targets-keeps targets w' j u ∙ read_keeps ds o w (ok true, w') h j u in
      record {
        others = λ j u k. same j u;
        keeps = λ j u k. same j u ∙ k;
        tells = same ds o.phenomenon_time ∙ known;
      }
  on_existence-Logs ds o targets w (ok false, w') good h =
      let end = write_targets p vendor o targets (no_progress p vendor) w' in
      let same : (j : ℕ) (u : Time) → logged end.1 j u ≡ logged w j u = λ j u.
        write_targets-keeps o targets (no_progress p vendor) w' j u good
        ∙ read_keeps ds o w (ok false, w') h j u in
      let new = laws.exists_tells ds o.phenomenon_time w false (ap (λ r. r.0) h) in
      from-Logs ds o.phenomenon_time w end.1 _ same
        (conclude-Logs ds o end (same ds o.phenomenon_time ∙ new))

  -- After a call of writeObservation that does not fail, the write log has the key of its observation
  -- exactly if the call did not drop it, whether it was written now or known before. No call, failed or not,
  -- changes any other key or takes one away.
  pub write_observation-Logs :
      (ds : ℕ) (o : Observation) (targets : List (ResolvedTarget W)) (w : W)
      → All (PostKeeps logged) targets
      → Logs ds o.phenomenon_time w (write_observation p vendor ds o targets w)
  unfolding write_observation
  write_observation-Logs ds o targets w good = on_existence-Logs ds o targets w _ good refl
