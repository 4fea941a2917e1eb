-- ===== src/Api.antt =====
-- internal/api/server.go: the admin endpoints. `Push` has the public one.
pub mod Push
pub mod Grouping
pub mod Accounting
use clappform_sensor_things.State.Postgres.Alerts.{get_staleness_snapshot, ping, get_watchdog_state}
use clappform_sensor_things.Prelude.{String, [], none, some, ℕ, ◌∷◌, List}
use clappform_sensor_things.State.{StalenessSnapshot, Store, Status}
use clappform_sensor_things.Watchdog.{Watchdog}
use clappform_sensor_things.Failure.{Action, err, ok, pure, ◌>>=◌, ◌>>◌}
use clappform_sensor_things.Canonical.{StringMap, Time}

-- What a handler answers: http.Error, or a JSON body.
pub data Answer (A : Type 0) : Type 0 where
  http_failure : ℕ → String → Answer A
  json_body : ℕ → A → Answer A

unfoldable pub handle_healthz : {W : Type 0} → Store W → W → Answer StringMap × W
handle_healthz store w =
    let (e, w') = store.ping w in
    elim e [
      | some e' ↦ (http_failure 503 "state store unreachable", w')
      | none ↦ (json_body 200 (("status", "ok") ∷ []), w')
    ]

-- watchdog.go, Snapshot and CurrentSnapshot
pub record Snapshot : Type 0 where
  pub status : Status
  pub stale_count : ℕ
  pub total_count : ℕ
  pub since_ts : Time
  pub examples : List String
  pub threshold_note : String

unfoldable pub current_snapshot : {W : Type 0} → Watchdog W → Action W Snapshot
current_snapshot dog = do
  wd ← dog.store.get_watchdog_state
  snap ← λ w. let (now, w') = dog.platform.now w in dog.store.get_staleness_snapshot now w'
  pure (record {
    status = wd.current_status;
    stale_count = snap.stale_count;
    total_count = snap.total;
    since_ts = wd.since_ts;
    examples = snap.example_names;
    threshold_note =
        "per-Datastream: max(3 * expected_cadence_seconds, 1h); alert if stale_count > max(1, 1% of total)";
  })

unfoldable pub handle_freshness : {W : Type 0} → Watchdog W → W → Answer Snapshot × W
unfolding current_snapshot
handle_freshness dog w =
    let (r, w') = current_snapshot dog w in
    elim r [ err e ↦ (http_failure 500 "snapshot failed", w') | ok snap ↦ (json_body 200 snap, w') ]
