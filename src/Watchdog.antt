-- ===== src/Watchdog.antt =====
-- internal/watchdog/watchdog.go: the freshness alert state machine, and the tick that drives it
-- over the state store. The proofs are in the modules below.
pub mod Machine
pub mod Threshold
use clappform_sensor_things.Prelude.{
  Bool, List, Option, String, false, if◌then◌else◌, leb, ltb, none, some, str_eq, true, ℕ, ◌&&◌,
  ◌/◌, ◌==◌,
}
use clappform_sensor_things.State.{
  StalenessSnapshot, Status, Store, WatchdogState, stale, stale_pending, status_ok, unknown,
}
use clappform_sensor_things.Failure.{Action, Error, Result, err, ok}
use clappform_sensor_things.Metrics.{
  Platform, alert_fired, datastreams_stale, datastreams_total, webhook_error,
}
use clappform_sensor_things.Canonical.{Time}

pub data Alert : Type 0 where
  stale_alert recovered_alert : Alert

unfoldable pub alert_text : Alert → String
alert_text stale_alert = "stale"
alert_text recovered_alert = "recovered"

-- The webhook body. `max_last_written` is never set by `fire`: the zero time.
pub record AlertPayload : Type 0 where
  pub status : Alert
  pub max_last_written : Time
  pub stale_count : ℕ
  pub total_count : ℕ
  pub examples : List String
  pub namespace : String
  pub fired_at : Time

-- `post` encodes and sends a payload: an error of either, or the status code.
pub record Watchdog (W : Type 0) : Type 0 where
  pub store : Store W
  pub platform : Platform W
  pub webhook_url : String
  pub namespace : String
  pub post : AlertPayload → Action W ℕ

-- Per ADR-008: alert if stale_count > max(1, 1% of total).
unfoldable pub is_stale : StalenessSnapshot → Bool
is_stale snap =
    let share = snap.total / 100 in
    let threshold = if ltb share 1 then 1 else share in ltb threshold snap.stale_count

-- The next state, and the alert to fire.
step_from : Status → WatchdogState → Bool → Time → WatchdogState × Option Alert
step_from status_ok cur true now =
    (record cur { current_status = stale_pending; since_ts = now }, none)
step_from status_ok cur false now = (cur, none)
step_from stale_pending cur true now =
    (record { current_status = stale; since_ts = now; last_fired_ts = some now }, some stale_alert)
step_from stale_pending cur false now =
    (record cur { current_status = status_ok; since_ts = now }, none)
step_from stale cur true now = (cur, none)
step_from stale cur false now = (
  record { current_status = status_ok; since_ts = now; last_fired_ts = some now },
  some recovered_alert,
)
step_from (unknown s) cur stale_now now =
    (record cur { current_status = status_ok; since_ts = now }, none)

unfoldable pub step : WatchdogState → Bool → Time → WatchdogState × Option Alert
unfolding step_from
step cur stale_now now = step_from cur.current_status cur stale_now now

-- `next == wd`, field by field
same_status : Status → Status → Bool
same_status status_ok status_ok = true
same_status stale_pending stale_pending = true
same_status stale stale = true
same_status (unknown s) (unknown t) = str_eq s t
same_status _ _ = false

same_fired : Option Time → Option Time → Bool
same_fired none none = true
same_fired (some t) (some u) = t == u
same_fired _ _ = false

unfoldable pub same_state : WatchdogState → WatchdogState → Bool
unfolding same_status same_fired
same_state a b =
    same_status a.current_status b.current_status
    && a.since_ts == b.since_ts
    && same_fired a.last_fired_ts b.last_fired_ts

module _ {W : Type 0} (dog : Watchdog W) where
  payload : Alert → StalenessSnapshot → Time → AlertPayload
  payload transition snap now = record {
    status = transition;
    max_last_written = 0;
    stale_count = snap.stale_count;
    total_count = snap.total;
    examples = snap.example_names;
    namespace = dog.namespace;
    fired_at = now;
  }

  -- What is metered of the answer of the webhook.
  answered : Result ℕ × W → W
  answered (err e, w) = dog.platform.emit webhook_error w
  answered (ok status, w) = if leb 400 status then dog.platform.emit webhook_error w else w

  unfoldable pub fire : Alert → StalenessSnapshot → Time → W → W
  unfolding answered payload
  fire transition snap now w =
      let w' = dog.platform.emit (alert_fired (alert_text transition)) w in
      if str_eq dog.webhook_url "" then w' else answered (dog.post (payload transition snap now) w')

  fire_if : Option Alert → StalenessSnapshot → Time → W → W
  unfolding fire
  fire_if none snap now w = w
  fire_if (some transition) snap now w = fire transition snap now w

  -- A state that could not be written fires nothing.
  persisted : Option Error × W → Option Alert → StalenessSnapshot → Time → W
  unfolding fire_if
  persisted (none, w) transition snap now = fire_if transition snap now w
  persisted (some e, w) transition snap now = w

  advance : WatchdogState → StalenessSnapshot → Time → W → W
  unfolding persisted
  advance wd snap now w =
      let (next, transition) = step wd (is_stale snap) now in
      if same_state next wd
      then fire_if transition snap now w
      else persisted (dog.store.set_watchdog_state next w) transition snap now

  with_state : Result WatchdogState × W → StalenessSnapshot → Time → W
  unfolding advance
  with_state (err e, w) snap now = w
  with_state (ok wd, w) snap now = advance wd snap now w

  with_snapshot : Result StalenessSnapshot × W → Time → W
  unfolding with_state
  with_snapshot (err e, w) now = w
  with_snapshot (ok snap, w) now =
      let w' =
        dog.platform.emit (datastreams_stale snap.stale_count)
          (dog.platform.emit (datastreams_total snap.total) w) in
      with_state (dog.store.get_watchdog_state w') snap now

  unfoldable pub tick : W → W
  unfolding with_snapshot
  tick w =
      let (now, w') = dog.platform.now w in
      with_snapshot (dog.store.get_staleness_snapshot now w') now
