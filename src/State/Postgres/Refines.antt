-- ===== src/State/Postgres/Refines.antt =====
-- pgstore.go as an implementation of the contract of store.go.
use clappform_sensor_things.State.Contract.{
  Leads, Known, Call, Reply, Event, Allowed, after, Accepts,
}
use clappform_sensor_things.State.Contract
use clappform_sensor_things.State.Postgres.Tables.{Db}
use clappform_sensor_things.Canonical.{Time}
use clappform_sensor_things.Prelude.{List, [], arith, ℕ, ◌∷◌, ◌≤◌, refl, ◌∙◌, count_where}
use clappform_sensor_things.State.Contract.Once.{is_recorded, recorded_once}
use clappform_sensor_things.State.Postgres.Fresh.{upsert_datastream-IsStep}
use clappform_sensor_things.State.Postgres.Steps.{
  IsFresh, IsStep, known, perform, upsert_thing-IsStep, set_sta_thing_id-IsStep,
  set_sta_datastream_id-IsStep, get_poll_cursor-IsStep, advance_poll_cursor-IsStep,
  set_last_polled_at-IsStep, observation_exists-IsStep, record_observation_write-IsStep,
  set_watchdog_state-IsStep,
}

unfoldable pub run : List Call → Db → List Event × Db
unfolding perform
run [] db = ([], db)
run (c ∷ cs) db =
    let step = perform c db in
    let rest = run cs step.1 in (record { call = c; reply = step.0 } ∷ rest.0, rest.1)

perform-IsStep : (c : Call) (db : Db) → IsFresh db → IsStep c db
perform-IsStep (Contract.upsert_thing v n m) db h = upsert_thing-IsStep v n m db
perform-IsStep (Contract.set_sta_thing_id id sta) db h = set_sta_thing_id-IsStep id sta db
perform-IsStep (Contract.upsert_datastream thing op cadence) db h =
    upsert_datastream-IsStep thing op cadence db h
perform-IsStep (Contract.set_sta_datastream_id id sta) db h = set_sta_datastream_id-IsStep id sta db
perform-IsStep (Contract.get_poll_cursor id) db h = get_poll_cursor-IsStep id db
perform-IsStep (Contract.advance_poll_cursor id t) db h = advance_poll_cursor-IsStep id t db
perform-IsStep (Contract.set_last_polled_at id t) db h = set_last_polled_at-IsStep id t db
perform-IsStep (Contract.observation_exists id t) db h = observation_exists-IsStep id t db
perform-IsStep (Contract.record_observation_write id t x raw sta) db h =
    record_observation_write-IsStep id t x raw sta db
perform-IsStep (Contract.set_watchdog_state s) db h = set_watchdog_state-IsStep s db

step-IsFresh : (c : Call) (db : Db) → IsFresh db → IsFresh (perform c db).1
step-IsFresh c db h j l =
    let s = perform-IsStep c db h in s.cursor j ∙ s.unknown j l (h j (omega (arith, s.next, l)))

step-Leads :
    (c : Call) (db : Db) → IsFresh db → Leads c (perform c db).0 (known db) (known (perform c db).1)
step-Leads c db h =
    let s = perform-IsStep c db h in
    record {
      acted = s.acted;
      acts = s.acts;
      reply_allowed = s.allowed;
      acted_allowed = s.acted_allowed;
      known = λ i. record { cursor = λ j. s.cursor j i; written = λ j u. s.written j u i };
    }

pub run_refines :
    (cs : List Call) (db : Db) → IsFresh db → Accepts (run cs db).0 (known db) (known (run cs db).1)
unfolding run
run_refines [] db h = refl
run_refines (c ∷ cs) db h = (
  known (perform c db).1,
  step-Leads c db h,
  run_refines cs (perform c db).1 (step-IsFresh c db h),
)

-- Whatever calls are made, from whatever tables, a key is recorded at most once.
pub run_once :
    (cs : List Call) (db : Db) (id : ℕ) (t : Time)
    → IsFresh db
    → count_where (is_recorded id t) (run cs db).0 ≤ 1
run_once cs db id t h =
    recorded_once id t (run cs db).0 (known db) (known (run cs db).1) (run_refines cs db h)
