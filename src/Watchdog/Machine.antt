-- ===== src/Watchdog/Machine.antt =====
-- watchdog.go, `step` over any sequence of ticks: the order of the alerts and the hysteresis.
use clappform_sensor_things.State.{Status, WatchdogState, stale, stale_pending, status_ok, unknown}
use clappform_sensor_things.Canonical.{Time}
use clappform_sensor_things.Prelude.{
  Bool, List, [], none, some, ◌∷◌, Option, arith, false, refl, true, ◌↔◌, ◌≡◌, ◌⊎◌,
}
use clappform_sensor_things.Watchdog.{Alert, recovered_alert, stale_alert, step}

-- One tick as the state machine sees it: is the service stale, and when.
abbrev pub Tick : Type 0
Tick = Bool × Time

-- The state after a sequence of ticks, and the alerts that they fired, in order.
unfoldable pub run : WatchdogState → List Tick → WatchdogState × List Alert
run wd [] = (wd, [])
run wd ((b, t) ∷ ticks) =
    let (wd', fired) = step wd b t in
    let (last, alerts) = run wd' ticks in (last, elim fired [ none ↦ alerts | some a ↦ a ∷ alerts ])

-- The alerts take turns, and `next` is the first.
abbrev pub TakeTurns : Alert → List Alert → Type 0
TakeTurns next [] = Unit
TakeTurns stale_alert (stale_alert ∷ rest) = TakeTurns recovered_alert rest
TakeTurns recovered_alert (recovered_alert ∷ rest) = TakeTurns stale_alert rest
TakeTurns stale_alert (recovered_alert ∷ rest) = ⊥
TakeTurns recovered_alert (stale_alert ∷ rest) = ⊥

-- The alert that a state can fire next.
abbrev pub due : Status → Alert
due stale = recovered_alert
due _ = stale_alert

turn :
    (st : Status) (since : Time) (fired : Option Time) (b : Bool) (t : Time) (alerts : List Alert)
    → let wd : WatchdogState = record {
      current_status = st;
      since_ts = since;
      last_fired_ts = fired;
    } in
      TakeTurns (due (step wd b t).0.current_status) alerts
      → TakeTurns (due st) (elim (step wd b t).1 [ none ↦ alerts | some a ↦ a ∷ alerts ])
unfolding step
turn status_ok since fired true t alerts h = h
turn status_ok since fired false t alerts h = h
turn stale_pending since fired true t alerts h = h
turn stale_pending since fired false t alerts h = h
turn stale since fired true t alerts h = h
turn stale since fired false t alerts h = h
turn (unknown s) since fired b t alerts h = h

-- From any state, whatever the ticks: a "stale" is followed by a "recovered" before the next
-- "stale", and the other way round.
pub run-TakeTurns :
    (wd : WatchdogState) (ticks : List Tick) → TakeTurns (due wd.current_status) (run wd ticks).1
unfolding run
run-TakeTurns wd [] = tt
run-TakeTurns wd ((b, t) ∷ ticks) =
    turn wd.current_status wd.since_ts wd.last_fired_ts b t (run (step wd b t).0 ticks).1
      (run-TakeTurns (step wd b t).0 ticks)

-- Two ticks fire "stale" at the second exactly if both found the service stale, and the state before
-- them was "ok": one stale tick alone never alerts.
pub stale_alert_iff :
    (wd : WatchdogState) (b c : Bool) (t u : Time)
    → ((step (step wd b t).0 c u).1 ≡ some stale_alert)
      ↔ ((wd.current_status ≡ status_ok) × (b ≡ true) × (c ≡ true))
unfolding step
stale_alert_iff wd b c t u = (λ h. ground arith, λ h. ground arith)

-- A fresh tick leaves "ok" behind in every state, and fires "recovered" exactly from "stale".
pub fresh_tick :
    (wd : WatchdogState) (t : Time)
    → ((step wd false t).0.current_status ≡ status_ok)
      × (((step wd false t).1 ≡ some recovered_alert) ↔ (wd.current_status ≡ stale))
unfolding step
fresh_tick wd t = (ground arith, (λ h. ground arith, λ h. ground arith))

abbrev pub IsKnown : Status → Type 0
IsKnown st = (st ≡ status_ok) ⊎ (st ≡ stale_pending) ⊎ (st ≡ stale)

-- The alerts of stale ticks that follow one another, from the three states of the machine.
abbrev pub awaited : Status → List Alert
awaited stale = []
awaited _ = stale_alert ∷ []

-- Stale ticks at the given times.
abbrev pub stale_ticks : List Time → List Tick
stale_ticks [] = []
stale_ticks (t ∷ ts) = (true, t) ∷ stale_ticks ts

stays_stale :
    (wd : WatchdogState) (ts : List Time)
    → wd.current_status ≡ stale
    → run wd (stale_ticks ts) ≡ (wd, [])
unfolding run step
stays_stale wd [] h = refl
stays_stale wd (t ∷ ts) h = ground (arith, stays_stale wd ts h)

-- From "ok", "stale_pending" or "stale", two stale ticks in a row lead to "stale", where any more
-- leave it; on the way one "stale" alert fires, or none if the state was "stale" already.
pub stale_ticks_alert :
    (wd : WatchdogState) (t u : Time) (ts : List Time)
    → IsKnown wd.current_status
    → ((run wd (stale_ticks (t ∷ u ∷ ts))).0.current_status ≡ stale)
      × ((run wd (stale_ticks (t ∷ u ∷ ts))).1 ≡ awaited wd.current_status)
unfolding run step
stale_ticks_alert wd t u ts h = ground (arith, stays_stale (step (step wd true t).0 true u).0 ts)
