-- ===== src/Watchdog/Threshold.antt =====
-- watchdog.go, `isStale`: more than one stale Datastream, and more than one in a hundred.
use clappform_sensor_things.Prelude.{arith, true, ◌*◌, ◌<◌, ◌↔◌, ◌≡◌}
use clappform_sensor_things.Watchdog.{is_stale}
use clappform_sensor_things.State.{StalenessSnapshot}

is_stale_iff :
    (snap : StalenessSnapshot)
    → (is_stale snap ≡ true) ↔ ((1 < snap.stale_count) × (snap.total < 100 * snap.stale_count))
unfolding is_stale
is_stale_iff snap = (λ h. ground arith, λ h. ground arith)
