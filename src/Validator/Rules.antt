-- ===== src/Validator/Rules.antt =====
-- validator.go, `validate`: which observations pass, and with which reason the others fail.
use clappform_sensor_things.Prelude.{◌+◌, ◌≤◌, ◌<◌, ◌≡◌, ◌⊎◌, ◌↔◌, false, none, some, eq_iff, arith}
use clappform_sensor_things.Canonical.{
  Time, Duration, Observation, is_nan, lt_float, whole, fill_level,
}
use clappform_sensor_things.Validator.{in_future, validate}

-- A result that `validate` accepts from a numeric vendor.
abbrev pub ResultOk : Observation → Type 0
ResultOk o =
    (o.result_raw ≡ none)
    → (is_nan o.result ≡ false)
      × (o.observed_property ≡ fill_level
          → (lt_float o.result (whole 0) ≡ false) × (lt_float (whole 100) o.result ≡ false))

abbrev pub TimeOk : Observation → Time → Time → Duration → Type 0
TimeOk o cursor now skew =
    (o.phenomenon_time ≤ now + skew) × ((cursor ≡ 0) ⊎ (cursor < o.phenomenon_time))

pub validate_sound :
    (o : Observation) (cursor now : Time) (skew : Duration)
    → validate o cursor now skew ≡ none
    → ResultOk o × TimeOk o cursor now skew
unfolding validate
validate_sound o cursor now skew h = (
  λ raw. (ground arith, λ p. ground (arith, eq_iff o.observed_property fill_level)),
  ground arith,
)

-- What the rules ask for is also enough.
pub validate_complete :
    (o : Observation) (cursor now : Time) (skew : Duration)
    → ResultOk o
    → TimeOk o cursor now skew
    → validate o cursor now skew ≡ none
unfolding validate
validate_complete o cursor now skew r t = ground (arith, eq_iff o.observed_property fill_level, r)

-- `validate` passes an observation exactly when its result is verbatim, or is a number that lies
-- in [0, 100] if it is a fill level, and its time is at most `skew` ahead of the clock and, where
-- the cursor is set, after the cursor.
pub validate_iff :
    (o : Observation) (cursor now : Time) (skew : Duration)
    → (validate o cursor now skew ≡ none) ↔ (ResultOk o × TimeOk o cursor now skew)
validate_iff o cursor now skew =
    (validate_sound o cursor now skew, λ h. validate_complete o cursor now skew h.0 h.1)

-- A future reading is rejected as such only after its result has passed.
pub validate-in_future :
    (o : Observation) (cursor now : Time) (skew : Duration)
    → validate o cursor now skew ≡ some in_future
    → ResultOk o × (now + skew < o.phenomenon_time)
unfolding validate
validate-in_future o cursor now skew h = (
  λ raw. (ground arith, λ p. ground (arith, eq_iff o.observed_property fill_level)),
  ground arith,
)
