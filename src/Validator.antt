-- ===== src/Validator.antt =====
-- internal/validator/validator.go: the data-quality rules, and the split of a batch into the kept
-- and the rejected observations. The proofs are in the modules below.
pub mod Rules
pub mod Partition
use clappform_sensor_things.Prelude.{
  ℕ, suc, ◌+◌, Bool, true, false, Option, none, some, List, [], ◌∷◌, not, ◌&&◌, ◌||◌, is_none,
  if◌then◌else◌, str_eq,
}
use clappform_sensor_things.Canonical.{
  Time, Duration, Observation, is_zero, after, is_nan, lt_float, whole, fill_level,
}

pub data Reason : Type 0 where
  missing_result out_of_range in_future before_cursor out_of_bounds_coordinate : Reason

pub record Rejection : Type 0 where
  pub index : ℕ
  pub observation : Observation
  pub reason : Reason

-- `now` is the one reading of the clock that `Filter` takes.
pub record Config : Type 0 where
  pub clock_skew_tolerance : Duration
  pub now : Time

-- 5 * time.Minute, in nanoseconds
abbrev pub default_skew : Duration
default_skew = 300000000000

unfoldable pub default_config : Time → Config
default_config now = record { clock_skew_tolerance = default_skew; now = now }

-- the tests on the result; a verbatim result skips them
unfoldable pub check_result : Observation → Option Reason
check_result o =
    if is_none o.result_raw
    then if is_nan o.result
      then some missing_result
      else if str_eq o.observed_property fill_level
          && (lt_float o.result (whole 0) || lt_float (whole 100) o.result)
      then some out_of_range
      else none
    else none

-- the tests on the phenomenon time
unfoldable pub check_time : Observation → Time → Time → Duration → Option Reason
check_time o cursor now skew =
    if after o.phenomenon_time (now + skew)
    then some in_future
    else if not (is_zero cursor) && not (after o.phenomenon_time cursor)
    then some before_cursor
    else none

-- `none` is the pair ("", true)
unfoldable pub validate : Observation → Time → Time → Duration → Option Reason
unfolding check_result check_time
validate o cursor now skew = elim (check_result o) [
  | some r ↦ some r
  | none ↦ check_time o cursor now skew
]

-- the loop of `Filter`, at index i
unfoldable pub filter_from :
    Config → Time → ℕ → List Observation → List Observation × List Rejection
filter_from cfg cursor i [] = ([], [])
filter_from cfg cursor i (o ∷ os) =
    let (kept, rejected) = filter_from cfg cursor (suc i) os in
    elim (validate o cursor cfg.now cfg.clock_skew_tolerance) [
      | some r ↦ (kept, record { index = i; observation = o; reason = r } ∷ rejected)
      | none ↦ (o ∷ kept, rejected)
    ]

unfoldable pub filter_batch : Config → Time → List Observation → List Observation × List Rejection
filter_batch cfg cursor os = filter_from cfg cursor 0 os

unfoldable pub is_definitively_rejected : Reason → Bool
is_definitively_rejected missing_result = true
is_definitively_rejected out_of_range = true
is_definitively_rejected in_future = true
is_definitively_rejected before_cursor = true
is_definitively_rejected out_of_bounds_coordinate = true
