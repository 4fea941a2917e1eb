-- ===== src/Canonical.antt =====
-- internal/canonical/types.go: the vendor-agnostic records that flow between the components, and
-- the values of Go's `time.Time` and `float64` that they hold.
use Prim.Native.Nat.{◌^◌}
use clappform_sensor_things.Prelude.{
  ℕ, ◌*◌, ◌-◌, ◌%◌, String, Bool, true, false, Option, List, ltb, ◌==◌, ◌&&◌, not,
}
use clappform_sensor_things.Prelude.Int.{ℤ}

-- An instant: nanoseconds since 0001-01-01T00:00:00Z, Go's zero time, which is 0.
abbrev pub Time : Type 0
Time = ℕ

-- A non-negative time.Duration, in nanoseconds.
abbrev pub Duration : Type 0
Duration = ℕ

abbrev pub second : Duration
second = 1000000000

abbrev pub day : Duration
day = 86400000000000

-- A time as a TIMESTAMPTZ column or parameter has it: whole microseconds, the rest is cut off.
abbrev pub micros : Time → Time
micros t = t - t % 1000

-- t.IsZero()
abbrev pub is_zero : Time → Bool
is_zero t = t == 0

-- t.After(u)
abbrev pub after : Time → Time → Bool
after t u = ltb u t

-- A float64. Every finite one is a whole multiple of 2^-1074: `above n` is n steps of that size
-- upwards from 0, `below n` is n steps downwards (`below 0` is the negative zero).
pub data Float64 : Type 0 where
  nan : Float64
  pos_inf : Float64
  neg_inf : Float64
  above : ℕ → Float64
  below : ℕ → Float64

-- The steps in one unit. It stays shut: no proof computes with the numeral.
pub steps_per_unit : ℕ
steps_per_unit = 2 ^ 1074

-- The float64 of a small whole number.
unfoldable pub whole : ℕ → Float64
whole n = above (n * steps_per_unit)

-- x < y, which is false at a NaN
unfoldable pub lt_float : Float64 → Float64 → Bool
lt_float nan y = false
lt_float pos_inf y = false
lt_float neg_inf nan = false
lt_float neg_inf neg_inf = false
lt_float neg_inf y = true
lt_float (above m) nan = false
lt_float (above m) pos_inf = true
lt_float (above m) neg_inf = false
lt_float (above m) (above n) = ltb m n
lt_float (above m) (below n) = false
lt_float (below m) nan = false
lt_float (below m) pos_inf = true
lt_float (below m) neg_inf = false
lt_float (below m) (above n) = not (m == 0 && n == 0)
lt_float (below m) (below n) = ltb n m

-- math.IsNaN(x)
abbrev pub is_nan : Float64 → Bool
is_nan nan = true
is_nan _ = false

abbrev pub ObservedProperty : Type 0
ObservedProperty = String

abbrev pub fill_level : ObservedProperty
fill_level = "FILL_LEVEL"

abbrev pub temperature : ObservedProperty
temperature = "TEMPERATURE"

abbrev pub battery : ObservedProperty
battery = "BATTERY"

abbrev pub UnitCode : Type 0
UnitCode = String

abbrev pub percent : UnitCode
percent = "PERCENT"

abbrev pub celsius : UnitCode
celsius = "CELSIUS"

abbrev pub volt : UnitCode
volt = "VOLT"

pub record Coord : Type 0 where
  pub lon : Float64
  pub lat : Float64

-- A map[string]string.
abbrev pub StringMap : Type 0
StringMap = List (String × String)

pub record Thing : Type 0 where
  pub vendor_id : String
  pub vendor_native_id : String
  pub name : String
  pub description : String
  pub location : Coord
  pub properties : StringMap

pub record Datastream : Type 0 where
  pub thing_vendor_native_id : String
  pub observed_property : ObservedProperty
  pub unit : UnitCode
  pub sensor_metadata : StringMap
  pub expected_cadence_seconds : ℤ
  pub name : String
  pub description : String
  pub observed_property_name : String
  pub observed_property_definition : String
  pub unit_name : String
  pub unit_symbol : String
  pub unit_definition : String
  pub observation_type : String
  pub sensor_name : String

-- `result_raw` is the verbatim result JSON, nil for a fill-level vendor.
pub record Observation : Type 0 where
  pub thing_vendor_native_id : String
  pub observed_property : ObservedProperty
  pub phenomenon_time : Time
  pub result_time : Time
  pub result : Float64
  pub result_raw : Option String
  pub raw_observation_id : String
