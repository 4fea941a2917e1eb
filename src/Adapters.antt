-- ===== src/Adapters.antt =====
-- internal/adapters/adapter.go: the contracts of a vendor, by poll and by push, and which errors of
-- a vendor are hard. The registry and the vendors are in the modules below.
pub mod Registry
pub mod Collaborall
pub mod Sulo
pub mod Dummy
use clappform_sensor_things.Canonical.{
  Datastream, Observation, ObservedProperty, StringMap, Thing, Time,
}
use clappform_sensor_things.Failure.{
  Action, Error, Result, http_error, permanent, transient, wrapped,
}
use clappform_sensor_things.Prelude.{Bool, List, Option, String, false, if◌then◌else◌, ltb, true, ℕ}
use clappform_sensor_things.Prelude.Int.{negsuc, pos, ℤ}

pub record PollAdapter (W : Type 0) : Type 0 where
  pub vendor_id : String
  pub list_things : Action W (List Thing)
  pub list_datastreams : String → Action W (List Datastream)
  pub fetch_observations : String → ObservedProperty → Time → ℕ → Action W (List Observation)

pub record DecodedThing : Type 0 where
  pub thing : Thing
  pub datastreams : List Datastream

pub record DecodedBatch : Type 0 where
  pub things : List DecodedThing
  pub observations : List Observation

-- `authenticate` takes the headers of the request and its body.
pub record PushAdapter : Type 0 where
  pub vendor_id : String
  pub authenticate : StringMap → String → Option Error
  pub decode_push : String → Result DecodedBatch

-- errors.As(err, &te) and errors.As(err, &pe)
unfoldable pub is_transient : Error → Bool
is_transient (transient e retry) = true
is_transient (permanent e) = is_transient e
is_transient (wrapped e) = is_transient e
is_transient (http_error status e t) = is_transient e
is_transient _ = false

unfoldable pub is_permanent : Error → Bool
is_permanent (permanent e) = true
is_permanent (transient e retry) = is_permanent e
is_permanent (wrapped e) = is_permanent e
is_permanent (http_error status e t) = is_permanent e
is_permanent _ = false

-- 5 * time.Minute, in nanoseconds
abbrev pub max_retry_after : ℕ
max_retry_after = 300000000000

unfoldable pub clamp_retry_after : ℤ → ℕ
clamp_retry_after (pos d) = if ltb max_retry_after d then max_retry_after else d
clamp_retry_after (negsuc d) = 0
