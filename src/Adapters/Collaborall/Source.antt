-- ===== src/Adapters/Collaborall/Source.antt =====
-- internal/adapters/collaborall/source/mapping.go and source.go, with the payloads of
-- internal/frost/reader.go: the Things, Datastreams and Observations of the source FROST-Server as
-- canonical values. The JSON decoders, the time format and the decimal of an integer are Go's; they are
-- the record `Library`.
pub mod Fetch
pub mod Copies
pub mod Interval
use clappform_sensor_things.Prelude.{
  Bool, List, Option, String, [], false, if◌then◌else◌, is_some, look, ltb, none, put, some, sprint,
  str_eq, true, ℕ, ◌++◌, ◌/◌, ◌==◌, ◌∷◌, ◌||◌, exists_where, ◌*◌,
}
use Prim.Native.Nat.{◌^◌}
use clappform_sensor_things.Prelude.Int.{lez, negsuc, pos, sub_ℕ, ℤ}
use clappform_sensor_things.Prelude.Strings.{atoi, cut, trim_space}
use clappform_sensor_things.Canonical.{
  Coord, Datastream, Float64, Observation, StringMap, Thing, Time, above, below, nan, neg_inf,
  pos_inf, steps_per_unit,
}
use clappform_sensor_things.Adapters.Collaborall.{vendor_name}
use clappform_sensor_things.Config.{trimmed_entries}

-- A value of a map[string]any; what is not a text has its JSON too.
pub data Json : Type 0 where
  json_text : String → Json
  json_null : Json
  json_number : Float64 → String → Json
  json_other : String → Json

abbrev pub Properties : Type 0
Properties = List (String × Json)

pub record SensorDto : Type 0 where
  pub iot_id : ℤ
  pub name : String
  pub metadata : String

pub record ObservedPropertyDto : Type 0 where
  pub name : String
  pub definition : String

-- A Thing, with the coordinates of each of its Locations.
pub record ThingDto : Type 0 where
  pub iot_id : ℤ
  pub name : String
  pub description : String
  pub properties : Properties
  pub locations : List (List Float64)

pub record UnitDto : Type 0 where
  pub name : String
  pub symbol : String
  pub definition : String

pub record DatastreamDto : Type 0 where
  pub iot_id : ℤ
  pub name : String
  pub description : String
  pub unit_of_measurement : UnitDto
  pub observation_type : String
  pub properties : Properties
  pub sensor : Option SensorDto
  pub observed_property : Option ObservedPropertyDto

-- `result` is raw JSON, "" if there is none.
pub record ObservationDto : Type 0 where
  pub iot_id : ℤ
  pub phenomenon_time : String
  pub result_time : String
  pub result : String

-- json.Unmarshal into each type, with `none` for its error; time.Parse of RFC 3339, in UTC, and
-- Format; FormatInt; and int(f) of a float64 that no int64 holds. `object` is `none` for null too.
pub record Library : Type 0 where
  pub thing_dto : String → Option ThingDto
  pub datastream_dto : String → Option DatastreamDto
  pub observation_dto : String → Option ObservationDto
  pub object : String → Option Properties
  pub text_of : String → Option String
  pub number_of : String → Option Float64
  pub parse_time : String → Option Time
  pub format_time : Time → String
  pub format_int : ℤ → String
  pub int_overflow : Float64 → ℤ

-- The tokens of a watch set; a set with no token watches everything.
unfoldable pub new_watch_set : List String → List String
unfolding trimmed_entries
new_watch_set tokens = trimmed_entries tokens

unfoldable pub watches_all : List String → Bool
watches_all [] = true
watches_all (t ∷ ts) = false

abbrev pub holds : List String → String → Bool
holds ts s = exists_where (λ t. str_eq t s) ts

point_of : List Float64 → Option Coord
point_of [] = none
point_of (lon ∷ []) = none
point_of (lon ∷ lat ∷ rest) = some (record { lon = lon; lat = lat })

unfoldable pub coord_from_locations : List (List Float64) → Option Coord
unfolding point_of
coord_from_locations [] = none
coord_from_locations (l ∷ ls) =
    let rest = coord_from_locations ls in elim (point_of l) [ some c ↦ some c | none ↦ rest ]

unfoldable pub stringified : Json → String
stringified (json_text s) = s
stringified json_null = ""
stringified (json_number f s) = s
stringified (json_other s) = s

unfoldable pub stringify_properties : Properties → StringMap
unfolding stringified
stringify_properties [] = []
stringify_properties ((k, v) ∷ ps) = (k, stringified v) ∷ stringify_properties ps

-- The placeholder of the source.
unfoldable pub sanitize_unit : String → String
unfolding trim_space
sanitize_unit s = if str_eq (trim_space s) "..." then "" else s

-- s[:i] at the first slash
unfoldable pub before_slash : String → String
unfolding cut
before_slash s = elim (cut b'/' s) [ none ↦ s | some (before, after) ↦ before ]

-- out[k] = v for each entry
put_all : StringMap → StringMap → StringMap
unfolding put
put_all [] m = m
put_all ((k, v) ∷ kvs) m = put_all kvs (put k v m)

module _ (x : Library) where
  -- A nil Sensor is watched only by a set that watches everything.
  unfoldable pub matches : List String → Option SensorDto → Bool
  unfolding watches_all
  matches watch none = watches_all watch
  matches watch (some s) =
      watches_all watch || holds watch s.name || holds watch (x.format_int s.iot_id)

  -- An instant, or the start of an interval.
  unfoldable pub parse_sta_time : String → Option Time
  unfolding trim_space before_slash
  parse_sta_time s =
      if str_eq (trim_space s) "" then none else x.parse_time (before_slash (trim_space s))

  -- 0 for a result that is no number
  unfoldable pub numeric_result : String → Float64
  numeric_result raw = elim (x.number_of raw) [ none ↦ above 0 | some f ↦ f ]

  int_of : Float64 → ℤ
  int_of (above n) =
      if ltb (n / steps_per_unit) (2 ^ 63)
      then pos (n / steps_per_unit)
      else x.int_overflow (above n)
  int_of (below n) =
      if ltb (2 ^ 63) (n / steps_per_unit)
      then x.int_overflow (below n)
      else sub_ℕ 0 (n / steps_per_unit)
  int_of nan = x.int_overflow nan
  int_of pos_inf = x.int_overflow pos_inf
  int_of neg_inf = x.int_overflow neg_inf

  number_or_zero : Option ℤ → ℤ
  number_or_zero none = pos 0
  number_or_zero (some n) = n

  seconds_of : Json → ℤ
  unfolding int_of number_or_zero atoi
  seconds_of (json_number f s) = int_of f
  seconds_of (json_text s) = number_or_zero (atoi s)
  seconds_of json_null = pos 0
  seconds_of (json_other s) = pos 0

  unfoldable pub cadence_seconds : Properties → ℤ
  unfolding look seconds_of
  cadence_seconds ps = elim (look "expected_cadence_seconds" ps) [
    | none ↦ pos 0
    | some v ↦ seconds_of v
  ]

  -- The metadata as an object, or else as a text that is not empty.
  with_metadata : String → StringMap → StringMap
  unfolding put put_all stringify_properties
  with_metadata raw m = elim (x.object raw) [
    | some ps ↦ put_all (stringify_properties ps) m
    | none ↦ elim (x.text_of raw) [
      | none ↦ m
      | some s ↦ if str_eq s "" then m else put "metadata" s m
    ]
  ]

  unfoldable pub sensor_metadata : Option SensorDto → StringMap
  unfolding with_metadata put
  sensor_metadata none = []
  sensor_metadata (some s) =
      with_metadata s.metadata
        (("source_sensor_name", s.name) ∷ ("source_sensor_id", x.format_int s.iot_id) ∷ [])

  zero_or : Option Coord → Coord
  zero_or none = record { lon = above 0; lat = above 0 }
  zero_or (some c) = c

  unfoldable pub to_canonical_thing : ThingDto → Thing
  unfolding zero_or coord_from_locations stringify_properties
  to_canonical_thing td = record {
    vendor_id = vendor_name;
    vendor_native_id = x.format_int td.iot_id;
    name = td.name;
    description = td.description;
    location = zero_or (coord_from_locations td.locations);
    properties = stringify_properties td.properties;
  }

  -- The key of a stream: the name of its Datastream, or else a text with its id.
  unfoldable pub stream_property : DatastreamDto → String
  stream_property dd =
      if str_eq dd.name "" then sprint ("ds-" ∷ x.format_int dd.iot_id ∷ []) else dd.name

  sensor_name_of : Option SensorDto → String
  sensor_name_of none = ""
  sensor_name_of (some s) = s.name

  property_name_of : Option ObservedPropertyDto → String
  property_name_of none = ""
  property_name_of (some p) = p.name

  property_definition_of : Option ObservedPropertyDto → String
  property_definition_of none = ""
  property_definition_of (some p) = p.definition

  unfoldable pub to_canonical_datastream : String → DatastreamDto → Datastream
  unfolding stream_property sensor_metadata cadence_seconds sanitize_unit sensor_name_of
      property_name_of property_definition_of
  to_canonical_datastream native dd = record {
    thing_vendor_native_id = native;
    observed_property = stream_property dd;
    unit = "";
    sensor_metadata = sensor_metadata dd.sensor;
    expected_cadence_seconds = cadence_seconds dd.properties;
    name = dd.name;
    description = dd.description;
    observed_property_name = property_name_of dd.observed_property;
    observed_property_definition = property_definition_of dd.observed_property;
    unit_name = sanitize_unit dd.unit_of_measurement.name;
    unit_symbol = sanitize_unit dd.unit_of_measurement.symbol;
    unit_definition = sanitize_unit dd.unit_of_measurement.definition;
    observation_type = dd.observation_type;
    sensor_name = sensor_name_of dd.sensor;
  }
