-- ===== src/Frost/Entities.antt =====
-- internal/frost/entities.go: the bodies of the STA entities that are posted, and the collections of
-- internal/frost/client.go that they are posted to. A time stands for its RFC 3339 text.
use clappform_sensor_things.Prelude.Int.{ℤ}
use clappform_sensor_things.Canonical.{Float64, StringMap, Time}
use clappform_sensor_things.Prelude.{Option, String, none, some}

pub data Entity : Type 0 where
  things locations sensors observed_properties datastreams features_of_interest : Entity

pub Entity-discrete : Discrete Entity
Entity-discrete = hlevel

-- the collection's name in a URL
unfoldable pub entity_name : Entity → String
entity_name things = "Things"
entity_name locations = "Locations"
entity_name sensors = "Sensors"
entity_name observed_properties = "ObservedProperties"
entity_name datastreams = "Datastreams"
entity_name features_of_interest = "FeaturesOfInterest"

-- GeoJSON order: longitude first
pub record GeoJsonPoint : Type 0 where
  pub first : Float64
  pub second_coordinate : Float64

unfoldable pub new_point : Float64 → Float64 → GeoJsonPoint
new_point lon lat = record { first = lon; second_coordinate = lat }

pub record UnitOfMeasurement : Type 0 where
  pub name : String
  pub symbol : String
  pub definition : String

pub record StaThing : Type 0 where
  pub name : String
  pub description : String
  pub properties : StringMap

pub record StaLocation : Type 0 where
  pub name : String
  pub description : String
  pub encoding_type : String
  pub location : GeoJsonPoint

pub record StaSensor : Type 0 where
  pub name : String
  pub description : String
  pub encoding_type : String
  pub metadata : StringMap

pub record StaObservedProperty : Type 0 where
  pub name : String
  pub description : String
  pub definition : String

-- `thing`, `sensor` and `observed_property` are EntityRefs
pub record StaDatastream : Type 0 where
  pub name : String
  pub description : String
  pub unit_of_measurement : UnitOfMeasurement
  pub observation_type : String
  pub thing : ℤ
  pub sensor : ℤ
  pub observed_property : ℤ
  pub expected_cadence_seconds : ℤ

pub record StaFeatureOfInterest : Type 0 where
  pub name : String
  pub description : String
  pub encoding_type : String
  pub feature : GeoJsonPoint

pub data ResultValue : Type 0 where
  number : Float64 → ResultValue
  verbatim : String → ResultValue

-- `raw_observation_id` is the one entry of Parameters; ResultQuality has two fixed entries.
pub record StaObservation : Type 0 where
  pub phenomenon_time : Time
  pub result_time : Time
  pub result : ResultValue
  pub feature_of_interest : Option ℤ
  pub raw_observation_id : String
  pub validated_by : String
  pub validation_version : String

abbrev pub encoding_geojson : String
encoding_geojson = "application/geo+json"

abbrev pub encoding_json : String
encoding_json = "application/json"

abbrev pub measurement_type : String
measurement_type = "http://www.opengis.net/def/observationType/OGC-OM/2.0/OM_Measurement"

abbrev pub ucum_percent_definition : String
ucum_percent_definition = "http://www.opengis.net/def/uom/UCUM/0/%"

abbrev pub qudt_dimensionless_ratio : String
qudt_dimensionless_ratio = "http://qudt.org/vocab/quantitykind/DimensionlessRatio"

-- What `Post` takes as its body.
pub data Payload : Type 0 where
  thing_body : StaThing → Payload
  location_body : StaLocation → Payload
  sensor_body : StaSensor → Payload
  observed_property_body : StaObservedProperty → Payload
  datastream_body : StaDatastream → Payload
  feature_body : StaFeatureOfInterest → Payload
  observation_body : StaObservation → Payload

-- The "name" of an entity's body; an Observation has none.
unfoldable pub payload_name : Payload → Option String
payload_name (thing_body b) = some b.name
payload_name (location_body b) = some b.name
payload_name (sensor_body b) = some b.name
payload_name (observed_property_body b) = some b.name
payload_name (datastream_body b) = some b.name
payload_name (feature_body b) = some b.name
payload_name (observation_body b) = none
