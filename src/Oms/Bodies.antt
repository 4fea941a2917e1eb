-- ===== src/Oms/Bodies.antt =====
-- mapper.go, the bodies of the entities.
-- Entries of `extra` replace those of `base`.
use clappform_sensor_things.Frost.Entities.{
  ResultValue, StaDatastream, StaFeatureOfInterest, StaLocation, StaObservation,
  StaObservedProperty, StaSensor, StaThing, UnitOfMeasurement, encoding_geojson, encoding_json,
  new_point, number, verbatim,
}
use clappform_sensor_things.Canonical.{
  Datastream, Observation, StringMap, Thing, celsius, fill_level, percent, volt,
}
use clappform_sensor_things.Prelude.{
  String, [], if◌then◌else◌, none, not, put, some, sprint, str_eq, ◌∷◌, ◌||◌,
}
use clappform_sensor_things.Prelude.Int.{ltz, pos, ℤ}
use clappform_sensor_things.Oms.Names.{
  datastream_entity_name, foi_entity_name, human_property, location_entity_name,
  observed_property_entity_name, or_default, sensor_entity_name, thing_entity_name, title_case,
  Config,
}

unfoldable pub merge_properties : StringMap → StringMap → StringMap
unfolding put
merge_properties base [] = base
merge_properties base ((k, v) ∷ extra) = put k v (merge_properties base extra)

module _ (cfg : Config) where
  -- `seen` is the text of the time of the call
  unfoldable pub thing_payload : Thing → String → StaThing
  unfolding merge_properties thing_entity_name
  thing_payload t seen = record {
    name = thing_entity_name cfg t;
    description = t.description;
    properties =
        merge_properties
          (("vendor", t.vendor_id)
            ∷ ("vendor_native_id", t.vendor_native_id)
            ∷ ("clappform_source_system", cfg.source_system)
            ∷ ("first_seen_at", seen)
            ∷ [])
          t.properties;
  }

  unfoldable pub location_payload : Thing → String → StaLocation
  unfolding location_entity_name title_case new_point
  location_payload t date = record {
    name = location_entity_name cfg t date;
    description = sprint ("Location of " ∷ title_case t.vendor_id ∷ " " ∷ t.vendor_native_id ∷ []);
    encoding_type = encoding_geojson;
    location = new_point t.location.lon t.location.lat;
  }

  unfoldable pub sensor_payload : Thing → Datastream → StaSensor
  unfolding sensor_entity_name
  sensor_payload t d = record {
    name = sensor_entity_name cfg t d;
    description = "Vendor-supplied sensor";
    encoding_type = encoding_json;
    metadata = d.sensor_metadata;
  }

  unfoldable pub observed_property_payload : Datastream → StaObservedProperty
  unfolding observed_property_entity_name
  observed_property_payload d = record {
    name = observed_property_entity_name cfg d;
    description =
        if not (str_eq d.observed_property_name "")
        then d.observed_property_name
        else if str_eq d.observed_property fill_level
        then "Container fill level as a percentage of total capacity"
        else d.observed_property;
    definition =
        if not (str_eq d.observed_property_name "")
        then d.observed_property_definition
        else if str_eq d.observed_property fill_level
        then cfg.fill_level_definition
        else "";
  }

  unfoldable pub unit_payload : Datastream → UnitOfMeasurement
  unit_payload d =
      if not (str_eq d.unit_name "")
        || not (str_eq d.unit_symbol "")
        || not (str_eq d.unit_definition "")
      then record { name = d.unit_name; symbol = d.unit_symbol; definition = d.unit_definition }
      else if str_eq d.unit percent
      then record { name = "Percent"; symbol = "%"; definition = cfg.percent_unit_definition }
      else if str_eq d.unit celsius
      then record {
        name = "Degree Celsius";
        symbol = "°C";
        definition = "http://www.opengis.net/def/uom/UCUM/0/Cel";
      }
      else if str_eq d.unit volt
      then record {
        name = "Volt";
        symbol = "V";
        definition = "http://www.opengis.net/def/uom/UCUM/0/V";
      }
      else record { name = d.unit; symbol = ""; definition = "" }

  unfoldable pub datastream_payload : Thing → Datastream → ℤ → ℤ → ℤ → StaDatastream
  unfolding unit_payload datastream_entity_name human_property title_case or_default
  datastream_payload t d thing_id sensor_id observed_property_id = record {
    name = datastream_entity_name cfg t d;
    description = or_default d.description (
        sprint (
          human_property d.observed_property
          ∷ " observations for "
          ∷ title_case t.vendor_id
          ∷ " "
          ∷ t.vendor_native_id
          ∷ []));
    unit_of_measurement = unit_payload d;
    observation_type = or_default d.observation_type cfg.observation_type_measurement;
    thing = thing_id;
    sensor = sensor_id;
    observed_property = observed_property_id;
    expected_cadence_seconds = d.expected_cadence_seconds;
  }

  unfoldable pub foi_payload : Thing → StaFeatureOfInterest
  unfolding foi_entity_name title_case new_point
  foi_payload t = record {
    name = foi_entity_name cfg t;
    description =
        sprint ("Geographic location of " ∷ title_case t.vendor_id ∷ " " ∷ t.vendor_native_id ∷ []);
    encoding_type = encoding_geojson;
    feature = new_point t.location.lon t.location.lat;
  }

result_value : Observation → ResultValue
result_value o = elim o.result_raw [ none ↦ number o.result | some raw ↦ verbatim raw ]

-- An id that is not positive leaves the reference out.
unfoldable pub observation_payload : Observation → ℤ → StaObservation
unfolding result_value
observation_payload o foi_id = record {
  phenomenon_time = o.phenomenon_time;
  result_time = o.result_time;
  result = result_value o;
  feature_of_interest = if ltz (pos 0) foi_id then some foi_id else none;
  raw_observation_id = o.raw_observation_id;
  validated_by = "clappform-translation-layer";
  validation_version = "v1";
}
