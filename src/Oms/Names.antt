-- ===== src/Oms/Names.antt =====
-- mapper.go, the names: one function for each entity, used by the lookup and by the body.
use clappform_sensor_things.Canonical.{
  Datastream, ObservedProperty, StringMap, Thing, battery, fill_level, temperature,
}
use clappform_sensor_things.Prelude.{
  String, [], if◌then◌else◌, look, none, some, sprint, str_eq, upper, ◌∷◌,
}
use clappform_sensor_things.Frost.Entities.{
  measurement_type, qudt_dimensionless_ratio, ucum_percent_definition,
}

pub record Config : Type 0 where
  pub fill_level_definition : String
  pub percent_unit_definition : String
  pub observation_type_measurement : String
  pub source_system : String
  pub entity_name_prefix : String

unfoldable pub default_config : Config
default_config = record {
  fill_level_definition = qudt_dimensionless_ratio;
  percent_unit_definition = ucum_percent_definition;
  observation_type_measurement = measurement_type;
  source_system = "smartsulo";
  entity_name_prefix = "";
}

unfoldable pub title_case : String → String
unfolding upper
title_case String.[] = ""
title_case (String.◌∷◌ c s) = String.◌∷◌ (upper c) s

unfoldable pub human_property : ObservedProperty → String
human_property op =
    if str_eq op fill_level
    then "Fill level"
    else if str_eq op temperature
    then "Temperature"
    else if str_eq op battery
    then "Battery"
    else op

unfoldable pub thing_name : String → String → String
unfolding title_case
thing_name vendor native = sprint (title_case vendor ∷ " Container " ∷ native ∷ [])

unfoldable pub location_name : String → String → String → String
unfolding title_case
location_name vendor native date =
    sprint ("Location of " ∷ title_case vendor ∷ " Container " ∷ native ∷ " at " ∷ date ∷ [])

unfoldable pub sensor_name : String → String → String → String
unfolding title_case
sensor_name vendor model firmware =
    sprint (title_case vendor ∷ " fill-level sensor " ∷ model ∷ " " ∷ firmware ∷ [])

unfoldable pub datastream_name : String → String → ObservedProperty → String
unfolding title_case human_property
datastream_name vendor native op =
    sprint (human_property op ∷ " — " ∷ title_case vendor ∷ " Container " ∷ native ∷ [])

unfoldable pub foi_name : String → String → String
unfolding title_case
foi_name vendor native =
    sprint ("Container location: " ∷ title_case vendor ∷ " Container " ∷ native ∷ [])

-- m[key], or "" where it is missing
text_at : String → StringMap → String
text_at k m = elim (look k m) [ none ↦ "" | some v ↦ v ]

unfoldable pub or_default : String → String → String
or_default s fallback = if str_eq s "" then fallback else s

unfoldable pub sensor_model_firmware : Datastream → String × String
unfolding text_at or_default look
sensor_model_firmware d = (
  or_default (text_at "model" d.sensor_metadata) "unknown",
  or_default (text_at "firmware_version" d.sensor_metadata) "unknown",
)

module _ (cfg : Config) where
  prefixed : String → String
  prefixed s = sprint (cfg.entity_name_prefix ∷ s ∷ [])

  unfoldable pub thing_entity_name : Thing → String
  unfolding prefixed or_default thing_name
  thing_entity_name t = prefixed (or_default t.name (thing_name t.vendor_id t.vendor_native_id))

  unfoldable pub location_entity_name : Thing → String → String
  unfolding prefixed location_name
  location_entity_name t date = prefixed (location_name t.vendor_id t.vendor_native_id date)

  unfoldable pub sensor_entity_name : Thing → Datastream → String
  unfolding prefixed or_default sensor_name sensor_model_firmware
  sensor_entity_name t d =
      let (model, firmware) = sensor_model_firmware d in
      prefixed (or_default d.sensor_name (sensor_name t.vendor_id model firmware))

  unfoldable pub observed_property_entity_name : Datastream → String
  unfolding prefixed or_default human_property
  observed_property_entity_name d =
      prefixed (or_default d.observed_property_name (human_property d.observed_property))

  unfoldable pub datastream_entity_name : Thing → Datastream → String
  unfolding prefixed or_default datastream_name
  datastream_entity_name t d =
      prefixed
        (or_default d.name (datastream_name t.vendor_id t.vendor_native_id d.observed_property))

  unfoldable pub foi_entity_name : Thing → String
  unfolding prefixed foi_name
  foi_entity_name t = prefixed (foi_name t.vendor_id t.vendor_native_id)
