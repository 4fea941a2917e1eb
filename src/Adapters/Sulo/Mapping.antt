-- ===== src/Adapters/Sulo/Mapping.antt =====
-- internal/adapters/sulo/mapping.go: what the adapter knows of a container slot, as a canonical Thing
-- and Datastream. The records have the fields that it reads; an id that is not set is 0.
use clappform_sensor_things.Canonical.{
  Coord, Datastream, Float64, StringMap, Thing, above, fill_level, percent,
}
use clappform_sensor_things.Prelude.{
  List, Option, String, [], and_some, if◌then◌else◌, none, not, put, some, sprint, str_eq, ◌∷◌,
}
use clappform_sensor_things.Adapters.Sulo.{Formats}
use clappform_sensor_things.Prelude.Int.{eqz, pos, ℤ}

pub record ContainerSlot : Type 0 where
  pub id : ℤ
  pub name : String
  pub customer_key : String
  pub content_type : ℤ
  pub site_content_type : ℤ
  pub site : ℤ
  pub container : ℤ

pub record Site : Type 0 where
  pub id : ℤ
  pub name : String
  pub type_name : String
  pub area_name : String
  pub address : String
  pub city : String
  pub postal_code : String
  pub region : String
  pub country : String
  pub latitude : Option Float64
  pub longitude : Option Float64

pub record Device : Type 0 where
  pub id : ℤ
  pub brand : String
  pub model : String
  pub serial : String
  pub container : ℤ
  pub installed : String
  pub last_connection : String
  pub signal : Option ℤ
  pub battery_percentage : Option ℤ

pub record ContentType : Type 0 where
  pub id : ℤ
  pub name : String
  pub english_name : String
  pub category_name : String

pub record SlotView : Type 0 where
  pub slot : ContainerSlot
  pub site : Option Site
  pub device : Option Device
  pub content_type : Option ContentType

unfoldable pub label : ContentType → String
label c =
    if not (str_eq c.name "")
    then c.name
    else if not (str_eq c.english_name "")
    then c.english_name
    else c.category_name

unfoldable pub coord : SlotView → Option Coord
coord v = and_some v.site λ s.
    and_some s.latitude λ lat. and_some s.longitude λ lon. some (record { lon = lon; lat = lat })

unfoldable pub content_label : SlotView → String
unfolding label
content_label v = elim v.content_type [ none ↦ "" | some c ↦ label c ]

module _ (f : Formats) where
  unfoldable pub native_id : SlotView → String
  native_id v = f.format_int v.slot.id

  unfoldable pub set_if : String → String → StringMap → StringMap
  unfolding put
  set_if key value m = if str_eq (f.trim_space value) "" then m else put key (f.trim_space value) m

  unfoldable pub set_if_non_zero : String → ℤ → StringMap → StringMap
  unfolding put
  set_if_non_zero key value m = if eqz value (pos 0) then m else put key (f.format_int value) m

  -- m[key] = strconv.Itoa(*value), unless value is nil
  set_number : String → Option ℤ → StringMap → StringMap
  unfolding put
  set_number key none m = m
  set_number key (some n) m = put key (f.format_int n) m

  non_empty : List String → List String
  non_empty [] = []
  non_empty (s ∷ ss) =
      let rest = non_empty ss in if str_eq (f.trim_space s) "" then rest else f.trim_space s ∷ rest

  -- strings.Join(parts, ", ")
  joined_by_comma : List String → String
  joined_by_comma [] = ""
  joined_by_comma (s ∷ []) = s
  joined_by_comma (s ∷ r) = sprint (s ∷ ", " ∷ joined_by_comma r ∷ [])

  described_site : Option Site → String
  unfolding non_empty joined_by_comma
  described_site none = ""
  described_site (some s) =
      let loc =
        f.trim_space (joined_by_comma (non_empty (s.address ∷ s.postal_code ∷ s.city ∷ []))) in
      sprint (
        (if str_eq s.name "" then "" else sprint (" at site " ∷ f.quote s.name ∷ []))
        ∷ (if str_eq loc "" then "" else sprint (" (" ∷ loc ∷ ")" ∷ []))
        ∷ [])

  unfoldable pub describe : SlotView → String
  unfolding described_site content_label
  describe v = sprint (
      "SULO waste container slot"
      ∷ (if str_eq v.slot.name "" then "" else sprint (" " ∷ f.quote v.slot.name ∷ []))
      ∷ (if str_eq (content_label v) "" then "" else sprint (" for " ∷ content_label v ∷ []))
      ∷ described_site v.site
      ∷ [])

  site_properties : Option Site → StringMap → StringMap
  unfolding set_if
  site_properties none m = m
  site_properties (some s) m = set_if "country" s.country (
      set_if "region" s.region (
        set_if "city" s.city (
          set_if "postal_code" s.postal_code (
            set_if "address" s.address (
              set_if "reen_site_area" s.area_name
                (set_if "reen_site_type" s.type_name (set_if "reen_site_name" s.name m)))))))

  device_properties : Option Device → StringMap → StringMap
  unfolding set_if set_if_non_zero
  device_properties none m = m
  device_properties (some d) m =
      set_if "device_serial" d.serial (set_if_non_zero "reen_device_id" d.id m)

  slot_properties : SlotView → StringMap
  unfolding set_if set_if_non_zero content_label
  slot_properties v =
      let p0 = ("reen_container_slot_id", f.format_int v.slot.id) ∷ [] in
      let p1 = set_if "reen_container_slot_name" v.slot.name p0 in
      let p2 = set_if "reen_customer_key" v.slot.customer_key p1 in
      let p3 = set_if_non_zero "reen_content_type_id" v.slot.content_type p2 in
      let p4 = set_if "reen_content_type_name" (content_label v) p3 in
      let p5 = set_if_non_zero "reen_site_content_type_id" v.slot.site_content_type p4 in
      let p6 = set_if_non_zero "reen_site_id" v.slot.site p5 in
      set_if_non_zero "reen_container_id" v.slot.container p6

  unfoldable pub properties : SlotView → StringMap
  unfolding slot_properties site_properties device_properties
  properties v = device_properties v.device (site_properties v.site (slot_properties v))

  -- The zero Coord, where there is none; the name stays empty.
  unfoldable pub to_canonical_thing : SlotView → Thing
  unfolding native_id describe properties coord
  to_canonical_thing v = record {
    vendor_id = "sulo";
    vendor_native_id = native_id v;
    name = "";
    description = describe v;
    location = elim (coord v) [ none ↦ record { lon = above 0; lat = above 0 } | some c ↦ c ];
    properties = properties v;
  }

  unfoldable pub sensor_metadata : Option Device → StringMap
  unfolding set_if set_number
  sensor_metadata none =
      ("source_system", "reen") ∷ ("model", "reen-unlinked") ∷ ("firmware_version", "unknown") ∷ []
  sensor_metadata (some d) =
      let m0 : StringMap =
        ("source_system", "reen")
        ∷ ("model", if str_eq d.model "" then "reen-device" else d.model)
        ∷ ("firmware_version", "unknown")
        ∷ [] in
      let m1 = set_if "brand" d.brand m0 in
      let m2 = set_if "serial" d.serial m1 in
      let m3 = set_if "reen_device_id" (f.format_int d.id) m2 in
      let m4 = set_if "installed" d.installed m3 in
      let m5 = set_if "last_connection" d.last_connection m4 in
      set_number "battery_percent" d.battery_percentage (set_number "signal_percent" d.signal m5)

  unfoldable pub datastream_description : SlotView → String
  unfolding content_label native_id
  datastream_description v = sprint (
      "Fill level (% of capacity) of "
      ∷ (if str_eq (content_label v) "" then "waste" else content_label v)
      ∷ " in SULO container slot "
      ∷ (if str_eq v.slot.name "" then native_id v else v.slot.name)
      ∷ [])

  unfoldable pub to_canonical_datastream : ℤ → SlotView → Datastream
  unfolding native_id sensor_metadata datastream_description
  to_canonical_datastream cadence v = record {
    thing_vendor_native_id = native_id v;
    observed_property = fill_level;
    unit = percent;
    sensor_metadata = sensor_metadata v.device;
    expected_cadence_seconds = cadence;
    name = "";
    description = datastream_description v;
    observed_property_name = "";
    observed_property_definition = "";
    unit_name = "";
    unit_symbol = "";
    unit_definition = "";
    observation_type = "";
    sensor_name = "";
  }
