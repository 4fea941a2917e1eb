-- ===== src/Adapters/Collaborall/Source/Fetch.antt =====
-- internal/adapters/collaborall/source/source.go, New, Discover and FetchObservations, on GetAll of
-- internal/frost/reader.go. `none` is a GetAll that ran out of fuel; `encode` is url.Values.Encode.
use clappform_sensor_things.Prelude.{
  List, Option, String, [], if◌then◌else◌, none, some, sprint, str_eq, take, ℕ, ◌++◌, ◌∷◌,
}
use clappform_sensor_things.Prelude.Int.{lez, negsuc, pos, ℤ}
use clappform_sensor_things.Prelude.Strings.{has_prefix}
use clappform_sensor_things.Canonical.{Observation, Time, is_zero}
use clappform_sensor_things.Failure.{Result, err, ok, wrapped}
use clappform_sensor_things.Frost.Collections.{ReadClient, get_all}
use clappform_sensor_things.Reader.{DiscoveredStream}
use clappform_sensor_things.Adapters.Collaborall.Source.{
  DatastreamDto, Library, ObservationDto, ThingDto, matches, new_watch_set, numeric_result,
  parse_sta_time, to_canonical_datastream, to_canonical_thing,
}

abbrev pub default_observation_page_limit : ℤ
default_observation_page_limit = pos 1000

abbrev pub Query : Type 0
Query = List (String × String)

pub record SourceReader (W : Type 0) : Type 0 where
  pub client : ReadClient W String
  pub watch : List String
  pub page_limit : ℤ

unfoldable pub new_source_reader :
    {W : Type 0} → ReadClient W String → List String → ℤ → SourceReader W
unfolding new_watch_set
new_source_reader client watch_sensors limit = record {
  client = client;
  watch = new_watch_set watch_sensors;
  page_limit = if lez limit (pos 0) then default_observation_page_limit else limit;
}

ensure_leading_slash : String → String
unfolding has_prefix
ensure_leading_slash path = if has_prefix path "/" then path else sprint ("/" ∷ path ∷ [])

unfoldable pub collection_url : String → String → String → String
unfolding ensure_leading_slash
collection_url base path query =
    if str_eq query ""
    then sprint (base ∷ ensure_leading_slash path ∷ [])
    else sprint (base ∷ ensure_leading_slash path ∷ "?" ∷ query ∷ [])

-- `if err != nil { return nil, fmt.Errorf("...: %w", err) }`
abbrev pub read_then :
    {W A B : Type 0}
    → Option (Result A × W)
    → (A → W → Option (Result B × W))
    → Option (Result B × W)
read_then none k = none
read_then (some (err e, w)) k = some (err (wrapped e), w)
read_then (some (ok a, w)) k = k a w

-- `continue`, or an append.
abbrev pub cons_some : {A : Type 0} → Option A → List A → List A
cons_some none rest = rest
cons_some (some a) rest = a ∷ rest

-- A cap that is not positive is no cap.
abbrev pub cap_of : ℤ → ℕ
cap_of (pos n) = n
cap_of (negsuc n) = 0

module _ (x : Library) (encode : Query → String) {W : Type 0} (r : SourceReader W) (fuel : ℕ) where
  unfoldable pub get_items : String → Query → ℕ → W → Option (Result (List String) × W)
  unfolding collection_url get_all
  get_items path query cap w =
      get_all r.client fuel cap (collection_url r.client.base_url path (encode query)) w

  -- A Datastream of a Thing, if it decodes and its Sensor is watched.
  unfoldable pub watched_stream : ThingDto → Option DatastreamDto → Option DiscoveredStream
  unfolding matches to_canonical_thing to_canonical_datastream
  watched_stream td none = none
  watched_stream td (some dd) =
      if matches x r.watch dd.sensor
      then some (record {
        thing = to_canonical_thing x td;
        datastream = to_canonical_datastream x (to_canonical_thing x td).vendor_native_id dd;
        source_thing_id = td.iot_id;
        source_datastream_id = dd.iot_id;
        key = x.format_int dd.iot_id;
      })
      else none

  unfoldable pub watched_streams : ThingDto → List String → List DiscoveredStream
  unfolding watched_stream
  watched_streams td [] = []
  watched_streams td (raw ∷ raws) =
      cons_some (watched_stream td (x.datastream_dto raw)) (watched_streams td raws)

  -- One Thing: its Datastreams, with their Sensor and ObservedProperty.
  unfoldable pub streams_of_thing : ThingDto → W → Option (Result (List String) × W)
  unfolding get_items
  streams_of_thing td w =
      get_items (sprint ("/Things(" ∷ x.format_int td.iot_id ∷ ")/Datastreams" ∷ []))
        (("$expand", "Sensor,ObservedProperty") ∷ []) 0 w

  unfoldable pub streams_of :
      List String → List DiscoveredStream → W → Option (Result (List DiscoveredStream) × W)
  unfolding streams_of_thing watched_streams
  streams_of [] out w = some (ok out, w)
  streams_of (raw ∷ raws) out w = elim (x.thing_dto raw) [
    | none ↦ streams_of raws out w
    | some td ↦
        read_then (streams_of_thing td w)
          λ raw_ds v. streams_of raws (out ++ watched_streams td raw_ds) v
  ]

  unfoldable pub discover : W → Option (Result (List DiscoveredStream) × W)
  unfolding get_items streams_of
  discover w =
      read_then (get_items "/Things" (("$expand", "Locations") ∷ []) 0 w)
        λ raws v. streams_of raws [] v

  -- An observation with its times; its result is kept as it was sent.
  unfoldable pub copied : DiscoveredStream → ObservationDto → Time → Option Time → Observation
  unfolding numeric_result
  copied ds od pt rt = record {
    thing_vendor_native_id = ds.thing.vendor_native_id;
    observed_property = ds.datastream.observed_property;
    phenomenon_time = pt;
    result_time = elim rt [ none ↦ pt | some t ↦ t ];
    result = numeric_result x od.result;
    result_raw = some od.result;
    raw_observation_id =
        sprint (x.format_int ds.source_datastream_id ∷ ":" ∷ x.format_int od.iot_id ∷ []);
  }

  -- An item without a phenomenon time or a result is skipped.
  unfoldable pub copy_at : DiscoveredStream → ObservationDto → Option Time → Option Observation
  unfolding parse_sta_time copied
  copy_at ds od none = none
  copy_at ds od (some pt) =
      if str_eq od.result "" then none else some (copied ds od pt (parse_sta_time x od.result_time))

  unfoldable pub copy_of : DiscoveredStream → Option ObservationDto → Option Observation
  unfolding parse_sta_time copy_at
  copy_of ds none = none
  copy_of ds (some od) = copy_at ds od (parse_sta_time x od.phenomenon_time)

  unfoldable pub copies_of : DiscoveredStream → List String → List Observation
  unfolding copy_of
  copies_of ds [] = []
  copies_of ds (raw ∷ raws) = cons_some (copy_of ds (x.observation_dto raw)) (copies_of ds raws)

  unfoldable pub limit_of : ℤ → ℤ
  limit_of limit = if lez limit (pos 0) then r.page_limit else limit

  unfoldable pub observation_query : ℤ → Time → Query
  observation_query limit since =
      ("$orderby", "phenomenonTime asc")
      ∷ ("$top", x.format_int limit)
      ∷ (if is_zero since
          then []
          else ("$filter", sprint ("phenomenonTime gt " ∷ x.format_time since ∷ [])) ∷ [])

  unfoldable pub fetch_observations :
      DiscoveredStream → Time → ℤ → W → Option (Result (List Observation) × W)
  unfolding get_items limit_of observation_query copies_of
  fetch_observations ds since limit w =
      read_then
        (get_items
          (sprint ("/Datastreams(" ∷ x.format_int ds.source_datastream_id ∷ ")/Observations" ∷ []))
          (observation_query (limit_of limit) since) (cap_of (limit_of limit)) w)
        λ raws v. some (ok (copies_of ds (take (cap_of (limit_of limit)) raws)), v)
