-- ===== src/Witnesses/Vendors.antt =====
-- The theorems on the SULO adapter, the reader command and the pages of FROST, at concrete values.
use mathlib.Core.List.{[]}
use clappform_sensor_things.Adapters.Sulo.Mapping.{ContainerSlot, Site}
use clappform_sensor_things.Adapters.Sulo.Discovery.{Discovery, list_things}
use clappform_sensor_things.Adapters.Sulo.Known.{Listed, list_things-Listed}
use clappform_sensor_things.Canonical.{above}
use clappform_sensor_things.Prelude.{
  exists_where, true, All, List, String, arith, drop, exists_where, if◌then◌else◌, length, none,
  refl, some, str_eq, suc, take, ℕ, ◌*◌, ◌+◌, ◌∷◌, ◌≡◌, ◌≤◌, look, put,
}
use clappform_sensor_things.Adapters.Sulo.{Formats, to_observations, FillLevel}
use clappform_sensor_things.Reader.{
  DiscoveredStream, Reader, RunResult, chunk_envelopes, chunk_size, copy_stream, get_cursor,
  advanced, chunks, copy_fetched, max_phenomenon_time, post_all, posted_to, saved, start_of,
}
use clappform_sensor_things.Adapters.Collaborall.{Envelope}
use clappform_sensor_things.Witnesses.World.{container, level, reading}
use clappform_sensor_things.Frost.Collections.{
  get_all, get_all-Chain, get_collection_url, last, page, more, ReadClient,
}
use clappform_sensor_things.Adapters.Sulo.Client.{Reen, no_header}
use clappform_sensor_things.Adapters.Sulo.Levels.{Ascending, InWindow, to_observations-Ascending}
use clappform_sensor_things.Prelude.Int.{pos}
use clappform_sensor_things.Adapters.Sulo.Pages.{paged, paged_complete}
use clappform_sensor_things.Failure.{Result, ok}
use clappform_sensor_things.Reader.Chunks.{IsChunk, chunk_envelopes-contents, contents}
use clappform_sensor_things.Reader.Progress.{Forward, copy_stream-Forward}
use clappform_sensor_things.Reader.Newest.{has_phenomenon_time, copy_stream-newest}

abbrev formats : Formats
formats = record {
  trim_space = λ s. s;
  parse_rfc3339 = λ s. if str_eq s "a" then some 100 else if str_eq s "b" then some 200 else none;
  rfc3339 = λ t. "time";
  parse_int = λ s. some (pos 7);
  format_int = λ n. "7";
  quote = λ s. s;
}

abbrev level_at : String → FillLevel
level_at s = record { time = s; fill_level = some (above 0); confidence = some (pos 1) }

-- The newest first, one of them twice, and one without a time.
abbrev rows : List FillLevel
rows = level_at "b" ∷ level_at "a" ∷ level_at "b" ∷ level_at "never" ∷ []

to_observations-Ascending_example :
    Ascending (to_observations formats 300 50 (pos 1) (pos 7) rows)
    × All (InWindow 300 50) (to_observations formats 300 50 (pos 1) (pos 7) rows)
to_observations-Ascending_example = to_observations-Ascending formats 300 50 (pos 1) (pos 7) rows

abbrev three : List ℕ
three = 1 ∷ 2 ∷ 3 ∷ []

abbrev serve : ℕ → ℕ → ℕ → Result (List ℕ) × ℕ
serve size offset s = (ok (take size (drop offset three)), suc s)

paged_complete_example : (paged serve 2 0 0).0 ≡ ok three
paged_complete_example =
    paged_complete serve 2 three (λ size offset s. refl) 0 (omega arith) (omega arith)

-- A server that answers each request with one short page.
abbrev serving : {A : Type 0} → A → Reen ℕ A
serving x = record {
  username = "user";
  password = "secret";
  page_size = 100;
  clock = λ w. w;
  sign_in =
      λ w. (some (record { status = 200; retry_after = no_header; body = some "new" }), suc w);
  page = λ size offset token w.
      (some (record { status = 200; retry_after = no_header; body = some x }), suc w);
}

abbrev slot_7 : ContainerSlot
slot_7 = record {
  id = pos 7;
  name = "Glass";
  customer_key = "";
  content_type = pos 3;
  site_content_type = pos 0;
  site = pos 5;
  container = pos 0;
}

abbrev site_5 : Site
site_5 = record {
  id = pos 5;
  name = "Square";
  type_name = "";
  area_name = "";
  address = "Markt 1";
  city = "";
  postal_code = "";
  region = "";
  country = "NL";
  latitude = some (above 51);
  longitude = some (above 5);
}

-- Two slots, of which one has no site.
abbrev discovery : Discovery ℕ
discovery = record {
  formats = formats;
  cadence = pos 300;
  container_slots = serving (slot_7 ∷ record slot_7 { site = pos 6 } ∷ []);
  sites = serving (site_5 ∷ []);
  linked_devices = serving [];
  content_types = serving [];
}

list_things-Listed_example :
    Listed discovery [] (list_things discovery [] (record { token = "new"; gen = 1; world = 0 })).0
list_things-Listed_example =
    list_things-Listed discovery [] (record { token = "new"; gen = 1; world = 0 })

abbrev pub stream : DiscoveredStream
stream = record {
  thing = container;
  datastream = level;
  source_thing_id = pos 1;
  source_datastream_id = pos 2;
  key = "2";
}

-- Ten bytes, and five for each observation.
abbrev json_len : Envelope → ℕ
json_len e = 10 + 5 * length e.observations

chunk_envelopes-contents_example :
    (contents (chunk_envelopes json_len stream (reading ∷ reading ∷ reading ∷ []) 21)
      ≡ reading ∷ reading ∷ reading ∷ [])
    × All
        (IsChunk stream (chunk_size json_len stream (reading ∷ reading ∷ reading ∷ []) 21))
        (chunk_envelopes json_len stream (reading ∷ reading ∷ reading ∷ []) 21)
chunk_envelopes-contents_example =
    chunk_envelopes-contents json_len stream (reading ∷ reading ∷ reading ∷ []) 21

abbrev pub reader : Reader ℕ
reader = record {
  source = record {
    discover = λ w. (ok (stream ∷ []), w);
    fetch_observations = λ st since w. (ok (reading ∷ []), w);
  };
  post = λ env w. (ok (record { accepted = 1; skipped_idempotent = 0; rejected = 0 }), suc w);
  save = λ m w. (none, suc w);
  now = λ w. (1000, w);
  lookback = 100;
  json_len = json_len;
}

abbrev no_result : RunResult
no_result = record { streams = 1; posts = 0; accepted = 0; skipped = 0; rejected = 0 }

copy_stream-Forward_example :
    Forward "2" (("2", 400) ∷ []) (copy_stream reader stream (("2", 400) ∷ []) no_result 0).0
copy_stream-Forward_example = copy_stream-Forward reader stream "2" (("2", 400) ∷ []) no_result 0

copy_stream-newest_example :
    (get_cursor "2" (copy_stream reader stream (("2", 400) ∷ []) no_result 0).0.0 ≡ 500000)
    × ((500000 ≤ 500000) × Unit {0})
    × (exists_where (has_phenomenon_time 500000) (reading ∷ []) ≡ true)
unfolding copy_stream copy_fetched posted_to post_all chunk_envelopes chunk_size chunks start_of
    get_cursor look max_phenomenon_time advanced put saved
copy_stream-newest_example =
    copy_stream-newest reader stream "2" (("2", 400) ∷ []) no_result 0 reading [] refl refl

-- Two pages, of which the first links to the second.
abbrev things_reader : ReadClient ℕ ℕ
things_reader = record {
  base_url = "http://frost";
  send = λ url w. (
    if str_eq url "http://frost/Things"
        then page 200 (some (1 ∷ 2 ∷ [], "Things?$skip=2"))
        else page 200 (some (3 ∷ [], "")),
    suc w,
  );
}

get_all-Chain_example :
    get_all things_reader 1 0 "http://frost/Things" 0 ≡ some (ok (1 ∷ 2 ∷ 3 ∷ []), 2)
unfolding get_collection_url
get_all-Chain_example = get_all-Chain things_reader "http://frost/Things" 0 refl (
    more {url = "http://frost/Things?$skip=2"} {next = ""} {w = 1} {v = 2} {items = 3 ∷ []} refl
      refl (last 2))
