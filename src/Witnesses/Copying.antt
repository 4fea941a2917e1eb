-- ===== src/Witnesses/Copying.antt =====
-- The theorems on the copy of a source FROST-Server, at concrete values.
use package.text.Mathlib.TextLemmas.{cons≢nil}
use clappform_sensor_things.Prelude.{
  take, ◌<◌, List, String, [], arith, inl, is_some, none, refl, some, str_eq, true, false, ◌∷◌, ◌≡◌,
  ◌≢◌, ◌≤◌, ◌⊎◌, ℕ, length, if◌then◌else◌,
}
use clappform_sensor_things.Canonical.{Observation, above}
use clappform_sensor_things.Failure.{ok, text}
use clappform_sensor_things.Prelude.Int.{pos}
use clappform_sensor_things.Frost.Capped.{get_all-ends}
use clappform_sensor_things.Frost.Collections.{ReadClient, get_all, get_collection_url, page}
use clappform_sensor_things.Adapters.Collaborall.{Envelope, authenticate, decode_push, to_batch}
use clappform_sensor_things.Adapters.Collaborall.Source.{Library}
use clappform_sensor_things.Adapters.Collaborall.Source.Fetch.{
  get_items, observation_query, SourceReader, cap_of, fetch_observations, limit_of,
}
use clappform_sensor_things.Adapters.Collaborall.Source.Copies.{
  fetch_observations-Selects, Selects, asked,
}
use clappform_sensor_things.Reader.{get_cursor}
use clappform_sensor_things.Reader.Files.{
  Files, cut_short, persisted, persisted_atomic, temporary, write_file,
}
use clappform_sensor_things.Reader.Setup.{run, shutdown, tick}
use clappform_sensor_things.Reader.Running.{run-forward}
use clappform_sensor_things.Reader.Sink.{
  Http, answered, is_success, post, post-delivered, request_of,
}
use clappform_sensor_things.Witnesses.Vendors.{reader, stream}
use clappform_sensor_things.Witnesses.World.{container, level, reading}

-- One page of two items, with no next one.
abbrev source : ReadClient ℕ String
source = record {
  base_url = "https://source";
  send = λ url w. (page 200 (some ("first" ∷ "second" ∷ [], "")), w);
}

source-progress :
    (url : String) (w : ℕ) (items : List String) (next : String)
    → (get_collection_url source url w).0 ≡ ok (items, next)
    → (next ≡ "") ⊎ (0 < length items)
unfolding get_collection_url
source-progress url w items next h = inl cc

get_all-ends_example : is_some (get_all source 5 5 "https://source/Things" 0) ≡ true
get_all-ends_example = get_all-ends source source-progress 5 "https://source/Things" 0 (omega arith)

-- The second item has no result.
abbrev library : Library
library = record {
  thing_dto = λ s. none;
  datastream_dto = λ s. none;
  observation_dto = λ s. some (record {
    iot_id = pos 1;
    phenomenon_time = "now";
    result_time = "";
    result = if str_eq s "first" then "42" else "";
  });
  object = λ s. none;
  text_of = λ s. none;
  number_of = λ s. some (above 0);
  parse_time = λ s. some 500;
  format_time = λ t. "now";
  format_int = λ n. "1";
  int_overflow = λ f. pos 0;
}

abbrev copier : SourceReader ℕ
copier = record { client = source; watch = []; page_limit = pos 1000 }

items_read :
    (items : List String) × (asked library (λ q. "") copier 9 stream 0 (pos 0) 0
      ≡ some (ok items, 0))
unfolding get_items limit_of observation_query
items_read = (_, refl)

fetch_observations-Selects_example :
    (os : List Observation) × (fetch_observations library (λ q. "") copier 9 stream 0 (pos 0) 0
      ≡ some (ok os, 0))
    × Selects library
        (λ q. "")
        copier
        9
        stream
        (take (cap_of (limit_of library (λ q. "") copier 9 (pos 0))) items_read.0)
        os
    × (length os ≤ cap_of (limit_of library (λ q. "") copier 9 (pos 0)))
fetch_observations-Selects_example =
    fetch_observations-Selects library (λ q. "") copier 9 stream 0 (pos 0) 0 items_read.0 0
      items_read.1

-- A disk that is full halfway.
abbrev disk : Files
disk p = if str_eq p "cursors.json" then some "{}" else none

persisted_atomic_example :
    ((write_file (cut_short "{") (temporary "cursors.json") "{1}" disk).1 "cursors.json"
      ≡ some "{}")
    × (((persisted (cut_short "{") true "cursors.json" (some "{1}") disk).0 ≡ none)
          × ((persisted (cut_short "{") true "cursors.json" (some "{1}") disk).1 "cursors.json"
              ≡ some "{1}")
        ⊎ ((persisted (cut_short "{") true "cursors.json" (some "{1}") disk).0 ≡ some text)
          × ((persisted (cut_short "{") true "cursors.json" (some "{1}") disk).1 "cursors.json"
              ≡ some "{}"))
    × ((p : String)
        → p ≢ "cursors.json"
        → p ≢ temporary "cursors.json"
        → (persisted (cut_short "{") true "cursors.json" (some "{1}") disk).1 p ≡ disk p)
persisted_atomic_example = persisted_atomic (cut_short "{") true "cursors.json" "{1}" disk

run-forward_example :
    get_cursor "2" (("2", 400) ∷ [])
    ≤ get_cursor "2" (run reader false (tick ∷ shutdown ∷ tick ∷ []) (("2", 400) ∷ []) 0).0
run-forward_example = run-forward reader "2" false (tick ∷ shutdown ∷ tick ∷ []) (("2", 400) ∷ []) 0

abbrev envelope : Envelope
envelope = record {
  things = record { thing = container; datastreams = level ∷ [] } ∷ [];
  observations = reading ∷ [];
}

abbrev endpoint : Http ℕ
endpoint = record {
  marshal = λ env. some "{}";
  unmarshal = λ s. none;
  first_bytes = λ n s. s;
  send = λ q w. (answered 202 "{}", w);
}

delivered :
    post endpoint "https://svc" "s3cret" envelope 0
    ≡ (ok (record { accepted = 0; skipped_idempotent = 0; rejected = 0 }), 0)
unfolding post
delivered = refl

post-delivered_example :
    (body : String) × (status : ℕ) × (raw : String) × (endpoint.send
        (request_of "https://svc" "s3cret" body)
        0
      ≡ (answered status raw, 0))
    × (is_success status ≡ true)
    × (authenticate "s3cret" (request_of "https://svc" "s3cret" body).headers body ≡ none)
    × (decode_push (λ s. some envelope) body ≡ ok (to_batch envelope))
post-delivered_example =
    post-delivered endpoint "https://svc" "s3cret" (λ s. some envelope) envelope 0 delivered
      (λ e. cons≢nil e) (λ body h. refl)
