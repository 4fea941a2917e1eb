-- ===== src/Reader.antt =====
-- cmd/collaborall-reader/run.go, cursor.go and sink.go: one cycle of the reader that copies a source
-- FROST-Server to the push endpoint. `Source` is internal/adapters/collaborall/source, by its two
-- calls; `json_len` is the length of an envelope as JSON, 0 if it cannot be encoded.
pub mod Chunks
pub mod Progress
pub mod Newest
pub mod Setup
pub mod Files
pub mod Sink
pub mod Running
use clappform_sensor_things.Failure.{Action, Effect, Error, Result, err, ok}
use clappform_sensor_things.Canonical.{
  Datastream, Duration, Observation, Thing, Time, after, is_zero,
}
use clappform_sensor_things.Prelude.{
  Bool, List, Option, String, [], drop, false, if◌then◌else◌, length, look, ltb, none, put, some,
  suc, take, true, zero, ℕ, ◌+◌, ◌-◌, ◌/◌, ◌∷◌,
}
use clappform_sensor_things.Frost.Entities.{datastreams, things}
use clappform_sensor_things.Prelude.Int.{ℤ}
use clappform_sensor_things.Adapters.Collaborall.{Envelope}

pub record DiscoveredStream : Type 0 where
  pub thing : Thing
  pub datastream : Datastream
  pub source_thing_id : ℤ
  pub source_datastream_id : ℤ
  pub key : String  -- strconv.FormatInt(SourceDatastreamID, 10)

pub record Source (W : Type 0) : Type 0 where
  pub discover : Action W (List DiscoveredStream)
  pub fetch_observations : DiscoveredStream → Time → Action W (List Observation)

pub record IngestResponse : Type 0 where
  pub accepted : ℕ
  pub skipped_idempotent : ℕ
  pub rejected : ℕ

-- `post` is the sink; `save` writes the cursor file, and is called with the whole map.
pub record Reader (W : Type 0) : Type 0 where
  pub source : Source W
  pub post : Envelope → Action W IngestResponse
  pub save : List (String × Time) → Effect W
  pub now : W → Time × W
  pub lookback : Duration
  pub json_len : Envelope → ℕ

pub record RunResult : Type 0 where
  pub streams : ℕ
  pub posts : ℕ
  pub accepted : ℕ
  pub skipped : ℕ
  pub rejected : ℕ

abbrev pub Cursors : Type 0
Cursors = List (String × Time)

-- 900 * 1024
abbrev pub max_envelope_bytes : ℕ
max_envelope_bytes = 921600

-- The zero time, if unset.
unfoldable pub get_cursor : String → Cursors → Time
unfolding look
get_cursor key m = elim (look key m) [ none ↦ 0 | some t ↦ t ]

-- The map after `advance`, and whether it is to be saved.
unfoldable pub advanced : String → Time → Cursors → Cursors × Bool
unfolding look put
advanced key ts m = elim (look key m) [
  | none ↦ (put key ts m, true)
  | some cur ↦ if after ts cur then (put key ts m, true) else (m, false)
]

unfoldable pub max_phenomenon_time : Time → List Observation → Time
max_phenomenon_time max [] = max
max_phenomenon_time max (o ∷ os) =
    max_phenomenon_time (if after o.phenomenon_time max then o.phenomenon_time else max) os

unfoldable pub envelope_of : DiscoveredStream → List Observation → Envelope
envelope_of st obs = record {
  things = record { thing = st.thing; datastreams = st.datastream ∷ [] } ∷ [];
  observations = obs;
}

-- How many observations go into one envelope.
unfoldable pub chunk_size : (Envelope → ℕ) → DiscoveredStream → List Observation → ℕ → ℕ
unfolding envelope_of
chunk_size json_len st obs max_bytes =
    let overhead = json_len (envelope_of st []) in
    let with_one = json_len (envelope_of st (take 1 obs)) - overhead in
    let per_obs = if ltb 1 with_one then with_one else 1 in
    let n = (max_bytes - overhead) / per_obs in if ltb n 1 then 1 else n

-- `for i := 0; i < len(obs); i += n`; there are at most as many turns as observations.
unfoldable pub chunks : ℕ → DiscoveredStream → ℕ → List Observation → List Envelope
unfolding envelope_of
chunks n st fuel [] = []
chunks n st zero (o ∷ os) = []
chunks n st (suc fuel) (o ∷ os) =
    envelope_of st (take n (o ∷ os)) ∷ chunks n st fuel (drop n (o ∷ os))

unfoldable pub chunk_envelopes :
    (Envelope → ℕ) → DiscoveredStream → List Observation → ℕ → List Envelope
unfolding chunk_size chunks
chunk_envelopes json_len st obs max_bytes =
    chunks (chunk_size json_len st obs max_bytes) st (length obs) obs

unfoldable pub add_response : IngestResponse → RunResult → RunResult
add_response resp res = record res {
  posts = suc res.posts;
  accepted = res.accepted + resp.accepted;
  skipped = res.skipped + resp.skipped_idempotent;
  rejected = res.rejected + resp.rejected;
}

module _ {W : Type 0} (reader : Reader W) where
  -- The envelopes in turn; the first failure ends it.
  unfoldable pub post_all : List Envelope → RunResult → W → (RunResult × Option Error) × W
  unfolding add_response
  post_all [] res w = ((res, none), w)
  post_all (env ∷ envs) res w =
      let (resp, w') = reader.post env w in
      elim resp [ err e ↦ ((res, some e), w') | ok r ↦ post_all envs (add_response r res) w' ]

  unfoldable pub saved : Cursors × Bool → W → Cursors × W
  saved (m, false) w = (m, w)
  saved (m, true) w = (m, (reader.save m w).1)

  -- After the posts: the cursor moves if none failed. The error of the save is only logged.
  unfoldable pub posted_to :
      String
      → Time
      → Cursors
      → (RunResult × Option Error) × W
      → (Cursors × RunResult × Option Error) × W
  unfolding advanced saved
  posted_to key newest m ((res, some e), w) = ((m, res, some e), w)
  posted_to key newest m ((res, none), w) =
      let (m', w') = saved (advanced key newest m) w in ((m', res, none), w')

  unfoldable pub copy_fetched :
      DiscoveredStream
      → Cursors
      → RunResult
      → Result (List Observation) × W
      → (Cursors × RunResult × Option Error) × W
  unfolding post_all posted_to chunk_envelopes max_phenomenon_time
  copy_fetched st m res (err e, w) = ((m, res, some e), w)
  copy_fetched st m res (ok [], w) = ((m, res, none), w)
  copy_fetched st m res (ok (o ∷ os), w) =
      posted_to st.key (max_phenomenon_time o.phenomenon_time os) m
        (post_all (chunk_envelopes reader.json_len st (o ∷ os) max_envelope_bytes) res w)

  unfoldable pub start_of : Time → W → Time × W
  start_of since w =
      if is_zero since then ((reader.now w).0 - reader.lookback, (reader.now w).1) else (since, w)

  -- One stream: the cursors, the counts and the error, if it failed.
  unfoldable pub copy_stream :
      DiscoveredStream → Cursors → RunResult → W → (Cursors × RunResult × Option Error) × W
  unfolding copy_fetched get_cursor start_of
  copy_stream st m res w =
      let (start, w') = start_of (get_cursor st.key m) w in
      copy_fetched st m res (reader.source.fetch_observations st start w')

  -- firstErr
  first_error : Option Error → Option Error → Option Error
  first_error none e = e
  first_error (some first) e = some first

  unfoldable pub copy_streams :
      List DiscoveredStream
      → Cursors
      → RunResult
      → Option Error
      → W
      → (Cursors × RunResult × Option Error) × W
  unfolding copy_stream first_error
  copy_streams [] m res e w = ((m, res, e), w)
  copy_streams (st ∷ sts) m res e w =
      let ((m', res', e'), w') = copy_stream st m res w in
      copy_streams sts m' res' (first_error e e') w'

  discovered :
      Cursors → Result (List DiscoveredStream) × W → (Cursors × RunResult × Option Error) × W
  unfolding copy_streams
  discovered m (err e, w) =
      ((m, record { streams = 0; posts = 0; accepted = 0; skipped = 0; rejected = 0 }, some e), w)
  discovered m (ok sts, w) =
      copy_streams sts m
        (record { streams = length sts; posts = 0; accepted = 0; skipped = 0; rejected = 0 }) none w

  unfoldable pub run_once : Cursors → W → (Cursors × RunResult × Option Error) × W
  unfolding discovered
  run_once m w = discovered m (reader.source.discover w)
