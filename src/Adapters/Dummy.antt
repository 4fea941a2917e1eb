-- ===== src/Adapters/Dummy.antt =====
-- internal/adapters/dummy/dummy.go: the synthetic vendor. `Arithmetic` has what the source leaves to
-- float64 and fmt: a point of the grid, the percentage of an elapsed time, and numbers as text.
pub mod Ticks
use clappform_sensor_things.Prelude.{
  List, String, [], if◌then◌else◌, leb, ltb, none, sprint, str_eq, suc, zero, ℕ, ◌%◌, ◌&&◌, ◌*◌,
  ◌+◌, ◌-◌, ◌/◌, ◌==◌, ◌^◌, ◌∷◌,
}
use clappform_sensor_things.Witnesses.World.{taken}
use clappform_sensor_things.Adapters.Sulo.Mapping.{properties, sensor_metadata}
use clappform_sensor_things.Canonical.{
  Coord, Datastream, Duration, Float64, Observation, ObservedProperty, Thing, Time, above, after,
  fill_level, lt_float, percent, second, whole,
}
use clappform_sensor_things.Oms.Names.{sensor_name}
use clappform_sensor_things.Adapters.{PollAdapter}
use clappform_sensor_things.Prelude.Int.{negsuc, pos, sub_ℕ, ℤ}
use clappform_sensor_things.State.Postgres.Entities.{list_datastreams}
use clappform_sensor_things.Watchdog.{step}
use clappform_sensor_things.Adapters.Sulo.Fetch.{fetch_observations}
use clappform_sensor_things.Failure.{ok}
use Prim.Native.Char.{code}
use Prim.Native.Nat.{bit_xor}

pub record Arithmetic : Type 0 where
  pub grid : ℕ → ℕ → Coord  -- by column and row
  pub percentage : ℕ → Float64  -- float64(elapsed) / float64(fillCycle) * 100.0
  pub padded : ℕ → String  -- %04d
  pub format_int : ℤ → String

abbrev pub default_things_count : ℕ
default_things_count = 5

abbrev pub default_cadence : Duration
default_cadence = 300 * second

-- 12 * time.Hour
abbrev pub fill_cycle : Duration
fill_cycle = 43200 * second

-- 1970-01-01T00:00:00Z, in seconds after the zero time
abbrev pub unix_epoch : ℕ
unix_epoch = 62135596800

pub record Dummy : Type 0 where
  pub arithmetic : Arithmetic
  pub things : List Thing
  pub cadence : Duration

unfoldable pub build_thing : Arithmetic → ℕ → Thing
build_thing a i =
    let native = sprint ("DUMMY-" ∷ a.padded (suc i) ∷ []) in
    record {
      vendor_id = "dummy";
      vendor_native_id = native;
      name = sprint ("Dummy Container " ∷ native ∷ []);
      description = "Synthetic waste container for end-to-end validation (not a real sensor)";
      location = a.grid (i % 5) (i / 5);
      properties = ("synthetic", "true") ∷ ("area", "s-hertogenbosch-dummy") ∷ [];
    }

-- The Things with the numbers from i on.
unfoldable pub build_things : Arithmetic → ℕ → ℕ → List Thing
unfolding build_thing
build_things a i zero = []
build_things a i (suc count) = build_thing a i ∷ build_things a (suc i) count

-- The package defaults stand for a count or a cadence that is not positive.
unfoldable pub new_dummy : Arithmetic → ℤ → ℤ → Dummy
unfolding build_things
new_dummy a count cadence = record {
  arithmetic = a;
  things = build_things a 0 (positive_or default_things_count count);
  cadence = positive_or default_cadence cadence;
}
  where
    positive_or : ℕ → ℤ → ℕ
    positive_or d (pos zero) = d
    positive_or d (pos (suc n)) = suc n
    positive_or d (negsuc n) = d

-- The bytes of a text in UTF-8, and FNV-1a over 64 bits.
utf8 : ℕ → List ℕ
utf8 n =
    if ltb n 128
    then n ∷ []
    else if ltb n 2048
    then (192 + n / 64) ∷ (128 + n % 64) ∷ []
    else if ltb n 65536
    then (224 + n / 4096) ∷ (128 + n / 64 % 64) ∷ (128 + n % 64) ∷ []
    else (240 + n / 262144) ∷ (128 + n / 4096 % 64) ∷ (128 + n / 64 % 64) ∷ (128 + n % 64) ∷ []

hash_bytes : ℕ → List ℕ → ℕ
hash_bytes h [] = h
hash_bytes h (b ∷ bs) = hash_bytes (bit_xor h b * 1099511628211 % 2 ^ 64) bs

hash_text : ℕ → String → ℕ
unfolding utf8 hash_bytes
hash_text h String.[] = h
hash_text h (String.◌∷◌ c s) = hash_text (hash_bytes h (utf8 (code c))) s

unfoldable pub phase_offset : String → Duration
unfolding hash_text
phase_offset native = hash_text 14695981039346656037 native % fill_cycle

-- (n - m) mod fill_cycle, from 0 up to fill_cycle
cycle_position : ℕ → ℕ → ℕ
cycle_position n m =
    if leb m n
    then (n - m) % fill_cycle
    else if (m - n) % fill_cycle == 0
    then 0
    else fill_cycle - (m - n) % fill_cycle

-- t.UnixNano() holds the times from 1678 to 2262.
unfoldable pub fill_level_at : Arithmetic → Time → Duration → Float64
unfolding cycle_position lt_float whole
fill_level_at a t phase =
    let pct = a.percentage (cycle_position (t + phase) (unix_epoch * second)) in
    if lt_float pct (above 0) then above 0 else if lt_float (whole 100) pct then whole 100 else pct

unfoldable pub observation_at : Arithmetic → String → Time → Observation
unfolding phase_offset fill_level_at
observation_at a native t = record {
  thing_vendor_native_id = native;
  observed_property = fill_level;
  phenomenon_time = t;
  result_time = t;
  result = fill_level_at a t (phase_offset native);
  result_raw = none;
  raw_observation_id = sprint (native ∷ "@" ∷ a.format_int (sub_ℕ (t / second) unix_epoch) ∷ []);
}

-- The first boundary of the cadence after `since`.
unfoldable pub first_tick : Duration → Time → Time
first_tick step since =
    let start = since - since % step + step in if after start since then start else start + step

-- `for t := start; !t.After(now); t = t.Add(step)`, with `taken` observations so far; a limit of 0 is
-- none.
unfoldable pub ticks : Arithmetic → String → Duration → Time → ℕ → ℕ → ℕ → Time → List Observation
unfolding observation_at
ticks a native step now limit zero taken t = []
ticks a native step now limit (suc fuel) taken t =
    let rest = ticks a native step now limit fuel (suc taken) (t + step) in
    if after t now
    then []
    else if ltb 0 limit && leb limit taken
    then []
    else observation_at a native t ∷ rest

unfoldable pub list_things : Dummy → List Thing
list_things d = d.things

unfoldable pub list_datastreams_for_thing : Dummy → String → List Datastream
list_datastreams_for_thing d native =
    record {
      thing_vendor_native_id = native;
      observed_property = fill_level;
      unit = percent;
      sensor_metadata = ("model", "DUMMY-1") ∷ ("firmware_version", "1.0.0") ∷ [];
      expected_cadence_seconds = pos (d.cadence / second);
      name = "";
      description = "";
      observed_property_name = "";
      observed_property_definition = "";
      unit_name = "";
      unit_symbol = "";
      unit_definition = "";
      observation_type = "";
      sensor_name = "";
    }
    ∷ []

-- Each turn of the loop is at a later time, so `now + 1` turns are enough.
unfoldable pub fetch_ticks : Dummy → Time → String → ObservedProperty → Time → ℕ → List Observation
unfolding ticks first_tick
fetch_ticks d now native op since limit =
    if str_eq op fill_level
    then ticks d.arithmetic native d.cadence now limit (suc now) 0 (first_tick d.cadence since)
    else []

-- The adapter, whose calls never fail; `now` is the clock.
unfoldable pub dummy_adapter : {W : Type 0} → Dummy → (W → Time × W) → PollAdapter W
unfolding fetch_ticks list_things list_datastreams_for_thing
dummy_adapter d now = record {
  vendor_id = "dummy";
  list_things = λ w. (ok (list_things d), w);
  list_datastreams = λ native w. (ok (list_datastreams_for_thing d native), w);
  fetch_observations = λ native op since limit w.
      if str_eq op fill_level
      then (ok (fetch_ticks d (now w).0 native op since limit), (now w).1)
      else (ok [], w);
}
