-- ===== src/Adapters/Sulo.antt =====
-- internal/adapters/sulo/sulo.go: the readings of a container slot. The session and the pages are in
-- `Client`, the proofs in the other modules below. `Formats` has what the standard library makes of a
-- text: strings.TrimSpace with time.Parse, a time in RFC 3339, strconv.ParseInt, FormatInt and Quote.
pub mod Levels
pub mod Client
pub mod Pages
pub mod Session
pub mod Fetch
pub mod Mapping
pub mod Discovery
pub mod Known
pub mod New
use clappform_sensor_things.Canonical.{Float64, Observation, Time, after, is_zero, fill_level}
use clappform_sensor_things.Prelude.{
  Bool, List, Option, String, [], and_some, exists_where, false, if◌then◌else◌, ltb, none, not,
  some, ℕ, ◌%◌, ◌^◌, sprint, str_eq, ◌&&◌, ◌==◌, ◌∷◌,
}
use clappform_sensor_things.Prelude.Int.{ltz, ℤ}

pub record Formats : Type 0 where
  pub trim_space : String → String
  pub parse_rfc3339 : String → Option Time
  pub rfc3339 : Time → String
  pub parse_int : String → Option ℤ
  pub format_int : ℤ → String
  pub quote : String → String

-- fillLevelDTO, of which the adapter reads three fields; an unset fill level is none.
pub record FillLevel : Type 0 where
  pub time : String
  pub fill_level : Option Float64
  pub confidence : Option ℤ

unfoldable pub parse_reen_time : Formats → String → Option Time
parse_reen_time f s = if str_eq (f.trim_space s) "" then none else f.parse_rfc3339 (f.trim_space s)

unfoldable pub observation_id : Formats → ℤ → Time → String
observation_id f slot t = sprint (f.format_int slot ∷ "@" ∷ f.rfc3339 t ∷ [])

-- The tests of the loop, in its order, but for the one on a repeated time.
unfoldable pub usable : Formats → Time → Time → ℤ → FillLevel → Option (Time × Float64)
unfolding parse_reen_time
usable f now since min_conf r = and_some (parse_reen_time f r.time) λ t.
    if after t now
    then none
    else and_some r.fill_level λ x.
      if low_confidence r.confidence
      then none
      else if not (is_zero since) && not (after t since)
      then none
      else some (t, x)
  where
    low_confidence : Option ℤ → Bool
    low_confidence none = false
    low_confidence (some c) = ltz c min_conf

unfoldable pub observation_of : Formats → ℤ → Time × Float64 → Observation
unfolding observation_id
observation_of f slot (t, x) = record {
  thing_vendor_native_id = f.format_int slot;
  observed_property = fill_level;
  phenomenon_time = t;
  result_time = t;
  result = x;
  result_raw = none;
  raw_observation_id = observation_id f slot t;
}

-- t.UnixNano() as a key, which wraps around in 64 bits. That it counts from 1970 and is signed adds the same
-- number to all keys, and is left out.
unfoldable pub unix_nano : Time → ℕ
unix_nano t = t % 2 ^ 64

-- The times have the same key.
abbrev pub is_seen_at : Time → Time → Bool
is_seen_at t u = unix_nano u == unix_nano t

-- The loop over the rows; `seen` holds the times so far.
unfoldable pub collect :
    Formats → Time → Time → ℤ → ℤ → List FillLevel → List Time → List Observation
unfolding usable observation_of unix_nano
collect f now since min_conf slot [] seen = []
collect f now since min_conf slot (r ∷ rs) seen =
    let skipped = collect f now since min_conf slot rs seen in
    elim (usable f now since min_conf r) [
      | none ↦ skipped
      | some (t, x) ↦
          let more = collect f now since min_conf slot rs (t ∷ seen) in
          if exists_where (is_seen_at t) seen then skipped else observation_of f slot (t, x) ∷ more
    ]

-- slices.SortFunc by phenomenon time; no two times are equal, so every sort gives the same.
unfoldable pub insert_by_time : Observation → List Observation → List Observation
insert_by_time o [] = o ∷ []
insert_by_time o (p ∷ ps) =
    let rest = insert_by_time o ps in
    if ltb p.phenomenon_time o.phenomenon_time then p ∷ rest else o ∷ p ∷ ps

unfoldable pub by_time : List Observation → List Observation
unfolding insert_by_time
by_time [] = []
by_time (o ∷ os) = insert_by_time o (by_time os)

unfoldable pub to_observations : Formats → Time → Time → ℤ → ℤ → List FillLevel → List Observation
unfolding collect by_time
to_observations f now since min_conf slot rows = by_time (collect f now since min_conf slot rows [])
