-- ===== src/Reader/Chunks.antt =====
-- run.go, chunkEnvelopes: the envelopes hold all observations, in order and in bounds.
use clappform_sensor_things.Reader.{
  DiscoveredStream, chunk_envelopes, chunk_size, chunks, envelope_of,
}
use clappform_sensor_things.Prelude.{
  All, List, [], ap, arith, drop, length, refl, suc, take, take-append-drop, zero, ℕ, ◌++◌, ◌<◌,
  ◌∙◌, ◌∷◌, ◌≡◌, ◌≤◌,
}
use clappform_sensor_things.Canonical.{Observation}
use clappform_sensor_things.Adapters.Collaborall.{Envelope}

-- The observations of some envelopes, one after the other.
abbrev pub contents : List Envelope → List Observation
contents [] = []
contents (e ∷ es) = e.observations ++ contents es

-- An envelope of this stream with at least one observation and n at most.
abbrev pub IsChunk : DiscoveredStream → ℕ → Envelope → Type 0
IsChunk st n e =
    (e.things ≡ record { thing = st.thing; datastreams = st.datastream ∷ [] } ∷ [])
    × (0 < length e.observations)
    × (length e.observations ≤ n)

length-take_bound : {A : Type 0} (n : ℕ) (xs : List A) → length (take n xs) ≤ n
length-take_bound zero xs = omega arith
length-take_bound (suc n) [] = omega arith
length-take_bound (suc n) (x ∷ xs) = omega (arith, length-take_bound n xs)

length-drop_bound : {A : Type 0} (n : ℕ) (xs : List A) → length (drop n xs) ≤ length xs
length-drop_bound zero xs = omega arith
length-drop_bound (suc n) [] = omega arith
length-drop_bound (suc n) (x ∷ xs) = omega (arith, length-drop_bound n xs)

chunks-contents :
    (n fuel : ℕ) (st : DiscoveredStream) (os : List Observation)
    → length os ≤ fuel
    → contents (chunks (suc n) st fuel os) ≡ os
unfolding chunks envelope_of
chunks-contents n fuel st [] h = refl
chunks-contents n zero st (o ∷ os) h = ground (arith, h)
chunks-contents n (suc fuel) st (o ∷ os) h =
    ap (λ (r : List Observation). (o ∷ take n os) ++ r)
      (chunks-contents n fuel st (drop n os) (omega (arith, h, length-drop_bound n os)))
    ∙ ap (λ (r : List Observation). o ∷ r) (take-append-drop n os)

chunks-IsChunk :
    (n fuel : ℕ) (st : DiscoveredStream) (os : List Observation)
    → All (IsChunk st (suc n)) (chunks (suc n) st fuel os)
unfolding chunks envelope_of
chunks-IsChunk n fuel st [] = tt
chunks-IsChunk n zero st (o ∷ os) = tt
chunks-IsChunk n (suc fuel) st (o ∷ os) = (
  (refl, omega arith, omega (arith, length-take_bound n os)),
  chunks-IsChunk n fuel st (drop n os),
)

chunk_size-positive :
    (json_len : Envelope → ℕ) (st : DiscoveredStream) (os : List Observation) (max : ℕ)
    → 0 < chunk_size json_len st os max
unfolding chunk_size
chunk_size-positive json_len st os max = ground arith

by_size :
    (n : ℕ) (st : DiscoveredStream) (os : List Observation)
    → 0 < n
    → (contents (chunks n st (length os) os) ≡ os) × All (IsChunk st n) (chunks n st (length os) os)
by_size zero st os h = ground (arith, h)
by_size (suc n) st os h =
    (chunks-contents n (length os) st os (omega arith), chunks-IsChunk n (length os) st os)

-- Whatever lengths JSON has, also where one observation is too long by itself: the envelopes hold the
-- observations exactly once and in their order, each has one at least and no more than were reckoned
-- to fit, and each declares the Thing and the Datastream.
pub chunk_envelopes-contents :
    (json_len : Envelope → ℕ) (st : DiscoveredStream) (os : List Observation) (max : ℕ)
    → let envs = chunk_envelopes json_len st os max in
      (contents envs ≡ os) × All (IsChunk st (chunk_size json_len st os max)) envs
unfolding chunk_envelopes
chunk_envelopes-contents json_len st os max =
    by_size (chunk_size json_len st os max) st os (chunk_size-positive json_len st os max)
