-- ===== src/Adapters/Collaborall/Source/Copies.antt =====
-- internal/adapters/collaborall/source/source.go: what the streams and the observations that the reader
-- returns are copies of.
use clappform_sensor_things.Prelude.{
  ◌⊎◌, All, All-append, Bool-cases, List, Option, String, [], arith, inl, inr, length, none, refl,
  some, str_eq, subst, true, ℕ, ◌++◌, ◌∷◌, ◌≡◌, ◌≤◌, take, sprint, suc, zero, false,
}
use clappform_sensor_things.Prelude.Int.{ℤ}
use clappform_sensor_things.Canonical.{Observation, Time}
use clappform_sensor_things.Failure.{Result, err, ok}
use clappform_sensor_things.Reader.{DiscoveredStream}
use clappform_sensor_things.Adapters.Collaborall.Source.{
  DatastreamDto, Library, ObservationDto, ThingDto, matches, parse_sta_time,
  to_canonical_datastream,
}
use clappform_sensor_things.Adapters.Collaborall.Source.Fetch.{
  cons_some, copy_at, copied, watched_stream, Query, SourceReader, cap_of, copies_of, copy_of,
  discover, fetch_observations, limit_of, read_then, streams_of, watched_streams, streams_of_thing,
  get_items, observation_query,
}

-- A read that returns a value: both of its steps did.
read_then-elim :
    {W A B : Type 0} (P : B → Type 0) (m : Option (Result A × W))
    (k : A → W → Option (Result B × W)) {b : B} {w : W}
    → ((a : A) (v : W) → k a v ≡ some (ok b, w) → P b)
    → read_then m k ≡ some (ok b, w)
    → P b
read_then-elim P none k f h = absurd cc
read_then-elim P (some (err e, v)) k f h = absurd cc
read_then-elim P (some (ok a, v)) k f h = f a v h

-- A match on an option, by its cases.
by_option :
    {A B : Type 0} (P : B → Type 0) (m : Option A) (n : B) (s : A → B)
    → P n
    → ((a : A) → P (s a))
    → P (elim m [ none ↦ n | some a ↦ s a ])
by_option P none n s h k = h
by_option P (some a) n s h k = k a

some-equal : {A : Type 0} {a b : A} → some a ≡ some b → a ≡ b
some-equal h = cc

same_value :
    {A W : Type 0} {a b : A} {v w : W}
    → ◌≡◌ {A = Option (Result A × W)} (some (ok a, v)) (some (ok b, w))
    → a ≡ b
same_value h = cc

length-take_le : {A : Type 0} (n : ℕ) (xs : List A) → length (take n xs) ≤ n
length-take_le zero xs = omega arith
length-take_le (suc n) [] = omega arith
length-take_le (suc n) (x ∷ xs) = omega (arith, length-take_le n xs)

All-cons_some :
    {A : Type 0} (P : A → Type 0) (m : Option A) (rest : List A)
    → ((a : A) → m ≡ some a → P a)
    → All P rest
    → All P (cons_some m rest)
All-cons_some P none rest h k = k
All-cons_some P (some a) rest h k = (h a refl, k)

length-cons_some :
    {A : Type 0} (m : Option A) (rest : List A) → length (cons_some m rest) ≤ suc (length rest)
length-cons_some none rest = omega arith
length-cons_some (some a) rest = omega arith

module _ (x : Library) (encode : Query → String) {W : Type 0} (r : SourceReader W) (fuel : ℕ) where
  -- An observation of a stream with the time of the item, and its result as it was sent.
  abbrev pub IsCopyOf : DiscoveredStream → String → Observation → Type 0
  IsCopyOf ds raw o =
      (od : ObservationDto) × (x.observation_dto raw ≡ some od)
      × (parse_sta_time x od.phenomenon_time ≡ some o.phenomenon_time)
      × (o.result_raw ≡ some od.result)
      × (str_eq od.result "" ≡ false)
      × (o.thing_vendor_native_id ≡ ds.thing.vendor_native_id)
      × (o.observed_property ≡ ds.datastream.observed_property)

  -- The item is no Observation, or one without a time or without a result.
  abbrev pub IsUnusable : String → Type 0
  IsUnusable raw =
      (x.observation_dto raw ≡ none)
      ⊎ ((od : ObservationDto) × (x.observation_dto raw ≡ some od)
          × ((parse_sta_time x od.phenomenon_time ≡ none) ⊎ (str_eq od.result "" ≡ true)))

  -- The observations are copies of the items, in their order and one for each that is usable.
  abbrev pub Selects : DiscoveredStream → List String → List Observation → Type 0
  Selects ds [] os = os ≡ []
  Selects ds (raw ∷ raws) os =
      (IsUnusable raw × Selects ds raws os)
      ⊎ ((o : Observation) × (rest : List Observation) × (os ≡ o ∷ rest)
          × IsCopyOf ds raw o
          × Selects ds raws rest)

  copy_at-Selects :
      (ds : DiscoveredStream) (raw : String) (raws : List String) (os : List Observation)
      (od : ObservationDto) (t : Option Time)
      → x.observation_dto raw ≡ some od
      → parse_sta_time x od.phenomenon_time ≡ t
      → Selects ds raws os
      → Selects ds (raw ∷ raws) (cons_some (copy_at x encode r fuel ds od t) os)
  unfolding copy_at copied
  copy_at-Selects ds raw raws os od none d p h = inl (inr (od, d, inl p), h)
  copy_at-Selects ds raw raws os od (some pt) d p h = elim (Bool-cases (str_eq od.result "")) [
    | inl e ↦ rw e (inl (inr (od, d, inr e), h))
    | inr e ↦ rw e (inr (_, os, refl, (od, d, p, refl, e, refl, refl), h))
  ]

  copy_of-Selects :
      (ds : DiscoveredStream) (raw : String) (raws : List String) (os : List Observation)
      (m : Option ObservationDto)
      → x.observation_dto raw ≡ m
      → Selects ds raws os
      → Selects ds (raw ∷ raws) (cons_some (copy_of x encode r fuel ds m) os)
  unfolding copy_of
  copy_of-Selects ds raw raws os none d h = inl (inl d, h)
  copy_of-Selects ds raw raws os (some od) d h =
      copy_at-Selects ds raw raws os od (parse_sta_time x od.phenomenon_time) d refl h

  copies_of-Selects :
      (ds : DiscoveredStream) (raws : List String)
      → Selects ds raws (copies_of x encode r fuel ds raws)
  unfolding copies_of
  copies_of-Selects ds [] = refl
  copies_of-Selects ds (raw ∷ raws) =
      copy_of-Selects ds raw raws (copies_of x encode r fuel ds raws) (x.observation_dto raw) refl
        (copies_of-Selects ds raws)

  length-copies_of :
      (ds : DiscoveredStream) (raws : List String)
      → length (copies_of x encode r fuel ds raws) ≤ length raws
  unfolding copies_of
  length-copies_of ds [] = omega arith
  length-copies_of ds (raw ∷ raws) = omega (
    arith,
    length-copies_of ds raws,
    length-cons_some (copy_of x encode r fuel ds (x.observation_dto raw))
        (copies_of x encode r fuel ds raws),
  )

  -- A stream of a watched Sensor.
  abbrev pub IsWatched : DiscoveredStream → Type 0
  IsWatched st =
      (dd : DatastreamDto) × (matches x r.watch dd.sensor ≡ true)
      × (st.datastream ≡ to_canonical_datastream x st.thing.vendor_native_id dd)
      × (st.source_datastream_id ≡ dd.iot_id)

  watched_stream-IsWatched :
      (td : ThingDto) (dd : Option DatastreamDto) {st : DiscoveredStream}
      → watched_stream x encode r fuel td dd ≡ some st
      → IsWatched st
  unfolding watched_stream
  watched_stream-IsWatched td none h = absurd cc
  watched_stream-IsWatched td (some dd) h = elim (Bool-cases (matches x r.watch dd.sensor)) [
    | inl e ↦ subst IsWatched (some-equal (rw e at h)) (dd, e, refl, refl)
    | inr e ↦ absurd (ground arith)
  ]

  watched_streams-IsWatched :
      (td : ThingDto) (raws : List String) → All IsWatched (watched_streams x encode r fuel td raws)
  unfolding watched_streams
  watched_streams-IsWatched td [] = tt
  watched_streams-IsWatched td (raw ∷ raws) =
      All-cons_some IsWatched (watched_stream x encode r fuel td (x.datastream_dto raw))
        (watched_streams x encode r fuel td raws)
        (λ st e. watched_stream-IsWatched td (x.datastream_dto raw) e)
        (watched_streams-IsWatched td raws)

  streams_of-IsWatched :
      (raws : List String) (out : List DiscoveredStream) (w : W) {sts : List DiscoveredStream}
      {v : W}
      → All IsWatched out
      → streams_of x encode r fuel raws out w ≡ some (ok sts, v)
      → All IsWatched sts
  unfolding streams_of
  streams_of-IsWatched [] out w h e = subst (All IsWatched) (same_value e) h
  streams_of-IsWatched (raw ∷ raws) out w {sts} {v} h e =
      by_option
        (λ (o : Option (Result (List DiscoveredStream) × W)).
          o ≡ some (ok sts, v) → All IsWatched sts)
        (x.thing_dto raw) (streams_of x encode r fuel raws out w) _
        (λ k. streams_of-IsWatched raws out w h k)
        (λ td k.
          read_then-elim (All IsWatched) (streams_of_thing x encode r fuel td w) _
            (λ raw_ds u q.
              streams_of-IsWatched raws (out ++ watched_streams x encode r fuel td raw_ds) u
                (All-append IsWatched out (watched_streams x encode r fuel td raw_ds) h
                  (watched_streams-IsWatched td raw_ds))
                q)
            k)
        e

  -- A discovery that succeeds returns only streams of watched Sensors, each with the canonical form of
  -- its Datastream and the id of that on the source.
  pub discover-IsWatched :
      (w : W) {sts : List DiscoveredStream} {v : W}
      → discover x encode r fuel w ≡ some (ok sts, v)
      → All IsWatched sts
  unfolding discover
  discover-IsWatched w {sts} e =
      read_then-elim (All IsWatched)
        (get_items x encode r fuel "/Things" (("$expand", "Locations") ∷ []) 0 w)
        (λ raws v. streams_of x encode r fuel raws [] v)
        (λ raws v k. streams_of-IsWatched raws [] v tt k) e

  -- What a fetch asks of the source.
  abbrev pub asked : DiscoveredStream → Time → ℤ → W → Option (Result (List String) × W)
  asked ds since limit w =
      get_items x encode r fuel
        (sprint ("/Datastreams(" ∷ x.format_int ds.source_datastream_id ∷ ")/Observations" ∷ []))
        (observation_query x encode r fuel (limit_of x encode r fuel limit) since)
        (cap_of (limit_of x encode r fuel limit)) w

  -- Where the source answers with items, the fetch returns, in their order, one copy of each usable item
  -- among the first of them, as many as its limit allows, or the page limit if it has none, with the time of
  -- the item and its result as it was sent; an item is left out only if it is no Observation or lacks a time
  -- or a result.
  pub fetch_observations-Selects :
      (ds : DiscoveredStream) (since : Time) (limit : ℤ) (w : W) (items : List String) (v : W)
      → asked ds since limit w ≡ some (ok items, v)
      → let cap = cap_of (limit_of x encode r fuel limit) in
        (os : List Observation) × (fetch_observations x encode r fuel ds since limit w
          ≡ some (ok os, v))
        × Selects ds (take cap items) os
        × (length os ≤ cap)
  unfolding fetch_observations read_then
  fetch_observations-Selects ds since limit w items v e =
      let cap = cap_of (limit_of x encode r fuel limit) in
      (
        copies_of x encode r fuel ds (take cap items),
        rw e refl,
        copies_of-Selects ds (take cap items),
        omega (arith, length-copies_of ds (take cap items), length-take_le cap items),
      )
