-- ===== src/Adapters/Sulo/Levels.antt =====
-- sulo.go, toObservations: what it lets through, in which order, and that it loses no time.
use clappform_sensor_things.Prelude.{
  All, All-map, Bool, Bool-cases, List, [], arith, exists_where, false, inl, inr, ltb, some, ◌<◌,
  ◌==◌, ◌∷◌, ◌≡◌, ◌≤◌, ◌⊎◌, Option, if◌then◌else◌, none, refl,
}
use clappform_sensor_things.Canonical.{Float64, Observation, Time}
use clappform_sensor_things.Adapters.Sulo.{
  is_seen_at, FillLevel, Formats, by_time, collect, insert_by_time, observation_of, usable,
  to_observations,
}
use clappform_sensor_things.Prelude.Int.{ℤ}

-- The times of a list grow, with no two equal.
abbrev pub Ascending : List Observation → Type 0
Ascending [] = Unit
Ascending (o ∷ os) =
    All (λ (p : Observation). o.phenomenon_time < p.phenomenon_time) os × Ascending os

-- A reading that may go on: not later than now, and after the cursor where that is set.
abbrev pub InWindow : Time → Time → Observation → Type 0
InWindow now since o = (o.phenomenon_time ≤ now) × ((since ≡ 0) ⊎ (since < o.phenomenon_time))

abbrev pub has_time : Time → List Observation → Bool
has_time t os = exists_where (λ (o : Observation). o.phenomenon_time == t) os

All-insert_by_time :
    (P : Observation → Type 0) (o : Observation) (os : List Observation)
    → P o
    → All P os
    → All P (insert_by_time o os)
unfolding insert_by_time
All-insert_by_time P o [] h k = (h, tt)
All-insert_by_time P o (p ∷ ps) h k = elim (Bool-cases (ltb p.phenomenon_time o.phenomenon_time)) [
  | inl e ↦ rw e (k.0, All-insert_by_time P o ps h k.1)
  | inr e ↦ rw e (h, k)
]

All-by_time : (P : Observation → Type 0) (os : List Observation) → All P os → All P (by_time os)
unfolding by_time
All-by_time P [] h = tt
All-by_time P (o ∷ os) h = All-insert_by_time P o (by_time os) h.0 (All-by_time P os h.1)

-- Times that differ from that of o.
abbrev Apart : Observation → Observation → Type 0
Apart o p = (o.phenomenon_time == p.phenomenon_time) ≡ false

insert_by_time-Ascending :
    (o : Observation) (os : List Observation)
    → All (Apart o) os
    → Ascending os
    → Ascending (insert_by_time o os)
unfolding insert_by_time
insert_by_time-Ascending o [] h k = (tt, tt)
insert_by_time-Ascending o (p ∷ ps) h k =
    elim (Bool-cases (ltb p.phenomenon_time o.phenomenon_time)) [
      | inl e ↦ rw e (
        All-insert_by_time (λ (q : Observation). p.phenomenon_time < q.phenomenon_time) o ps
            (ground (arith, e)) k.0,
        insert_by_time-Ascending o ps h.1 k.1,
      )
      | inr e ↦ rw e (
        (
          ground (arith, e, h.0),
          All-map {P = λ (q : Observation). p.phenomenon_time < q.phenomenon_time}
              {Q = λ (q : Observation). o.phenomenon_time < q.phenomenon_time}
              (λ q l. ground (arith, e, h.0, l)) ps k.0,
        ),
        k,
      )
    ]

abbrev AllApart : List Observation → Type 0
AllApart [] = Unit
AllApart (o ∷ os) = All (Apart o) os × AllApart os

by_time-Ascending : (os : List Observation) → AllApart os → Ascending (by_time os)
unfolding by_time
by_time-Ascending [] h = tt
by_time-Ascending (o ∷ os) h =
    insert_by_time-Ascending o (by_time os) (All-by_time (Apart o) os h.0)
      (by_time-Ascending os h.1)

module _ (f : Formats) (now since : Time) (min_conf slot : ℤ) where
  usable-InWindow :
      (r : FillLevel) (t : Time) (x : Float64)
      → usable f now since min_conf r ≡ some (t, x)
      → InWindow now since (observation_of f slot (t, x))
  unfolding usable observation_of
  usable-InWindow r t x h = ground arith

  -- What the loop does with a row, given what the tests made of it.
  abbrev next : Option (Time × Float64) → List FillLevel → List Time → List Observation
  next v rs seen = elim v [
    | none ↦ collect f now since min_conf slot rs seen
    | some (t, x) ↦
        if exists_where (is_seen_at t) seen
        then collect f now since min_conf slot rs seen
        else observation_of f slot (t, x) ∷ collect f now since min_conf slot rs (t ∷ seen)
  ]

  collect-next :
      (r : FillLevel) (rs : List FillLevel) (seen : List Time)
      → collect f now since min_conf slot (r ∷ rs) seen
        ≡ next (usable f now since min_conf r) rs seen
  unfolding collect
  collect-next r rs seen = refl

  next-InWindow :
      (r : FillLevel) (v : Option (Time × Float64)) (rs : List FillLevel) (seen : List Time)
      → usable f now since min_conf r ≡ v
      → ((seen' : List Time)
          → All (InWindow now since) (collect f now since min_conf slot rs seen'))
      → All (InWindow now since) (next v rs seen)
  next-InWindow r none rs seen e ih = ih seen
  next-InWindow r (some (t, x)) rs seen e ih =
      elim (Bool-cases (exists_where (is_seen_at t) seen)) [
        | inl h ↦ rw h (ih seen)
        | inr h ↦ rw h (usable-InWindow r t x e, ih (t ∷ seen))
      ]

  collect-InWindow :
      (rs : List FillLevel) (seen : List Time)
      → All (InWindow now since) (collect f now since min_conf slot rs seen)
  unfolding collect
  collect-InWindow [] seen = tt
  collect-InWindow (r ∷ rs) seen =
      next-InWindow r (usable f now since min_conf r) rs seen refl (collect-InWindow rs)

  -- Nothing that the loop still lets through has a time that was seen.
  abbrev Unseen : List Time → Observation → Type 0
  Unseen seen o = exists_where (is_seen_at o.phenomenon_time) seen ≡ false

  Unseen-tail :
      (t : Time) (seen : List Time) (o : Observation) → Unseen (t ∷ seen) o → Unseen seen o
  Unseen-tail t seen o h = ground (arith, h)

  next-Unseen :
      (v : Option (Time × Float64)) (rs : List FillLevel) (seen : List Time)
      → ((seen' : List Time) → All (Unseen seen') (collect f now since min_conf slot rs seen'))
      → All (Unseen seen) (next v rs seen)
  unfolding observation_of
  next-Unseen none rs seen ih = ih seen
  next-Unseen (some (t, x)) rs seen ih = elim (Bool-cases (exists_where (is_seen_at t) seen)) [
    | inl h ↦ rw h (ih seen)
    | inr h ↦ rw h (h, All-map (Unseen-tail t seen) _ (ih (t ∷ seen)))
  ]

  collect-Unseen :
      (rs : List FillLevel) (seen : List Time)
      → All (Unseen seen) (collect f now since min_conf slot rs seen)
  unfolding collect
  collect-Unseen [] seen = tt
  collect-Unseen (r ∷ rs) seen =
      next-Unseen (usable f now since min_conf r) rs seen (collect-Unseen rs)

  next-AllApart :
      (v : Option (Time × Float64)) (rs : List FillLevel) (seen : List Time)
      → ((seen' : List Time) → AllApart (collect f now since min_conf slot rs seen'))
      → AllApart (next v rs seen)
  unfolding observation_of
  next-AllApart none rs seen ih = ih seen
  next-AllApart (some (t, x)) rs seen ih = elim (Bool-cases (exists_where (is_seen_at t) seen)) [
    | inl h ↦ rw h (ih seen)
    | inr h ↦ rw h (
      All-map {P = Unseen (t ∷ seen)} {Q = Apart (observation_of f slot (t, x))}
          (λ o k. ground (arith, k)) _ (collect-Unseen rs (t ∷ seen)),
      ih (t ∷ seen),
    )
  ]

  collect-AllApart :
      (rs : List FillLevel) (seen : List Time)
      → AllApart (collect f now since min_conf slot rs seen)
  unfolding collect
  collect-AllApart [] seen = tt
  collect-AllApart (r ∷ rs) seen =
      next-AllApart (usable f now since min_conf r) rs seen (collect-AllApart rs)

  -- The readings come oldest first with no time twice, none of them after now, and all of them after
  -- a cursor that is set.
  pub to_observations-Ascending :
      (rows : List FillLevel)
      → Ascending (to_observations f now since min_conf slot rows)
        × All (InWindow now since) (to_observations f now since min_conf slot rows)
  unfolding to_observations
  to_observations-Ascending rows = (
    by_time-Ascending (collect f now since min_conf slot rows []) (collect-AllApart rows []),
    All-by_time (InWindow now since) _ (collect-InWindow rows []),
  )
