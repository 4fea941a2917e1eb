-- ===== src/Adapters/Dummy/Ticks.antt =====
-- dummy.go, FetchObservations: exactly the boundaries of the cadence in (since, now], up to the limit.
use native.Mathlib.Nat.{div-add-mod, mul-le-mul_left, mul-mod_right, mod-lt, add-mod_right}
use clappform_sensor_things.Prelude.{
  Bool, Bool-cases, arith, inl, inr, ltb, ltb→ge, ltb→lt, ℕ, ◌%◌, ◌+◌, ◌-◌, ◌/◌, ◌<◌, ◌==◌, ◌∙◌,
  ◌≡◌, ◌≤◌, String, ap, leb, suc, take, zero, ◌&&◌, ◌*◌, ◌||◌, List, [], false, lt→ltb, refl, sym,
  true, ◌∷◌,
}
use clappform_sensor_things.Canonical.{Duration, Time, Observation, fill_level}
use clappform_sensor_things.Watchdog.{step}
use clappform_sensor_things.Adapters.Sulo.Levels.{has_time}
use clappform_sensor_things.Adapters.Dummy.{
  Arithmetic, first_tick, observation_at, ticks, Dummy, fetch_ticks,
}
use clappform_sensor_things.Witnesses.World.{taken}
use clappform_sensor_things.Watchdog.Machine.{due}

-- A multiple of the step.
abbrev pub is_boundary : Duration → Time → Bool
is_boundary step t = t % step == 0

-- Two boundaries lie at least a step apart.
boundary_gap : (step a b : ℕ) → a % step ≡ 0 → b % step ≡ 0 → a < b → a + step ≤ b
boundary_gap step a b h k l = elim (Bool-cases (ltb (a / step) (b / step))) [
  | inl e ↦
      grind (arith, div-add-mod a step, div-add-mod b step, mul-le-mul_left step (ltb→lt _ _ e))
  | inr e ↦
      absurd
        (grind (arith, div-add-mod a step, div-add-mod b step, mul-le-mul_left step (ltb→ge _ _ e)))
]

floor_boundary : (step t : ℕ) → 0 < step → (t - t % step) % step ≡ 0
floor_boundary step t h =
    let e : t - t % step ≡ step * (t / step) = omega (arith, div-add-mod t step) in
    ap (λ n. n % step) e ∙ mul-mod_right step (t / step)

next_boundary : (step t : ℕ) → t % step ≡ 0 → (t + step) % step ≡ 0
next_boundary step t h = add-mod_right t step ∙ h

-- A boundary is at t, or not before the next one.
boundary_split :
    (step t u : ℕ)
    → 0 < step
    → t % step ≡ 0
    → (is_boundary step u && leb t u) ≡ (t == u || (is_boundary step u && leb (t + step) u))
boundary_split step t u h k = ground (arith, boundary_gap step t u k)

take-nil : {A : Type 0} (n : ℕ) → ◌≡◌ {A = List A} (take n []) []
take-nil zero = refl
take-nil (suc n) = refl

full_left : (limit taken : ℕ) → leb limit taken ≡ true → limit - taken ≡ 0
full_left limit taken h = ground (arith, h)

room_left : (limit taken : ℕ) → leb limit taken ≡ false → limit - taken ≡ suc (limit - suc taken)
room_left limit taken h = ground (arith, h)

module _ (a : Arithmetic) (native : String) (step now : ℕ) (positive : 0 < step) where
  ticks-has_time :
      (u fuel taken t : ℕ)
      → t % step ≡ 0
      → now < t + fuel
      → has_time u (ticks a native step now 0 fuel taken t)
        ≡ ((is_boundary step u && leb t u) && leb u now)
  unfolding ticks observation_at
  ticks-has_time u zero taken t k l = ground (arith, l)
  ticks-has_time u (suc fuel) taken t k l = ground (
    arith,
    positive,
    l,
    boundary_split step t u positive k,
    ticks-has_time u fuel (suc taken) (t + step) (next_boundary step t k)
        (omega (arith, positive, l)),
  )

  -- With a limit, as many observations of the same list as are still to be taken.
  ticks-take :
      (limit fuel taken t : ℕ)
      → taken ≤ limit
      → 0 < limit
      → ticks a native step now limit fuel taken t
        ≡ take (limit - taken) (ticks a native step now 0 fuel taken t)
  unfolding ticks
  ticks-take limit zero taken t l h = sym (take-nil (limit - taken))
  ticks-take limit (suc fuel) taken t l h = elim (Bool-cases (ltb now t)) [
    | inl late ↦ rw late (sym (take-nil (limit - taken)))
    | inr due ↦ elim (Bool-cases (leb limit taken)) [
      | inl full ↦
          rw (due, lt→ltb 0 limit h, full)
            (ap (λ n. take n rest) (sym (full_left limit taken full)))
      | inr room ↦
          rw (due, lt→ltb 0 limit h, room)
            (ap (λ xs. observation_at a native t ∷ xs)
                (ticks-take limit fuel (suc taken) (t + step) (ground (arith, room)) h)
              ∙ ap (λ n. take n rest) (sym (room_left limit taken room)))
    ]
  ]
    where
      rest : List Observation
      rest = observation_at a native t ∷ ticks a native step now 0 fuel (suc taken) (t + step)

-- The first tick is the first boundary after `since`.
first_tick-first :
    (step since : ℕ)
    → 0 < step
    → (first_tick step since % step ≡ 0)
      × ((u : ℕ)
          → (is_boundary step u && leb (first_tick step since) u)
            ≡ (is_boundary step u && ltb since u))
unfolding first_tick
first_tick-first step since h = (start_boundary, λ u. ground (arith, mod-lt since h, from_floor u))
  where
    floor : ℕ
    floor = since - since % step

    start_boundary : first_tick step since % step ≡ 0
    start_boundary =
        ground (arith, mod-lt since h, next_boundary step floor (floor_boundary step since h))

    from_floor : (u : ℕ) → u % step ≡ 0 → since - since % step < u → since - since % step + step ≤ u
    from_floor u k l = boundary_gap step floor u (floor_boundary step since h) k l

-- Without a limit, a poll has a reading for exactly the boundaries of the cadence after the cursor and
-- not after the clock; with one, it has the first readings of that list, as many as the limit allows.
pub fetch_ticks-has_time :
    (d : Dummy) (now since : Time) (native : String)
    → 0 < d.cadence
    → ((u : Time)
        → has_time u (fetch_ticks d now native fill_level since 0)
          ≡ (is_boundary d.cadence u && ltb since u && leb u now))
      × ((limit : ℕ)
          → 0 < limit
          → fetch_ticks d now native fill_level since limit
            ≡ take limit (fetch_ticks d now native fill_level since 0))
unfolding fetch_ticks
fetch_ticks-has_time d now since native h =
    let start = first_tick d.cadence since in
    let first = first_tick-first d.cadence since h in
    (
      λ u. ground (
        arith,
        ticks-has_time d.arithmetic native d.cadence now h u (suc now) 0 start first.0
            (omega arith),
        first.1 u,
      ),
      λ limit k.
          ticks-take d.arithmetic native d.cadence now h limit (suc now) 0 start (omega arith) k
          ∙ ap (λ n. take n (ticks d.arithmetic native d.cadence now 0 (suc now) 0 start))
              (omega arith),
    )
