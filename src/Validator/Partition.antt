-- ===== src/Validator/Partition.antt =====
-- validator.go, `Filter`: the two lists together hold the batch, each where it belongs.
use clappform_sensor_things.Prelude.{
  ℕ, suc, ◌+◌, ◌≡◌, refl, Option, none, some, List, [], ◌∷◌, length, get_elem?, is_none,
  if◌then◌else◌, arith, All, true, All-map, ◌≤◌,
}
use clappform_sensor_things.Canonical.{Time, Observation}
use clappform_sensor_things.Validator.{
  Reason, Rejection, Config, validate, filter_from, filter_batch, is_definitively_rejected,
}

-- The verdict on one observation of a batch.
abbrev pub verdict : Config → Time → Observation → Option Reason
verdict cfg cursor o = validate o cursor cfg.now cfg.clock_skew_tolerance

-- The observations of the batch that pass, in their order.
abbrev pub passing : Config → Time → List Observation → List Observation
passing cfg cursor [] = []
passing cfg cursor (o ∷ os) =
    let rest = passing cfg cursor os in if is_none (verdict cfg cursor o) then o ∷ rest else rest

-- `r` names an observation of the batch by its index, counted from `i`, and gives its verdict.
pub record IsRejectionOf (cfg : Config) (cursor : Time) (i : ℕ) (os : List Observation)
    (r : Rejection) : Type 0 where
  pub offset : ℕ
  pub index : r.index ≡ i + offset
  pub observation : get_elem? os offset ≡ some r.observation
  pub reason : verdict cfg cursor r.observation ≡ some r.reason

-- The rejections stand in the order of the batch, none twice, from the index `i` on.
abbrev pub Ascending : ℕ → List Rejection → Type 0
Ascending i [] = Unit
Ascending i (r ∷ rs) = (i ≤ r.index) × Ascending (suc r.index) rs

sooner : (i : ℕ) (rs : List Rejection) → Ascending (suc i) rs → Ascending i rs
sooner i [] h = tt
sooner i (r ∷ rs) h = (omega (arith, h.0), h.1)

module _ (cfg : Config) (cursor : Time) where
  kept-eq-passing :
      (i : ℕ) (os : List Observation) → (filter_from cfg cursor i os).0 ≡ passing cfg cursor os
  unfolding filter_from
  kept-eq-passing i [] = refl
  kept-eq-passing i (o ∷ os) = ground (arith, kept-eq-passing (suc i) os)

  lengths-filter_from :
      (i : ℕ) (os : List Observation)
      → length (filter_from cfg cursor i os).0 + length (filter_from cfg cursor i os).1 ≡ length os
  unfolding filter_from
  lengths-filter_from i [] = omega arith
  lengths-filter_from i (o ∷ os) = ground (arith, lengths-filter_from (suc i) os)

  later :
      (i : ℕ) (o : Observation) (os : List Observation) (r : Rejection)
      → IsRejectionOf cfg cursor (suc i) os r
      → IsRejectionOf cfg cursor i (o ∷ os) r
  later i o os r h = record {
    offset = suc h.offset;
    index = omega (arith, h.index);
    observation = h.observation;
    reason = h.reason;
  }

  rejections-step :
      (i : ℕ) (o : Observation) (os : List Observation) (v : Option Reason)
      → verdict cfg cursor o ≡ v
      → All (IsRejectionOf cfg cursor (suc i) os) (filter_from cfg cursor (suc i) os).1
      → All (IsRejectionOf cfg cursor i (o ∷ os)) (filter_from cfg cursor i (o ∷ os)).1
  unfolding filter_from
  rejections-step i o os none e h = rw (e, filter_from) (All-map (later i o os) _ h)
  rejections-step i o os (some r) e h =
      rw (e, filter_from)
        (
          record { offset = 0; index = omega arith; observation = refl; reason = e },
          All-map (later i o os) _ h,
        )

  rejections-filter_from :
      (i : ℕ) (os : List Observation)
      → All (IsRejectionOf cfg cursor i os) (filter_from cfg cursor i os).1
  unfolding filter_from
  rejections-filter_from i [] = tt
  rejections-filter_from i (o ∷ os) =
      rejections-step i o os (verdict cfg cursor o) refl (rejections-filter_from (suc i) os)

  Ascending-step :
      (i : ℕ) (o : Observation) (os : List Observation) (v : Option Reason)
      → verdict cfg cursor o ≡ v
      → Ascending (suc i) (filter_from cfg cursor (suc i) os).1
      → Ascending i (filter_from cfg cursor i (o ∷ os)).1
  unfolding filter_from
  Ascending-step i o os none e h = rw (e, filter_from) (sooner i _ h)
  Ascending-step i o os (some r) e h = rw (e, filter_from) (omega arith, h)

  Ascending-filter_from :
      (i : ℕ) (os : List Observation) → Ascending i (filter_from cfg cursor i os).1
  unfolding filter_from
  Ascending-filter_from i [] = tt
  Ascending-filter_from i (o ∷ os) =
      Ascending-step i o os (verdict cfg cursor o) refl (Ascending-filter_from (suc i) os)

  -- `Filter` keeps the passing observations in their order, and reports as many rejections as there are
  -- others: in the order of the batch and none twice, each with its position in the batch, its observation
  -- and its verdict.
  pub filter_batch_partition :
      (os : List Observation)
      → ((filter_batch cfg cursor os).0 ≡ passing cfg cursor os)
        × (length (filter_batch cfg cursor os).0 + length (filter_batch cfg cursor os).1
            ≡ length os)
        × All (IsRejectionOf cfg cursor 0 os) (filter_batch cfg cursor os).1
        × Ascending 0 (filter_batch cfg cursor os).1
  unfolding filter_batch
  filter_batch_partition os = (
    kept-eq-passing 0 os,
    lengths-filter_from 0 os,
    rejections-filter_from 0 os,
    Ascending-filter_from 0 os,
  )

-- Every reason lets the cursor pass.
pub definitively_rejected_all : (r : Reason) → is_definitively_rejected r ≡ true
unfolding is_definitively_rejected
definitively_rejected_all r = ground arith
