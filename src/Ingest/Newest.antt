-- ===== src/Ingest/Newest.antt =====
-- ingest.go, `MaxPhenomenonTime`: how far the kept and the rejected of a batch reach.
use clappform_sensor_things.Canonical.{Observation, Time}
use clappform_sensor_things.Validator.Partition.{definitively_rejected_all, verdict}
use clappform_sensor_things.Ingest.Stream.{cover_rejections}
use clappform_sensor_things.Prelude.{
  List, [], ap, arith, raise, refl, ◌∷◌, ◌≡◌, Option, none, some, suc, sym, ℕ, ◌∙◌,
}
use clappform_sensor_things.Validator.{Rejection, Config, Reason, filter_from}

-- The newest of a time and the phenomenon times of a list.
abbrev pub newest_of : Time → List Observation → Time
newest_of t [] = t
newest_of t (o ∷ os) = newest_of (raise t o.phenomenon_time) os

newest_of-raise :
    (t u : Time) (os : List Observation) → newest_of (raise t u) os ≡ raise (newest_of t os) u
newest_of-raise t u [] = refl
newest_of-raise t u (o ∷ os) =
    rw (← newest_of-raise (raise t o.phenomenon_time) u os)
      (ap (λ (x : Time). newest_of x os) (ground arith))

-- A rejection covers its observation, since every reason is definitive.
unfoldable pub rejected_newest : Time → List Rejection → Time
rejected_newest t [] = t
rejected_newest t (r ∷ rs) = rejected_newest (raise t r.observation.phenomenon_time) rs

pub cover_rejections-eq :
    (rs : List Rejection) (t : Time) → cover_rejections rs t ≡ rejected_newest t rs
unfolding cover_rejections rejected_newest
cover_rejections-eq [] t = refl
cover_rejections-eq (r ∷ rs) t = ground (
  arith,
  definitively_rejected_all r.reason,
  cover_rejections-eq rs (raise t r.observation.phenomenon_time),
)

-- Kept and rejected observations together reach as far as the batch.
pub newest-filter :
    (cfg : Config) (cursor : Time) (i : ℕ) (obs : List Observation) (t : Time)
    → newest_of
        (rejected_newest t (filter_from cfg cursor i obs).1)
        (filter_from cfg cursor i obs).0
      ≡ newest_of t obs
unfolding filter_from rejected_newest
newest-filter cfg cursor i [] t = refl
newest-filter cfg cursor i (o ∷ obs) t =
    go (verdict cfg cursor o) refl (newest-filter cfg cursor (suc i) obs)
  where
    go :
        (v : Option Reason)
        → verdict cfg cursor o ≡ v
        → ((u : Time)
            → newest_of
                (rejected_newest u (filter_from cfg cursor (suc i) obs).1)
                (filter_from cfg cursor (suc i) obs).0
              ≡ newest_of u obs)
        → newest_of
            (rejected_newest t (filter_from cfg cursor i (o ∷ obs)).1)
            (filter_from cfg cursor i (o ∷ obs)).0
          ≡ newest_of t (o ∷ obs)
    go none e ih =
        rw (e, filter_from)
          (newest_of-raise _ o.phenomenon_time (filter_from cfg cursor (suc i) obs).0
            ∙ ap (λ (x : Time). raise x o.phenomenon_time) (ih t)
            ∙ sym (newest_of-raise t o.phenomenon_time obs))
    go (some r) e ih = rw (e, filter_from) (ih (raise t o.phenomenon_time))
