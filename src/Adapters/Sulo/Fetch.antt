-- ===== src/Adapters/Sulo/Fetch.antt =====
-- sulo.go, FetchObservations: the pages of one slot, filtered and ordered.
use clappform_sensor_things.Failure.{Result, err, ok, permanent, text, wrapped}
use clappform_sensor_things.Adapters.Sulo.{FillLevel, Formats, to_observations}
use clappform_sensor_things.Prelude.{
  List, Option, String, [], if◌then◌else◌, none, some, str_eq, ℕ, ◌==◌,
}
use clappform_sensor_things.Canonical.{Observation, ObservedProperty, Time, fill_level}
use clappform_sensor_things.Adapters.Sulo.Client.{Reen, Session, get}
use clappform_sensor_things.Adapters.Sulo.Pages.{paged}
use clappform_sensor_things.Prelude.Int.{ℤ}

-- The adapter: the requests for the fill levels of a slot after a time (0: from the start).
pub record Sulo (W : Type 0) : Type 0 where
  pub formats : Formats
  pub fill_levels : ℤ → Time → Reen W (List FillLevel)
  pub now : W → Time
  pub page_limit : ℕ
  pub min_conf : ℤ

module _ {W : Type 0} (a : Sulo W) where
  filtered : ℤ → Time → Result (List FillLevel) × Session W → Result (List Observation) × Session W
  unfolding to_observations
  filtered slot since (err e, c) = (err e, c)
  filtered slot since (ok rows, c) =
      (ok (to_observations a.formats (a.now c.world) since a.min_conf slot rows), c)

  fetch_slot : Option ℤ → Time → ℕ → Session W → Result (List Observation) × Session W
  unfolding filtered get
  fetch_slot none since limit c = (err (permanent (wrapped text)), c)
  fetch_slot (some slot) since limit c =
      let reen = a.fill_levels slot since in
      filtered slot since (
        paged (λ size offset s. get reen size offset s) reen.page_size
          (if limit == 0 then a.page_limit else limit) c)

  unfoldable pub fetch_observations :
      String → ObservedProperty → Time → ℕ → Session W → Result (List Observation) × Session W
  unfolding fetch_slot
  fetch_observations native op since limit c =
      if str_eq op fill_level
      then fetch_slot (a.formats.parse_int native) since limit c
      else (ok [], c)
