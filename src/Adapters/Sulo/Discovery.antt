-- ===== src/Adapters/Sulo/Discovery.antt =====
-- sulo.go, ListThings and ListDatastreamsForThing: the slots of a customer, joined with their sites,
-- devices and content types, and the snapshot that the adapter keeps of them.
use clappform_sensor_things.Failure.{Result, err, ok, permanent, text, wrapped}
use clappform_sensor_things.Adapters.Sulo.Mapping.{
  ContainerSlot, ContentType, Device, Site, SlotView, coord, native_id, to_canonical_datastream,
  to_canonical_thing,
}
use clappform_sensor_things.Canonical.{Datastream, Thing}
use clappform_sensor_things.Prelude.{
  Bool, List, Option, String, [], if◌then◌else◌, look, none, not, put, some, ◌&&◌, ◌∷◌,
}
use clappform_sensor_things.Adapters.Sulo.{Formats}
use clappform_sensor_things.Adapters.Sulo.Client.{Reen, Session, get}
use clappform_sensor_things.Prelude.Int.{eqz, pos, ℤ}
use clappform_sensor_things.Adapters.Sulo.Pages.{paged}
use clappform_sensor_things.State.Postgres.Alerts.{snapshot}

abbrev pub Snapshot : Type 0
Snapshot = List (String × SlotView)

-- A map that is filled entry by entry, the last one of a key wins.
unfoldable pub last_where : {A : Type 0} → (A → Bool) → List A → Option A
last_where p [] = none
last_where p (x ∷ xs) = elim (last_where p xs) [
  | some y ↦ some y
  | none ↦ if p x then some x else none
]

-- The requests of discovery; /contentTypes is one request, without limit and offset.
pub record Discovery (W : Type 0) : Type 0 where
  pub formats : Formats
  pub cadence : ℤ
  pub container_slots : Reen W (List ContainerSlot)
  pub sites : Reen W (List Site)
  pub linked_devices : Reen W (List Device)
  pub content_types : Reen W (List ContentType)

unfoldable pub view_of : List Site → List Device → List ContentType → ContainerSlot → SlotView
unfolding last_where
view_of sites devices types s = record {
  slot = s;
  site = last_where (λ (x : Site). eqz x.id s.site) sites;
  device =
      last_where (λ (x : Device). not (eqz x.container (pos 0)) && eqz x.container s.container)
        devices;
  content_type = last_where (λ (x : ContentType). eqz x.id s.content_type) types;
}

-- The loop over the slots: the new snapshot and the Things; a slot without coordinates is skipped.
unfoldable pub published : Formats → List SlotView → Snapshot → Snapshot × List Thing
unfolding put coord native_id to_canonical_thing
published f [] snapshot = (snapshot, [])
published f (v ∷ vs) snapshot =
    let skipped = published f vs snapshot in
    let rest = published f vs (put (native_id f v) v snapshot) in
    elim (coord v) [ none ↦ skipped | some c ↦ (rest.0, to_canonical_thing f v ∷ rest.1) ]

unfoldable pub views_of :
    List Site → List Device → List ContentType → List ContainerSlot → List SlotView
unfolding view_of
views_of sites devices types [] = []
views_of sites devices types (s ∷ ss) =
    view_of sites devices types s ∷ views_of sites devices types ss

module _ {W : Type 0} (a : Discovery W) where
  pub all_pages : {A : Type 0} → Reen W (List A) → Session W → Result (List A) × Session W
  unfolding paged get
  all_pages reen c = paged (λ size offset s. get reen size offset s) reen.page_size 0 c

  -- Enrichment: an error is logged, and the map stays empty.
  pub if_available : {A : Type 0} → Result (List A) × Session W → List A × Session W
  if_available (err e, c) = ([], c)
  if_available (ok xs, c) = (xs, c)

  unfoldable pub joined :
      List ContainerSlot
      → Snapshot
      → Result (List Site) × Session W
      → (Result (List Thing) × Snapshot) × Session W
  unfolding all_pages if_available published views_of get
  joined slots old (err e, c) = ((err e, old), c)
  joined slots old (ok sites, c) =
      let (devices, c1) = if_available (all_pages a.linked_devices c) in
      let (types, c2) = if_available (get a.content_types 0 0 c1) in
      let (snapshot, listed) = published a.formats (views_of sites devices types slots) [] in
      ((ok listed, snapshot), c2)

  unfoldable pub slots_listed :
      Snapshot
      → Result (List ContainerSlot) × Session W
      → (Result (List Thing) × Snapshot) × Session W
  unfolding joined all_pages
  slots_listed old (err e, c) = ((err e, old), c)
  slots_listed old (ok slots, c) = joined slots old (all_pages a.sites c)

  -- The answer, and the snapshot after it.
  unfoldable pub list_things : Snapshot → Session W → (Result (List Thing) × Snapshot) × Session W
  unfolding slots_listed all_pages
  list_things old c = slots_listed old (all_pages a.container_slots c)

  -- A slot of which only the id is known.
  abbrev bare : ℤ → SlotView
  bare n = record {
    slot = record {
      id = n;
      name = "";
      customer_key = "";
      content_type = pos 0;
      site_content_type = pos 0;
      site = pos 0;
      container = pos 0;
    };
    site = none;
    device = none;
    content_type = none;
  }

  pub from_id : Option ℤ → Result (List Datastream)
  unfolding to_canonical_datastream
  from_id none = err (permanent (wrapped text))
  from_id (some n) = ok (to_canonical_datastream a.formats a.cadence (bare n) ∷ [])

  unfoldable pub list_datastreams_for_thing : Snapshot → String → Result (List Datastream)
  unfolding look from_id to_canonical_datastream
  list_datastreams_for_thing snapshot native = elim (look native snapshot) [
    | some v ↦ ok (to_canonical_datastream a.formats a.cadence v ∷ [])
    | none ↦ from_id (a.formats.parse_int native)
  ]
