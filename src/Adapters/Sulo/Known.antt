-- ===== src/Adapters/Sulo/Known.antt =====
-- sulo.go, ListThings: every Thing that it lists has its stream in the snapshot.
use clappform_sensor_things.Adapters.Sulo.Mapping.{
  SlotView, coord, native_id, to_canonical_thing, ContainerSlot, Site, to_canonical_datastream,
}
use clappform_sensor_things.Canonical.{Thing, Datastream}
use clappform_sensor_things.Prelude.{
  Bool, Bool-cases, List, String, [], arith, eq_iff, inl, inr, is_some, look, look-put, none, put,
  refl, some, str_eq, sym, true, ◌∙◌, ◌∷◌, ◌≡◌, ◌||◌, All, ap, if◌then◌else◌, subst, All-map,
  Option,
}
use clappform_sensor_things.Adapters.Sulo.{Formats}
use clappform_sensor_things.Adapters.Sulo.Discovery.{
  Snapshot, published, Discovery, joined, list_datastreams_for_thing, list_things, slots_listed,
  all_pages, from_id, if_available, views_of,
}
use clappform_sensor_things.Failure.{Result, err, ok}
use clappform_sensor_things.Adapters.Sulo.Client.{Session, get}

module _ (f : Formats) where
  -- An entry of the snapshot stands under its own id, and has coordinates.
  abbrev Located : String → SlotView → Type 0
  Located k v = (native_id f v ≡ k) × (is_some (coord v) ≡ true)

  abbrev Sound : Snapshot → Type 0
  Sound m = (k : String) (v : SlotView) → look k m ≡ some v → Located k v

  abbrev has : String → Snapshot → Bool
  has k m = is_some (look k m)

  -- What stands under a key after a put.
  look-put_at :
      (n k : String) (v : SlotView) (m : Snapshot) {b : Bool}
      → str_eq n k ≡ b
      → look k (put n v m) ≡ (if b then some v else look k m)
  look-put_at n k v m e = look-put n k v m ∙ ap (λ b. if b then some v else look k m) e

  put-Sound :
      (v : SlotView) (m : Snapshot)
      → is_some (coord v) ≡ true
      → Sound m
      → Sound (put (native_id f v) v m)
  put-Sound v m l h k u e = elim (Bool-cases (str_eq (native_id f v) k)) [
    | inl same ↦
        subst (Located k)
          (ap (λ (o : Option SlotView). elim o [ none ↦ v | some x ↦ x ])
            (sym (look-put_at (native_id f v) k v m same) ∙ e))
          (ground (arith, eq_iff (native_id f v) k, same), l)
    | inr apart ↦ h k u (sym (look-put_at (native_id f v) k v m apart) ∙ e)
  ]

  has-put :
      (k j : String) (v : SlotView) (m : Snapshot) → has j (put k v m) ≡ (str_eq k j || has j m)
  has-put k j v m = ground (arith, look-put k j v m)

  published-has :
      (vs : List SlotView) (m : Snapshot) (k : String)
      → has k m ≡ true
      → has k (published f vs m).0 ≡ true
  unfolding published
  published-has [] m k h = h
  published-has (v ∷ vs) m k h = ground (
    arith,
    published-has vs m k h,
    published-has vs (put (native_id f v) v m) k,
    has-put (native_id f v) k v m,
  )

  published-Sound : (vs : List SlotView) (m : Snapshot) → Sound m → Sound (published f vs m).0
  unfolding published
  published-Sound [] m h = h
  published-Sound (v ∷ vs) m h =
      elim (coord v)
          as (λ c.
            is_some c ≡ is_some (coord v)
            → Sound
                (elim c as (λ _. Snapshot × List Thing) [
                  | none ↦ published f vs m
                  | some x ↦ (
                    (published f vs (put (native_id f v) v m)).0,
                    to_canonical_thing f v ∷ (published f vs (put (native_id f v) v m)).1,
                  )
                ]).0) [
                  | none ↦ λ e. published-Sound vs m h
                  | some x ↦
                      λ e. published-Sound vs (put (native_id f v) v m) (put-Sound v m (sym e) h)
                ]
        refl

  -- The Thing's id leads to an entry of the snapshot.
  abbrev Known : Snapshot → Thing → Type 0
  Known m t = is_some (look t.vendor_native_id m) ≡ true

  published-Known :
      (vs : List SlotView) (m : Snapshot) → All (Known (published f vs m).0) (published f vs m).1
  unfolding published to_canonical_thing
  published-Known [] m = tt
  published-Known (v ∷ vs) m =
      elim (coord v)
        as (λ c.
          let r : Snapshot × List Thing = elim c as (λ _. Snapshot × List Thing) [
            | none ↦ published f vs m
            | some x ↦ (
              (published f vs (put (native_id f v) v m)).0,
              to_canonical_thing f v ∷ (published f vs (put (native_id f v) v m)).1,
            )
          ] in
          All (Known r.0) r.1) [
            | none ↦ published-Known vs m
            | some x ↦ (
              published-has vs (put (native_id f v) v m) (native_id f v) (
                  ground (
                    arith,
                    has-put (native_id f v) (native_id f v) v m,
                    eq_iff (native_id f v) (native_id f v),
                  )),
              published-Known vs (put (native_id f v) v m),
            )
          ]

-- One stream, and of this Thing.
abbrev pub StreamOf : String → Result (List Datastream) → Type 0
StreamOf k (err e) = ⊥
StreamOf k (ok []) = ⊥
StreamOf k (ok (d ∷ [])) = d.thing_vendor_native_id ≡ k
StreamOf k (ok (d ∷ e ∷ ds)) = ⊥

module _ {W : Type 0} (a : Discovery W) where
  -- The answer for an id, by what the snapshot has under it.
  abbrev answer : String → Option SlotView → Result (List Datastream)
  answer k o = elim o [
    | some v ↦ ok (to_canonical_datastream a.formats a.cadence v ∷ [])
    | none ↦ from_id a (a.formats.parse_int k)
  ]

  found-StreamOf :
      (m : Snapshot) (k : String) (o : Option SlotView)
      → Sound a.formats m
      → look k m ≡ o
      → is_some o ≡ true
      → StreamOf k (list_datastreams_for_thing a m k)
  unfolding list_datastreams_for_thing to_canonical_datastream
  found-StreamOf m k none h e i = ground (arith, i)
  found-StreamOf m k (some v) h e i =
      subst (λ (o : Option SlotView). StreamOf k (answer k o)) (sym e) (h k v e).0

  -- After ListThings: the answer and the snapshot agree.
  abbrev pub Listed : Snapshot → Result (List Thing) × Snapshot → Type 0
  Listed old (err e, m) = m ≡ old
  Listed old (ok listed, m) =
      All
        (λ (t : Thing).
          StreamOf t.vendor_native_id (list_datastreams_for_thing a m t.vendor_native_id))
        listed

  published-Listed :
      (vs : List SlotView) (old : Snapshot)
      → Listed old (ok (published a.formats vs []).1, (published a.formats vs []).0)
  unfolding look
  published-Listed vs old =
      All-map
        (λ t k.
          found-StreamOf (published a.formats vs []).0 t.vendor_native_id _
            (published-Sound a.formats vs [] (λ k v e. ground (arith, e))) refl k)
        _ (published-Known a.formats vs [])

  joined-Listed :
      (slots : List ContainerSlot) (old : Snapshot) (r : Result (List Site) × Session W)
      → Listed old (joined a slots old r).0
  unfolding joined
  joined-Listed slots old (err e, c) = refl
  joined-Listed slots old (ok sites, c) =
      let devices = if_available a (all_pages a a.linked_devices c) in
      let types = if_available a (get a.content_types 0 0 devices.1) in
      published-Listed (views_of sites devices.0 types.0 slots) old

  slots_listed-Listed :
      (old : Snapshot) (r : Result (List ContainerSlot) × Session W)
      → Listed old (slots_listed a old r).0
  unfolding slots_listed
  slots_listed-Listed old (err e, c) = refl
  slots_listed-Listed old (ok slots, c) = joined-Listed slots old _

  -- Where ListThings succeeds, whatever became of the enrichment, ListDatastreamsForThing then answers
  -- for each listed Thing with one stream, and the stream is that Thing's; where it fails, the snapshot
  -- is as it was.
  pub list_things-Listed : (old : Snapshot) (c : Session W) → Listed old (list_things a old c).0
  unfolding list_things
  list_things-Listed old c = slots_listed-Listed old (all_pages a a.container_slots c)
