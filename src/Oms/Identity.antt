-- ===== src/Oms/Identity.antt =====
-- mapper.go: entities that must not be taken for one another have different names.
use text.Mathlib.TextLemmas.{append_cancel_left}
use clappform_sensor_things.Prelude.{
  String, [], arith, look, look-put, none, refl, some, ◌∷◌, ◌≡◌, sprint, sym, ◌∙◌,
}
use clappform_sensor_things.Oms.Names.{
  Config, or_default, thing_entity_name, thing_name, title_case,
}
use clappform_sensor_things.Oms.Bodies.{merge_properties}
use clappform_sensor_things.Canonical.{StringMap, Thing}

-- The name of a Thing that carries none.
unnamed : Config → Thing → String
unfolding title_case
unnamed cfg t =
    sprint
      (cfg.entity_name_prefix ∷ title_case t.vendor_id ∷ " Container " ∷ t.vendor_native_id ∷ [])

thing_entity_name-unnamed :
    (cfg : Config) (t : Thing) → t.name ≡ "" → thing_entity_name cfg t ≡ unnamed cfg t
unfolding thing_entity_name or_default thing_name unnamed
thing_entity_name-unnamed cfg t p = rw p

unnamed_injective :
    (cfg : Config) (t u : Thing)
    → t.vendor_id ≡ u.vendor_id
    → unnamed cfg t ≡ unnamed cfg u
    → t.vendor_native_id ≡ u.vendor_native_id
unfolding unnamed
unnamed_injective cfg t u r e = append_cancel_left " Container " _ _ (
    append_cancel_left (title_case u.vendor_id) _ _
      (append_cancel_left cfg.entity_name_prefix _ _ (rw r at e)))

-- Two Things of one vendor that carry no name of their own have the same entity name only if they
-- are the same container, whatever the prefix.
pub thing_entity_name_injective :
    (cfg : Config) (t u : Thing)
    → t.name ≡ ""
    → u.name ≡ ""
    → t.vendor_id ≡ u.vendor_id
    → thing_entity_name cfg t ≡ thing_entity_name cfg u
    → t.vendor_native_id ≡ u.vendor_native_id
thing_entity_name_injective cfg t u p q r e =
    unnamed_injective cfg t u r
      (sym (thing_entity_name-unnamed cfg t p) ∙ e ∙ thing_entity_name-unnamed cfg u q)

-- What a Thing's own properties say is kept, and the mapper's entries fill the rest.
pub look-merge_properties :
    (k : String) (base extra : StringMap)
    → look k (merge_properties base extra)
      ≡ elim (look k extra) [ none ↦ look k base | some v ↦ some v ]
unfolding merge_properties look
look-merge_properties k base [] = refl
look-merge_properties k base ((j, v) ∷ extra) =
    ground (arith, look-put j k v (merge_properties base extra), look-merge_properties k base extra)
