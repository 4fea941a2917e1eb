-- ===== src/Api/Grouping.antt =====
-- internal/api/push.go, ingestBatch, step 2: the groups of a batch against a filter of the batch by key.
use clappform_sensor_things.Prelude.{
  Bool, List, Option, String, [], if◌then◌else◌, is_none, is_some, keep_where, look, map, none,
  some, str_eq, append_assoc, append_nil, ap, ◌++◌, ◌∷◌, ◌≡◌, refl, arith, eq_iff,
}
use clappform_sensor_things.Canonical.{Observation}
use clappform_sensor_things.Api.Push.{
  Groups, PushResponse, RejectedItem, StreamRef, add_to_group, empty_response, group_observations,
  stream_key,
}

-- The key of an observation's stream.
abbrev pub key_of : Observation → String
key_of o = stream_key o.thing_vendor_native_id o.observed_property

abbrev pub has_key : String → Observation → Bool
has_key key o = str_eq (key_of o) key

abbrev pub is_unknown : List (String × StreamRef) → Observation → Bool
is_unknown streams o = is_none (look (key_of o) streams)

abbrev pub unknown_item : Observation → RejectedItem
unknown_item o = record { raw_observation_id = o.raw_observation_id; reason = "unknown_datastream" }

-- The group that a list of observations joins; no group is empty.
abbrev joined : Option (List Observation) → List Observation → Option (List Observation)
joined none [] = none
joined none (o ∷ os) = some (o ∷ os)
joined (some xs) os = some (xs ++ os)

abbrev pub group_or_none : List Observation → Option (List Observation)
group_or_none os = joined none os

joined-nil : (m : Option (List Observation)) → joined m [] ≡ m
joined-nil none = refl
joined-nil (some xs) = ap (λ (ys : List Observation). some ys) (append_nil xs)

joined-joined :
    (m : Option (List Observation)) (o : Observation) (os : List Observation)
    → joined (joined m (o ∷ [])) os ≡ joined m (o ∷ os)
joined-joined none o os = refl
joined-joined (some xs) o os = ap (λ (ys : List Observation). some ys) (append_assoc xs (o ∷ []) os)

look-add_to_group :
    (key k : String) (o : Observation) (gs : Groups)
    → look key (add_to_group k o gs)
      ≡ (if str_eq k key then joined (look key gs) (o ∷ []) else look key gs)
unfolding look add_to_group
look-add_to_group key k o [] = ground arith
look-add_to_group key k o ((j, os) ∷ gs) =
    ground (arith, eq_iff j k, eq_iff j key, eq_iff k key, look-add_to_group key k o gs)

-- The members of a group, if its stream is known.
abbrev pub members : List (String × StreamRef) → String → List Observation → List Observation
members streams key os = if is_some (look key streams) then keep_where (has_key key) os else []

look-group_observations :
    (streams : List (String × StreamRef)) (key : String) (os : List Observation) (gs : Groups)
    (resp : PushResponse)
    → look key (group_observations streams os gs resp).0
      ≡ joined (look key gs) (members streams key os)
unfolding group_observations
look-group_observations streams key [] gs resp = ground (arith, joined-nil (look key gs))
look-group_observations streams key (o ∷ os) gs resp = ground (
  arith,
  look-add_to_group key (key_of o) o gs,
  joined-joined (look key gs) o (keep_where (has_key key) os),
  eq_iff (key_of o) key,
  look-group_observations streams key os gs resp,
  look-group_observations streams key os (add_to_group (key_of o) o gs) resp,
  look-group_observations streams key os gs
      (record resp { rejected = resp.rejected ++ (unknown_item o ∷ []) }),
)

rejected-group_observations :
    (streams : List (String × StreamRef)) (os : List Observation) (gs : Groups)
    (resp : PushResponse)
    → (group_observations streams os gs resp).1 ≡ record resp {
      rejected = resp.rejected ++ map unknown_item (keep_where (is_unknown streams) os);
    }
unfolding group_observations
rejected-group_observations streams [] gs resp = ground (arith, append_nil resp.rejected)
rejected-group_observations streams (o ∷ os) gs resp = ground (
  arith,
  append_assoc resp.rejected (unknown_item o ∷ [])
      (map unknown_item (keep_where (is_unknown streams) os)),
  rejected-group_observations streams os gs
      (record resp { rejected = resp.rejected ++ (unknown_item o ∷ []) }),
  rejected-group_observations streams os (add_to_group (key_of o) o gs) resp,
)

-- The groups of a batch are the batch filtered: for every key, the group is what of the batch has this
-- key, in the order of the batch, if the stream is known and there is something, and there is none
-- otherwise; and exactly the observations of no known stream are rejected, in their order.
pub group_observations-eq-filter :
    (streams : List (String × StreamRef)) (os : List Observation)
    → ((key : String)
        → look key (group_observations streams os [] empty_response).0
          ≡ group_or_none (members streams key os))
      × ((group_observations streams os [] empty_response).1 ≡ record empty_response {
        rejected = map unknown_item (keep_where (is_unknown streams) os);
      })
unfolding look
group_observations-eq-filter streams os = (
  λ key. look-group_observations streams key os [] empty_response,
  rejected-group_observations streams os [] empty_response,
)
