-- ===== src/Adapters/Collaborall.antt =====
-- internal/adapters/collaborall/wire.go and push.go: the envelope that the reader posts, and the push
-- adapter that takes it. The JSON decoder is the parameter `unmarshal`.
pub mod Source
use clappform_sensor_things.Prelude.{
  List, Option, String, [], ap, if◌then◌else◌, look, none, refl, some, sprint, str_eq, ◌↔◌, ◌∷◌,
  ◌≡◌, ◌≢◌, arith, eq_iff,
}
use clappform_sensor_things.Adapters.{DecodedBatch, DecodedThing, PushAdapter}
use clappform_sensor_things.Failure.{Error, Result, err, ok, permanent, text, wrapped}
use clappform_sensor_things.Canonical.{Datastream, Observation, StringMap, Thing}

pub record ThingWithStreams : Type 0 where
  pub thing : Thing
  pub datastreams : List Datastream

pub record Envelope : Type 0 where
  pub things : List ThingWithStreams
  pub observations : List Observation

abbrev pub vendor_name : String
vendor_name = "collaborall"

things_to_batch : List ThingWithStreams → List DecodedThing
things_to_batch [] = []
things_to_batch (t ∷ ts) =
    record { thing = t.thing; datastreams = t.datastreams } ∷ things_to_batch ts

unfoldable pub to_batch : Envelope → DecodedBatch
unfolding things_to_batch
to_batch e = record { things = things_to_batch e.things; observations = e.observations }

things_from_batch : List DecodedThing → List ThingWithStreams
things_from_batch [] = []
things_from_batch (t ∷ ts) =
    record { thing = t.thing; datastreams = t.datastreams } ∷ things_from_batch ts

unfoldable pub from_batch : DecodedBatch → Envelope
unfolding things_from_batch
from_batch b = record { things = things_from_batch b.things; observations = b.observations }

-- r.Header.Get: "" for a header that is not there
unfoldable pub header : String → StringMap → String
unfolding look
header k headers = elim (look k headers) [ none ↦ "" | some v ↦ v ]

unfoldable pub authenticate : String → StringMap → String → Option Error
unfolding header
authenticate secret headers body =
    if str_eq secret ""
    then some (permanent text)
    else if str_eq (header "Authorization" headers) (sprint ("Bearer " ∷ secret ∷ []))
    then none
    else some (permanent text)

unfoldable pub decode_push : (String → Option Envelope) → String → Result DecodedBatch
unfolding to_batch
decode_push unmarshal body = elim (unmarshal body) [
  | none ↦ err (permanent (wrapped text))
  | some env ↦ ok (to_batch env)
]

unfoldable pub new_push : (String → Option Envelope) → String → PushAdapter
unfolding authenticate decode_push
new_push unmarshal secret = record {
  vendor_id = vendor_name;
  authenticate = authenticate secret;
  decode_push = decode_push unmarshal;
}

things_to_batch-from : (ts : List DecodedThing) → things_to_batch (things_from_batch ts) ≡ ts
unfolding things_to_batch things_from_batch
things_to_batch-from [] = refl
things_to_batch-from (t ∷ ts) = ap (λ r. t ∷ r) (things_to_batch-from ts)

things_from_batch-to : (ts : List ThingWithStreams) → things_from_batch (things_to_batch ts) ≡ ts
unfolding things_to_batch things_from_batch
things_from_batch-to [] = refl
things_from_batch-to (t ∷ ts) = ap (λ r. t ∷ r) (things_from_batch-to ts)

-- The reader's envelope and the service's batch carry the same data: both conversions undo each
-- other, with every Thing, Datastream and Observation in its order.
pub to_batch-from_batch :
    (b : DecodedBatch) (e : Envelope)
    → (to_batch (from_batch b) ≡ b) × (from_batch (to_batch e) ≡ e)
unfolding to_batch from_batch
to_batch-from_batch b e = (
  ap (λ ts. record { things = ts; observations = b.observations }) (things_to_batch-from b.things),
  ap (λ ts. record { things = ts; observations = e.observations }) (things_from_batch-to e.things),
)

-- A request is let in exactly if a secret is configured and the header has that secret as its bearer
-- token; the body plays no part.
pub authenticate_iff :
    (secret body : String) (headers : StringMap)
    → (authenticate secret headers body ≡ none)
      ↔ ((secret ≢ "") × (header "Authorization" headers ≡ sprint ("Bearer " ∷ secret ∷ [])))
unfolding authenticate
authenticate_iff secret body headers = (
  λ h. ground (
    arith,
    eq_iff secret "",
    eq_iff (header "Authorization" headers) (sprint ("Bearer " ∷ secret ∷ [])),
  ),
  λ h. ground (
    arith,
    eq_iff secret "",
    eq_iff (header "Authorization" headers) (sprint ("Bearer " ∷ secret ∷ [])),
  ),
)
