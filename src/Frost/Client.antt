-- ===== src/Frost/Client.antt =====
-- internal/frost/client.go: the three requests that the write path makes, and how their answers are
-- classified. The network and net/http are the record `Http`; of a JSON body a response holds what
-- the decoders make of it.
use clappform_sensor_things.Prelude.{
  Bool, List, Option, String, [], false, if◌then◌else◌, leb, length, ltb, none, some, sprint,
  str_eq, true, ℕ, ◌==◌, ◌∷◌,
}
use clappform_sensor_things.Failure.{
  Action, Error, Result, conflict, duplicate, err, http_error, ok, text,
}
use clappform_sensor_things.Prelude.Int.{eqz, ltz, pos, ℤ}
use clappform_sensor_things.Canonical.{Time}
use clappform_sensor_things.Frost.IotId.{parse_iot_id}
use clappform_sensor_things.Frost.Entities.{Entity, Payload, entity_name}
use Prim.Native.Char.{code}
use Prim.Native.String.{len}

-- A URL's path under the base URL, as the callers write it.
pub data PostPath : Type 0 where
  collection : Entity → PostPath  -- /Things, /Sensors, ...
  thing_locations : ℤ → PostPath  -- /Things(%d)/Locations
  datastream_observations : ℤ → PostPath  -- /Datastreams(%d)/Observations

pub data Request : Type 0 where
  find : Entity → String → Request  -- GET /<Entity>?$filter=<text>&$select=@iot.id&$top=10
  probe : ℤ → Time → Request  -- GET /Datastreams(%d)/Observations?$filter=phenomenonTime eq ...
  create : PostPath → Payload → Request  -- POST

-- `value_ids` is the @iot.id of each entry of "value", if the body decodes so; `body_id` is the
-- @iot.id of the body itself.
pub record Response : Type 0 where
  pub status : ℕ
  pub location : String
  pub value_ids : Option (List ℤ)
  pub body_id : Option ℤ

-- `unbuilt`: the body or the request could not be encoded, and nothing is sent. `unreachable`: the
-- transport failed.
pub data Reply : Type 0 where
  unbuilt unreachable : Reply
  response : Response → Reply

pub record Http (W : Type 0) : Type 0 where
  pub send : Request → W → Reply × W

-- OData string literals: every single quote is doubled.
unfoldable pub escape_odata_string : String → String
escape_odata_string String.[] = ""
escape_odata_string (String.◌∷◌ c s) =
    let rest = escape_odata_string s in
    if code c == 39 then String.◌∷◌ c (String.◌∷◌ c rest) else String.◌∷◌ c rest

unfoldable pub name_filter : String → String
unfolding escape_odata_string
name_filter name = sprint ("name eq '" ∷ escape_odata_string name ∷ "'" ∷ [])

-- The answers of GET: >= 500 is transient, >= 400 permanent, and so is a body that does not decode
-- transient.
unfoldable pub get_status : Response → Option Error
get_status r =
    if leb 500 r.status
    then some (http_error r.status text true)
    else if leb 400 r.status
    then some (http_error r.status text false)
    else none

unfoldable pub decoded : ℕ → Option (List ℤ) → Result (List ℤ)
decoded status none = err (http_error status text true)
decoded status (some ids) = ok ids

unfoldable pub get_ids : Reply → Result (List ℤ)
unfolding get_status decoded
get_ids unbuilt = err text
get_ids unreachable = err (http_error 0 text true)
get_ids (response r) = elim (get_status r) [ some e ↦ err e | none ↦ decoded r.status r.value_ids ]

-- the loop over out.Value[1:]
unfoldable pub lowest : ℤ → List ℤ → ℤ
lowest low [] = low
lowest low (v ∷ vs) = lowest (if ltz v low then v else low) vs

unfoldable pub found_ids : Entity → String → Result (List ℤ) → ℤ × Option Error
unfolding lowest
found_ids entity name (err e) = (pos 0, some e)
found_ids entity name (ok []) = (pos 0, none)
found_ids entity name (ok (id ∷ [])) = (id, none)
found_ids entity name (ok (id ∷ v ∷ vs)) =
    (lowest id (v ∷ vs), some (duplicate (entity_name entity) name (length (id ∷ v ∷ vs))))

-- The id and the error, which a duplicate gives both.
unfoldable pub find_by_name : {W : Type 0} → Http W → Entity → String → W → (ℤ × Option Error) × W
unfolding found_ids get_ids
find_by_name http entity name w =
    if str_eq name ""
    then ((pos 0, some text), w)
    else if ltb 255 (len name)
    then ((pos 0, some text), w)
    else let (reply, w') = http.send (find entity (name_filter name)) w in
      (found_ids entity name (get_ids reply), w')

-- fmt.Sprintf("/Datastreams(%d)/Observations"), its filter, and len(out.Value) > 0
any_id : Result (List ℤ) → Result Bool
any_id (err e) = err e
any_id (ok []) = ok false
any_id (ok (id ∷ ids)) = ok true

unfoldable pub observation_exists : {W : Type 0} → Http W → ℤ → Time → Action W Bool
unfolding any_id get_ids
observation_exists http ds t w =
    let (reply, w') = http.send (probe ds t) w in (any_id (get_ids reply), w')

-- The id of a body is not used where it is 0.
from_body : Option ℤ → Option ℤ
from_body none = none
from_body (some id) = if eqz id (pos 0) then none else some id

created_id : Response → Option ℤ
unfolding from_body parse_iot_id
created_id r = elim (parse_iot_id r.location) [ some id ↦ some id | none ↦ from_body r.body_id ]

with_id : ℕ → Option ℤ → Result ℤ
with_id status none = err (http_error status text true)
with_id status (some id) = ok id

unfoldable pub post_status : Response → Result ℤ
unfolding created_id with_id
post_status r =
    if r.status == 201
    then with_id r.status (created_id r)
    else if r.status == 409
    then err (conflict r.status)
    else if leb 500 r.status
    then err (http_error r.status text true)
    else if leb 400 r.status
    then err (http_error r.status text false)
    else err (http_error r.status text true)

posted : Reply → Result ℤ
unfolding post_status
posted unbuilt = err text
posted unreachable = err (http_error 0 text true)
posted (response r) = post_status r

unfoldable pub post : {W : Type 0} → Http W → PostPath → Payload → Action W ℤ
unfolding posted
post http path body w = let (reply, w') = http.send (create path body) w in (posted reply, w')
