-- ===== src/Frost/Collections.antt =====
-- internal/frost/reader.go: reading a collection page by page, along @iot.nextLink. The base URL and
-- the encoded query are texts; `send` is the transport, with the decoded items of a page.
use clappform_sensor_things.Prelude.{
  append_assoc, append_nil, Bool, List, Option, String, [], ap, false, if◌then◌else◌, leb, length,
  none, not, refl, some, sprint, str_eq, suc, sym, true, zero, ℕ, ◌&&◌, ◌++◌, ◌==◌, ◌∙◌, ◌∷◌, ◌≡◌,
  ◌||◌,
}
use clappform_sensor_things.Failure.{Action, Result, err, http_error, ok, text, wrapped}
use Prim.Native.Char.{code}

pub data CollectionReply (A : Type 0) : Type 0 where
  not_sent lost : CollectionReply A
  page : ℕ → Option (List A × String) → CollectionReply A  -- the status, and the decoded body

pub record ReadClient (W A : Type 0) : Type 0 where
  pub base_url : String
  pub send : String → W → CollectionReply A × W

-- strings.HasPrefix and strings.TrimLeft(s, "/")
has_prefix : String → String → Bool
has_prefix s String.[] = true
has_prefix String.[] (String.◌∷◌ c p) = false
has_prefix (String.◌∷◌ d s) (String.◌∷◌ c p) =
    let rest = has_prefix s p in if code d == code c then rest else false

trim_slashes : String → String
trim_slashes String.[] = ""
trim_slashes (String.◌∷◌ c s) =
    let rest = trim_slashes s in if code c == 47 then rest else String.◌∷◌ c s

unfoldable pub resolve_next_link : String → String → String
unfolding has_prefix trim_slashes
resolve_next_link base next =
    if str_eq next ""
    then ""
    else if has_prefix next "http://" || has_prefix next "https://"
    then next
    else sprint (base ∷ "/" ∷ trim_slashes next ∷ [])

-- >= 500 is transient, >= 400 permanent, and a body that does not decode transient.
unfoldable pub classified : {A : Type 0} → String → CollectionReply A → Result (List A × String)
unfolding resolve_next_link
classified base not_sent = err (wrapped text)
classified base lost = err (http_error 0 text true)
classified base (page status none) =
    if leb 500 status
    then err (http_error status text true)
    else if leb 400 status
    then err (http_error status text false)
    else err (http_error status text true)
classified base (page status (some (items, next))) =
    if leb 500 status
    then err (http_error status text true)
    else if leb 400 status
    then err (http_error status text false)
    else ok (items, resolve_next_link base next)

module _ {W A : Type 0} (r : ReadClient W A) where
  unfoldable pub get_collection_url : String → Action W (List A × String)
  unfolding classified
  get_collection_url url w = let (reply, w') = r.send url w in (classified r.base_url reply, w')

  -- The loop of GetAll; `none`: the fuel ran out. `bound` 0 is no cap.
  unfoldable pub follow : ℕ → ℕ → List A → String → W → Option (Result (List A) × W)
  unfolding get_collection_url
  follow zero bound all next w = if str_eq next "" then some (ok all, w) else none
  follow (suc fuel) bound all next w =
      let (got, w') = get_collection_url next w in
      let further : Option (Result (List A) × W) = elim got [
        | err e ↦ some (err e, w')
        | ok (items, next') ↦ follow fuel bound (all ++ items) next' w'
      ] in
      if str_eq next ""
      then some (ok all, w)
      else if not (bound == 0) && leb bound (length all)
      then some (ok all, w)
      else further

  unfoldable pub get_all : ℕ → ℕ → String → W → Option (Result (List A) × W)
  unfolding follow
  get_all fuel bound url w =
      let (got, w') = get_collection_url url w in
      elim got [ err e ↦ some (err e, w') | ok (items, next) ↦ follow fuel bound items next w' ]

  -- A chain of pages from a link to the end: the items, and how many pages.
  pub data Chain : String → W → ℕ → List A → W → Type 0 where
    last : (w : W) → Chain "" w 0 [] w
    more :
        {url next : String} {w v u : W} {items rest : List A} {n : ℕ}
        → str_eq url "" ≡ false
        → get_collection_url url w ≡ (ok (items, next), v)
        → Chain next v n rest u
        → Chain url w (suc n) (items ++ rest) u

  abbrev done : List A → W → Option (Result (List A) × W)
  done xs w = some (ok xs, w)

  -- What a turn of the loop does with the answer to its request.
  abbrev turn : ℕ → List A → Result (List A × String) × W → Option (Result (List A) × W)
  turn fuel all x = elim x.0 [
    | err e ↦ some (err e, x.1)
    | ok (items, next) ↦ follow fuel 0 (all ++ items) next x.1
  ]

  follow-turn :
      (fuel : ℕ) (all : List A) (url : String) (w : W)
      → follow (suc fuel) 0 all url w
        ≡ (if str_eq url "" then done all w else turn fuel all (get_collection_url url w))
  unfolding follow
  follow-turn fuel all url w = refl

  -- Where the links lead through n pages to an end, n turns of the loop return all their items in
  -- order, after what was collected before.
  follow-Chain :
      {url : String} {w u : W} {n : ℕ} {items : List A} (all : List A)
      → Chain url w n items u
      → follow n 0 all url w ≡ some (ok (all ++ items), u)
  unfolding follow
  follow-Chain all (last w) = ap (λ (xs : List A). done xs w) (sym (append_nil all))
  follow-Chain {u = u} all (more {url = url} {w = w} {items = items} {rest = rest} {n = n} e g c) =
      follow-turn n all url w
      ∙ rw e (
          ap (turn n all) g
          ∙ (follow-Chain (all ++ items) c
              ∙ ap (λ (xs : List A). done xs u) (append_assoc all items rest)))

  abbrev followed : ℕ → Result (List A × String) × W → Option (Result (List A) × W)
  followed fuel x = elim x.0 [
    | err e ↦ some (err e, x.1)
    | ok (items, next) ↦ follow fuel 0 items next x.1
  ]

  get_all-followed :
      (fuel : ℕ) (url : String) (w : W)
      → get_all fuel 0 url w ≡ followed fuel (get_collection_url url w)
  unfolding get_all
  get_all-followed fuel url w = refl

  -- Where the first page and the links from it lead through n more pages to an end, GetAll without a
  -- cap returns the items of all pages in order, and n turns of its loop are enough.
  pub get_all-Chain :
      (url : String) (w : W) {next : String} {v u : W} {items rest : List A} {n : ℕ}
      → get_collection_url url w ≡ (ok (items, next), v)
      → Chain next v n rest u
      → get_all n 0 url w ≡ some (ok (items ++ rest), u)
  get_all-Chain url w {items = items} {n = n} g c =
      get_all-followed n url w ∙ ap (followed n) g ∙ follow-Chain items c
