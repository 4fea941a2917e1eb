-- ===== src/Frost/Lookup.antt =====
-- client.go, FindByName and EscapeODataString: the lowest id of the matches, and literals that end
-- where they should.
use Prim.Native.String.append
use Prim.Native.String.{◌++◌, len}
use clappform_sensor_things.Prelude.{
  All, Bool, Bool-cases, List, String, [], false, if◌then◌else◌, inl, inr, length, none, refl, some,
  str_eq, true, ◌<◌, ◌==◌, ◌∷◌, ◌≡◌, ◌≤◌, ◌⊎◌, Option, arith, ◌∙◌, subst, sym,
}
use clappform_sensor_things.Prelude.Int.{lez, lez_refl, lez_trans, ltz, ltz_false→lez, ltz→lez, ℤ}
use clappform_sensor_things.Frost.Client.{
  Http, Response, escape_odata_string, find, find_by_name, lowest, name_filter, response, found_ids,
}
use clappform_sensor_things.Failure.{duplicate, Error, ok}
use clappform_sensor_things.Frost.Entities.{Entity, entity_name}
use Prim.Native.Char.{code}

lowest-le :
    (low : ℤ) (vs : List ℤ)
    → (lez (lowest low vs) low ≡ true) × All (λ v. lez (lowest low vs) v ≡ true) vs
unfolding lowest
lowest-le low [] = (lez_refl low, tt)
lowest-le low (v ∷ vs) =
    let m = if ltz v low then v else low in
    let (m_least, rest) = lowest-le m vs in
    (
      lez_trans _ m low m_least (smaller_left low v),
      (lez_trans _ m v m_least (smaller_right low v), rest),
    )
  where
    smaller_left : (a b : ℤ) → lez (if ltz b a then b else a) a ≡ true
    smaller_left a b = elim (Bool-cases (ltz b a)) [
      | inl h ↦ rw h (ltz→lez b a h)
      | inr h ↦ rw h (lez_refl a)
    ]

    smaller_right : (a b : ℤ) → lez (if ltz b a then b else a) b ≡ true
    smaller_right a b = elim (Bool-cases (ltz b a)) [
      | inl h ↦ rw h (lez_refl b)
      | inr h ↦ rw h (ltz_false→lez b a h)
    ]

abbrev pub Among : ℤ → List ℤ → Type 0
Among x [] = ⊥
Among x (y ∷ ys) = (x ≡ y) ⊎ Among x ys

chosen : (low v : ℤ) → let m = if ltz v low then v else low in (m ≡ low) ⊎ (m ≡ v)
chosen low v = elim (Bool-cases (ltz v low)) [ inl h ↦ rw h (inr refl) | inr h ↦ rw h (inl refl) ]

Among-step :
    (low v m : ℤ) (vs : List ℤ)
    → (m ≡ low) ⊎ (m ≡ v)
    → (lowest m vs ≡ m) ⊎ Among (lowest m vs) vs
    → (lowest m vs ≡ low) ⊎ Among (lowest m vs) (v ∷ vs)
Among-step low v m vs (inl e) (inl k) = inl (k ∙ e)
Among-step low v m vs (inr e) (inl k) = inr (inl (k ∙ e))
Among-step low v m vs (inl e) (inr a) = inr (inr a)
Among-step low v m vs (inr e) (inr a) = inr (inr a)

lowest-Among : (low : ℤ) (vs : List ℤ) → (lowest low vs ≡ low) ⊎ Among (lowest low vs) vs
unfolding lowest
lowest-Among low [] = inl refl
lowest-Among low (v ∷ vs) =
    let m = if ltz v low then v else low in Among-step low v m vs (chosen low v) (lowest-Among m vs)

-- A name that can be looked up.
abbrev pub IsName : String → Type 0
IsName name = (str_eq name "" ≡ false) × (len name ≤ 255)

-- What FindByName makes of the ids of one match or more.
abbrev pub IsLowestOf : Entity → String → ℤ → List ℤ → ℤ × Option Error → Type 0
IsLowestOf entity name id ids found =
    All (λ v. lez found.0 v ≡ true) (id ∷ ids)
    × Among found.0 (id ∷ ids)
    × (found.1 ≡ elim ids [
      | [] ↦ none
      | v ∷ vs ↦ some (duplicate (entity_name entity) name (length (id ∷ v ∷ vs)))
    ])

found_ids-IsLowestOf :
    (entity : Entity) (name : String) (id : ℤ) (ids : List ℤ)
    → IsLowestOf entity name id ids (found_ids entity name (ok (id ∷ ids)))
unfolding found_ids
found_ids-IsLowestOf entity name id [] = ((lez_refl id, tt), inl refl, refl)
found_ids-IsLowestOf entity name id (v ∷ vs) =
    (lowest-le id (v ∷ vs), lowest-Among id (v ∷ vs), refl)

module _ {W : Type 0} (http : Http W) (entity : Entity) (name : String) (named : IsName name) where
  find_by_name-eq-found_ids :
      (w w' : W) (r : Response) (ids : List ℤ)
      → http.send (find entity (name_filter name)) w ≡ (response r, w')
      → r.status < 400
      → r.value_ids ≡ some ids
      → (find_by_name http entity name w).0 ≡ found_ids entity name (ok ids)
  unfolding find_by_name
  find_by_name-eq-found_ids w w' r ids p q s = ground arith

  -- Where the server answers with matches, FindByName returns the lowest of their ids; it reports a
  -- duplicate exactly if there are two or more.
  pub find_by_name-lowest :
      (w w' : W) (r : Response) (id : ℤ) (ids : List ℤ)
      → http.send (find entity (name_filter name)) w ≡ (response r, w')
      → r.status < 400
      → r.value_ids ≡ some (id ∷ ids)
      → IsLowestOf entity name id ids (find_by_name http entity name w).0
  find_by_name-lowest w w' r id ids p q s =
      subst (IsLowestOf entity name id ids)
        (sym (find_by_name-eq-found_ids w w' r (id ∷ ids) p q s))
        (found_ids-IsLowestOf entity name id ids)

-- The reader of an OData literal, after its opening quote: the text, and what follows the closing
-- quote. `pending` says that the last character was a quote that may be the first of two.
unfoldable pub read_literal : Bool → String → String × String
read_literal pending String.[] = ("", "")
read_literal false (String.◌∷◌ c s) =
    let (t, rest) = read_literal false s in
    let closed = read_literal true s in if code c == 39 then closed else (String.◌∷◌ c t, rest)
read_literal true (String.◌∷◌ c s) =
    let (t, rest) = read_literal false s in
    if code c == 39 then (String.◌∷◌ c t, rest) else ("", String.◌∷◌ c s)

-- Whatever quotes a name has, a reader takes the escaped name and its closing quote for exactly that
-- name, with nothing left over: a name cannot end its literal.
pub read_literal-escape : (s : String) → read_literal false (escape_odata_string s ++ "'") ≡ (s, "")
unfolding read_literal escape_odata_string
read_literal-escape String.[] = refl
read_literal-escape (String.◌∷◌ c s) = elim (Bool-cases (code c == 39)) [
  | inl q ↦ rw q (
      rw
        (
          append.cons c (String.◌∷◌ c (escape_odata_string s)) "'",
          append.cons c (escape_odata_string s) "'",
        )
        (ground (arith, read_literal-escape s)))
  | inr q ↦
      rw q (rw (append.cons c (escape_odata_string s) "'") (ground (arith, read_literal-escape s)))
]
