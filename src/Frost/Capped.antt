-- ===== src/Frost/Capped.antt =====
-- internal/frost/reader.go, GetAll with a cap: how many requests it can make.
use clappform_sensor_things.Prelude.{
  either_way, some, refl, List, Option, String, [], arith, is_some, length, length-append, suc,
  true, zero, ℕ, ◌+◌, ◌++◌, ◌<◌, ◌≡◌, ◌⊎◌, str_eq, eq_iff, leb, not, ◌&&◌, ◌==◌,
}
use clappform_sensor_things.Failure.{ok, err, Result}
use clappform_sensor_things.Frost.Collections.{ReadClient, follow, get_all, get_collection_url}

module _ {W A : Type 0} (r : ReadClient W A)
    (progress : (url : String) (w : W) (items : List A) (next : String)
      → (get_collection_url r url w).0 ≡ ok (items, next)
      → (next ≡ "") ⊎ (0 < length items)) where
  -- What a turn of the loop does with the answer to its request.
  abbrev turn : ℕ → ℕ → List A → W → Result (List A × String) → Option (Result (List A) × W)
  turn fuel bound all v (err e) = some (err e, v)
  turn fuel bound all v (ok (items, next)) = follow r fuel bound (all ++ items) next v

  turn-ends :
      (fuel bound : ℕ) (all : List A) (v : W) (got : Result (List A × String))
      → ((items : List A) (next : String)
          → got ≡ ok (items, next)
          → is_some (follow r fuel bound (all ++ items) next v) ≡ true)
      → is_some (turn fuel bound all v got) ≡ true
  turn-ends fuel bound all v (err e) h = refl
  turn-ends fuel bound all v (ok (items, next)) h = h items next refl

  -- The bound is left after a page, or there is no next one.
  further :
      (fuel bound : ℕ) (all items : List A) (next : String)
      → bound < suc fuel + length all
      → length all < bound
      → (next ≡ "") ⊎ (0 < length items)
      → (next ≡ "") ⊎ ((0 < fuel) × (bound < fuel + length (all ++ items)))
  further fuel bound all items next h l k = ground (arith, length-append all items)

  abbrev Ends : Option (Result (List A) × W) → Type 0
  Ends o = is_some o ≡ true

  follow-ends :
      (fuel bound : ℕ) (all : List A) (next : String) (w : W)
      → (next ≡ "") ⊎ ((0 < fuel) × (bound < fuel + length all))
      → 0 < bound
      → is_some (follow r fuel bound all next w) ≡ true
  unfolding follow
  follow-ends zero bound all next w h b = ground (arith, eq_iff next "")
  follow-ends (suc fuel) bound all next w h b =
      either_way Ends (str_eq next "") _ _ (λ e. refl)
        λ e.
          either_way Ends (not (bound == 0) && leb bound (length all)) _ _ (λ k. refl)
            λ k.
              turn-ends fuel bound all (get_collection_url r next w).1
                (get_collection_url r next w).0
                λ items next' got.
                  follow-ends fuel bound (all ++ items) next' (get_collection_url r next w).1
                    (further fuel bound all items next' (ground (arith, eq_iff next ""))
                      (ground arith) (progress next w items next' got))
                    b

  -- Where every page that links to a further one has an item, GetAll with a positive cap returns: as many
  -- turns of its loop as the cap are enough, and each turn makes one request.
  pub get_all-ends :
      (bound : ℕ) (url : String) (w : W) → 0 < bound → is_some (get_all r bound bound url w) ≡ true
  unfolding get_all
  get_all-ends bound url w b =
      turn-ends bound bound [] (get_collection_url r url w).1 (get_collection_url r url w).0
        λ items next got.
          follow-ends bound bound items next (get_collection_url r url w).1
            (ground (arith, progress url w items next got)) b
