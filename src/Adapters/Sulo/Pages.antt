-- ===== src/Adapters/Sulo/Pages.antt =====
-- client.go, paged: the loop over the pages of a collection.
use clappform_sensor_things.Prelude.{
  append_assoc, List, Option, [], if◌then◌else◌, leb, length, ltb, none, some, suc, zero, ℕ, ◌++◌,
  ◌-◌, ◌==◌, ap, arith, drop, refl, take, true, ◌*◌, ◌<◌, ◌∙◌, ◌∷◌, ◌≡◌, Bool-cases, false, inl,
  inr, sym, take-append-drop, ◌≤◌,
}
use clappform_sensor_things.Failure.{Result, err, ok}

-- maxPages
abbrev pub max_pages : ℕ
max_pages = 200

-- `max` 0 is no cap. `get` returns the items that a page decodes to.
module _ {S A : Type 0} (get : ℕ → ℕ → S → Result (List A) × S) (page_size max : ℕ) where
  -- The size of the next page; `none`: the cap is reached.
  unfoldable pub next_size : ℕ → Option ℕ
  next_size total =
      if max == 0
      then some page_size
      else if leb max total
      then none
      else if ltb (max - total) page_size
      then some (max - total)
      else some page_size

  -- `left` pages to go, with the items so far.
  unfoldable pub pages : ℕ → List A → S → Result (List A) × S
  unfolding next_size
  pages zero items s = (ok items, s)
  pages (suc left) items s = elim (next_size (length items)) [
    | none ↦ (ok items, s)
    | some size ↦
        let (page, s') = get size (length items) s in
        elim page [
          | err e ↦ (err e, s')
          | ok more ↦
              let rest = pages left (items ++ more) s' in
              if ltb (length more) size then (ok (items ++ more), s') else rest
        ]
  ]

  unfoldable pub paged : S → Result (List A) × S
  unfolding pages
  paged s = pages max_pages [] s

-- A server that serves a fixed collection by limit and offset.
module _ {S A : Type 0} (get : ℕ → ℕ → S → Result (List A) × S) (page_size : ℕ) (all : List A)
    (serves : (size offset : ℕ) (s : S)
      → (get size offset s).0 ≡ ok (take size (drop offset all))) where
  drop-length_append : (xs ys : List A) → drop (length xs) (xs ++ ys) ≡ ys
  drop-length_append [] ys = refl
  drop-length_append (x ∷ xs) ys = drop-length_append xs ys

  take-short : (n : ℕ) (xs : List A) → ltb (length (take n xs)) n ≡ true → take n xs ≡ xs
  take-short zero xs h = ground (arith, h)
  take-short (suc n) [] h = refl
  take-short (suc n) (x ∷ xs) h = ap (λ r. x ∷ r) (take-short n xs (ground (arith, h)))

  length-drop : (n : ℕ) (xs : List A) → length (drop n xs) ≡ length xs - n
  length-drop zero xs = omega arith
  length-drop (suc n) [] = omega arith
  length-drop (suc n) (x ∷ xs) = omega (arith, length-drop n xs)

  length-take : (n : ℕ) (xs : List A) → length (take n xs) ≤ length xs
  length-take zero xs = omega arith
  length-take (suc n) [] = omega arith
  length-take (suc n) (x ∷ xs) = omega (arith, length-take n xs)

  left_over :
      (left : ℕ) (post : List A)
      → length post < suc left * page_size
      → ltb (length (take page_size post)) page_size ≡ false
      → length (drop page_size post) < left * page_size
  left_over left post l full =
      ground (arith, l, full, length-drop page_size post, length-take page_size post)

  page-served :
      (pre post : List A) (s : S)
      → all ≡ pre ++ post
      → (get page_size (length pre) s).0 ≡ ok (take page_size post)
  page-served pre post s h =
      serves page_size (length pre) s
      ∙ ap (λ (xs : List A). ok (take page_size xs))
          (ap (drop (length pre)) h ∙ drop-length_append pre post)

  pages-step :
      (left : ℕ) (pre post : List A) (s : S)
      → all ≡ pre ++ post
      → (pages get page_size 0 (suc left) pre s).0 ≡ (
          if ltb (length (take page_size post)) page_size
          then ok (pre ++ take page_size post)
          else (pages get page_size 0 left
              (pre ++ take page_size post)
              (get page_size (length pre) s).1).0)
  unfolding pages next_size
  pages-step left pre post s h = ground (arith, page-served pre post s h)

  pages_complete :
      (left : ℕ) (pre post : List A) (s : S)
      → all ≡ pre ++ post
      → 0 < page_size
      → length post < left * page_size
      → (pages get page_size 0 left pre s).0 ≡ ok all
  unfolding pages
  pages_complete zero pre post s h k l = ground (arith, l)
  pages_complete (suc left) pre post s h k l =
      let page = take page_size post in
      pages-step left pre post s h ∙ elim (Bool-cases (ltb (length page) page_size)) [
        | inl short ↦ rw short (
            ap (λ (xs : List A). ok xs)
              (ap (λ (xs : List A). pre ++ xs) (take-short page_size post short) ∙ sym h))
        | inr full ↦ rw full (
            pages_complete left (pre ++ page) (drop page_size post) (get page_size (length pre) s).1
              (h
                ∙ ap (λ (xs : List A). pre ++ xs) (sym (take-append-drop page_size post))
                ∙ sym (append_assoc pre page (drop page_size post)))
              k (left_over left post l full))
      ]

  -- A collection of fewer items than all pages together can hold is returned whole and in its order.
  pub paged_complete :
      (s : S)
      → 0 < page_size
      → length all < max_pages * page_size
      → (paged get page_size 0 s).0 ≡ ok all
  unfolding paged
  paged_complete s k l = pages_complete max_pages [] all s refl k l
