-- ===== src/Frost/Duplicates.antt =====
-- writer.go, GetOrCreate against a FROST-Server: a second entity of one name is never created.
use clappform_sensor_things.Prelude.{
  String, [], arith, false, none, some, true, ℕ, ◌+◌, ◌<◌, ◌∷◌, ◌≡◌, ◌≤◌, List, Option, ap, refl,
  ◌⊎◌, sym, ◌∙◌,
}
use clappform_sensor_things.Prelude.Int.{ltz, pos, ℤ}
use clappform_sensor_things.Frost.Client.{
  PostPath, Reply, Response, create, find, find_by_name, found_ids, get_ids, name_filter, post,
  response, decoded, unbuilt, unreachable,
}
use clappform_sensor_things.Frost.Entities.{Entity, Payload}
use clappform_sensor_things.Frost.Writer.{
  Writer, created, looked_up, refetched, get_or_create, resolve_uncached,
}
use clappform_sensor_things.Failure.{Error, Result, err, ok}

-- What a FROST-Server does, as the SensorThings API says: `count e name w` is how many entities of
-- the collection have that name. A GET changes nothing; the filter on a name finds none only where
-- there are none, and ids are positive; a POST makes one entity at most.
pub record FrostLaws {W : Type 0} (wr : Writer W) (count : Entity → String → W → ℕ) : Type 0 where
  pub put_keeps :
      (e e' : Entity) (n n' : String) (id : ℤ) (w : W)
      → count e n (wr.cache.put e' n' id w) ≡ count e n w
  pub find_keeps :
      (e e' : Entity) (n n' : String) (w : W)
      → count e n (wr.http.send (find e' (name_filter n')) w).1 ≡ count e n w
  pub finds_all :
      (e : Entity) (n : String) (w w' : W) (r : Response)
      → wr.http.send (find e (name_filter n)) w ≡ (response r, w')
      → r.status < 400
      → r.value_ids ≡ some []
      → count e n w ≡ 0
  pub positive_ids :
      (e : Entity) (n : String) (w w' : W) (r : Response) (id : ℤ)
      → wr.http.send (find e (name_filter n)) w ≡ (response r, w')
      → r.value_ids ≡ some (id ∷ [])
      → ltz (pos 0) id ≡ true
  pub create_adds :
      (e : Entity) (n : String) (path : PostPath) (body : Payload) (w : W)
      → count e n (wr.http.send (create path body) w).1 ≤ count e n w + 1

module _ {W : Type 0} (wr : Writer W) (count : Entity → String → W → ℕ) (laws : FrostLaws wr count)
    (e : Entity) (name : String) where
  decoded-none :
      (w w' : W) (id : ℤ) (r : Response)
      → wr.http.send (find e (name_filter name)) w ≡ (response r, w')
      → (ids : Option (List ℤ)) → r.value_ids ≡ ids
      → r.status < 400
      → found_ids e name (decoded r.status ids) ≡ (id, none)
      → ltz (pos 0) id ≡ false
      → count e name w ≡ 0
  unfolding found_ids decoded
  decoded-none w w' id r p none v s q z = cc
  decoded-none w w' id r p (some []) v s q z = laws.finds_all e name w w' r p s v
  decoded-none w w' id r p (some (x ∷ [])) v s q z =
      let positive = laws.positive_ids e name w w' r x p v in
      cc (ap (λ (y : ℤ × Option Error). ltz (pos 0) y.0) q)
  decoded-none w w' id r p (some (x ∷ y ∷ ids)) v s q z = cc

  answered_none :
      (w w' : W) (id : ℤ) (reply : Reply)
      → wr.http.send (find e (name_filter name)) w ≡ (reply, w')
      → found_ids e name (get_ids reply) ≡ (id, none)
      → ltz (pos 0) id ≡ false
      → count e name w ≡ 0
  unfolding found_ids get_ids
  answered_none w w' id unbuilt p q z = cc
  answered_none w w' id unreachable p q z = cc
  answered_none w w' id (response r) p q z =
      decoded-none w w' id r p r.value_ids refl (ground arith) (ground arith) z

  found_none :
      (w w' : W) (id : ℤ)
      → find_by_name wr.http e name w ≡ ((id, none), w')
      → ltz (pos 0) id ≡ false
      → count e name w ≡ 0
  unfolding find_by_name
  found_none w w' id p z = ground (
    arith,
    answered_none w (wr.http.send (find e (name_filter name)) w).1 id
        (wr.http.send (find e (name_filter name)) w).0,
  )

  find-counted : (w : W) → count e name (find_by_name wr.http e name w).1 ≡ count e name w
  unfolding find_by_name
  find-counted w = ground (arith, laws.find_keeps e e name name w)

  post-counted :
      (path : PostPath) (body : Payload) (w : W)
      → count e name (post wr.http path body w).1 ≤ count e name w + 1
  unfolding post
  post-counted path body w = laws.create_adds e name path body w

  refetched-counted :
      (found : (ℤ × Option Error) × W)
      → count e name (refetched wr e name found).1 ≡ count e name found.1
  unfolding refetched
  refetched-counted ((id, some x), w) = refl
  refetched-counted ((id, none), w) = ground (arith, laws.put_keeps e e name name id w)

  created-counted :
      (made : Result ℤ × W) → count e name (created wr e name made).1 ≡ count e name made.1
  unfolding created
  created-counted (ok id, w) = laws.put_keeps e e name name id w
  created-counted (err x, w) =
      ground (arith, refetched-counted (find_by_name wr.http e name w), find-counted w)

  -- Either nothing was created, or there was none and now there is at most one.
  abbrev pub OneAtMost : W → W → Type 0
  OneAtMost w w' =
      (count e name w' ≡ count e name w) ⊎ ((count e name w ≡ 0) × (count e name w' ≤ 1))

  looked_up-counted :
      (path : PostPath) (body : W → Payload) (w : W) (found : (ℤ × Option Error) × W)
      → find_by_name wr.http e name w ≡ found
      → OneAtMost w (looked_up wr e name path body found).1
  unfolding looked_up
  looked_up-counted path body w ((id, some x), w1) h =
      let kept : count e name w1 ≡ count e name w =
        ap (λ (y : (ℤ × Option Error) × W). count e name y.1) (sym h) ∙ find-counted w in
      ground (arith, kept, laws.put_keeps e e name name id w1)
  looked_up-counted path body w ((id, none), w1) h =
      let kept : count e name w1 ≡ count e name w =
        ap (λ (y : (ℤ × Option Error) × W). count e name y.1) (sym h) ∙ find-counted w in
      ground (
        arith,
        kept,
        found_none w w1 id h,
        laws.put_keeps e e name name id w1,
        created-counted (post wr.http path (body w1) w1),
        post-counted path (body w1) w1,
      )

  -- Whatever happens in a call, also if it fails: the number of entities of that name is as it was,
  -- or there was none and now there is one at most. So the writer never makes a duplicate.
  pub get_or_create-OneAtMost :
      (path : PostPath) (body : W → Payload) (w : W)
      → OneAtMost w (get_or_create wr e name path body w).1
  unfolding get_or_create resolve_uncached
  get_or_create-OneAtMost path body w =
      ground (arith, looked_up-counted path body w (find_by_name wr.http e name w) refl)
