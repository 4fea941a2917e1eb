-- ===== src/Frost/Upsert.antt =====
-- writer.go, GetOrCreate: what it resolved it remembers, and it creates no second entity.
use clappform_sensor_things.Frost.Writer.{
  EntityCache, Writer, get_or_create, created, looked_up, refetched, resolve_uncached,
}
use clappform_sensor_things.Prelude.{
  String, some, ◌≡◌, Bool-cases, Option, inl, inr, none, refl, subst, arith,
}
use clappform_sensor_things.Frost.Entities.{Entity, Payload}
use clappform_sensor_things.Frost.Client.{PostPath, find_by_name, post}
use clappform_sensor_things.Failure.{ok, Error, Result, err}
use clappform_sensor_things.Prelude.Int.{ℤ, eqz, ltz, pos}
use clappform_sensor_things.Frost.Errors.{as_conflict, as_duplicate}

-- What a cache does: it returns what was put last.
pub record CacheLaws {W : Type 0} (cache : EntityCache W) : Type 0 where
  pub get_put :
      (e : Entity) (name : String) (id : ℤ) (w : W)
      → cache.get e name (cache.put e name id w) ≡ some id

-- A resolution that succeeded is in the cache.
abbrev Remembered : {W : Type 0} → EntityCache W → Entity → String → Result ℤ × W → Type 0
Remembered cache e name (ok id, w) = cache.get e name w ≡ some id
Remembered cache e name (err x, w) = Unit

module _ {W : Type 0} (wr : Writer W) (laws : CacheLaws wr.cache) (e : Entity) (name : String) where
  refetched-Remembered :
      (found : (ℤ × Option Error) × W) → Remembered wr.cache e name (refetched wr e name found)
  unfolding refetched
  refetched-Remembered ((id, some x), w) = tt
  refetched-Remembered ((id, none), w) = elim (Bool-cases (eqz id (pos 0))) [
    | inl h ↦ rw h tt
    | inr h ↦ rw h (laws.get_put e name id w)
  ]

  created-Remembered : (made : Result ℤ × W) → Remembered wr.cache e name (created wr e name made)
  unfolding created
  created-Remembered (ok id, w) = laws.get_put e name id w
  created-Remembered (err x, w) = elim (Bool-cases (as_conflict x)) [
    | inl h ↦ rw h (refetched-Remembered (find_by_name wr.http e name w))
    | inr h ↦ rw h tt
  ]

  looked_up-Remembered :
      (path : PostPath) (body : W → Payload) (found : (ℤ × Option Error) × W)
      → Remembered wr.cache e name (looked_up wr e name path body found)
  unfolding looked_up
  looked_up-Remembered path body ((id, some x), w) = elim (Bool-cases (as_duplicate x)) [
    | inl h ↦ rw h (laws.get_put e name id w)
    | inr h ↦ rw h tt
  ]
  looked_up-Remembered path body ((id, none), w) = elim (Bool-cases (ltz (pos 0) id)) [
    | inl h ↦ rw h (laws.get_put e name id w)
    | inr h ↦ rw h (created-Remembered (post wr.http path (body w) w))
  ]

  cached-get_or_create :
      (path : PostPath) (body : W → Payload) (w : W) (id : ℤ)
      → wr.cache.get e name w ≡ some id
      → get_or_create wr e name path body w ≡ (ok id, w)
  unfolding get_or_create
  cached-get_or_create path body w id h = ground arith

  missed-get_or_create :
      (path : PostPath) (body : W → Payload) (w : W)
      → wr.cache.get e name w ≡ none
      → get_or_create wr e name path body w ≡ resolve_uncached wr e name path body w
  unfolding get_or_create
  missed-get_or_create path body w h = ground arith

  resolved-Remembered :
      (path : PostPath) (body : W → Payload) (w : W) (cached : Option ℤ)
      → wr.cache.get e name w ≡ cached
      → Remembered wr.cache e name (get_or_create wr e name path body w)
  unfolding resolve_uncached
  resolved-Remembered path body w none h =
      rw (missed-get_or_create path body w h)
        (looked_up-Remembered path body (find_by_name wr.http e name w))
  resolved-Remembered path body w (some id) h = rw (cached-get_or_create path body w id h) h

  -- After a successful call the cache holds the id, whichever way it was found; so the same call
  -- again, with whatever body, returns the same id and sends nothing.
  pub get_or_create_again :
      (path path' : PostPath) (body body' : W → Payload) (w w' : W) (id : ℤ)
      → get_or_create wr e name path body w ≡ (ok id, w')
      → (wr.cache.get e name w' ≡ some id) × (get_or_create wr e name path' body' w' ≡ (ok id, w'))
  get_or_create_again path path' body body' w w' id h =
      let held : wr.cache.get e name w' ≡ some id =
        subst (Remembered wr.cache e name) h (resolved-Remembered path body w _ refl) in
      (held, cached-get_or_create path' body' w' id held)
