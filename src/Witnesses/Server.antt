-- ===== src/Witnesses/Server.antt =====
-- The theorems on the FROST client and writer, over small servers.
use clappform_sensor_things.Frost.Client.{
  Request, Http, Reply, Response, collection, create, escape_odata_string, find, find_by_name,
  name_filter, probe, response, unreachable, found_ids, get_ids,
}
use mathlib.Core.List.{[]}
use clappform_sensor_things.Prelude.Int.{ltz, pos, ℤ}
use clappform_sensor_things.Frost.Duplicates.{FrostLaws, OneAtMost, get_or_create-OneAtMost}
use clappform_sensor_things.Frost.Lookup.{
  IsLowestOf, find_by_name-lowest, read_literal, read_literal-escape,
}
use clappform_sensor_things.Prelude.{
  String, arith, eq_iff, false, look-put, none, refl, some, suc, true, zero, ℕ, ◌∷◌, ◌≡◌, sprint,
}
use clappform_sensor_things.Frost.Entities.{
  Entity, Payload, observed_properties, observed_property_body, sensors,
}
use clappform_sensor_things.Frost.Writer.{
  MemEntityCache, Writer, cache_key, get_or_create, mem_get, mem_put, new_mem_entity_cache,
  looked_up, resolve_uncached,
}
use clappform_sensor_things.Failure.{ok}
use clappform_sensor_things.Frost.Upsert.{CacheLaws, get_or_create_again}
use clappform_sensor_things.Frost.Errors.{as_duplicate}

-- A server whose world is the number of its entities, all of one name.
abbrev counted : Request → ℕ → Reply × ℕ
counted (find e name) zero =
    (response (record { status = 200; location = ""; value_ids = some []; body_id = none }), 0)
counted (find e name) (suc n) = (
  response (record { status = 200; location = ""; value_ids = some (pos 1 ∷ []); body_id = none }),
  suc n,
)
counted (probe ds t) n =
    (response (record { status = 200; location = ""; value_ids = some []; body_id = none }), n)
counted (create path body) n = (
  response (record { status = 201; location = ""; value_ids = none; body_id = some (pos 1) }),
  suc n,
)

abbrev counting : Writer ℕ
counting = record {
  label = "primary";
  http = record { send = counted };
  cache = record { get = λ e name n. none; put = λ e name id n. n };
  mqtt = none;
}

abbrev entities : Entity → String → ℕ → ℕ
entities e name n = n

counted-keeps : (e : Entity) (name : String) (n : ℕ) → (counted (find e name) n).1 ≡ n
counted-keeps e name zero = refl
counted-keeps e name (suc n) = refl

counted-finds :
    (e : Entity) (name : String) (n n' : ℕ) (r : Response)
    → counted (find e name) n ≡ (response r, n')
    → r.value_ids ≡ some []
    → n ≡ 0
counted-finds e name zero n' r p q = refl
counted-finds e name (suc n) n' r p q = ground (arith, p, q)

counted-positive :
    (e : Entity) (name : String) (n n' : ℕ) (r : Response) (id : ℤ)
    → counted (find e name) n ≡ (response r, n')
    → r.value_ids ≡ some (id ∷ [])
    → ltz (pos 0) id ≡ true
counted-positive e name zero n' r id p q = ground (arith, p, q)
counted-positive e name (suc n) n' r id p q = ground (arith, p, q)

frost_laws : FrostLaws counting entities
frost_laws = record {
  put_keeps = λ e e' n n' id w. refl;
  find_keeps = λ e e' n n' w. counted-keeps e' (name_filter n') w;
  finds_all = λ e n w w' r p s q. counted-finds e (name_filter n) w w' r p q;
  positive_ids = λ e n w w' r id p q. counted-positive e (name_filter n) w w' r id p q;
  create_adds = λ e n path body w. omega arith;
}

abbrev level_body : Payload
level_body =
    observed_property_body (record { name = "Fill level"; definition = ""; description = "" })

get_or_create-OneAtMost_example :
    OneAtMost counting entities frost_laws observed_properties "Fill level" 0
      (get_or_create counting observed_properties "Fill level"
        (collection observed_properties)
        (λ n. level_body)
        0).1
get_or_create-OneAtMost_example =
    get_or_create-OneAtMost counting entities frost_laws observed_properties "Fill level"
      (collection observed_properties) (λ n. level_body) 0

-- A server that has two entities of every name, and a writer with the in-memory cache.
abbrev doubled : Request → Reply
doubled (find e name) =
    response (record {
      status = 200;
      location = "";
      value_ids = some (pos 5 ∷ pos 3 ∷ []);
      body_id = none;
    })
doubled (probe ds t) = unreachable
doubled (create path body) = unreachable

abbrev doubled_http : Http MemEntityCache
doubled_http = record { send = λ q c. (doubled q, c) }

unfoldable caching : Writer MemEntityCache
unfolding mem_get mem_put
caching = record {
  label = "primary";
  http = doubled_http;
  cache = record { get = mem_get; put = mem_put };
  mqtt = none;
}

cache_laws : CacheLaws caching.cache
unfolding caching mem_get mem_put
cache_laws = record {
  get_put = λ e name id c. ground (
    arith,
    look-put (cache_key e name) (cache_key e name) id c.ids,
    eq_iff (cache_key e name) (cache_key e name),
  );
}

find_by_name-lowest_example :
    IsLowestOf sensors "S"
      (pos 5)
      (pos 3 ∷ [])
      (find_by_name doubled_http sensors "S" new_mem_entity_cache).0
find_by_name-lowest_example =
    find_by_name-lowest doubled_http sensors "S" (refl, omega arith) new_mem_entity_cache
      new_mem_entity_cache
      (record {
        status = 200;
        location = "";
        value_ids = some (pos 5 ∷ pos 3 ∷ []);
        body_id = none;
      })
      (pos 5) (pos 3 ∷ []) refl (omega arith) refl

found_twice :
    get_or_create caching sensors "S" (collection sensors) (λ c. level_body) new_mem_entity_cache
    ≡ (ok (pos 3), mem_put sensors "S" (pos 3) new_mem_entity_cache)
unfolding get_or_create caching new_mem_entity_cache find_by_name as_duplicate resolve_uncached
    looked_up found_ids get_ids
found_twice = refl

get_or_create_again_example :
    let c = mem_put sensors "S" (pos 3) new_mem_entity_cache in
    (caching.cache.get sensors "S" c ≡ some (pos 3))
    × (get_or_create caching sensors "S" (collection sensors) (λ x. level_body) c ≡ (ok (pos 3), c))
get_or_create_again_example =
    get_or_create_again caching cache_laws sensors "S" (collection sensors) (collection sensors)
      (λ c. level_body) (λ c. level_body) new_mem_entity_cache
      (mem_put sensors "S" (pos 3) new_mem_entity_cache) (pos 3) found_twice

abbrev quoted : String → String
quoted s = sprint (s ∷ "'" ∷ [])

read_literal-escape_example :
    read_literal false (quoted (escape_odata_string "d'Or")) ≡ ("d'Or", "")
read_literal-escape_example = read_literal-escape "d'Or"
