-- ===== src/State/Postgres/Integrity.antt =====
-- internal/state/migrations.sql, the constraints of the tables: each primary key and each UNIQUE key has at
-- most one row, no row has a number that its sequence has not given, and each foreign key has its row, and the
-- watchdog has one of its three states.
use clappform_sensor_things.Prelude.{
  Bool, Option, some, List, String, [], arith, count_where, exists_where, false, find_first,
  if◌then◌else◌, keep_where, ltb, none, refl, true, update_where, ℕ, ◌∷◌, ◌≡◌, ◌≤◌,
}
use clappform_sensor_things.State.Postgres.Alerts.{is_known}
use clappform_sensor_things.Canonical.{Time}
use clappform_sensor_things.State.{DatastreamRow, ThingRow, WatchdogState}
use clappform_sensor_things.State.Postgres.Tables.{
  Db, LogRow, is_datastream, is_datastream_id, is_log_id, is_logged, is_thing, is_thing_id,
}
pub mod Rows
pub mod Calls
pub mod Runs

-- CHECK (current_status IN ...)
abbrev pub HasStatus : Option WatchdogState → Type 0
HasStatus none = Unit
HasStatus (some w) = is_known w.current_status ≡ true

-- The constraints, of the tables and the next numbers of the sequences.
pub record Holds (things : List ThingRow) (next_thing : ℕ) (streams : List DatastreamRow)
    (next_stream : ℕ) (log : List LogRow) (next_log : ℕ) (watchdog : Option WatchdogState)
    : Type 0 where
  pub thing_ids : (i : ℕ) → count_where (is_thing_id i) things ≤ (if ltb i next_thing then 1 else 0)
  pub thing_keys : (v n : String) → count_where (is_thing v n) things ≤ 1
  pub stream_ids :
      (i : ℕ) → count_where (is_datastream_id i) streams ≤ (if ltb i next_stream then 1 else 0)
  pub stream_keys : (i : ℕ) (op : String) → count_where (is_datastream i op) streams ≤ 1
  pub log_ids : (i : ℕ) → count_where (is_log_id i) log ≤ (if ltb i next_log then 1 else 0)
  pub log_keys : (i : ℕ) (t : Time) → count_where (is_logged i t) log ≤ 1
  pub stream_things :
      (i : ℕ) (op : String)
      → exists_where (is_datastream i op) streams ≡ true
      → exists_where (is_thing_id i) things ≡ true
  pub log_streams :
      (i : ℕ) (t : Time)
      → exists_where (is_logged i t) log ≡ true
      → exists_where (is_datastream_id i) streams ≡ true
  pub status : HasStatus watchdog

abbrev pub IsConsistent : Db → Type 0
IsConsistent db =
    Holds db.things db.next_thing db.datastreams db.next_datastream db.write_log db.next_log
      db.watchdog

module _ {A : Type 0} where
  pub count-update_where :
      (q p : A → Bool) (f : A → A) (xs : List A)
      → ((x : A) → q (f x) ≡ q x)
      → count_where q (update_where p f xs) ≡ count_where q xs
  count-update_where q p f [] h = refl
  count-update_where q p f (x ∷ xs) h = ground (arith, h x, count-update_where q p f xs h)

  pub exists-update_where :
      (q p : A → Bool) (f : A → A) (xs : List A)
      → ((x : A) → q (f x) ≡ q x)
      → exists_where q (update_where p f xs) ≡ exists_where q xs
  exists-update_where q p f [] h = refl
  exists-update_where q p f (x ∷ xs) h = ground (arith, h x, exists-update_where q p f xs h)

  pub count-absent : (q : A → Bool) (xs : List A) → exists_where q xs ≡ false → count_where q xs ≡ 0
  count-absent q [] h = refl
  count-absent q (x ∷ xs) h = ground (arith, count-absent q xs)

  pub find_first-absent :
      (q : A → Bool) (xs : List A) → find_first q xs ≡ none → exists_where q xs ≡ false
  find_first-absent q [] h = refl
  find_first-absent q (x ∷ xs) h = ground (arith, find_first-absent q xs)

  pub count-keep_where :
      (q p : A → Bool) (xs : List A) → count_where q (keep_where p xs) ≤ count_where q xs
  count-keep_where q p [] = omega arith
  count-keep_where q p (x ∷ xs) = ground (arith, count-keep_where q p xs)

  pub exists-keep_where :
      (q p : A → Bool) (xs : List A)
      → exists_where q (keep_where p xs) ≡ true
      → exists_where q xs ≡ true
  exists-keep_where q p [] h = h
  exists-keep_where q p (x ∷ xs) h = ground (arith, exists-keep_where q p xs)
