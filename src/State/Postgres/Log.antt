-- ===== src/State/Postgres/Log.antt =====
-- pgstore.go, the write log: RecordObservationWrite writes a key once, and all or nothing.
use clappform_sensor_things.Canonical.{Float64, Time, micros}
use clappform_sensor_things.Prelude.{
  Bool, Option, [], false, none, not, String, arith, exists_where, if◌then◌else◌, is_none, some,
  true, ℕ, ◌&&◌, ◌==◌, ◌≡◌, ◌⊎◌,
}
use clappform_sensor_things.State.Postgres.Tables.{Db, is_logged, is_lost}
use clappform_sensor_things.Prelude.Int.{ℤ}
use clappform_sensor_things.State.Postgres.Progress.{record_observation_write}
use clappform_sensor_things.Failure.{Error, already_exists, text}

-- The log has a row for the Datastream and the time, as a column has it.
abbrev pub is_in_log : Db → ℕ → Time → Bool
is_in_log db j u = exists_where (is_logged j u) db.write_log

-- What ObservationExists answers.
abbrev pub logged : Db → ℕ → Time → Bool
logged db j u = is_in_log db j (micros u)

-- The same key, as the log has it.
abbrev pub is_same_key : ℕ → Time → ℕ → Time → Bool
is_same_key ds t j u = ds == j && micros t == micros u

-- No error where the call added its row, though its COMMIT may have failed; and else what it returned.
unfoldable pub acted : ℕ → Time → Float64 → String → ℤ → Db → Option Error
acted ds t x raw sta db =
    let r = record_observation_write ds t x raw sta db in
    if logged r.1 ds t && not (logged db ds t) then none else r.0

-- A row is added exactly by a call that acted with no error, and only its own key becomes known.
pub logged-record_observation_write :
    (ds j : ℕ) (t u : Time) (x : Float64) (raw : String) (sta : ℤ) (db : Db)
    → logged (record_observation_write ds t x raw sta db).1 j u
      ≡ (if is_none (acted ds t x raw sta db) && is_same_key ds t j u then true else logged db j u)
unfolding record_observation_write acted
logged-record_observation_write ds j t u x raw sta db = ground arith

pub is_in_log-record_observation_write :
    (ds j : ℕ) (t u : Time) (x : Float64) (raw : String) (sta : ℤ) (db : Db)
    → is_in_log (record_observation_write ds t x raw sta db).1 j u ≡ (
        if is_none (acted ds t x raw sta db) && (ds == j && micros t == u)
        then true
        else is_in_log db j u)
unfolding record_observation_write acted
is_in_log-record_observation_write ds j t u x raw sta db = ground arith

-- Only a call that returns the error of a round trip may have acted without one.
pub acted-cases :
    (ds : ℕ) (t : Time) (x : Float64) (raw : String) (sta : ℤ) (db : Db)
    → let r = (record_observation_write ds t x raw sta db).0 in
      (acted ds t x raw sta db ≡ r) ⊎ ((r ≡ some text) × (acted ds t x raw sta db ≡ none))
unfolding record_observation_write acted
acted-cases ds t x raw sta db = ground arith

-- A key that is in the log is refused: the call fails, with ErrAlreadyExists unless a round trip
-- before that fails.
pub record_observation_write-again :
    (ds : ℕ) (t : Time) (x : Float64) (raw : String) (sta : ℤ) (db : Db)
    → logged db ds t ≡ true
    → ((record_observation_write ds t x raw sta db).0 ≡ some already_exists)
      ⊎ ((record_observation_write ds t x raw sta db).0 ≡ some text)
unfolding record_observation_write
record_observation_write-again ds t x raw sta db h = ground arith

-- ErrAlreadyExists is said of no other key.
pub already_exists-logged :
    (ds : ℕ) (t : Time) (x : Float64) (raw : String) (sta : ℤ) (db : Db)
    → (record_observation_write ds t x raw sta db).0 ≡ some already_exists
    → logged db ds t ≡ true
unfolding record_observation_write
already_exists-logged ds t x raw sta db h = ground arith

-- The same rows in all four tables.
abbrev pub HasRowsOf : Db → Db → Type 0
HasRowsOf db db' =
    (db'.write_log ≡ db.write_log)
    × (db'.datastreams ≡ db.datastreams)
    × (db'.things ≡ db.things)
    × (db'.watchdog ≡ db.watchdog)

-- A RecordObservationWrite writes all or nothing, whichever of its round trips fail: the rows are as they
-- were, or those that the same call leaves when no round trip fails, which then returns no error. With no
-- error it is the second; with one it is the first unless a COMMIT was lost that took effect, as
-- `committed` says.
pub record_observation_write_atomic :
    (ds : ℕ) (t : Time) (x : Float64) (raw : String) (sta : ℤ) (db : Db)
    → let r = record_observation_write ds t x raw sta db in
      let whole = record_observation_write ds t x raw sta (record db { faults = [] }) in
      ((is_none r.0 ≡ false) × HasRowsOf db r.1)
      ⊎ (((r.0 ≡ none) ⊎ ((r.0 ≡ some text) × (is_lost db ≡ true)))
          × (whole.0 ≡ none)
          × HasRowsOf whole.1 r.1)
unfolding record_observation_write
record_observation_write_atomic ds t x raw sta db = ground arith
