-- ===== src/State/Contract.antt =====
-- internal/state/store.go, what the callers of a Store rely on, as a machine that knows of each Datastream
-- its cursor and of each key, with the time to the microsecond, whether it was written, and nothing of rows, numbers and round trips.
pub mod Once
use clappform_sensor_things.Prelude.{
  ℕ, Bool, Option, none, some, List, [], ◌∷◌, String, true, false, if◌then◌else◌, ◌==◌, ◌&&◌, raise,
  ◌≡◌, ◌≢◌, is_none, ◌⊎◌, map,
}
use clappform_sensor_things.Prelude.Int.{ℤ}
use clappform_sensor_things.Canonical.{Time, Float64, micros}
use clappform_sensor_things.Failure.{Error, Result, ok, err, already_exists, not_found, text}
use clappform_sensor_things.State.{WatchdogState}
use mathlib.Core.Option

-- `cursor` of an unknown Datastream is `none`.
pub record Known : Type 0 where
  pub cursor : ℕ → Option Time
  pub written : ℕ → Time → Bool

-- The calls that change something, and the two reads that the ingest core decides by.
pub data Call : Type 0 where
  upsert_thing : String → String → String → Call
  set_sta_thing_id : ℕ → ℤ → Call
  upsert_datastream : ℕ → String → ℤ → Call
  set_sta_datastream_id : ℕ → ℤ → Call
  get_poll_cursor : ℕ → Call
  advance_poll_cursor : ℕ → Time → Call
  set_last_polled_at : ℕ → Time → Call
  observation_exists : ℕ → Time → Call
  record_observation_write : ℕ → Time → Float64 → String → ℤ → Call
  set_watchdog_state : WatchdogState → Call

abbrev pub Reply : Call → Type 0
Reply (upsert_thing _ _ _) = Result ℕ
Reply (set_sta_thing_id _ _) = Option Error
Reply (upsert_datastream _ _ _) = Result ℕ
Reply (set_sta_datastream_id _ _) = Option Error
Reply (get_poll_cursor _) = Result Time
Reply (advance_poll_cursor _ _) = Option Error
Reply (set_last_polled_at _ _) = Option Error
Reply (observation_exists _ _) = Result Bool
Reply (record_observation_write _ _ _ _ _) = Option Error
Reply (set_watchdog_state _) = Option Error

pub record Event : Type 0 where
  pub call : Call
  pub reply : Reply call

-- A cursor is read as it is, and is missing only for an unknown Datastream.
abbrev pub IsCursor : Result Time → Option Time → Type 0
IsCursor (ok c) known = known ≡ some c
IsCursor (err e) known = (e ≡ text) ⊎ ((e ≡ not_found) × (known ≡ none))

abbrev pub IsAnswer : Result Bool → Bool → Type 0
IsAnswer (ok b) known = b ≡ known
IsAnswer (err e) known = e ≡ text

-- A new key of a known Datastream is written, an old one is refused.
abbrev pub IsRecorded : Option Error → Option Time → Bool → Type 0
IsRecorded none cursor known = (known ≡ false) × (cursor ≢ none)
IsRecorded (some e) cursor known = (e ≡ text) ⊎ ((e ≡ already_exists) × (known ≡ true))

-- A call fails only with the error of its statement.
abbrev pub IsDone : Option Error → Type 0
IsDone r = (r ≡ none) ⊎ (r ≡ some text)

abbrev pub IsNumber : Result ℕ → Type 0
IsNumber (ok id) = Unit
IsNumber (err e) = e ≡ text

-- ErrNotFound is said of an unknown Datastream, and nil only of a known one.
abbrev pub IsUpdated : Option Error → Option Time → Type 0
IsUpdated none cursor = cursor ≢ none
IsUpdated (some e) cursor = (e ≡ text) ⊎ ((e ≡ not_found) × (cursor ≡ none))

-- Which replies the contract allows.
abbrev pub Allowed : (c : Call) → Reply c → Known → Type 0
Allowed (get_poll_cursor id) r k = IsCursor r (k.cursor id)
Allowed (observation_exists id t) r k = IsAnswer r (k.written id (micros t))
Allowed (record_observation_write id t _ _ _) r k =
    IsRecorded r (k.cursor id) (k.written id (micros t))
Allowed (upsert_thing _ _ _) r k = IsNumber r
Allowed (set_sta_thing_id _ _) r k = (r ≡ some not_found) ⊎ IsDone r
Allowed (upsert_datastream _ _ _) r k = IsNumber r
Allowed (set_sta_datastream_id id _) r k = IsUpdated r (k.cursor id)
Allowed (advance_poll_cursor _ _) r k = IsDone r
Allowed (set_last_polled_at _ _) r k = IsDone r
Allowed (set_watchdog_state _) r k = IsDone r

-- The cursor of a Datastream that is made known: the zero time, unless it was known before.
abbrev pub known_cursor : Option Time → Option Time
known_cursor none = some 0
known_cursor (some c) = some c

abbrev pub made_known : Result ℕ → (ℕ → Option Time) → ℕ → Option Time
made_known (ok id) cursor j = if j == id then known_cursor (cursor j) else cursor j
made_known (err e) cursor j = cursor j

-- What is known after a call and its reply.
abbrev pub after : (c : Call) → Reply c → Known → Known
after (upsert_datastream _ _ _) r k = record k { cursor = made_known r k.cursor }
after (advance_poll_cursor id t) r k = record k {
  cursor = λ j.
      if is_none r && j == id
      then Option.map (λ (c : Time). raise c (micros t)) (k.cursor j)
      else k.cursor j;
}
after (record_observation_write id t _ _ _) r k = record k {
  written = λ j u. if is_none r && (id == j && micros t == u) then true else k.written j u;
}
after (upsert_thing _ _ _) r k = k
after (set_sta_thing_id _ _) r k = k
after (set_sta_datastream_id _ _) r k = k
after (get_poll_cursor _) r k = k
after (set_last_polled_at _ _) r k = k
after (observation_exists _ _) r k = k
after (set_watchdog_state _) r k = k

-- As which reply a call may act: as the one that it gave; but a RecordObservationWrite whose answer is lost
-- may have recorded its key.
abbrev pub ActsAs : (c : Call) → Reply c → Reply c → Type 0
ActsAs (record_observation_write _ _ _ _ _) r r' = (r' ≡ r) ⊎ ((r ≡ some text) × (r' ≡ none))
ActsAs (upsert_thing _ _ _) r r' = r' ≡ r
ActsAs (set_sta_thing_id _ _) r r' = r' ≡ r
ActsAs (upsert_datastream _ _ _) r r' = r' ≡ r
ActsAs (set_sta_datastream_id _ _) r r' = r' ≡ r
ActsAs (get_poll_cursor _) r r' = r' ≡ r
ActsAs (advance_poll_cursor _ _) r r' = r' ≡ r
ActsAs (set_last_polled_at _ _) r r' = r' ≡ r
ActsAs (observation_exists _ _) r r' = r' ≡ r
ActsAs (set_watchdog_state _) r r' = r' ≡ r

-- One call with its reply, from what is known before to what is known after it.
pub record Leads (c : Call) (r : Reply c) (k k' : Known) : Type 0 where
  pub acted : Reply c
  pub acts : ActsAs c r acted
  pub reply_allowed : Allowed c r k
  pub acted_allowed : Allowed c acted k
  pub known : k' ≡ after c acted k

-- A sequence of calls with replies that the contract allows, each in its turn, from what is known at its
-- begin to what is known at its end.
abbrev pub Accepts : List Event → Known → Known → Type 0
Accepts [] k k' = k' ≡ k
Accepts (e ∷ es) k k' = (m : Known) × Leads e.call e.reply k m × Accepts es m k'
