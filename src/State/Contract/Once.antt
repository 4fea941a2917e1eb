-- ===== src/State/Contract/Once.antt =====
-- internal/state/store.go, RecordObservationWrite, for the callers of a Store: a key in the sequences of
-- calls that the contract allows.
use clappform_sensor_things.Prelude.{
  ap, ◌∙◌, ℕ, Bool, List, [], ◌∷◌, true, false, ◌==◌, ◌&&◌, ◌≡◌, ◌≤◌, is_none, count_where, arith,
  none, some, refl, Bool-cases, inl, inr,
}
use clappform_sensor_things.Canonical.{Time, micros}
use clappform_sensor_things.State.Contract.{Known, Call, Event, Accepts, after, Reply}
use clappform_sensor_things.State.Contract

abbrev pub records : ℕ → Time → (c : Call) → Reply c → Bool
records id t (Contract.record_observation_write j u _ _ _) r =
    is_none r && (j == id && micros u == micros t)
records id t (Contract.upsert_thing _ _ _) r = false
records id t (Contract.set_sta_thing_id _ _) r = false
records id t (Contract.upsert_datastream _ _ _) r = false
records id t (Contract.set_sta_datastream_id _ _) r = false
records id t (Contract.get_poll_cursor _) r = false
records id t (Contract.advance_poll_cursor _ _) r = false
records id t (Contract.set_last_polled_at _ _) r = false
records id t (Contract.observation_exists _ _) r = false
records id t (Contract.set_watchdog_state _) r = false

-- A call that recorded the key, with no error.
abbrev pub is_recorded : ℕ → Time → Event → Bool
is_recorded id t e = records id t e.call e.reply

-- A key that was written stays so.
stays :
    (id : ℕ) (t : Time) (c : Call) (r : Reply c) (k : Known)
    → k.written id (micros t) ≡ true
    → (after c r k).written id (micros t) ≡ true
stays id t (Contract.record_observation_write j u _ _ _) r k h = ground arith
stays id t (Contract.upsert_thing _ _ _) r k h = h
stays id t (Contract.set_sta_thing_id _ _) r k h = h
stays id t (Contract.upsert_datastream _ _ _) r k h = h
stays id t (Contract.set_sta_datastream_id _ _) r k h = h
stays id t (Contract.get_poll_cursor _) r k h = h
stays id t (Contract.advance_poll_cursor _ _) r k h = h
stays id t (Contract.set_last_polled_at _ _) r k h = h
stays id t (Contract.observation_exists _ _) r k h = h
stays id t (Contract.set_watchdog_state _) r k h = h

-- A written key is not recorded.
recorded_no_more :
    (id : ℕ) (t : Time) (c : Call) (r : Reply c) (k : Known)
    → Contract.Allowed c r k
    → k.written id (micros t) ≡ true
    → records id t c r ≡ false
recorded_no_more id t (Contract.record_observation_write j u _ _ _) none k a h = ground arith
recorded_no_more id t (Contract.record_observation_write j u _ _ _) (some e) k a h = ground arith
recorded_no_more id t (Contract.upsert_thing _ _ _) r k a h = refl
recorded_no_more id t (Contract.set_sta_thing_id _ _) r k a h = refl
recorded_no_more id t (Contract.upsert_datastream _ _ _) r k a h = refl
recorded_no_more id t (Contract.set_sta_datastream_id _ _) r k a h = refl
recorded_no_more id t (Contract.get_poll_cursor _) r k a h = refl
recorded_no_more id t (Contract.advance_poll_cursor _ _) r k a h = refl
recorded_no_more id t (Contract.set_last_polled_at _ _) r k a h = refl
recorded_no_more id t (Contract.observation_exists _ _) r k a h = refl
recorded_no_more id t (Contract.set_watchdog_state _) r k a h = refl

-- A key that is recorded is written after the call.
recorded_now :
    (id : ℕ) (t : Time) (c : Call) (r r' : Reply c) (k : Known)
    → Contract.ActsAs c r r'
    → records id t c r ≡ true
    → (after c r' k).written id (micros t) ≡ true
recorded_now id t (Contract.record_observation_write j u _ _ _) r r' k a h = ground arith
recorded_now id t (Contract.upsert_thing _ _ _) r r' k a h = absurd cc
recorded_now id t (Contract.set_sta_thing_id _ _) r r' k a h = absurd cc
recorded_now id t (Contract.upsert_datastream _ _ _) r r' k a h = absurd cc
recorded_now id t (Contract.set_sta_datastream_id _ _) r r' k a h = absurd cc
recorded_now id t (Contract.get_poll_cursor _) r r' k a h = absurd cc
recorded_now id t (Contract.advance_poll_cursor _ _) r r' k a h = absurd cc
recorded_now id t (Contract.set_last_polled_at _ _) r r' k a h = absurd cc
recorded_now id t (Contract.observation_exists _ _) r r' k a h = absurd cc
recorded_now id t (Contract.set_watchdog_state _) r r' k a h = absurd cc

recorded_never :
    (id : ℕ) (t : Time) (es : List Event) (k k' : Known)
    → Accepts es k k'
    → k.written id (micros t) ≡ true
    → count_where (is_recorded id t) es ≡ 0
recorded_never id t [] k k' a h = refl
recorded_never id t (e ∷ es) k k' (m, s, rest) h =
    let quiet = recorded_no_more id t e.call e.reply k s.reply_allowed h in
    let still =
      ap (λ (x : Known). x.written id (micros t)) s.known ∙ stays id t e.call s.acted k h in
    ground (arith, quiet, recorded_never id t es m k' rest still)

-- In a sequence of calls that the contract allows, each key is recorded at most once.
pub recorded_once :
    (id : ℕ) (t : Time) (es : List Event) (k k' : Known)
    → Accepts es k k'
    → count_where (is_recorded id t) es ≤ 1
recorded_once id t [] k k' a = omega arith
recorded_once id t (e ∷ es) k k' (m, s, rest) = elim (Bool-cases (is_recorded id t e)) [
  | inl yes_now ↦
      let now =
        ap (λ (x : Known). x.written id (micros t)) s.known
        ∙ recorded_now id t e.call e.reply s.acted k s.acts yes_now in
      ground (arith, recorded_never id t es m k' rest now)
  | inr not_now ↦ ground (arith, recorded_once id t es m k' rest)
]
