-- ===== src/Reader/Newest.antt =====
-- run.go and cursor.go: where a stream's cursor stands after all its envelopes were posted.
use clappform_sensor_things.Canonical.{Observation, Time, after}
use clappform_sensor_things.Prelude.{
  refl, Bool-cases, inl, inr, ◌==◌, ◌||◌, exists_where, Bool, All, List, Option, String, [], ap,
  arith, eq_iff, if◌then◌else◌, look-put, none, raise, some, str_eq, subst, sym, ◌∙◌, ◌∷◌, ◌≡◌, ◌≤◌,
  true,
}
use clappform_sensor_things.Reader.{
  Cursors, DiscoveredStream, Reader, RunResult, advanced, chunk_envelopes, copy_fetched,
  copy_stream, get_cursor, max_envelope_bytes, max_phenomenon_time, post_all, posted_to, start_of,
}
use clappform_sensor_things.Failure.{Error, Result, ok}
use clappform_sensor_things.Reader.Progress.{saved-kept}

max_phenomenon_time-above :
    (max : Time) (os : List Observation)
    → (max ≤ max_phenomenon_time max os)
      × All (λ (o : Observation). o.phenomenon_time ≤ max_phenomenon_time max os) os
unfolding max_phenomenon_time
max_phenomenon_time-above max [] = (omega arith, tt)
max_phenomenon_time-above max (o ∷ os) =
    let from = if after o.phenomenon_time max then o.phenomenon_time else max in
    let rest = max_phenomenon_time-above from os in
    (ground (arith, rest.0), (ground (arith, rest.0), rest.1))

get_cursor-advanced :
    (key j : String) (ts : Time) (m : Cursors)
    → get_cursor j (advanced key ts m).0
      ≡ (if str_eq key j then raise (get_cursor j m) ts else get_cursor j m)
unfolding get_cursor advanced
get_cursor-advanced key j ts m = ground (arith, look-put key j ts m, eq_iff key j)

abbrev pub has_phenomenon_time : Time → Observation → Bool
has_phenomenon_time t o = o.phenomenon_time == t

max_phenomenon_time-found :
    (t m : Time) (os : List Observation)
    → m ≡ max_phenomenon_time t os
    → ((t == m) || exists_where (has_phenomenon_time m) os) ≡ true
unfolding max_phenomenon_time
max_phenomenon_time-found t m [] h = ground (arith, h)
max_phenomenon_time-found t m (o ∷ os) h = elim (Bool-cases (after o.phenomenon_time t)) [
  | inl k ↦ ground (arith, max_phenomenon_time-found o.phenomenon_time m os (rw k at h))
  | inr k ↦ ground (arith, max_phenomenon_time-found t m os (rw k at h))
]

max_phenomenon_time-reached :
    (o : Observation) (os : List Observation)
    → exists_where (has_phenomenon_time (max_phenomenon_time o.phenomenon_time os)) (o ∷ os) ≡ true
max_phenomenon_time-reached o os = max_phenomenon_time-found o.phenomenon_time _ os refl

module _ {W : Type 0} (reader : Reader W) where
  posted_to-newest :
      (key j : String) (newest : Time) (m : Cursors) (x : (RunResult × Option Error) × W)
      → (posted_to reader key newest m x).0.2 ≡ none
      → get_cursor j (posted_to reader key newest m x).0.0
        ≡ (if str_eq key j then raise (get_cursor j m) newest else get_cursor j m)
  unfolding posted_to
  posted_to-newest key j newest m ((res, some e), w) h = ground (arith, h)
  posted_to-newest key j newest m ((res, none), w) h =
      ap (get_cursor j) (saved-kept reader (advanced key newest m) w)
      ∙ get_cursor-advanced key j newest m

  copy_fetched-newest :
      (st : DiscoveredStream) (j : String) (m : Cursors) (res : RunResult) (o : Observation)
      (os : List Observation) (x : Result (List Observation) × W)
      → x.0 ≡ ok (o ∷ os)
      → (copy_fetched reader st m res x).0.2 ≡ none
      → get_cursor j (copy_fetched reader st m res x).0.0 ≡ (
          if str_eq st.key j
          then raise (get_cursor j m) (max_phenomenon_time o.phenomenon_time os)
          else get_cursor j m)
  unfolding copy_fetched
  copy_fetched-newest st j m res o os x h =
      subst
        (λ (r : Result (List Observation)).
          (copy_fetched reader st m res (r, x.1)).0.2 ≡ none
          → get_cursor j (copy_fetched reader st m res (r, x.1)).0.0 ≡ (
              if str_eq st.key j
              then raise (get_cursor j m) (max_phenomenon_time o.phenomenon_time os)
              else get_cursor j m))
        (sym h)
        (posted_to-newest st.key j (max_phenomenon_time o.phenomenon_time os) m (
          post_all reader (chunk_envelopes reader.json_len st (o ∷ os) max_envelope_bytes) res x.1))

  -- A stream of which readings were fetched and all posted has as its cursor the later of the old one
  -- and the newest time of the fetched readings, which one of them has and none is after; the cursors of all
  -- other streams are as they were.
  pub copy_stream-newest :
      (st : DiscoveredStream) (j : String) (m : Cursors) (res : RunResult) (w : W) (o : Observation)
      (os : List Observation)
      → (reader.source.fetch_observations st
          (start_of reader (get_cursor st.key m) w).0
          (start_of reader (get_cursor st.key m) w).1).0
        ≡ ok (o ∷ os)
      → (copy_stream reader st m res w).0.2 ≡ none
      → let newest = max_phenomenon_time o.phenomenon_time os in
        (get_cursor j (copy_stream reader st m res w).0.0
          ≡ (if str_eq st.key j then raise (get_cursor j m) newest else get_cursor j m))
        × All (λ (p : Observation). p.phenomenon_time ≤ newest) (o ∷ os)
        × (exists_where (has_phenomenon_time newest) (o ∷ os) ≡ true)
  unfolding copy_stream
  copy_stream-newest st j m res w o os h k = (
    copy_fetched-newest st j m res o os
        (reader.source.fetch_observations st (start_of reader (get_cursor st.key m) w).0
          (start_of reader (get_cursor st.key m) w).1)
        h k,
    max_phenomenon_time-above o.phenomenon_time os,
    max_phenomenon_time-reached o os,
  )
