-- ===== src/Reader/Progress.antt =====
-- run.go and cursor.go: a stream's cursor moves forward, and only after all its envelopes were posted.
use clappform_sensor_things.Prelude.{
  List, Option, String, [], arith, eq_iff, look-put, none, refl, some, true, ◌∷◌, ◌≡◌, ◌≤◌, Bool,
  false, inl, inr, subst, sym, ◌⊎◌,
}
use clappform_sensor_things.Reader.{
  Cursors, DiscoveredStream, Reader, RunResult, advanced, chunk_envelopes, copy_fetched,
  copy_stream, get_cursor, max_envelope_bytes, post_all, posted_to, start_of, saved, copy_streams,
  run_once, discovered, first_error,
}
use clappform_sensor_things.Failure.{Error, Result, err, ok}
use clappform_sensor_things.Canonical.{Observation, Time}

advanced-forward :
    (key j : String) (ts : Time) (m : Cursors) → get_cursor j m ≤ get_cursor j (advanced key ts m).0
unfolding get_cursor advanced
advanced-forward key j ts m = ground (arith, look-put key j ts m, eq_iff key j)

-- What one stream does to the cursor of a key: it does not move back; if the stream fails, no cursor
-- moves at all.
abbrev pub Forward : String → Cursors → Cursors × RunResult × Option Error → Type 0
Forward j m r = (get_cursor j m ≤ get_cursor j r.0) × ((r.0 ≡ m) ⊎ (r.2 ≡ none))

module _ {W : Type 0} (reader : Reader W) where
  pub saved-kept : (x : Cursors × Bool) (w : W) → (saved reader x w).0 ≡ x.0
  unfolding saved
  saved-kept (m, true) w = refl
  saved-kept (m, false) w = refl

  posted_to-Forward :
      (key j : String) (newest : Time) (m : Cursors) (x : (RunResult × Option Error) × W)
      → Forward j m (posted_to reader key newest m x).0
  unfolding posted_to
  posted_to-Forward key j newest m ((res, some e), w) = (omega arith, inl refl)
  posted_to-Forward key j newest m ((res, none), w) = (
    subst (λ (c : Cursors). get_cursor j m ≤ get_cursor j c)
        (sym (saved-kept (advanced key newest m) w)) (advanced-forward key j newest m),
    inr refl,
  )

  copy_fetched-Forward :
      (st : DiscoveredStream) (j : String) (m : Cursors) (res : RunResult)
      (x : Result (List Observation) × W)
      → Forward j m (copy_fetched reader st m res x).0
  unfolding copy_fetched
  copy_fetched-Forward st j m res (err e, w) = (omega arith, inl refl)
  copy_fetched-Forward st j m res (ok [], w) = (omega arith, inl refl)
  copy_fetched-Forward st j m res (ok (o ∷ os), w) =
      posted_to-Forward st.key j _ m
        (post_all reader (chunk_envelopes reader.json_len st (o ∷ os) max_envelope_bytes) res w)

  -- Copying one stream moves no cursor back; if any of it fails, the fetch or one of the posts, all
  -- cursors are as they were.
  pub copy_stream-Forward :
      (st : DiscoveredStream) (j : String) (m : Cursors) (res : RunResult) (w : W)
      → Forward j m (copy_stream reader st m res w).0
  unfolding copy_stream
  copy_stream-Forward st j m res w = copy_fetched-Forward st j m res (
      reader.source.fetch_observations st (start_of reader (get_cursor st.key m) w).0
        (start_of reader (get_cursor st.key m) w).1)

  copy_streams-forward :
      (sts : List DiscoveredStream) (j : String) (m : Cursors) (res : RunResult) (e : Option Error)
      (w : W)
      → get_cursor j m ≤ get_cursor j (copy_streams reader sts m res e w).0.0
  unfolding copy_streams
  copy_streams-forward [] j m res e w = omega arith
  copy_streams-forward (st ∷ sts) j m res e w =
      let r = copy_stream reader st m res w in
      omega (
        arith,
        (copy_stream-Forward st j m res w).0,
        copy_streams-forward sts j r.0.0 r.0.1 (first_error reader e r.0.2) r.1,
      )

  discovered-forward :
      (j : String) (m : Cursors) (x : Result (List DiscoveredStream) × W)
      → get_cursor j m ≤ get_cursor j (discovered reader m x).0.0
  unfolding discovered
  discovered-forward j m (err e, w) = omega arith
  discovered-forward j m (ok sts, w) = copy_streams-forward sts j m _ none w

  -- Over a whole cycle, whatever fails in it, no cursor moves back.
  pub run_once-forward :
      (j : String) (m : Cursors) (w : W) → get_cursor j m ≤ get_cursor j (run_once reader m w).0.0
  unfolding run_once
  run_once-forward j m w = discovered-forward j m (reader.source.discover w)
