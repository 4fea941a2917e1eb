-- ===== src/Adapters/Sulo/Session.antt =====
-- client.go: the retry after a stale token, and how long a vendor can ask to wait.
use clappform_sensor_things.Adapters.Sulo.Client.{
  Reen, Response, Session, classify_status, do_page, get, invalidate, login, session, answer_of,
  decoded_body, first_answer, first_attempt, minted, second_answer, second_attempt, signed_in,
  token_of,
}
use clappform_sensor_things.Failure.{ok, text, transient, Result}
use clappform_sensor_things.Prelude.{
  String, false, some, str_eq, suc, ℕ, ◌≡◌, ◌≤◌, ◌⊎◌, ◌||◌, arith, refl, ap,
}
use clappform_sensor_things.Canonical.{Time}
use clappform_sensor_things.Adapters.{clamp_retry_after, max_retry_after}

-- Whatever a Retry-After header says, even one whose seconds overflow, no error of classifyStatus asks
-- to wait longer than five minutes; and only a 429 or a 5xx is transient.
pub classify_status_bounded :
    {A : Type 0} (now : Time) (r : Response A) (d : ℕ)
    → classify_status now r ≡ some (transient text d)
    → (d ≤ max_retry_after) × ((r.status ≡ 429) ⊎ (500 ≤ r.status))
unfolding classify_status clamp_retry_after
classify_status_bounded now r d h = ground arith

module _ {W A : Type 0} (reen : Reen W A) where
  session-held :
      (c : Session W) → str_eq c.token "" ≡ false → session reen c ≡ (ok (c.token, c.gen), c)
  unfolding session
  session-held c h = rw h refl

  session-minted :
      (gen : ℕ) (w w' : W) (r : Response String) (t : String)
      → (str_eq reen.username "" || str_eq reen.password "") ≡ false
      → reen.sign_in w ≡ (some r, w')
      → r.status ≡ 200
      → r.body ≡ some t
      → str_eq t "" ≡ false
      → session reen (record { token = ""; gen = gen; world = w })
        ≡ (ok (t, suc gen), record { token = t; gen = suc gen; world = w' })
  unfolding session login minted signed_in token_of classify_status
  session-minted gen w w' r t e0 e1 e2 e3 e4 = rw (e0, e1, e2, e3, e4) refl

  invalidate-own :
      (token : String) (gen : ℕ) (w : W)
      → invalidate reen gen (record { token = token; gen = gen; world = w })
        ≡ record { token = ""; gen = gen; world = w }
  unfolding invalidate
  invalidate-own token gen w = ground arith

  answer_of-good :
      (now : Time) (r : Response A) (a : A)
      → r.status ≡ 200
      → r.body ≡ some a
      → answer_of reen now r ≡ ok a
  unfolding answer_of classify_status decoded_body
  answer_of-good now r a h k = rw (h, k) refl

  -- A stale token costs one more sign-in and no more: where the server rejects the held token with 401,
  -- signs in and answers under the new token, the call returns that answer and keeps the new token.
  get_stale_token :
      (size offset : ℕ) (c : Session W) (w1 w2 w3 : W) (r1 r3 : Response A) (r2 : Response String)
      (t : String) (a : A)
      → str_eq c.token "" ≡ false
      → (str_eq reen.username "" || str_eq reen.password "") ≡ false
      → reen.page size offset c.token c.world ≡ (some r1, w1)
      → r1.status ≡ 401
      → reen.sign_in w1 ≡ (some r2, w2)
      → r2.status ≡ 200
      → r2.body ≡ some t
      → str_eq t "" ≡ false
      → reen.page size offset t w2 ≡ (some r3, w3)
      → r3.status ≡ 200
      → r3.body ≡ some a
      → get reen size offset c ≡ (ok a, record { token = t; gen = suc c.gen; world = w3 })
  unfolding get first_attempt first_answer second_attempt second_answer do_page
  get_stale_token size offset c w1 w2 w3 r1 r3 r2 t a e0 e1 e2 e3 e4 e5 e6 e7 e8 e9 ea =
      rw (session-held c e0, e2, e3)
        (rw (invalidate-own c.token c.gen w1, session-minted c.gen w1 w2 r2 t e1 e4 e5 e6 e7, e8)
          (ap (λ (x : Result A). (x, record { token = t; gen = suc c.gen; world = w3 }))
            (answer_of-good (reen.clock w3) r3 a e9 ea)))
