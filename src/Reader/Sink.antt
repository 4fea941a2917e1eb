-- ===== src/Reader/Sink.antt =====
-- cmd/collaborall-reader/sink.go: one envelope posted to the push endpoint. The JSON of an envelope and of
-- an answer, the first bytes of a body and the transport are the record `Http`.
use clappform_sensor_things.Prelude.{
  Bool, Option, String, [], if◌then◌else◌, none, some, true, sprint, ◌∷◌, ◌≡◌, ◌≢◌, arith, refl,
  ltb, leb, Bool-cases, inl, inr, ap, look, ℕ, ◌||◌, not,
}
use clappform_sensor_things.Canonical.{StringMap}
use clappform_sensor_things.Failure.{Action, Result, err, ok, text, wrapped}
use clappform_sensor_things.Reader.{IngestResponse}
use clappform_sensor_things.Adapters.Collaborall.{
  Envelope, authenticate, authenticate_iff, decode_push, header, to_batch,
}

-- A POST request.
pub record SinkRequest : Type 0 where
  pub url : String
  pub headers : StringMap
  pub body : String

pub data SinkReply : Type 0 where
  unbuilt unreachable : SinkReply
  answered : ℕ → String → SinkReply

pub record Http (W : Type 0) : Type 0 where
  pub marshal : Envelope → Option String
  pub unmarshal : String → Option IngestResponse
  pub first_bytes : ℕ → String → String
  pub send : SinkRequest → W → SinkReply × W

unfoldable pub request_of : String → String → String → SinkRequest
request_of url secret body = record {
  url = url;
  headers =
      ("Content-Type", "application/json")
      ∷ ("Authorization", sprint ("Bearer " ∷ secret ∷ []))
      ∷ [];
  body = body;
}

-- An answer that does not decode counts as nothing.
counted : Option IngestResponse → IngestResponse
counted none = record { accepted = 0; skipped_idempotent = 0; rejected = 0 }
counted (some resp) = resp

-- resp.StatusCode < 200 || resp.StatusCode >= 300
abbrev pub is_success : ℕ → Bool
is_success status = not (ltb status 200 || leb 300 status)

-- The adapter of the push endpoint lets the request in.
pub request-authenticates :
    (url secret body : String)
    → secret ≢ ""
    → authenticate secret (request_of url secret body).headers body ≡ none
unfolding request_of header look
request-authenticates url secret body set = (authenticate_iff secret body _).1 (set, refl)

module _ {W : Type 0} (h : Http W) (url secret : String) where
  unfoldable pub read_reply : SinkReply → Result IngestResponse
  unfolding counted
  read_reply unbuilt = err (wrapped text)
  read_reply unreachable = err (wrapped text)
  read_reply (answered status raw) =
      if is_success status then ok (counted (h.unmarshal (h.first_bytes 65536 raw))) else err text

  posted : Option String → Action W IngestResponse
  unfolding read_reply request_of
  posted none w = (err (wrapped text), w)
  posted (some body) w =
      let (reply, w') = h.send (request_of url secret body) w in (read_reply reply, w')

  unfoldable pub post : Envelope → Action W IngestResponse
  unfolding posted
  post env w = posted (h.marshal env) w

  reply-answered :
      (x : SinkReply × W) {resp : IngestResponse} {w' : W}
      → ◌≡◌ {A = Result IngestResponse × W} (read_reply x.0, x.1) (ok resp, w')
      → (status : ℕ) × (raw : String) × (x ≡ (answered status raw, w')) × (is_success status ≡ true)
  unfolding read_reply
  reply-answered (unbuilt, v) e = absurd cc
  reply-answered (unreachable, v) e = absurd cc
  reply-answered (answered status raw, v) {resp} {w'} e = elim (Bool-cases (is_success status)) [
    | inl yes_success ↦ (
      status,
      raw,
      ap (λ (u : W). (answered status raw, u)) (ap (λ (p : Result IngestResponse × W). p.1) e),
      yes_success,
    )
    | inr no_success ↦ absurd (ground arith)
  ]

  posted-answered :
      (m : Option String) (w : W) {resp : IngestResponse} {w' : W}
      → posted m w ≡ (ok resp, w')
      → (body : String) × (m ≡ some body)
        × (status : ℕ) × (raw : String) × (h.send (request_of url secret body) w
            ≡ (answered status raw, w'))
        × (is_success status ≡ true)
  unfolding posted
  posted-answered none w e = absurd cc
  posted-answered (some body) w e =
      let (status, raw, sent, good) = reply-answered (h.send (request_of url secret body) w) e in
      (body, refl, status, raw, sent, good)

  -- A post that returns a response was answered with a status of success, to the request with the JSON of the
  -- envelope and the secret; and with a secret, a push adapter that has the same one lets this request in and
  -- decodes its body to the envelope's own batch, where the service's decoder reads what the reader's
  -- encoder wrote.
  pub post-delivered :
      (unmarshal : String → Option Envelope) (env : Envelope) (w : W) {resp : IngestResponse}
      {w' : W}
      → (post env w) ≡ (ok resp, w')
      → secret ≢ ""
      → ((body : String) → h.marshal env ≡ some body → unmarshal body ≡ some env)
      → (body : String) × (status : ℕ) × (raw : String) × (h.send (request_of url secret body) w
          ≡ (answered status raw, w'))
        × (is_success status ≡ true)
        × (authenticate secret (request_of url secret body).headers body ≡ none)
        × (decode_push unmarshal body ≡ ok (to_batch env))
  unfolding post decode_push
  post-delivered unmarshal env w {resp} {w'} e set round_trips =
      let (body, wrote, status, raw, sent, good) = posted-answered (h.marshal env) w e in
      (
        body,
        status,
        raw,
        sent,
        good,
        request-authenticates url secret body set,
        rw (round_trips body wrote, decode_push) refl,
      )
