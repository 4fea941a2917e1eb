-- ===== src/Adapters/Sulo/Client.antt =====
-- internal/adapters/sulo/client.go: the session, the one retry after a 401, the pages, and how
-- statuses and Retry-After are classified. `Reen` is the network: a request gets no answer, or a
-- response whose body is what the decoder of the caller makes of it.
use clappform_sensor_things.Canonical.{Time, second}
use clappform_sensor_things.Prelude.{
  Option, String, if◌then◌else◌, leb, ltb, none, some, str_eq, suc, ℕ, ◌&&◌, ◌*◌, ◌-◌, ◌==◌, ◌||◌,
}
use clappform_sensor_things.Prelude.Int.{negsuc, pos, wrap_int64, ℤ}
use clappform_sensor_things.Failure.{Error, Result, err, ok, permanent, text, transient, wrapped}
use clappform_sensor_things.Adapters.{clamp_retry_after}

pub data RetryHeader : Type 0 where
  no_header garbled : RetryHeader
  delay_seconds : ℤ → RetryHeader
  http_date : Time → RetryHeader

pub record Response (A : Type 0) : Type 0 where
  pub status : ℕ
  pub retry_after : RetryHeader
  pub body : Option A

-- `sign_in` is POST /session, with the token of the answer; `page` is GET of a path with limit and
-- offset, under a token. `none`: the transport failed.
pub record Reen (W A : Type 0) : Type 0 where
  pub username : String
  pub password : String
  pub page_size : ℕ
  pub clock : W → Time
  pub sign_in : W → Option (Response String) × W
  pub page : ℕ → ℕ → String → W → Option (Response A) × W

pub record Session (W : Type 0) : Type 0 where
  pub token : String
  pub gen : ℕ
  pub world : W

-- time.Duration(secs) * time.Second wraps around; an HTTP date is relative to the clock.
unfoldable pub parse_retry_after : Time → RetryHeader → ℤ
unfolding wrap_int64
parse_retry_after now no_header = pos 0
parse_retry_after now garbled = pos 0
parse_retry_after now (delay_seconds (negsuc n)) = pos 0
parse_retry_after now (delay_seconds (pos n)) = wrap_int64 (n * second)
parse_retry_after now (http_date t) = pos (t - now)

-- nil, or the error; the order of the cases is that of the switch
unfoldable pub classify_status : {A : Type 0} → Time → Response A → Option Error
unfolding parse_retry_after clamp_retry_after
classify_status now r =
    if leb 200 r.status && ltb r.status 300
    then none
    else if r.status == 429
    then some (transient text (clamp_retry_after (parse_retry_after now r.retry_after)))
    else if leb 500 r.status
    then some (transient text 0)
    else some (permanent text)

unfoldable pub token_of : Option String → Result String
token_of none = err (transient (wrapped text) 0)
token_of (some t) = if str_eq t "" then err (permanent text) else ok t

unfoldable pub signed_in : Time → Option (Response String) → Result String
unfolding classify_status token_of
signed_in now none = err (transient (wrapped text) 0)
signed_in now (some r) =
    if r.status == 401 || r.status == 403
    then err (permanent text)
    else elim (classify_status now r) [ some e ↦ err e | none ↦ token_of r.body ]

module _ {W A : Type 0} (reen : Reen W A) where
  unfoldable pub login : W → Result String × W
  unfolding signed_in
  login w =
      if str_eq reen.username "" || str_eq reen.password ""
      then (err (permanent text), w)
      else let (r, w') = reen.sign_in w in (signed_in (reen.clock w') r, w')

  unfoldable pub minted : Session W → Result String × W → Result (String × ℕ) × Session W
  minted c (err e, w) = (err e, record c { world = w })
  minted c (ok t, w) = (ok (t, suc c.gen), record { token = t; gen = suc c.gen; world = w })

  unfoldable pub session : Session W → Result (String × ℕ) × Session W
  unfolding login minted
  session c = if str_eq c.token "" then minted c (login c.world) else (ok (c.token, c.gen), c)

  unfoldable pub invalidate : ℕ → Session W → Session W
  invalidate gen c = if c.gen == gen then record c { token = "" } else c

  unfoldable pub decoded_body : Option A → Result A
  decoded_body none = err (transient (wrapped text) 0)
  decoded_body (some a) = ok a

  unfoldable pub answer_of : Time → Response A → Result A
  unfolding classify_status decoded_body
  answer_of now r = elim (classify_status now r) [ some e ↦ err e | none ↦ decoded_body r.body ]

  unfoldable pub do_page : ℕ → ℕ → String → Session W → Option (Response A) × Session W
  do_page size offset token c =
      let (r, w) = reen.page size offset token c.world in (r, record c { world = w })

  -- The second attempt: any answer is final.
  unfoldable pub second_answer : Option (Response A) × Session W → Result A × Session W
  unfolding answer_of
  second_answer (none, c) = (err (transient (wrapped text) 0), c)
  second_answer (some r, c) = (answer_of (reen.clock c.world) r, c)

  unfoldable pub second_attempt : ℕ → ℕ → Result (String × ℕ) × Session W → Result A × Session W
  unfolding do_page second_answer
  second_attempt size offset (err e, c) = (err e, c)
  second_attempt size offset (ok (token, gen), c) = second_answer (do_page size offset token c)

  unfoldable pub first_answer : ℕ → ℕ → ℕ → Option (Response A) × Session W → Result A × Session W
  unfolding second_attempt session invalidate answer_of
  first_answer size offset gen (none, c) = (err (transient (wrapped text) 0), c)
  first_answer size offset gen (some r, c) =
      if r.status == 401
      then second_attempt size offset (session (invalidate gen c))
      else (answer_of (reen.clock c.world) r, c)

  unfoldable pub first_attempt : ℕ → ℕ → Result (String × ℕ) × Session W → Result A × Session W
  unfolding do_page first_answer
  first_attempt size offset (err e, c) = (err e, c)
  first_attempt size offset (ok (token, gen), c) =
      first_answer size offset gen (do_page size offset token c)

  unfoldable pub get : ℕ → ℕ → Session W → Result A × Session W
  unfolding first_attempt session
  get size offset c = first_attempt size offset (session c)
