-- ===== src/Startup/Delivered.antt =====
-- cmd/collaborall-reader/sink.go and cmd/translation-layer/main.go together: a request of the reader at the
-- push endpoint of a started service.
use clappform_sensor_things.Prelude.{
  subst, [], String, false, refl, some, str_eq, ℕ, ◌≡◌, ◌≤◌, ◌≢◌, arith, eq_iff, ltb, ◌∙◌,
}
use clappform_sensor_things.Config.{Config, Env}
use clappform_sensor_things.Config.Load.{load}
use clappform_sensor_things.State.{Store}
use clappform_sensor_things.Ingest.{Processor}
use clappform_sensor_things.Failure.{ok}
use clappform_sensor_things.Adapters.Registry.{push_adapter}
use clappform_sensor_things.Adapters.Collaborall.{Envelope, decode_push, new_push, to_batch}
use clappform_sensor_things.Api.{Answer, json_body}
use clappform_sensor_things.Api.Push.{
  Groups, PushResponse, Request, decoded_and_ingested, handle_ingest, handled_by, ingest_batch,
  max_push_bytes,
}
use clappform_sensor_things.Reader.Sink.{SinkRequest, request-authenticates, request_of}
use clappform_sensor_things.Startup.{start, running, Outside, Service}
use clappform_sensor_things.Startup.Assembled.{Runs, start-Runs, IsAssembled}

-- POST /ingest/collaborall, as the server reads it; `size` is the length of the body in bytes.
abbrev pub received : SinkRequest → ℕ → Request
received q size = record {
  vendor_id = "collaborall";
  headers = q.headers;
  body = q.body;
  size = size;
  broken = false;
}

-- The answer of the endpoint to a batch that was let in.
abbrev pub answer : {W : Type 0} → (PushResponse × ℕ) × W → Answer PushResponse × W
answer ((resp, status), w) = (json_body status resp, w)

module _ {W : Type 0} (x : Outside W) (store : Store W) (p : Processor W)
    (order : Groups → Groups) where
  decoded :
      (secret url body : String) (env : Envelope)
      → x.unmarshal body ≡ some env
      → decode_push x.unmarshal (request_of url secret body).body ≡ ok (to_batch env)
  unfolding decode_push request_of
  decoded secret url body env reads = rw (reads, decode_push) refl

  admitted :
      (secret url body : String) (size : ℕ) (env : Envelope) (w : W)
      → secret ≢ ""
      → size ≤ max_push_bytes
      → x.unmarshal body ≡ some env
      → handled_by store p order
          (new_push x.unmarshal secret)
          (received (request_of url secret body) size)
          w
        ≡ answer (ingest_batch store p order "collaborall" (to_batch env) w)
  unfolding handled_by decoded_and_ingested new_push
  admitted secret url body size env w set small reads =
      let fits : ltb max_push_bytes size ≡ false = ground (arith, small) in
      rw (fits, request-authenticates url secret body set, decoded secret url body env reads) refl

  -- The push endpoint of a service with a secret.
  endpoint :
      (c : Config) (s : Service W)
      → IsAssembled x c s
      → c.collaborall_ingest_secret ≢ ""
      → push_adapter s.registry "collaborall"
        ≡ some (new_push x.unmarshal c.collaborall_ingest_secret)
  endpoint c s h set =
      let full : str_eq c.collaborall_ingest_secret "" ≡ false =
        ground (arith, eq_iff c.collaborall_ingest_secret "", set) in
      h.push "collaborall" ∙ (rw full refl)

  -- A service that started with the reader's secret ingests the very batch of each request of the reader
  -- that is not too large, where its decoder reads the body as the reader's envelope: the answer is that
  -- of ingestBatch for this batch.
  pub reader-ingests :
      (vars : Env) (s : Service W) (url body : String) (size : ℕ) (env : Envelope) (w : W)
      → start x vars ≡ running s
      → (load vars).1 ≡ []
      → (load vars).0.collaborall_ingest_secret ≢ ""
      → size ≤ max_push_bytes
      → x.unmarshal body ≡ some env
      → handle_ingest store p order s.registry
          (received (request_of url (load vars).0.collaborall_ingest_secret body) size)
          w
        ≡ answer (ingest_batch store p order "collaborall" (to_batch env) w)
  unfolding handle_ingest
  reader-ingests vars s url body size env w runs loads set small reads =
      let c = (load vars).0 in
      let started : Runs x c (x.open_store c.state_store_dsn) (running s) =
        subst (Runs x c (x.open_store c.state_store_dsn)) runs (start-Runs x vars loads) in
      rw (endpoint c s started.1 set, handle_ingest)
        (admitted c.collaborall_ingest_secret url body size env w set small reads)
