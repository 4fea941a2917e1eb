-- ===== src/Api/Accounting.antt =====
-- push.go: what an answer says of the batch, and what a refused request leaves alone.
use mathlib.Core.List.{Permᴰ}
use clappform_sensor_things.Prelude.{
  List, Option, String, [], ap, arith, length, length-append, none, refl, some, suc, ℕ, ◌++◌, ◌+◌,
  ◌∙◌, ◌∷◌, ◌≡◌, ◌≤◌, ◌⊎◌, ◌||◌, ltb, inl, inr, Bool-cases, look, Bool, false, true,
}
use clappform_sensor_things.Api.Push.{
  Groups, PushResponse, RejectedItem, StreamRef, add_to_group, group_observations, ingest_group,
  ingest_groups, rejected_items, stream_key, Request, add_result, empty_response,
  grouped_and_ingested, handle_ingest, ingest_batch, register_streams, decoded_and_ingested,
  handled_by, max_push_bytes,
}
use clappform_sensor_things.Api.{Answer, http_failure, json_body}
use clappform_sensor_things.Ingest.{Processor}
use clappform_sensor_things.State.{Store}
use clappform_sensor_things.Validator.{Rejection}
use clappform_sensor_things.Ingest.Covered.{process_stream_counts}
use clappform_sensor_things.Canonical.{Observation}
use clappform_sensor_things.Adapters.{DecodedBatch, PushAdapter}
use clappform_sensor_things.Failure.{Error, Result, err, ok}
use clappform_sensor_things.Adapters.Registry.{Registry, push_adapter}

-- http.Error
abbrev pub is_failure : {A : Type 0} → Answer A → Bool
is_failure (http_failure n m) = true
is_failure (json_body n a) = false

abbrev pub total : Groups → ℕ
total [] = 0
total ((k, os) ∷ gs) = length os + total gs

-- An order of visits that visits every group once: `total` does not see it.
pub total-Permᴰ : {gs hs : Groups} → Permᴰ gs hs → total gs ≡ total hs
total-Permᴰ Permᴰ.nil = refl
total-Permᴰ (Permᴰ.cons e d) =
    ground (arith, ap (λ (g : String × List Observation). length g.1) e, total-Permᴰ d)
total-Permᴰ (Permᴰ.swap e f) = ground (
  arith,
  ap (λ (g : String × List Observation). length g.1) e,
  ap (λ (g : String × List Observation). length g.1) f,
)
total-Permᴰ (Permᴰ.trans d e) = total-Permᴰ d ∙ total-Permᴰ e

total-add_to_group :
    (key : String) (o : Observation) (gs : Groups) → total (add_to_group key o gs) ≡ suc (total gs)
unfolding add_to_group
total-add_to_group key o [] = refl
total-add_to_group key o ((k, os) ∷ gs) =
    ground (arith, length-append os (o ∷ []), total-add_to_group key o gs)

-- Every observation is in a group or rejected.
total-group_observations :
    (streams : List (String × StreamRef)) (os : List Observation) (gs : Groups)
    (resp : PushResponse)
    → let r = group_observations streams os gs resp in
      (total r.0 + length r.1.rejected ≡ total gs + length resp.rejected + length os)
      × (r.1.accepted ≡ resp.accepted)
unfolding group_observations
total-group_observations streams [] gs resp = (omega arith, refl)
total-group_observations streams (o ∷ os) gs resp =
    let key = stream_key o.thing_vendor_native_id o.observed_property in
    let item : RejectedItem = record {
      raw_observation_id = o.raw_observation_id;
      reason = "unknown_datastream";
    } in
    let resp' : PushResponse = record resp { rejected = resp.rejected ++ (item ∷ []) } in
    ground (
      arith,
      total-group_observations streams os gs resp',
      total-group_observations streams os (add_to_group key o gs) resp,
      length-append resp.rejected (item ∷ []),
      total-add_to_group key o gs,
    )

length-rejected_items : (rs : List Rejection) → length (rejected_items rs) ≡ length rs
unfolding rejected_items
length-rejected_items [] = refl
length-rejected_items (r ∷ rs) = ap suc (length-rejected_items rs)

module _ {W : Type 0} (store : Store W) (p : Processor W) (order : Groups → Groups) where
  ingest_group-counts :
      (vendor : String) (ref : Option StreamRef) (os : List Observation) (w : W)
      → let r = (ingest_group store p order vendor ref os w).0 in
        r.1 ≡ none → r.0.accepted + length r.0.rejected ≡ length os
  unfolding ingest_group
  ingest_group-counts vendor none os w h = cc
  ingest_group-counts vendor (some ref) os w h =
      let c = process_stream_counts p vendor ref.thing_id ref.ds_id ref.thing ref.ds 0 os w in
      ground (arith, c)

  ingest_groups-counts :
      (vendor : String) (streams : List (String × StreamRef)) (gs : Groups) (resp : PushResponse)
      (w : W)
      → let r = (ingest_groups store p order vendor streams gs resp w).0 in
        r.1 ≡ 202
        → r.0.accepted + length r.0.rejected ≡ resp.accepted + length resp.rejected + total gs
  unfolding ingest_groups add_result
  ingest_groups-counts vendor streams [] resp w h = omega arith
  ingest_groups-counts vendor streams ((key, os) ∷ gs) resp w h =
      let done = ingest_group store p order vendor (look key streams) os w in
      elim done.0.1
          as (λ (e : Option Error).
            done.0.1 ≡ e
            → let r =
                (elim e as (λ _. (PushResponse × ℕ) × W) [
                  | some e' ↦ ((resp, 503), done.1)
                  | none ↦
                      ingest_groups store p order vendor streams gs (add_result done.0.0 resp)
                        done.1
                ]).0 in
              r.1 ≡ 202
              → r.0.accepted + length r.0.rejected
                ≡ resp.accepted + length resp.rejected + (length os + total gs)) [
                  | some e' ↦ λ d k. omega (arith, k)
                  | none ↦ λ d k. ground (
                    arith,
                    ingest_groups-counts vendor streams gs (add_result done.0.0 resp) done.1 k,
                    ingest_group-counts vendor (look key streams) os w d,
                    length-append resp.rejected (rejected_items done.0.0.rejected),
                    length-rejected_items done.0.0.rejected,
                  )
                ]
        refl h

  grouped_and_ingested-counts :
      (vendor : String) (os : List Observation) (x : Result (List (String × StreamRef)) × W)
      → ((gs : Groups) → total (order gs) ≡ total gs)
      → let r = (grouped_and_ingested store p order vendor os x).0 in
        r.1 ≡ 202 → r.0.accepted + length r.0.rejected ≡ length os
  unfolding grouped_and_ingested
  grouped_and_ingested-counts vendor os (err e, w) keeps h = omega (arith, h)
  grouped_and_ingested-counts vendor os (ok streams, w) keeps h =
      let grouped = group_observations streams os [] empty_response in
      ground (
        arith,
        ingest_groups-counts vendor streams (order grouped.0) grouped.1 w h,
        keeps grouped.0,
        total-group_observations streams os [] empty_response,
      )

  -- Whatever order Go visits the groups in, a batch that is answered with 202 has each of its
  -- observations accepted or rejected, and says so: the two numbers add up to the batch.
  pub ingest_batch_counts :
      (vendor : String) (batch : DecodedBatch) (w : W)
      → ((gs : Groups) → Permᴰ (order gs) gs)
      → let r = (ingest_batch store p order vendor batch w).0 in
        r.1 ≡ 202 → r.0.accepted + length r.0.rejected ≡ length batch.observations
  unfolding ingest_batch
  ingest_batch_counts vendor batch w visits h =
      grouped_and_ingested-counts vendor batch.observations
        (register_streams store p order batch.things [] w) (λ gs. total-Permᴰ (visits gs)) h

  -- The request names a known vendor, its body was read and is not too large, it is authentic, and the body
  -- decodes to the batch.
  pub record IsAdmitted (registry : Registry W) (r : Request) (batch : DecodedBatch) : Type 0 where
    pub adapter : PushAdapter
    pub known : push_adapter registry r.vendor_id ≡ some adapter
    pub read : r.broken ≡ false
    pub fits : r.size ≤ max_push_bytes
    pub authentic : adapter.authenticate r.headers r.body ≡ none
    pub decoded : adapter.decode_push r.body ≡ ok batch

  -- What the endpoint may do with a request.
  abbrev pub Handles : Registry W → Request → W → Answer PushResponse × W → Type 0
  Handles registry r w x =
      ((batch : DecodedBatch) × IsAdmitted registry r batch
        × (x ≡ (
            let ((resp, status), w') = ingest_batch store p order r.vendor_id batch w in
            (json_body status resp, w'))))
      ⊎ ((is_failure x.0 ≡ true) × (x.1 ≡ w))

  decoded_and_ingested-Handles :
      (registry : Registry W) (r : Request) (w : W) (d : Result DecodedBatch)
      → ((batch : DecodedBatch) → d ≡ ok batch → IsAdmitted registry r batch)
      → Handles registry r w (decoded_and_ingested store p order r.vendor_id d w)
  unfolding decoded_and_ingested
  decoded_and_ingested-Handles registry r w (err e) h = inr (refl, refl)
  decoded_and_ingested-Handles registry r w (ok batch) h = inl (batch, h batch refl, refl)

  authentic-Handles :
      (registry : Registry W) (r : Request) (w : W) (adapter : PushAdapter) (e : Option Error)
      → push_adapter registry r.vendor_id ≡ some adapter
      → r.broken ≡ false
      → r.size ≤ max_push_bytes
      → adapter.authenticate r.headers r.body ≡ e
      → Handles registry r w (elim e [
        | some _ ↦ (http_failure 401 "unauthorized", w)
        | none ↦ decoded_and_ingested store p order r.vendor_id (adapter.decode_push r.body) w
      ])
  authentic-Handles registry r w adapter (some e) known read fits auth = inr (refl, refl)
  authentic-Handles registry r w adapter none known read fits auth =
      decoded_and_ingested-Handles registry r w (adapter.decode_push r.body) (λ batch d. record {
        adapter = adapter;
        known = known;
        read = read;
        fits = fits;
        authentic = auth;
        decoded = d;
      })

  handled_by-Handles :
      (registry : Registry W) (r : Request) (w : W) (adapter : PushAdapter)
      → push_adapter registry r.vendor_id ≡ some adapter
      → Handles registry r w (handled_by store p order adapter r w)
  unfolding handled_by
  handled_by-Handles registry r w adapter known =
      elim (Bool-cases (r.broken || ltb max_push_bytes r.size)) [
        | inl bad ↦ rw bad (inr (refl, refl))
        | inr good ↦ rw good (
            authentic-Handles registry r w adapter (adapter.authenticate r.headers r.body) known
              (ground (arith, good)) (ground (arith, good)) refl)
      ]

  known-Handles :
      (registry : Registry W) (r : Request) (w : W) (m : Option PushAdapter)
      → push_adapter registry r.vendor_id ≡ m
      → Handles registry r w (elim m [
        | none ↦ (http_failure 404 "unknown push vendor", w)
        | some adapter ↦ handled_by store p order adapter r w
      ])
  known-Handles registry r w none e = inr (refl, refl)
  known-Handles registry r w (some adapter) e = handled_by-Handles registry r w adapter e

  -- A push request is ingested only if its vendor is known, its body was read and is not too large, the
  -- vendor's adapter lets it in and decodes it: the answer is then that of ingestBatch for this batch. Any
  -- other is answered by http.Error and leaves the whole world as it was.
  pub handle_ingest-Handles :
      (registry : Registry W) (r : Request) (w : W)
      → Handles registry r w (handle_ingest store p order registry r w)
  unfolding handle_ingest
  handle_ingest-Handles registry r w =
      known-Handles registry r w (push_adapter registry r.vendor_id) refl
