-- ===== src/State/Postgres/Integrity/Rows.antt =====
-- internal/state/migrations.sql: the changes of rows that keep the constraints.
use clappform_sensor_things.Prelude.{
  Bool, Option, some, List, String, arith, exists_where, false, keep_where, true, update_where, ℕ,
  ◌∷◌, ◌≡◌, ◌≤◌, suc, sym, eq_iff, ◌∙◌,
}
use clappform_sensor_things.State.{DatastreamRow, ThingRow, WatchdogState}
use clappform_sensor_things.State.Postgres.Integrity.{
  Holds, count-absent, count-keep_where, count-update_where, exists-keep_where, exists-update_where,
  is_known,
}
use clappform_sensor_things.State.Postgres.Tables.{
  LogRow, is_datastream, is_datastream_id, is_log_id, is_logged, is_thing, is_thing_id,
}

module _ {ts : List ThingRow} {nt : ℕ} {ss : List DatastreamRow} {ns : ℕ} {log : List LogRow}
    {nl : ℕ} {wd : Option WatchdogState} (h : Holds ts nt ss ns log nl wd) where
  -- The numbers that a failed or a conflicting insert takes.
  pub numbers-Holds :
      (nt' ns' nl' : ℕ) → nt ≤ nt' → ns ≤ ns' → nl ≤ nl' → Holds ts nt' ss ns' log nl' wd
  numbers-Holds nt' ns' nl' l m n = record {
    thing_ids = λ i. ground (arith, h.thing_ids i);
    thing_keys = h.thing_keys;
    stream_ids = λ i. ground (arith, h.stream_ids i);
    stream_keys = h.stream_keys;
    log_ids = λ i. ground (arith, h.log_ids i);
    log_keys = h.log_keys;
    stream_things = h.stream_things;
    log_streams = h.log_streams;
    status = h.status;
  }

  pub thing_updated-Holds :
      (p : ThingRow → Bool) (f : ThingRow → ThingRow)
      → ((i : ℕ) (r : ThingRow) → is_thing_id i (f r) ≡ is_thing_id i r)
      → ((v n : String) (r : ThingRow) → is_thing v n (f r) ≡ is_thing v n r)
      → Holds (update_where p f ts) nt ss ns log nl wd
  thing_updated-Holds p f ids keys = record {
    thing_ids = λ i. rw (count-update_where (is_thing_id i) p f ts (ids i)) (h.thing_ids i);
    thing_keys = λ v n. rw (count-update_where (is_thing v n) p f ts (keys v n)) (h.thing_keys v n);
    stream_ids = h.stream_ids;
    stream_keys = h.stream_keys;
    log_ids = h.log_ids;
    log_keys = h.log_keys;
    stream_things =
        λ i op e. exists-update_where (is_thing_id i) p f ts (ids i) ∙ h.stream_things i op e;
    log_streams = h.log_streams;
    status = h.status;
  }

  pub stream_updated-Holds :
      (p : DatastreamRow → Bool) (f : DatastreamRow → DatastreamRow)
      → ((i : ℕ) (r : DatastreamRow) → is_datastream_id i (f r) ≡ is_datastream_id i r)
      → ((i : ℕ) (op : String) (r : DatastreamRow)
          → is_datastream i op (f r) ≡ is_datastream i op r)
      → Holds ts nt (update_where p f ss) ns log nl wd
  stream_updated-Holds p f ids keys = record {
    thing_ids = h.thing_ids;
    thing_keys = h.thing_keys;
    stream_ids = λ i. rw (count-update_where (is_datastream_id i) p f ss (ids i)) (h.stream_ids i);
    stream_keys = λ i op.
        rw (count-update_where (is_datastream i op) p f ss (keys i op)) (h.stream_keys i op);
    log_ids = h.log_ids;
    log_keys = h.log_keys;
    stream_things = λ i op e.
        h.stream_things i op
          (sym (exists-update_where (is_datastream i op) p f ss (keys i op)) ∙ e);
    log_streams =
        λ i t e. exists-update_where (is_datastream_id i) p f ss (ids i) ∙ h.log_streams i t e;
    status = h.status;
  }

  pub thing_added-Holds :
      (r : ThingRow)
      → r.id ≡ nt
      → exists_where (is_thing r.vendor_id r.vendor_native_id) ts ≡ false
      → Holds (r ∷ ts) (suc nt) ss ns log nl wd
  thing_added-Holds r e new = record {
    thing_ids = λ i. ground (arith, h.thing_ids i);
    thing_keys = λ v n. ground (
      arith,
      h.thing_keys v n,
      eq_iff r.vendor_id v,
      eq_iff r.vendor_native_id n,
      count-absent (is_thing r.vendor_id r.vendor_native_id) ts new,
    );
    stream_ids = h.stream_ids;
    stream_keys = h.stream_keys;
    log_ids = h.log_ids;
    log_keys = h.log_keys;
    stream_things = λ i op k. ground (arith, h.stream_things i op k);
    log_streams = h.log_streams;
    status = h.status;
  }

  pub stream_added-Holds :
      (r : DatastreamRow)
      → r.id ≡ ns
      → exists_where (is_datastream r.thing_id r.observed_property) ss ≡ false
      → exists_where (is_thing_id r.thing_id) ts ≡ true
      → Holds ts nt (r ∷ ss) (suc ns) log nl wd
  stream_added-Holds r e new parent = record {
    thing_ids = h.thing_ids;
    thing_keys = h.thing_keys;
    stream_ids = λ i. ground (arith, h.stream_ids i);
    stream_keys = λ i op. ground (
      arith,
      h.stream_keys i op,
      eq_iff r.observed_property op,
      count-absent (is_datastream r.thing_id r.observed_property) ss new,
    );
    log_ids = h.log_ids;
    log_keys = h.log_keys;
    stream_things = λ i op k. ground (arith, h.stream_things i op);
    log_streams = λ i t k. ground (arith, h.log_streams i t k);
    status = h.status;
  }

  pub logged-Holds :
      (r : LogRow)
      → r.id ≡ nl
      → exists_where (is_logged r.datastream_id r.phenomenon_time) log ≡ false
      → exists_where (is_datastream_id r.datastream_id) ss ≡ true
      → Holds ts nt ss ns (r ∷ log) (suc nl) wd
  logged-Holds r e new parent = record {
    thing_ids = h.thing_ids;
    thing_keys = h.thing_keys;
    stream_ids = h.stream_ids;
    stream_keys = h.stream_keys;
    log_ids = λ i. ground (arith, h.log_ids i);
    log_keys = λ i t.
        ground (
          arith,
          h.log_keys i t,
          count-absent (is_logged r.datastream_id r.phenomenon_time) log new,
        );
    stream_things = h.stream_things;
    log_streams = λ i t k. ground (arith, h.log_streams i t);
    status = h.status;
  }

  pub purged-Holds : (p : LogRow → Bool) → Holds ts nt ss ns (keep_where p log) nl wd
  purged-Holds p = record {
    thing_ids = h.thing_ids;
    thing_keys = h.thing_keys;
    stream_ids = h.stream_ids;
    stream_keys = h.stream_keys;
    log_ids = λ i. omega (arith, count-keep_where (is_log_id i) p log, h.log_ids i);
    log_keys = λ i t. omega (arith, count-keep_where (is_logged i t) p log, h.log_keys i t);
    stream_things = h.stream_things;
    log_streams = λ i t e. h.log_streams i t (exists-keep_where (is_logged i t) p log e);
    status = h.status;
  }

  pub watched-Holds :
      (w : WatchdogState) → is_known w.current_status ≡ true → Holds ts nt ss ns log nl (some w)
  watched-Holds w k = record {
    thing_ids = h.thing_ids;
    thing_keys = h.thing_keys;
    stream_ids = h.stream_ids;
    stream_keys = h.stream_keys;
    log_ids = h.log_ids;
    log_keys = h.log_keys;
    stream_things = h.stream_things;
    log_streams = h.log_streams;
    status = k;
  }
