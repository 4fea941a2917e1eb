-- ===== src/Startup/Assembled.antt =====
-- main.go, run: which vendors the service that was put together has.
use clappform_sensor_things.Prelude.{
  either_way, Option, String, [], if◌then◌else◌, is_some, map, none, not, some, str_eq, ◌&&◌, ◌++◌,
  ◌∷◌, ◌≡◌, ◌≢◌, ◌⊎◌, Bool-cases, List, ap, false, inl, inr, look, put, refl, Bool, arith, eq_iff,
  true, subst, sym,
}
use clappform_sensor_things.Failure.{Error}
use clappform_sensor_things.Startup.{
  Outside, Service, Started, TargetOf, failed, running, store_failed, Config, assembled,
  dummy_registration, push_registration, registered, targets_for, sulo_registration, mqtt_config,
  start, sulo_settings, with_config, with_mqtt, with_publisher, with_store, with_sulo,
}
use clappform_sensor_things.Adapters.Registry.{
  push_adapter, claim, new_registry, register_all, register_poll, register_push, Registration,
  Registry,
}
use clappform_sensor_things.Config.Load.{sulo_enabled, load}
use clappform_sensor_things.Adapters.{PollAdapter, PushAdapter}
use clappform_sensor_things.Frost.Writer.{ObservationPublisher}
use clappform_sensor_things.Adapters.Collaborall.{new_push}
use clappform_sensor_things.Adapters.Dummy.{dummy_adapter, new_dummy}
use clappform_sensor_things.Adapters.Sulo.New.{Adapter, new_adapter}
use clappform_sensor_things.Config.{Env, Fault}
use clappform_sensor_things.Frost.Mqtt.{new_mqtt_publisher}
use clappform_sensor_things.Config.Bounds.{IsValid, load-IsValid}

new_adapter_succeeds :
    (c : Config) → sulo_enabled c ≡ true → (a : Adapter) × (new_adapter (sulo_settings c) ≡ some a)
unfolding new_adapter sulo_settings sulo_enabled
new_adapter_succeeds c h =
    let base : str_eq c.sulo_api_base_url "" ≡ false = ground arith in
    let user : str_eq c.sulo_username "" ≡ false = ground arith in
    let pass : str_eq c.sulo_password "" ≡ false = ground arith in rw (base, user, pass) (_, refl)

module _ {W : Type 0} (x : Outside W) where
  -- What a started service has of its configuration.
  pub record IsAssembled (c : Config) (s : Service W) : Type 0 where
    pub push :
        (v : String)
        → push_adapter s.registry v ≡ (
            if str_eq "collaborall" v && not (str_eq c.collaborall_ingest_secret "")
            then some (new_push x.unmarshal c.collaborall_ingest_secret)
            else none)
    pub poll :
        map (λ (a : PollAdapter W). a.vendor_id) s.registry.poll
        ≡ (if c.dummy_adapter_enabled then "dummy" ∷ [] else [])
          ++ (if sulo_enabled c then "sulo" ∷ [] else [])
    pub labels : map (λ (t : TargetOf W). t.label) s.targets ≡ c.frost_targets
    pub push_addr : (s.push_addr ≡ none) ⊎ (s.push_addr ≢ some s.admin_addr)

  -- It runs, or the store could not be opened.
  abbrev pub Runs : Config → Option Error → Started W → Type 0
  Runs c e (running s) = (e ≡ none) × IsAssembled c s
  Runs c e (failed (store_failed e')) = e ≡ some e'
  Runs c e (failed _) = ⊥

  labels_lem :
      (c : Config) (mqtt : Option (ObservationPublisher W)) (ts : List String)
      → map (λ (t : TargetOf W). t.label) (targets_for c mqtt ts) ≡ ts
  unfolding targets_for
  labels_lem c mqtt [] = refl
  labels_lem c mqtt (t ∷ ts) = ap (λ (us : List String). t ∷ us) (labels_lem c mqtt ts)

  push_addr_lem :
      (push admin : String)
      → (push ≡ "") ⊎ (str_eq push admin ≡ false)
      → ((if str_eq push "" then none else some push) ≡ none)
        ⊎ ((if str_eq push "" then none else some push) ≢ some admin)
  push_addr_lem push admin h = ground (arith, eq_iff push admin, eq_iff push "")

  -- The vendors of a registry, by the three switches.
  record HasVendors (dummy sulo secret : Bool) (a : PushAdapter) (r : Registry W) : Type 0 where
    push :
        (v : String)
        → push_adapter r v ≡ (if str_eq "collaborall" v && secret then some a else none)
    poll :
        map (λ (a : PollAdapter W). a.vendor_id) r.poll
        ≡ (if dummy then "dummy" ∷ [] else []) ++ (if sulo then "sulo" ∷ [] else [])

  push_none :
      (v : String) (a : PushAdapter)
      → ◌≡◌ {A = Option PushAdapter} none (if str_eq "collaborall" v && false then some a else none)
  push_none v a = ground arith

  push_one :
      (v : String) (a : PushAdapter)
      → look v (("collaborall", a) ∷ []) ≡ (if str_eq "collaborall" v && true then some a else none)
  unfolding look
  push_one v a = ground (arith, eq_iff "collaborall" v, eq_iff v "collaborall")

  sulo_part : Option Adapter → List (Registration W)
  unfolding sulo_registration
  sulo_part none = []
  sulo_part (some a) = sulo_registration x a

  registry_of :
      (c : Config) (a : Option Adapter)
      → (r : Registry W) × (register_all new_registry
            (dummy_registration x c ++ (sulo_part a ++ push_registration x c))
          ≡ some r)
        × HasVendors c.dummy_adapter_enabled
            (is_some a)
            (not (str_eq c.collaborall_ingest_secret ""))
            (new_push x.unmarshal c.collaborall_ingest_secret)
            r
  unfolding sulo_part sulo_registration registered register_all dummy_registration push_registration
      register_poll register_push claim push_adapter look put new_registry new_push new_dummy
      dummy_adapter assembled
  registry_of c none = elim (Bool-cases c.dummy_adapter_enabled) [
    | inl d ↦ elim (Bool-cases (str_eq c.collaborall_ingest_secret "")) [
      | inl s ↦ rw (d, s) (_, refl, record { push = λ v. push_none v _; poll = refl })
      | inr s ↦ rw (d, s) (_, refl, record { push = λ v. push_one v _; poll = refl })
    ]
    | inr d ↦ elim (Bool-cases (str_eq c.collaborall_ingest_secret "")) [
      | inl s ↦ rw (d, s) (_, refl, record { push = λ v. push_none v _; poll = refl })
      | inr s ↦ rw (d, s) (_, refl, record { push = λ v. push_one v _; poll = refl })
    ]
  ]
  registry_of c (some a) = elim (Bool-cases c.dummy_adapter_enabled) [
    | inl d ↦ elim (Bool-cases (str_eq c.collaborall_ingest_secret "")) [
      | inl s ↦ rw (d, s) (_, refl, record { push = λ v. push_none v _; poll = refl })
      | inr s ↦ rw (d, s) (_, refl, record { push = λ v. push_one v _; poll = refl })
    ]
    | inr d ↦ elim (Bool-cases (str_eq c.collaborall_ingest_secret "")) [
      | inl s ↦ rw (d, s) (_, refl, record { push = λ v. push_none v _; poll = refl })
      | inr s ↦ rw (d, s) (_, refl, record { push = λ v. push_one v _; poll = refl })
    ]
  ]

  assembled-Runs :
      (c : Config) (mqtt : Option (ObservationPublisher W)) (r : Registry W)
      → IsValid c
      → HasVendors c.dummy_adapter_enabled
          (sulo_enabled c)
          (not (str_eq c.collaborall_ingest_secret ""))
          (new_push x.unmarshal c.collaborall_ingest_secret)
          r
      → Runs c none (assembled x c mqtt (some r))
  unfolding assembled
  assembled-Runs c mqtt r v h = (
    refl,
    record {
      push = h.push;
      poll = h.poll;
      labels = labels_lem c mqtt c.frost_targets;
      push_addr = push_addr_lem c.push_http_addr c.http_addr v.addresses;
    },
  )

  registered-Runs :
      (c : Config) (mqtt : Option (ObservationPublisher W)) (a : Option Adapter)
      → IsValid c
      → is_some a ≡ sulo_enabled c
      → Runs c none (registered x c mqtt (sulo_part a))
  unfolding registered
  registered-Runs c mqtt a v e =
      let (r, p, h) = registry_of c a in
      rw p (
        assembled-Runs c mqtt r v (
          subst
            (λ b.
              HasVendors c.dummy_adapter_enabled b (not (str_eq c.collaborall_ingest_secret ""))
                (new_push x.unmarshal c.collaborall_ingest_secret) r)
            e h))

  with_mqtt-Runs :
      (c : Config) (mqtt : Option (ObservationPublisher W))
      → IsValid c
      → Runs c none (with_mqtt x c mqtt)
  unfolding with_mqtt with_sulo sulo_part
  with_mqtt-Runs c mqtt v =
      either_way (Runs c none) (sulo_enabled c) _ _
        (λ on.
          let (a, e) = new_adapter_succeeds c on in
          rw e (registered-Runs c mqtt (some a) v (sym on)))
        (λ off. registered-Runs c mqtt none v (sym off))

  with_store-Runs : (c : Config) (e : Option Error) → IsValid c → Runs c e (with_store x c e)
  unfolding with_store with_publisher new_mqtt_publisher mqtt_config
  with_store-Runs c (some e) v = refl
  with_store-Runs c none v =
      either_way (Runs c none) c.mqtt_enabled _ _
        (λ on.
          let set : str_eq c.mqtt_broker_url "" ≡ false = ground (arith, v.broker) in
          rw set (with_mqtt-Runs c _ v))
        (λ off. with_mqtt-Runs c none v)

  with_config-Runs :
      (p : Config × List Fault)
      → p.1 ≡ []
      → IsValid p.0
      → Runs p.0 (x.open_store p.0.state_store_dsn) (with_config x p)
  unfolding with_config
  with_config-Runs (c, []) h v = with_store-Runs c (x.open_store c.state_store_dsn) v
  with_config-Runs (c, f ∷ fs) h v = absurd cc

  -- With a configuration that loads, the service starts unless the store cannot be opened, and then has
  -- this error: neither MQTT nor SULO is refused and no vendor is registered twice. It polls exactly the
  -- vendors that are enabled, "dummy" before "sulo"; the push endpoint knows "collaborall" exactly if
  -- there is a secret, with an adapter of this secret, and no other vendor; there is a writer for each
  -- FROST target, in the order of the list; and the push endpoint is not served on the admin address.
  pub start-Runs :
      (env : Env)
      → (load env).1 ≡ []
      → Runs (load env).0 (x.open_store (load env).0.state_store_dsn) (start x env)
  unfolding start
  start-Runs env h = with_config-Runs (load env) h (load-IsValid env h)
