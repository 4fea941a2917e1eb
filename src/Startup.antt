-- ===== src/Startup.antt =====
-- cmd/translation-layer/main.go, run: the parts that the service is put together from, up to the loops
-- that it then runs until a signal. `Outside` is what is not in this repository, and the calls of the
-- SULO adapter under its settings.
pub mod Assembled
pub mod Delivered
use clappform_sensor_things.Prelude.{
  Bool, List, Option, String, [], if◌then◌else◌, none, some, str_eq, suc, ◌*◌, ◌++◌, ◌/◌, ◌==◌, ◌∷◌,
}
use clappform_sensor_things.Frost.Mqtt.{
  Broker, MqttConfig, MqttPublisher, new_mqtt_publisher, observation_publisher,
}
use clappform_sensor_things.Adapters.Dummy.{Arithmetic, dummy_adapter, new_dummy}
use clappform_sensor_things.Config.{Env, Fault, Config}
use clappform_sensor_things.Adapters.Sulo.New.{Adapter, Settings, new_adapter}
use clappform_sensor_things.Prelude.Int.{lez, negsuc, pos, sub_ℕ, ℤ}
use clappform_sensor_things.Adapters.Registry.{
  Registration, Registry, by_poll, by_push, new_registry, register_all,
}
use clappform_sensor_things.Adapters.{PollAdapter}
use clappform_sensor_things.Prelude.Strings.{trim_right}
use clappform_sensor_things.Adapters.Collaborall.{Envelope, new_push}
use clappform_sensor_things.Frost.Writer.{ObservationPublisher}
use clappform_sensor_things.Failure.{Error}
use clappform_sensor_things.Frost.Entities.{Payload}
use clappform_sensor_things.Config.Load.{load, sulo_enabled}
use clappform_sensor_things.Canonical.{Time, second}
use Prim.Native.Char.{Char, code}

pub record Outside (W : Type 0) : Type 0 where
  pub open_store : String → Option Error  -- state.NewPGStore
  pub broker : Broker W
  pub marshal : Payload → Option String
  pub format_int : ℤ → String
  pub unmarshal : String → Option Envelope
  pub arithmetic : Arithmetic
  pub clock : W → Time × W
  pub sulo_calls : Adapter → PollAdapter W

pub data StartError : Type 0 where
  bad_config : List Fault → StartError
  store_failed : Error → StartError
  mqtt_refused sulo_refused duplicate_vendor : StartError

-- frost.Target with its client: the label is the configured URL.
pub record TargetOf (W : Type 0) : Type 0 where
  pub label : String
  pub base_url : String
  pub timeout : ℤ
  pub insecure : Bool
  pub mqtt : Option (ObservationPublisher W)

pub record Service (W : Type 0) : Type 0 where
  pub entity_name_prefix : String
  pub targets : List (TargetOf W)
  pub clock_skew_tolerance : ℤ
  pub registry : Registry W
  pub poll_interval : ℤ
  pub cursor_init_lookback : ℤ
  pub webhook_url : String
  pub admin_addr : String
  pub push_addr : Option String

pub data Started (W : Type 0) : Type 0 where
  failed : StartError → Started W
  running : Service W → Started W

-- cfg.MQTTEnabled: the configuration of the publisher
unfoldable pub mqtt_config : Config → MqttConfig
mqtt_config c = record {
  broker_url = c.mqtt_broker_url;
  client_id = "";
  topic_prefix = c.mqtt_topic_prefix;
  qos = c.mqtt_qos;
  connect_timeout = pos 0;
  publish_timeout = pos 0;
}

-- int(d.Seconds())
whole_seconds : ℤ → ℤ
whole_seconds (pos n) = pos (n / second)
whole_seconds (negsuc n) = sub_ℕ 0 (suc n / second)

unfoldable pub sulo_settings : Config → Settings
unfolding whole_seconds
sulo_settings c = record {
  base_url = c.sulo_api_base_url;
  username = c.sulo_username;
  password = c.sulo_password;
  customer_id = c.sulo_customer_id;
  http_timeout = c.sulo_http_timeout;
  page_size = c.sulo_page_size;
  observation_page_limit = c.sulo_observation_page_limit;
  min_confidence = c.sulo_min_confidence;
  expected_cadence_seconds = whole_seconds c.sulo_expected_cadence;
}

is_slash : Char → Bool
is_slash c = code c == b'/'

-- frost.NewClient and frost.NewWriter for each configured URL
unfoldable pub targets_for :
    {W : Type 0} → Config → Option (ObservationPublisher W) → List String → List (TargetOf W)
unfolding trim_right is_slash
targets_for c mqtt [] = []
targets_for c mqtt (t ∷ ts) =
    record {
      label = t;
      base_url = trim_right is_slash t;
      timeout =
          if lez c.frost_http_timeout (pos 0) then pos (15 * second) else c.frost_http_timeout;
      insecure = c.frost_insecure_skip_verify;
      mqtt = mqtt;
    }
    ∷ targets_for c mqtt ts

module _ {W : Type 0} (x : Outside W) where
  unfoldable pub dummy_registration : Config → List (Registration W)
  unfolding dummy_adapter new_dummy
  dummy_registration c =
      if c.dummy_adapter_enabled
      then by_poll
          (dummy_adapter (new_dummy x.arithmetic c.dummy_things_count c.dummy_cadence) x.clock)
        ∷ []
      else []

  -- The SULO adapter answers to "sulo".
  unfoldable pub sulo_registration : Adapter → List (Registration W)
  sulo_registration a = by_poll (record (x.sulo_calls a) { vendor_id = "sulo" }) ∷ []

  unfoldable pub push_registration : Config → List (Registration W)
  unfolding new_push
  push_registration c =
      if str_eq c.collaborall_ingest_secret ""
      then []
      else by_push (new_push x.unmarshal c.collaborall_ingest_secret) ∷ []

  -- A duplicate vendor is a panic.
  unfoldable pub assembled :
      Config → Option (ObservationPublisher W) → Option (Registry W) → Started W
  unfolding targets_for
  assembled c mqtt none = failed duplicate_vendor
  assembled c mqtt (some registry) = running (record {
    entity_name_prefix = c.entity_name_prefix;
    targets = targets_for c mqtt c.frost_targets;
    clock_skew_tolerance = c.clock_skew_tolerance;
    registry = registry;
    poll_interval = c.poll_interval;
    cursor_init_lookback = c.cursor_init_lookback;
    webhook_url = c.freshness_alert_webhook_url;
    admin_addr = c.http_addr;
    push_addr = if str_eq c.push_http_addr "" then none else some c.push_http_addr;
  })

  unfoldable pub registered :
      Config → Option (ObservationPublisher W) → List (Registration W) → Started W
  unfolding assembled register_all dummy_registration push_registration
  registered c mqtt sulo =
      assembled c mqtt
        (register_all new_registry (dummy_registration c ++ (sulo ++ push_registration c)))

  unfoldable pub with_sulo : Config → Option (ObservationPublisher W) → Option Adapter → Started W
  unfolding registered sulo_registration
  with_sulo c mqtt none = failed sulo_refused
  with_sulo c mqtt (some a) = registered c mqtt (sulo_registration a)

  unfoldable pub with_mqtt : Config → Option (ObservationPublisher W) → Started W
  unfolding with_sulo registered sulo_enabled new_adapter sulo_settings
  with_mqtt c mqtt =
      if sulo_enabled c
      then with_sulo c mqtt (new_adapter (sulo_settings c))
      else registered c mqtt []

  unfoldable pub with_publisher : Config → Option (MqttPublisher W) → Started W
  unfolding with_mqtt observation_publisher
  with_publisher c none = failed mqtt_refused
  with_publisher c (some p) = with_mqtt c (some (observation_publisher p))

  unfoldable pub with_store : Config → Option Error → Started W
  unfolding with_mqtt with_publisher new_mqtt_publisher mqtt_config
  with_store c (some e) = failed (store_failed e)
  with_store c none =
      if c.mqtt_enabled
      then with_publisher c (new_mqtt_publisher x.broker x.marshal x.format_int (mqtt_config c))
      else with_mqtt c none

  unfoldable pub with_config : Config × List Fault → Started W
  unfolding with_store
  with_config (c, f ∷ fs) = failed (bad_config (f ∷ fs))
  with_config (c, []) = with_store c (x.open_store c.state_store_dsn)

  unfoldable pub start : Env → Started W
  unfolding with_config load
  start env = with_config (load env)
