-- ===== src/Config/Load.antt =====
-- config.go, Load: every variable with its default, and the checks between them.
use clappform_sensor_things.Prelude.{Bool, List, String, [], false, not, str_eq, ◌&&◌, ◌*◌, ◌∷◌}
use clappform_sensor_things.Config.{
  Config, Env, Fault, any_number, at_least, boolenv, concat, count_set, dsn_missing, fault_if,
  getenv, in_hours, in_seconds, int_setting, is_partial, is_qos, level_of, mqtt_broker_missing,
  push_address_shared, sulo_incomplete, targets_of, unchanged, LogLevel,
}
use clappform_sensor_things.Canonical.{second}
use clappform_sensor_things.Prelude.Strings.{to_upper}
use clappform_sensor_things.Prelude.Int.{pos, ℤ}

module _ (env : Env) where
  abbrev pub text_at : String → String
  text_at key = getenv env key ""

  abbrev pub sulo_timeout_setting : ℤ × List Fault
  sulo_timeout_setting = int_setting env "SULO_HTTP_TIMEOUT_SECONDS" (at_least 1) in_seconds (pos 0)

  abbrev pub sulo_page_size_setting : ℤ × List Fault
  sulo_page_size_setting = int_setting env "SULO_PAGE_SIZE" (at_least 1) unchanged (pos 0)

  abbrev pub sulo_limit_setting : ℤ × List Fault
  sulo_limit_setting = int_setting env "SULO_OBSERVATION_PAGE_LIMIT" (at_least 1) unchanged (pos 0)

  abbrev pub sulo_confidence_setting : ℤ × List Fault
  sulo_confidence_setting = int_setting env "SULO_MIN_CONFIDENCE" (at_least 0) unchanged (pos 0)

  abbrev pub sulo_cadence_setting : ℤ × List Fault
  sulo_cadence_setting =
      int_setting env "SULO_EXPECTED_CADENCE_SECONDS" (at_least 1) in_seconds (pos 0)

  abbrev pub frost_timeout_setting : ℤ × List Fault
  frost_timeout_setting =
      int_setting env "FROST_HTTP_TIMEOUT_SECONDS" (at_least 1) in_seconds (pos (15 * second))

  abbrev pub mqtt_qos_setting : ℤ × List Fault
  mqtt_qos_setting = int_setting env "MQTT_QOS" is_qos unchanged (pos 1)

  abbrev pub dummy_count_setting : ℤ × List Fault
  dummy_count_setting = int_setting env "DUMMY_THINGS_COUNT" (at_least 1) unchanged (pos 5)

  abbrev pub dummy_cadence_setting : ℤ × List Fault
  dummy_cadence_setting =
      int_setting env "DUMMY_CADENCE_SECONDS" (at_least 1) in_seconds (pos (300 * second))

  abbrev pub poll_interval_setting : ℤ × List Fault
  poll_interval_setting =
      int_setting env "POLL_INTERVAL_SECONDS" any_number in_seconds (pos (900 * second))

  abbrev pub freshness_setting : ℤ × List Fault
  freshness_setting =
      int_setting env "FRESHNESS_THRESHOLD_HOURS" any_number in_hours (pos (21600 * second))

  abbrev pub lookback_setting : ℤ × List Fault
  lookback_setting =
      int_setting env "CURSOR_INIT_LOOKBACK_SECONDS" any_number in_seconds (pos (3600 * second))

  abbrev pub clock_skew_setting : ℤ × List Fault
  clock_skew_setting =
      int_setting env "CLOCK_SKEW_TOLERANCE_SECONDS" any_number in_seconds (pos (300 * second))

  abbrev pub retention_setting : ℤ × List Fault
  retention_setting = int_setting env "STATE_STORE_RETENTION_DAYS" (at_least 1) unchanged (pos 90)

  abbrev pub level_setting : LogLevel × List Fault
  level_setting = level_of (to_upper (getenv env "LOG_LEVEL" "INFO"))

  abbrev pub admin_addr : String
  admin_addr = getenv env "HTTP_ADDR" ":8080"

  -- What each check appends, in their order.
  abbrev pub faults : List (List Fault)
  faults =
      sulo_timeout_setting.1
      ∷ sulo_page_size_setting.1
      ∷ sulo_limit_setting.1
      ∷ sulo_confidence_setting.1
      ∷ sulo_cadence_setting.1
      ∷ fault_if
          (is_partial (
            count_set (
              text_at "SULO_API_BASE_URL"
              ∷ text_at "SULO_API_USERNAME"
              ∷ text_at "SULO_API_PASSWORD"
              ∷ [])))
          sulo_incomplete
      ∷ frost_timeout_setting.1
      ∷ mqtt_qos_setting.1
      ∷ fault_if (boolenv env "MQTT_ENABLED" false && str_eq (text_at "MQTT_BROKER_URL") "")
          mqtt_broker_missing
      ∷ dummy_count_setting.1
      ∷ dummy_cadence_setting.1
      ∷ poll_interval_setting.1
      ∷ freshness_setting.1
      ∷ lookback_setting.1
      ∷ clock_skew_setting.1
      ∷ retention_setting.1
      ∷ level_setting.1
      ∷ fault_if (str_eq (text_at "STATE_STORE_DSN") "") dsn_missing
      ∷ fault_if
          (not (str_eq (text_at "PUSH_HTTP_ADDR") "")
            && str_eq (text_at "PUSH_HTTP_ADDR") admin_addr)
          push_address_shared
      ∷ []

  unfoldable pub load : Config × List Fault
  unfolding getenv int_setting boolenv targets_of level_of count_set to_upper
  load = (
    record {
      sulo_api_base_url = text_at "SULO_API_BASE_URL";
      sulo_username = text_at "SULO_API_USERNAME";
      sulo_password = text_at "SULO_API_PASSWORD";
      sulo_customer_id = text_at "SULO_CUSTOMER_ID";
      sulo_http_timeout = sulo_timeout_setting.0;
      sulo_page_size = sulo_page_size_setting.0;
      sulo_observation_page_limit = sulo_limit_setting.0;
      sulo_min_confidence = sulo_confidence_setting.0;
      sulo_expected_cadence = sulo_cadence_setting.0;
      frost_targets = targets_of (text_at "FROST_TARGETS");
      frost_write_token = text_at "FROST_WRITE_TOKEN";
      frost_basic_auth_user = text_at "FROST_BASIC_AUTH_USER";
      frost_basic_auth_password = text_at "FROST_BASIC_AUTH_PASSWORD";
      frost_insecure_skip_verify = boolenv env "FROST_TLS_INSECURE_SKIP_VERIFY" false;
      frost_http_timeout = frost_timeout_setting.0;
      mqtt_enabled = boolenv env "MQTT_ENABLED" false;
      mqtt_broker_url = text_at "MQTT_BROKER_URL";
      mqtt_topic_prefix = getenv env "MQTT_TOPIC_PREFIX" "v1.1";
      mqtt_qos = mqtt_qos_setting.0;
      state_store_dsn = text_at "STATE_STORE_DSN";
      poll_interval = poll_interval_setting.0;
      freshness_threshold = freshness_setting.0;
      freshness_alert_webhook_url = text_at "FRESHNESS_ALERT_WEBHOOK_URL";
      cursor_init_lookback = lookback_setting.0;
      clock_skew_tolerance = clock_skew_setting.0;
      log_level = level_setting.0;
      http_addr = admin_addr;
      push_http_addr = text_at "PUSH_HTTP_ADDR";
      collaborall_ingest_secret = text_at "COLLABORALL_INGEST_SECRET";
      entity_name_prefix = text_at "ENTITY_NAME_PREFIX";
      state_store_retention_days = retention_setting.0;
      dummy_adapter_enabled = boolenv env "DUMMY_ADAPTER_ENABLED" false;
      dummy_things_count = dummy_count_setting.0;
      dummy_cadence = dummy_cadence_setting.0;
    },
    concat faults,
  )

-- Config.SULOEnabled
unfoldable pub sulo_enabled : Config → Bool
sulo_enabled c =
    not (str_eq c.sulo_api_base_url "")
    && not (str_eq c.sulo_username "")
    && not (str_eq c.sulo_password "")
