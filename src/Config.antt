-- ===== src/Config.antt =====
-- internal/config/config.go: the configuration of the service, from environment variables. Each
-- setting is its value with the errors that reading it adds; `Load` collects them in their order.
pub mod Load
pub mod Valid
pub mod Bounds
use clappform_sensor_things.Prelude.{
  Bool, List, Option, String, [], false, if◌then◌else◌, none, not, some, str_eq, suc, true, ℕ, ◌&&◌,
  ◌*◌, ◌++◌, ◌==◌, ◌∷◌, ◌||◌,
}
use clappform_sensor_things.Prelude.Int.{lez, pos, times_int64, ℤ}
use clappform_sensor_things.Prelude.Strings.{atoi, split, to_lower, trim_space}
use clappform_sensor_things.Canonical.{second}

abbrev pub Env : Type 0
Env = String → Option String  -- os.LookupEnv

pub data LogLevel : Type 0 where
  level_debug level_info level_warn level_error : LogLevel

-- The errors of Load: a value that is malformed or out of its range, by its variable, and the others.
pub data Fault : Type 0 where
  malformed : String → Fault
  sulo_incomplete mqtt_broker_missing unknown_log_level dsn_missing push_address_shared : Fault

-- Durations are int64 numbers of nanoseconds.
pub record Config : Type 0 where
  pub sulo_api_base_url : String
  pub sulo_username : String
  pub sulo_password : String
  pub sulo_customer_id : String
  pub sulo_http_timeout : ℤ
  pub sulo_page_size : ℤ
  pub sulo_observation_page_limit : ℤ
  pub sulo_min_confidence : ℤ
  pub sulo_expected_cadence : ℤ
  pub frost_targets : List String
  pub frost_write_token : String
  pub frost_basic_auth_user : String
  pub frost_basic_auth_password : String
  pub frost_insecure_skip_verify : Bool
  pub frost_http_timeout : ℤ
  pub mqtt_enabled : Bool
  pub mqtt_broker_url : String
  pub mqtt_topic_prefix : String
  pub mqtt_qos : ℤ
  pub state_store_dsn : String
  pub poll_interval : ℤ
  pub freshness_threshold : ℤ
  pub freshness_alert_webhook_url : String
  pub cursor_init_lookback : ℤ
  pub clock_skew_tolerance : ℤ
  pub log_level : LogLevel
  pub http_addr : String
  pub push_http_addr : String
  pub collaborall_ingest_secret : String
  pub entity_name_prefix : String
  pub state_store_retention_days : ℤ
  pub dummy_adapter_enabled : Bool
  pub dummy_things_count : ℤ
  pub dummy_cadence : ℤ

unfoldable pub getenv : Env → String → String → String
getenv env key fallback = elim (env key) [
  | none ↦ fallback
  | some v ↦ if str_eq v "" then fallback else v
]

unfoldable pub boolenv : Env → String → Bool → Bool
unfolding to_lower trim_space
boolenv env key fallback = elim (env key) [
  | none ↦ fallback
  | some v ↦ if str_eq v "" then fallback else read (to_lower (trim_space v))
]
  where
    read : String → Bool
    read s =
        if str_eq s "1" || str_eq s "true" || str_eq s "yes" || str_eq s "on"
        then true
        else if str_eq s "0" || str_eq s "false" || str_eq s "no" || str_eq s "off"
        then false
        else fallback

-- The block of an integer variable: the default if it is unset, an error if it is no number or one
-- that `good` refuses, and else what `convert` makes of it.
module _ (key : String) (good : ℤ → Bool) (convert : ℤ → ℤ) (default : ℤ) where
  unfoldable pub accepted : Option ℤ → ℤ × List Fault
  accepted none = (default, malformed key ∷ [])
  accepted (some n) = if good n then (convert n, []) else (default, malformed key ∷ [])

unfoldable pub int_setting : Env → String → (ℤ → Bool) → (ℤ → ℤ) → ℤ → ℤ × List Fault
unfolding getenv atoi accepted
int_setting env key good convert default =
    if str_eq (getenv env key "") ""
    then (default, [])
    else accepted key good convert default (atoi (getenv env key ""))

abbrev pub at_least : ℕ → ℤ → Bool
at_least min n = lez (pos min) n

abbrev pub any_number : ℤ → Bool
any_number n = true

-- n < 0 || n > 2 is refused
abbrev pub is_qos : ℤ → Bool
is_qos n = lez (pos 0) n && lez n (pos 2)

-- time.Duration(n) * time.Second, and * time.Hour
abbrev pub in_seconds : ℤ → ℤ
in_seconds n = times_int64 n second

abbrev pub in_hours : ℤ → ℤ
in_hours n = times_int64 n (3600 * second)

abbrev pub unchanged : ℤ → ℤ
unchanged n = n

unfoldable pub count_set : List String → ℕ
count_set [] = 0
count_set (v ∷ vs) = if str_eq v "" then count_set vs else suc (count_set vs)

-- An error, if its condition holds.
abbrev pub fault_if : Bool → Fault → List Fault
fault_if b f = if b then f ∷ [] else []

-- The comma-separated list, trimmed, without its empty entries.
unfoldable pub trimmed_entries : List String → List String
unfolding trim_space
trimmed_entries [] = []
trimmed_entries (t ∷ ts) =
    let rest = trimmed_entries ts in if str_eq (trim_space t) "" then rest else trim_space t ∷ rest

unfoldable pub targets_of : String → List String
unfolding trimmed_entries split
targets_of v = if str_eq v "" then [] else trimmed_entries (split b',' v)

unfoldable pub level_of : String → LogLevel × List Fault
level_of s =
    if str_eq s "DEBUG"
    then (level_debug, [])
    else if str_eq s "INFO"
    then (level_info, [])
    else if str_eq s "WARN" || str_eq s "WARNING"
    then (level_warn, [])
    else if str_eq s "ERROR"
    then (level_error, [])
    else (level_info, unknown_log_level ∷ [])

-- n != 0 && n != 3
abbrev pub is_partial : ℕ → Bool
is_partial n = not (n == 0) && not (n == 3)

-- errors.Join, of what each check appended.
abbrev pub concat : List (List Fault) → List Fault
concat [] = []
concat (fs ∷ fss) = fs ++ concat fss
