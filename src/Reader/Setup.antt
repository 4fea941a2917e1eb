-- ===== src/Reader/Setup.antt =====
-- cmd/collaborall-reader/main.go: the configuration of the reader, and its run from the first cycle to the
-- shutdown signal. `getenv` and `boolenv` there are those of internal/config.
use clappform_sensor_things.Prelude.{
  Bool, List, String, [], false, if◌then◌else◌, str_eq, ◌*◌, ◌++◌, ◌∷◌,
}
use clappform_sensor_things.Config.{
  Env, Fault, LogLevel, at_least, boolenv, getenv, in_seconds, int_setting, level_of,
  trimmed_entries, unchanged,
}
use clappform_sensor_things.Prelude.Strings.{split, to_upper}
use clappform_sensor_things.Prelude.Int.{pos, ℤ}
use clappform_sensor_things.Canonical.{second}
use clappform_sensor_things.Reader.{Cursors, Reader, run_once}

pub record ReaderConfig : Type 0 where
  pub base_url : String
  pub basic_user : String
  pub basic_pass : String
  pub token : String
  pub insecure : Bool
  pub http_timeout : ℤ
  pub watch_sensors : List String
  pub page_limit : ℤ
  pub ingest_url : String
  pub ingest_secret : String
  pub ingest_timeout : ℤ
  pub poll_interval : ℤ
  pub lookback : ℤ
  pub cursor_file : String
  pub once : Bool
  pub log_level : LogLevel

-- A variable that is required and not set, or a value that is refused.
pub data SetupFault : Type 0 where
  required : String → SetupFault
  refused : Fault → SetupFault

unfoldable pub split_list : String → List String
unfolding trimmed_entries split
split_list s = if str_eq s "" then [] else trimmed_entries (split b',' s)

unfoldable pub refusals : List Fault → List SetupFault
refusals [] = []
refusals (f ∷ fs) = refused f ∷ refusals fs

module _ (env : Env) where
  abbrev pub value_at : String → String
  value_at key = getenv env key ""

  abbrev pub missing : String → List SetupFault
  missing key = if str_eq (value_at key) "" then required key ∷ [] else []

  abbrev pub http_timeout_setting : ℤ × List Fault
  http_timeout_setting =
      int_setting env "COLLABORALL_HTTP_TIMEOUT_SECONDS" (at_least 1) in_seconds (pos (30 * second))

  abbrev pub ingest_timeout_setting : ℤ × List Fault
  ingest_timeout_setting =
      int_setting env "INGEST_HTTP_TIMEOUT_SECONDS" (at_least 1) in_seconds (pos (120 * second))

  abbrev pub interval_setting : ℤ × List Fault
  interval_setting =
      int_setting env "READER_POLL_INTERVAL_SECONDS" (at_least 1) in_seconds (pos (900 * second))

  abbrev pub reader_lookback_setting : ℤ × List Fault
  reader_lookback_setting =
      int_setting env "READER_CURSOR_LOOKBACK_SECONDS" (at_least 0) in_seconds (pos (3600 * second))

  abbrev pub page_limit_setting : ℤ × List Fault
  page_limit_setting =
      int_setting env "COLLABORALL_OBSERVATION_PAGE_LIMIT" (at_least 1) unchanged (pos 0)

  abbrev pub reader_level_setting : LogLevel × List Fault
  reader_level_setting = level_of (to_upper (getenv env "LOG_LEVEL" "INFO"))

  unfoldable pub load_config : ReaderConfig × List SetupFault
  unfolding getenv boolenv int_setting level_of split_list refusals
  load_config = (
    record {
      base_url = value_at "COLLABORALL_FROST_BASE_URL";
      basic_user = value_at "COLLABORALL_BASIC_AUTH_USER";
      basic_pass = value_at "COLLABORALL_BASIC_AUTH_PASSWORD";
      token = value_at "COLLABORALL_TOKEN";
      insecure = boolenv env "COLLABORALL_TLS_INSECURE_SKIP_VERIFY" false;
      http_timeout = http_timeout_setting.0;
      watch_sensors = split_list (value_at "COLLABORALL_WATCH_SENSORS");
      page_limit = page_limit_setting.0;
      ingest_url = value_at "API_INGEST_URL";
      ingest_secret = value_at "COLLABORALL_INGEST_SECRET";
      ingest_timeout = ingest_timeout_setting.0;
      poll_interval = interval_setting.0;
      lookback = reader_lookback_setting.0;
      cursor_file = getenv env "READER_CURSOR_FILE" "collaborall-cursors.json";
      once = boolenv env "READER_ONCE" false;
      log_level = reader_level_setting.0;
    },
    missing "COLLABORALL_FROST_BASE_URL"
        ++ (missing "API_INGEST_URL"
            ++ (missing "COLLABORALL_INGEST_SECRET"
                ++ (refusals http_timeout_setting.1
                    ++ (refusals ingest_timeout_setting.1
                        ++ (refusals interval_setting.1
                            ++ (refusals reader_lookback_setting.1
                                ++ (refusals page_limit_setting.1
                                    ++ refusals reader_level_setting.1))))))),
  )

-- What the select statement of the loop receives.
pub data Signal : Type 0 where
  tick shutdown : Signal

module _ {W : Type 0} (reader : Reader W) where
  abbrev pub cycle : Cursors → W → Cursors × W
  cycle m w = let ((m', res, e), w') = run_once reader m w in (m', w')

  unfoldable pub cycles : List Signal → Cursors → W → Cursors × W
  unfolding run_once
  cycles [] m w = (m, w)
  cycles (tick ∷ ss) m w = let (m', w') = cycle m w in cycles ss m' w'
  cycles (shutdown ∷ ss) m w = (m, w)

  -- One cycle at once, and the others unless READER_ONCE is set.
  unfoldable pub run : Bool → List Signal → Cursors → W → Cursors × W
  unfolding run_once cycles
  run once ss m w = let (m', w') = cycle m w in if once then (m', w') else cycles ss m' w'
