-- ===== src/Reader/Running.antt =====
-- cmd/collaborall-reader/main.go: the configuration that the reader starts with, and its cursors over a
-- whole run.
use clappform_sensor_things.Prelude.{
  All, Bool, Bool-cases, List, String, [], arith, inl, inr, refl, str_eq, true, false, ◌++◌, ◌∷◌,
  ◌≡◌, ◌≤◌, ℕ,
}
use clappform_sensor_things.Config.{Env, at_least, in_seconds, int_setting}
use clappform_sensor_things.Config.Valid.{IsFilled}
use clappform_sensor_things.Config.Bounds.{
  at_least_weaker, getenv-IsFilled, int_setting-Within, plain_setting-Within,
  trimmed_entries-IsFilled,
}
use clappform_sensor_things.Prelude.Strings.{split}
use clappform_sensor_things.Prelude.Int.{ℤ, pos, times_int64}
use clappform_sensor_things.Reader.{Cursors, Reader, get_cursor, run_once}
use clappform_sensor_things.Reader.Progress.{run_once-forward}
use clappform_sensor_things.Reader.Setup.{
  ReaderConfig, SetupFault, Signal, cycles, load_config, missing, run, shutdown, split_list, tick,
  value_at,
}

-- A number of seconds that is accepted, as a duration.
abbrev pub IsSeconds : ℕ → ℤ → Type 0
IsSeconds min v = (n : ℤ) × (at_least min n ≡ true) × (v ≡ in_seconds n)

pub record IsReady (c : ReaderConfig) : Type 0 where
  pub base_url : IsFilled c.base_url
  pub ingest_url : IsFilled c.ingest_url
  pub ingest_secret : IsFilled c.ingest_secret
  pub watch_sensors : All IsFilled c.watch_sensors
  pub page_limit : at_least 0 c.page_limit ≡ true
  pub http_timeout : IsSeconds 1 c.http_timeout
  pub ingest_timeout : IsSeconds 1 c.ingest_timeout
  pub poll_interval : IsSeconds 1 c.poll_interval
  pub lookback : IsSeconds 0 c.lookback
  pub cursor_file : IsFilled c.cursor_file

append-nil_left : (xs ys : List SetupFault) → xs ++ ys ≡ [] → xs ≡ []
append-nil_left [] ys h = refl
append-nil_left (x ∷ xs) ys h = absurd cc

append-nil_right : (xs ys : List SetupFault) → xs ++ ys ≡ [] → ys ≡ []
append-nil_right [] ys h = h
append-nil_right (x ∷ xs) ys h = absurd cc

present : (env : Env) (key : String) → missing env key ≡ [] → IsFilled (value_at env key)
present env key h = ground arith

int_setting-IsSeconds :
    (env : Env) (key : String) (min : ℕ) (n : ℤ)
    → at_least min n ≡ true
    → IsSeconds min (int_setting env key (at_least min) in_seconds (in_seconds n)).0
int_setting-IsSeconds env key min n h =
    int_setting-Within (IsSeconds min) env key (at_least min) in_seconds (in_seconds n) (n, h, refl)
      (λ m k. (m, k, refl))

split_list-IsFilled : (s : String) → All IsFilled (split_list s)
unfolding split_list
split_list-IsFilled s = elim (Bool-cases (str_eq s "")) [
  | inl unset ↦ rw unset tt
  | inr set ↦ rw set (trimmed_entries-IsFilled (split b',' s))
]

-- Without an error: the source, the endpoint and the secret are set, no entry of the watch list is blank, the
-- page limit is not negative, and the time-outs, the interval and the lookback are accepted numbers of seconds.
pub load_config-IsReady : (env : Env) → (load_config env).1 ≡ [] → IsReady (load_config env).0
unfolding load_config times_int64
load_config-IsReady env h =
    let after_base = append-nil_right _ _ h in
    let after_url = append-nil_right _ _ after_base in
    record {
      base_url = present env _ (append-nil_left _ _ h);
      ingest_url = present env _ (append-nil_left _ _ after_base);
      ingest_secret = present env _ (append-nil_left _ _ after_url);
      watch_sensors = split_list-IsFilled (value_at env "COLLABORALL_WATCH_SENSORS");
      page_limit =
          plain_setting-Within (λ n. at_least 0 n ≡ true) env _ _ _ refl
            (λ n k. at_least_weaker n k);
      http_timeout = int_setting-IsSeconds env _ 1 (pos 30) refl;
      ingest_timeout = int_setting-IsSeconds env _ 1 (pos 120) refl;
      poll_interval = int_setting-IsSeconds env _ 1 (pos 900) refl;
      lookback = int_setting-IsSeconds env _ 0 (pos 3600) refl;
      cursor_file = getenv-IsFilled env "READER_CURSOR_FILE" "collaborall-cursors.json" refl;
    }

module _ {W : Type 0} (reader : Reader W) where
  cycles-forward :
      (j : String) (ss : List Signal) (m : Cursors) (w : W)
      → get_cursor j m ≤ get_cursor j (cycles reader ss m w).0
  unfolding cycles
  cycles-forward j [] m w = omega arith
  cycles-forward j (shutdown ∷ ss) m w = omega arith
  cycles-forward j (tick ∷ ss) m w =
      let r = run_once reader m w in
      omega (arith, run_once-forward reader j m w, cycles-forward j ss r.0.0 r.1)

  -- Over a whole run, from the first cycle to the shutdown, whatever fails in whichever cycle and however
  -- often the ticker ticks, no cursor moves back.
  pub run-forward :
      (j : String) (once : Bool) (ss : List Signal) (m : Cursors) (w : W)
      → get_cursor j m ≤ get_cursor j (run reader once ss m w).0
  unfolding run
  run-forward j true ss m w = run_once-forward reader j m w
  run-forward j false ss m w =
      let r = run_once reader m w in
      omega (arith, run_once-forward reader j m w, cycles-forward j ss r.0.0 r.1)
