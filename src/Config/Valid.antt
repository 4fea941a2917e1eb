-- ===== src/Config/Valid.antt =====
-- config.go, Load: when it succeeds, and what a configuration then is.
-- The variable is unset, or a number that is accepted.
use clappform_sensor_things.Prelude.Strings.{atoi, to_upper}
use clappform_sensor_things.Prelude.{
  All, Bool, Bool-cases, List, Option, String, [], eq_iff, false, inl, inr, none, refl, some,
  str_eq, true, ◌↔◌, ◌∷◌, ◌≡◌, ◌⊎◌, arith, not, ◌&&◌,
}
use clappform_sensor_things.Config.{
  Env, Fault, any_number, at_least, boolenv, concat, getenv, int_setting, is_qos, level_of,
  accepted, count_set, fault_if, is_partial,
}
use clappform_sensor_things.Prelude.Int.{ℤ}
use clappform_sensor_things.Config.Load.{load, faults, text_at}

abbrev pub IsSetting : Env → String → (ℤ → Bool) → Type 0
IsSetting env key good =
    (getenv env key "" ≡ "") ⊎ ((n : ℤ) × (atoi (getenv env key "") ≡ some n) × (good n ≡ true))

-- A text that is set.
abbrev pub IsFilled : String → Type 0
IsFilled s = str_eq s "" ≡ false

-- The environment has no fault: every number is accepted, the three SULO variables are set together
-- or not at all, MQTT has its broker, the level is known, and the two addresses differ.
pub record Sound (env : Env) : Type 0 where
  pub sulo_timeout : IsSetting env "SULO_HTTP_TIMEOUT_SECONDS" (at_least 1)
  pub sulo_page_size : IsSetting env "SULO_PAGE_SIZE" (at_least 1)
  pub sulo_limit : IsSetting env "SULO_OBSERVATION_PAGE_LIMIT" (at_least 1)
  pub sulo_confidence : IsSetting env "SULO_MIN_CONFIDENCE" (at_least 0)
  pub sulo_cadence : IsSetting env "SULO_EXPECTED_CADENCE_SECONDS" (at_least 1)
  pub sulo :
      (IsFilled (text_at env "SULO_API_BASE_URL")
        × IsFilled (text_at env "SULO_API_USERNAME")
        × IsFilled (text_at env "SULO_API_PASSWORD"))
      ⊎ ((text_at env "SULO_API_BASE_URL" ≡ "")
          × (text_at env "SULO_API_USERNAME" ≡ "")
          × (text_at env "SULO_API_PASSWORD" ≡ ""))
  pub frost_timeout : IsSetting env "FROST_HTTP_TIMEOUT_SECONDS" (at_least 1)
  pub qos : IsSetting env "MQTT_QOS" is_qos
  pub broker :
      (boolenv env "MQTT_ENABLED" false ≡ false) ⊎ IsFilled (getenv env "MQTT_BROKER_URL" "")
  pub dummy_count : IsSetting env "DUMMY_THINGS_COUNT" (at_least 1)
  pub dummy_cadence : IsSetting env "DUMMY_CADENCE_SECONDS" (at_least 1)
  pub poll : IsSetting env "POLL_INTERVAL_SECONDS" any_number
  pub freshness : IsSetting env "FRESHNESS_THRESHOLD_HOURS" any_number
  pub lookback : IsSetting env "CURSOR_INIT_LOOKBACK_SECONDS" any_number
  pub skew : IsSetting env "CLOCK_SKEW_TOLERANCE_SECONDS" any_number
  pub retention : IsSetting env "STATE_STORE_RETENTION_DAYS" (at_least 1)
  pub level : (level_of (to_upper (getenv env "LOG_LEVEL" "INFO"))).1 ≡ []
  pub dsn : IsFilled (getenv env "STATE_STORE_DSN" "")
  pub addresses :
      (getenv env "PUSH_HTTP_ADDR" "" ≡ "")
      ⊎ (str_eq (getenv env "PUSH_HTTP_ADDR" "") (getenv env "HTTP_ADDR" ":8080") ≡ false)

accepted-nil :
    (key : String) (good : ℤ → Bool) (convert : ℤ → ℤ) (default : ℤ) (m : Option ℤ)
    → ((accepted key good convert default m).1 ≡ []) ↔ ((n : ℤ) × (m ≡ some n) × (good n ≡ true))
unfolding accepted
accepted-nil key good convert default none = (λ h. cc, λ k. cc (k.1))
accepted-nil key good convert default (some n) =
    (λ h. (n, refl, ground (arith, h)), λ k. ground (arith, k.1, k.2))

int_setting-IsSetting :
    (env : Env) (key : String) (good : ℤ → Bool) (convert : ℤ → ℤ) (default : ℤ)
    → ((int_setting env key good convert default).1 ≡ []) ↔ IsSetting env key good
unfolding int_setting
int_setting-IsSetting env key good convert default =
    let v = getenv env key "" in
    let read = accepted-nil key good convert default (atoi v) in
    elim (Bool-cases (str_eq v "")) [
      | inl unset ↦ (λ h. inl ((eq_iff v "").0 unset), λ k. rw unset refl)
      | inr set ↦ (
        λ h. inr (read.0 (rw set at h)),
        λ k. elim k [ inl e ↦ ground (arith, e, set, eq_iff v "") | inr k ↦ rw set (read.1 k) ],
      )
    ]

concat-nil : (fss : List (List Fault)) → (concat fss ≡ []) ↔ All (λ (fs : List Fault). fs ≡ []) fss
concat-nil [] = (λ h. tt, λ h. refl)
concat-nil ([] ∷ fss) = (λ h. (refl, (concat-nil fss).0 h), λ h. (concat-nil fss).1 h.1)
concat-nil ((f ∷ fs) ∷ fss) = (λ h. cc, λ h. cc)

count_set-sulo :
    (base username password : String)
    → (is_partial (count_set (base ∷ username ∷ password ∷ [])) ≡ false) ↔ (
        (IsFilled base × IsFilled username × IsFilled password)
        ⊎ ((base ≡ "") × (username ≡ "") × (password ≡ "")))
unfolding count_set
count_set-sulo base username password = (
  λ h. ground (arith, h, eq_iff base "", eq_iff username "", eq_iff password ""),
  λ k. ground (arith, k, eq_iff base "", eq_iff username "", eq_iff password ""),
)

fault_if-nil : (b : Bool) (f : Fault) → (fault_if b f ≡ []) ↔ (b ≡ false)
fault_if-nil true f = (λ h. cc, λ h. cc)
fault_if-nil false f = (λ h. refl, λ h. refl)

broker_iff : (b c : Bool) → ((b && c) ≡ false) ↔ ((b ≡ false) ⊎ (c ≡ false))
broker_iff b c = (λ h. ground (arith, h), λ k. ground (arith, k))

addresses_iff :
    (push admin : String)
    → ((not (str_eq push "") && str_eq push admin) ≡ false)
      ↔ ((push ≡ "") ⊎ (str_eq push admin ≡ false))
addresses_iff push admin =
    (λ h. ground (arith, h, eq_iff push ""), λ k. ground (arith, k, eq_iff push ""))

abbrev NoFaults : Env → Type 0
NoFaults env = All (λ (fs : List Fault). fs ≡ []) (faults env)

Sound-faults : (env : Env) → NoFaults env → Sound env
Sound-faults env
      (
        k0,
        (
          k1,
          (
            k2,
            (
              k3,
              (
                k4,
                (
                  k5,
                  (
                    k6,
                    (
                      k7,
                      (k8, (k9, (k10, (k11, (k12, (k13, (k14, (k15, (k16, (k17, (k18, u))))))))))),
                    ),
                  ),
                ),
              ),
            ),
          ),
        ),
      ) =
    record {
      sulo_timeout = (int_setting-IsSetting env _ _ _ _).0 k0;
      sulo_page_size = (int_setting-IsSetting env _ _ _ _).0 k1;
      sulo_limit = (int_setting-IsSetting env _ _ _ _).0 k2;
      sulo_confidence = (int_setting-IsSetting env _ _ _ _).0 k3;
      sulo_cadence = (int_setting-IsSetting env _ _ _ _).0 k4;
      sulo = (count_set-sulo _ _ _).0 ((fault_if-nil _ _).0 k5);
      frost_timeout = (int_setting-IsSetting env _ _ _ _).0 k6;
      qos = (int_setting-IsSetting env _ _ _ _).0 k7;
      broker = (broker_iff _ _).0 ((fault_if-nil _ _).0 k8);
      dummy_count = (int_setting-IsSetting env _ _ _ _).0 k9;
      dummy_cadence = (int_setting-IsSetting env _ _ _ _).0 k10;
      poll = (int_setting-IsSetting env _ _ _ _).0 k11;
      freshness = (int_setting-IsSetting env _ _ _ _).0 k12;
      lookback = (int_setting-IsSetting env _ _ _ _).0 k13;
      skew = (int_setting-IsSetting env _ _ _ _).0 k14;
      retention = (int_setting-IsSetting env _ _ _ _).0 k15;
      level = k16;
      dsn = (fault_if-nil _ _).0 k17;
      addresses = (addresses_iff _ _).0 ((fault_if-nil _ _).0 k18);
    }

infixr 3 ◌⊗◌
abbrev ◌⊗◌ : {P Q : Type 0} → P → Q → P × Q
p ⊗ q = (p, q)

faults-Sound : (env : Env) → Sound env → NoFaults env
faults-Sound env s =
    (int_setting-IsSetting env _ _ _ _).1 s.sulo_timeout
    ⊗ (int_setting-IsSetting env _ _ _ _).1 s.sulo_page_size
    ⊗ (int_setting-IsSetting env _ _ _ _).1 s.sulo_limit
    ⊗ (int_setting-IsSetting env _ _ _ _).1 s.sulo_confidence
    ⊗ (int_setting-IsSetting env _ _ _ _).1 s.sulo_cadence
    ⊗ (fault_if-nil _ _).1 ((count_set-sulo _ _ _).1 s.sulo)
    ⊗ (int_setting-IsSetting env _ _ _ _).1 s.frost_timeout
    ⊗ (int_setting-IsSetting env _ _ _ _).1 s.qos
    ⊗ (fault_if-nil _ _).1 ((broker_iff _ _).1 s.broker)
    ⊗ (int_setting-IsSetting env _ _ _ _).1 s.dummy_count
    ⊗ (int_setting-IsSetting env _ _ _ _).1 s.dummy_cadence
    ⊗ (int_setting-IsSetting env _ _ _ _).1 s.poll
    ⊗ (int_setting-IsSetting env _ _ _ _).1 s.freshness
    ⊗ (int_setting-IsSetting env _ _ _ _).1 s.lookback
    ⊗ (int_setting-IsSetting env _ _ _ _).1 s.skew
    ⊗ (int_setting-IsSetting env _ _ _ _).1 s.retention
    ⊗ s.level
    ⊗ (fault_if-nil _ _).1 s.dsn
    ⊗ (fault_if-nil _ _).1 ((addresses_iff _ _).1 s.addresses)
    ⊗ tt

-- Load reports no error exactly if the environment has no fault.
pub load_succeeds_iff : (env : Env) → ((load env).1 ≡ []) ↔ Sound env
unfolding load
load_succeeds_iff env = (
  λ h. Sound-faults env ((concat-nil (faults env)).0 h),
  λ s. (concat-nil (faults env)).1 (faults-Sound env s),
)
