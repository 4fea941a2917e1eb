-- ===== src/Config/Bounds.antt =====
-- config.go, Load: what the service can rely on in a configuration that Load returns without an error.
use clappform_sensor_things.Prelude.{
  All, Bool, Bool-cases, List, Option, String, [], arith, false, inl, inr, none, refl, some, str_eq,
  true, ◌*◌, ◌∷◌, ◌≡◌, ◌⊎◌,
}
use clappform_sensor_things.Config.Load.{load, sulo_enabled, text_at}
use clappform_sensor_things.Config.{
  Config, Env, accepted, at_least, getenv, in_seconds, int_setting, is_qos, targets_of,
  trimmed_entries, unchanged,
}
use clappform_sensor_things.Prelude.Strings.{atoi, split, trim_space}
use clappform_sensor_things.Prelude.Int.{pos, ℤ}
use clappform_sensor_things.Canonical.{second}
use clappform_sensor_things.Config.Valid.{IsFilled, load_succeeds_iff}

-- 0, which stands for the adapter's own default, or at least 1.
abbrev pub IsSize : ℤ → Type 0
IsSize n = (n ≡ pos 0) ⊎ (at_least 1 n ≡ true)

-- The default, or what a number of seconds from 1 on is as a Duration, which wraps around in 64 bits.
abbrev pub IsSeconds : ℤ → ℤ → Type 0
IsSeconds default d = (d ≡ default) ⊎ ((n : ℤ) × (at_least 1 n ≡ true) × (d ≡ in_seconds n))

pub record IsValid (c : Config) : Type 0 where
  pub dsn : IsFilled c.state_store_dsn
  pub admin : IsFilled c.http_addr
  pub addresses : (c.push_http_addr ≡ "") ⊎ (str_eq c.push_http_addr c.http_addr ≡ false)
  pub sulo :
      (sulo_enabled c ≡ true)
      ⊎ ((c.sulo_api_base_url ≡ "") × (c.sulo_username ≡ "") × (c.sulo_password ≡ ""))
  pub broker : (c.mqtt_enabled ≡ false) ⊎ IsFilled c.mqtt_broker_url
  pub qos : is_qos c.mqtt_qos ≡ true
  pub page_size : IsSize c.sulo_page_size
  pub page_limit : IsSize c.sulo_observation_page_limit
  pub sulo_timeout : IsSeconds (pos 0) c.sulo_http_timeout
  pub sulo_cadence : IsSeconds (pos 0) c.sulo_expected_cadence
  pub frost_timeout : IsSeconds (pos (15 * second)) c.frost_http_timeout
  pub dummy_cadence : IsSeconds (pos (300 * second)) c.dummy_cadence
  pub confidence : at_least 0 c.sulo_min_confidence ≡ true
  pub count : at_least 1 c.dummy_things_count ≡ true
  pub retention : at_least 1 c.state_store_retention_days ≡ true
  pub targets : All IsFilled c.frost_targets

-- A setting has the default or what an accepted number is converted to.
pub int_setting-Within :
    (P : ℤ → Type 0) (env : Env) (key : String) (good : ℤ → Bool) (convert : ℤ → ℤ) (default : ℤ)
    → P default
    → ((n : ℤ) → good n ≡ true → P (convert n))
    → P (int_setting env key good convert default).0
unfolding int_setting
int_setting-Within P env key good convert default h k =
    elim (Bool-cases (str_eq (getenv env key "") "")) [
      | inl unset ↦ rw unset h
      | inr set ↦ rw set (accepted-Within (atoi (getenv env key "")))
    ]
  where
    accepted-Within : (m : Option ℤ) → P (accepted key good convert default m).0
    accepted-Within none = h
    accepted-Within (some n) = elim (Bool-cases (good n)) [
      | inl yes_good ↦ rw yes_good (k n yes_good)
      | inr not_good ↦ rw not_good h
    ]

-- A setting that is taken as it is.
pub plain_setting-Within :
    (P : ℤ → Type 0) (env : Env) (key : String) (good : ℤ → Bool) (default : ℤ)
    → P default
    → ((n : ℤ) → good n ≡ true → P n)
    → P (int_setting env key good unchanged default).0
plain_setting-Within P env key good default h k =
    int_setting-Within P env key good unchanged default h k

pub trimmed_entries-IsFilled : (ts : List String) → All IsFilled (trimmed_entries ts)
unfolding trimmed_entries
trimmed_entries-IsFilled [] = tt
trimmed_entries-IsFilled (t ∷ ts) = elim (Bool-cases (str_eq (trim_space t) "")) [
  | inl blank ↦ rw blank (trimmed_entries-IsFilled ts)
  | inr full ↦ rw full (full, trimmed_entries-IsFilled ts)
]

targets_of-IsFilled : (v : String) → All IsFilled (targets_of v)
unfolding targets_of
targets_of-IsFilled v = elim (Bool-cases (str_eq v "")) [
  | inl unset ↦ rw unset tt
  | inr set ↦ rw set (trimmed_entries-IsFilled (split b',' v))
]

pub getenv-IsFilled :
    (env : Env) (key fallback : String) → IsFilled fallback → IsFilled (getenv env key fallback)
unfolding getenv
getenv-IsFilled env key fallback h = ground (arith, h)

pub at_least_weaker : (n : ℤ) → at_least 1 n ≡ true → at_least 0 n ≡ true
at_least_weaker n h = ground (arith, h)

pub load-IsValid : (env : Env) → (load env).1 ≡ [] → IsValid (load env).0
unfolding load sulo_enabled
load-IsValid env h =
    let s = (load_succeeds_iff env).0 h in
    record {
      dsn = s.dsn;
      admin = getenv-IsFilled env "HTTP_ADDR" ":8080" refl;
      addresses = s.addresses;
      sulo = ground (arith, s.sulo);
      broker = s.broker;
      qos = plain_setting-Within (λ n. is_qos n ≡ true) env _ _ _ refl (λ n k. k);
      page_size = plain_setting-Within IsSize env _ _ _ (inl refl) (λ n k. inr k);
      page_limit = plain_setting-Within IsSize env _ _ _ (inl refl) (λ n k. inr k);
      sulo_timeout =
          int_setting-Within (IsSeconds (pos 0)) env _ _ _ _ (inl refl) (λ n k. inr (n, k, refl));
      sulo_cadence =
          int_setting-Within (IsSeconds (pos 0)) env _ _ _ _ (inl refl) (λ n k. inr (n, k, refl));
      frost_timeout =
          int_setting-Within (IsSeconds (pos (15 * second))) env _ _ _ _ (inl refl)
            (λ n k. inr (n, k, refl));
      dummy_cadence =
          int_setting-Within (IsSeconds (pos (300 * second))) env _ _ _ _ (inl refl)
            (λ n k. inr (n, k, refl));
      confidence = plain_setting-Within (λ n. at_least 0 n ≡ true) env _ _ _ refl (λ n k. k);
      count = plain_setting-Within (λ n. at_least 1 n ≡ true) env _ _ _ refl (λ n k. k);
      retention = plain_setting-Within (λ n. at_least 1 n ≡ true) env _ _ _ refl (λ n k. k);
      targets = targets_of-IsFilled (text_at env "FROST_TARGETS");
    }
