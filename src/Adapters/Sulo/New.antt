-- ===== src/Adapters/Sulo/New.antt =====
-- sulo.go, New, and client.go, newClient and normalizeBaseURL: a configured adapter.
use clappform_sensor_things.Prelude.Int.{lez, ltz, pos, ℤ}
use clappform_sensor_things.Prelude.{
  Bool, Option, String, [], arith, if◌then◌else◌, none, some, sprint, str_eq, true, ℕ, ◌*◌, ◌==◌,
  ◌∷◌, ◌≡◌, ◌||◌,
}
use clappform_sensor_things.Prelude.Strings.{has_suffix, trim_right, trim_space}
use clappform_sensor_things.Canonical.{second}
use Prim.Native.Char.{Char, code}

pub record Settings : Type 0 where
  pub base_url : String
  pub username : String
  pub password : String
  pub customer_id : String
  pub http_timeout : ℤ
  pub page_size : ℤ
  pub observation_page_limit : ℤ
  pub min_confidence : ℤ
  pub expected_cadence_seconds : ℤ

pub record Client : Type 0 where
  pub base_url : String
  pub username : String
  pub password : String
  pub customer_id : String
  pub timeout : ℤ
  pub page_size : ℤ

pub record Adapter : Type 0 where
  pub client : Client
  pub page_limit : ℤ
  pub min_conf : ℤ
  pub cadence : ℤ

abbrev pub default_page_size : ℕ
default_page_size = 500

abbrev pub max_page_size : ℕ
max_page_size = 30000

abbrev pub api_version_path : String
api_version_path = "/api/3"

-- The default, for a value that is not positive.
abbrev positive_or : ℕ → ℤ → ℤ
positive_or fallback n = if lez n (pos 0) then pos fallback else n

is_slash : Char → Bool
is_slash c = code c == b'/'

unfoldable pub normalize_base_url : String → String
unfolding is_slash trim_right trim_space has_suffix
normalize_base_url raw =
    let b = trim_right is_slash (trim_space raw) in
    if str_eq b ""
    then ""
    else if has_suffix b api_version_path
    then b
    else sprint (b ∷ api_version_path ∷ [])

unfoldable pub page_size_of : ℤ → ℤ
page_size_of n =
    let size = positive_or default_page_size n in
    if ltz (pos max_page_size) size then pos max_page_size else size

unfoldable pub new_client : Settings → Client
unfolding normalize_base_url page_size_of
new_client s = record {
  base_url = normalize_base_url s.base_url;
  username = s.username;
  password = s.password;
  customer_id = s.customer_id;
  timeout = positive_or (30 * second) s.http_timeout;
  page_size = page_size_of s.page_size;
}

-- `none` is the error on a missing base URL or credential.
unfoldable pub new_adapter : Settings → Option Adapter
unfolding new_client
new_adapter s =
    if str_eq s.base_url ""
    then none
    else if str_eq s.username "" || str_eq s.password ""
    then none
    else some (record {
      client = new_client s;
      page_limit = positive_or 1000 s.observation_page_limit;
      min_conf = positive_or 1 s.min_confidence;
      cadence = s.expected_cadence_seconds;
    })

-- Whatever SULO_PAGE_SIZE and the other tuning say, a request asks for 1 to 30000 instances, and the
-- limit, the floor and the time-out are positive.
pub new_adapter_bounds :
    (s : Settings) (a : Adapter)
    → new_adapter s ≡ some a
    → (lez (pos 1) a.client.page_size ≡ true)
      × (lez a.client.page_size (pos max_page_size) ≡ true)
      × (lez (pos 1) a.page_limit ≡ true)
      × (lez (pos 1) a.min_conf ≡ true)
      × (lez (pos 1) a.client.timeout ≡ true)
unfolding new_adapter
new_adapter_bounds s a h = ground arith
