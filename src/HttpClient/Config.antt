-- ===== src/HttpClient/Config.antt =====
-- `ClientConfig`, `DefaultConfig` and `applyDefaults` of httpclient/HttpClient.go.
use go_utilities.Base.{
  ℕ, ◌*◌, ◌≡◌, ◌≢◌, refl, Bool, false, List, [], if◌then◌else◌, ◌==◌, nat_eq, arith, Bool-cases,
  inl, inr,
}
use go_utilities.Base.Int.{ℤ, pos, negsuc}
use go_utilities.Base.Text.{Text, codes, text_eq, text_beq_iff}

pub record TlsClientConfig : Type 0 where
  pub skip_tls_verify : Bool
  pub ca_cert_paths : List Text
  pub client_cert_path : Text
  pub client_key_path : Text
  pub client_cert_pem : Text
  pub client_key_pem : Text
  pub client_p12_path : Text
  pub client_p12_value : Text
  pub client_p12_password : Text

-- Durations are in nanoseconds.
pub record ClientConfig : Type 0 where
  pub timeout : ℤ
  pub retry_count : ℤ
  pub backoff_initial : ℤ
  pub backoff_max : ℤ
  pub circuit_breaker_command : Text
  pub circuit_breaker_timeout : ℤ
  pub max_concurrent_requests : ℤ
  pub error_percent_threshold : ℤ
  pub sleep_window : ℤ
  pub request_volume_threshold : ℤ
  pub tls_client_config : TlsClientConfig

abbrev pub no_tls : TlsClientConfig
no_tls = record {
  skip_tls_verify = false;
  ca_cert_paths = [];
  client_cert_path = [];
  client_key_path = [];
  client_cert_pem = [];
  client_key_pem = [];
  client_p12_path = [];
  client_p12_value = [];
  client_p12_password = [];
}

abbrev millisecond : ℕ
millisecond = 1_000_000

abbrev second : ℕ
second = 1_000_000_000

abbrev pub default_client_config : ClientConfig
default_client_config = record {
  timeout = pos (30 * second);
  retry_count = pos 3;
  backoff_initial = pos (100 * millisecond);
  backoff_max = pos (5 * second);
  circuit_breaker_command = codes "http-client";
  circuit_breaker_timeout = pos (10 * second);
  max_concurrent_requests = pos 100;
  error_percent_threshold = pos 25;
  sleep_window = pos 10;
  request_volume_threshold = pos 10;
  tls_client_config = no_tls;
}

abbrev pub is_unset : ℤ → Bool
is_unset (pos n) = n == 0
is_unset (negsuc n) = false

-- `if x == 0 { x = default }`, and the same for a text.
abbrev pub int_or : ℤ → ℤ → ℤ
int_or given default = if is_unset given then default else given

abbrev pub name_or : Text → Text → Text
name_or given default = if given == [] then default else given

unfoldable pub apply_defaults : ClientConfig → ClientConfig
apply_defaults c =
    let d : ClientConfig = default_client_config in
    record c {
      timeout = int_or c.timeout d.timeout;
      retry_count = int_or c.retry_count d.retry_count;
      backoff_initial = int_or c.backoff_initial d.backoff_initial;
      backoff_max = int_or c.backoff_max d.backoff_max;
      circuit_breaker_command = name_or c.circuit_breaker_command d.circuit_breaker_command;
      circuit_breaker_timeout = int_or c.circuit_breaker_timeout d.circuit_breaker_timeout;
      max_concurrent_requests = int_or c.max_concurrent_requests d.max_concurrent_requests;
      error_percent_threshold = int_or c.error_percent_threshold d.error_percent_threshold;
      sleep_window = int_or c.sleep_window d.sleep_window;
      request_volume_threshold = int_or c.request_volume_threshold d.request_volume_threshold;
    }

abbrev pub Given : ℤ → Type 0
Given z = is_unset z ≡ false

-- No field that has a default is left unset.
pub record IsComplete (c : ClientConfig) : Type 0 where
  pub timeout : Given c.timeout
  pub retry_count : Given c.retry_count
  pub backoff_initial : Given c.backoff_initial
  pub backoff_max : Given c.backoff_max
  pub command : c.circuit_breaker_command ≢ []
  pub breaker_timeout : Given c.circuit_breaker_timeout
  pub concurrent : Given c.max_concurrent_requests
  pub percent : Given c.error_percent_threshold
  pub sleep : Given c.sleep_window
  pub volume : Given c.request_volume_threshold

int_or_set : (given d : ℤ) → Given d → Given (int_or given d)
int_or_set given d h = elim (Bool-cases (is_unset given)) [
  | inl unset ↦ rw unset h
  | inr set ↦ rw set set
]

name_or_set : (given d : Text) → d ≢ [] → name_or given d ≢ []
name_or_set given d h = elim (Bool-cases (given == [])) [
  | inl e ↦ rw e h
  | inr n ↦ rw n (λ e. ground (arith, n, (text_beq_iff given []).1 e))
]

-- With the defaults applied, no field that has a default is left unset, whatever was given.
pub apply_defaults-IsComplete : (c : ClientConfig) → IsComplete (apply_defaults c)
unfolding apply_defaults
apply_defaults-IsComplete c = record {
  timeout = int_or_set c.timeout _ refl;
  retry_count = int_or_set c.retry_count _ refl;
  backoff_initial = int_or_set c.backoff_initial _ refl;
  backoff_max = int_or_set c.backoff_max _ refl;
  command = name_or_set c.circuit_breaker_command _ (λ e. cc);
  breaker_timeout = int_or_set c.circuit_breaker_timeout _ refl;
  concurrent = int_or_set c.max_concurrent_requests _ refl;
  percent = int_or_set c.error_percent_threshold _ refl;
  sleep = int_or_set c.sleep_window _ refl;
  volume = int_or_set c.request_volume_threshold _ refl;
}
