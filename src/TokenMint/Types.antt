-- ===== src/TokenMint/Types.antt =====
-- tokenmint/profile.go and tokenmint/client.go: the data. A duration that is not positive has the
-- same effect as 0 wherever it is read. Durations are in nanoseconds.
use csar_core.Prelude.{ℕ, ◌^◌, ◌≤◌, ◌<◌, String, ◌≡◌, Bool, true, Option, List}

-- The operations of Go's float64 on which the package relies. `times d f` is
-- `time.Duration(float64(d) * f)`, and 0 when that is not positive; `seconds f` is
-- `time.Duration(f) * time.Second`.
pub record Floats (F : Type 0) : Type 0 where
  pub positive : F → Bool
  pub at_most_one : F → Bool
  pub times : ℕ → F → ℕ
  pub seconds : F → ℕ
  pub nine_tenths : F
  pub thirty : F

-- A product by a factor in (0, 1] does not grow, as long as float64 holds the duration exactly.
pub record AreSound {F : Type 0} (ops : Floats F) : Type 0 where
  pub shrinks : (d : ℕ) (f : F) → d < 2 ^ 53 → ops.at_most_one f ≡ true → ops.times d f ≤ d
  pub default_fits : ops.at_most_one ops.nine_tenths ≡ true
  pub default_positive : ops.positive ops.nine_tenths ≡ true

-- What the package uses of `strings` and `net/url`.
pub record Url : Type 0 where
  pub scheme : String
  pub host : String
  pub hostname : String

pub record Texts : Type 0 where
  pub trim_space : String → String
  pub to_lower : String → String
  pub parse_url : String → Option Url

pub record Profile (F : Type 0) : Type 0 where
  pub token_url : String
  pub body_style : String
  pub static_params : List (String × String)
  pub client_id_param : String
  pub client_secret_param : String
  pub access_token_path : String
  pub expires_in_path : String
  pub token_type_path : String
  pub expected_token_type : String
  pub default_expires_in : ℕ
  pub expires_in_haircut : F
  pub refresh_margin : ℕ
  pub min_refresh_interval : ℕ
  pub error_backoff_base : ℕ
  pub error_backoff_max : ℕ
  pub auth_error_backoff : ℕ
  pub idle_ttl : ℕ
  pub timeout : ℕ
  pub max_response_bytes : ℕ
  pub max_mints_per_minute : F
  pub secret_ref_scope_segments : ℕ

pub record Config (F : Type 0) : Type 0 where
  pub allowed_hosts : List String
  pub allow_private : Bool
  pub profiles : List (String × Profile F)
  pub allowed_set : List String

-- What else makes a grant fail: before the request, on the way, or in an answer with a 2xx status.
pub data Failure : Type 0 where
  url_unparsable host_forbidden style_unsupported : String → Failure
  transport body_unreadable : String → Failure
  body_too_long not_json : Failure
  token_missing expiry_not_positive : String → Failure
  type_mismatch : String → String → Failure

-- `upstream` is an `upstreamError`: the status, the hint of Retry-After, the code of the body.
pub data GrantError : Type 0 where
  invalid_client : ℕ → String → GrantError
  upstream : ℕ → ℕ → String → GrantError
  other_failure : Failure → GrantError

pub record GrantResponse : Type 0 where
  pub access_token : String
  pub token_type : String
  pub expires_in : ℕ
