-- ===== src/TokenMint/Tests.antt =====
-- The theorems on the minter at concrete inputs. A float is its count of thousandths; texts have
-- no outer spaces and no capitals, and the one URL that parses is that of the profile.
use native.Mathlib.Nat.{div-le_of_le-mul, mul-le-mul_left}
use csar_core.Prelude.{
  ℕ, ◌-◌, ◌*◌, ◌/◌, ◌≤◌, String, ◌≡◌, refl, ◌≢◌, ◌↔◌, ◌⊎◌, true, false, none, some, List, [], ◌∷◌,
  arith, ltb, leb, if◌then◌else◌, string_eq, ◌==◌, nat_eq, length, get_elem?, All, ok, err,
}
use csar_core.Prelude.Dict.{lookup, insert}
use csar_core.TokenMint.Types.{
  Floats, AreSound, Url, Texts, Profile, Config, GrantResponse, invalid_client, upstream,
}
use csar_core.TokenMint.Descriptor
use csar_core.TokenMint.Profile
use csar_core.TokenMint.Profile.Validity
use csar_core.TokenMint.Grant
use csar_core.TokenMint.Grant.{
  Request, Answer, Parsers, Grant, build_params, build_request, send, do_grant, text, number,
  no_field, field,
}
use csar_core.TokenMint.Grant.Laws as GrantLaws
use csar_core.TokenMint.Minter.{
  Token, MintState, clamp_duration, double_until, backoff_for, result_from, Call, gate_interval,
  gate, use_grant, mint_stale, mint_one, is_idle, is_dropped,
}
use csar_core.TokenMint.Minter.Backoff
use csar_core.TokenMint.Minter.History
use csar_core.TokenMint.Minter.Sweeps.{
  Event, SpacedFrom, swept, after, asks, grant_times, grant_times-SpacedFrom, call, sweep_at,
}
use csar_core.TokenMint.Minter.Sweeps

abbrev ops : Floats ℕ
ops = record {
  positive = λ f. ltb 0 f;
  at_most_one = λ f. leb f 1000;
  times = λ d f. d * f / 1000;
  seconds = λ f. f / 1000 * 1000000000;
  nine_tenths = 900;
  thirty = 30000;
}

ops_sound : AreSound ops
ops_sound = record {
  shrinks = λ d f small fits.
      div-le_of_le-mul 1000
        (let bound : f ≤ 1000 = ground arith in omega (arith, mul-le-mul_left d bound));
  default_fits = refl;
  default_positive = refl;
}

abbrev texts : Texts
texts = record {
  trim_space = λ s. s;
  to_lower = λ s. s;
  parse_url = λ s.
      if s == "https://auth/token"
      then some (record { scheme = "https"; host = "auth"; hostname = "auth" })
      else none;
}

abbrev profile : Profile ℕ
profile = record {
  token_url = "https://auth/token";
  body_style = "json";
  static_params = ("grant_type", "client_credentials") ∷ [];
  client_id_param = "client_id";
  client_secret_param = "client_secret";
  access_token_path = "access_token";
  expires_in_path = "expires_in";
  token_type_path = "token_type";
  expected_token_type = "";
  default_expires_in = 900;
  expires_in_haircut = 900;
  refresh_margin = 20;
  min_refresh_interval = 30;
  error_backoff_base = 10;
  error_backoff_max = 40;
  auth_error_backoff = 100;
  idle_ttl = 50;
  timeout = 8;
  max_response_bytes = 3;
  max_mints_per_minute = 30000;
  secret_ref_scope_segments = 3;
}

abbrev config : Config ℕ
config = record {
  allowed_hosts = "" ∷ "auth" ∷ [];
  allow_private = false;
  profiles = ("market", profile) ∷ [];
  allowed_set = "auth" ∷ [];
}

abbrev given : GrantResponse
given = record { access_token = "t"; token_type = "bearer"; expires_in = 100 }

abbrev new_entry : MintState
new_entry = record {
  profile_name = "market";
  result = none;
  last_mint_at = none;
  fail_count = 0;
  last_err = none;
  next_attempt_at = none;
}

abbrev kept : Token
kept = record { access_token = "t"; token_type = "bearer"; refresh_after = 70; hard_expiry = 90 }

abbrev kept_entry : MintState
kept_entry = record new_entry { result = some kept; last_mint_at = some 0 }

-- Call `n` asks at `n * 10`; the endpoint is down.
abbrev down : ℕ → Call
down n = record {
  now = n * 10;
  took = 3;
  allowed = true;
  granted = err (upstream 503 0 "unspecified");
  jitter = λ h. h;
}

abbrev up : ℕ → Call
up n = record (down n) { granted = ok given }

backoff_for-bounds_example :
    let b = backoff_for profile (upstream 503 0 "busy") 2 (λ h. h) in
    (profile.error_backoff_base / 2 ≤ b)
    × (b ≤ profile.error_backoff_max)
    × ((◌≡◌ {A = ℕ} 0 0) ⊎ (profile.error_backoff_base ≤ b))
    × (double_until (2 - 1) profile.error_backoff_max profile.error_backoff_base
        ≤ 2 * profile.error_backoff_max)
    × (backoff_for profile (invalid_client 503 "busy") 2 (λ h. h) ≡ profile.auth_error_backoff)
backoff_for-bounds_example =
    Backoff.backoff_for-bounds profile 503 0 2 "busy" (λ h. h) (omega arith) (omega arith)
      (λ h. omega arith)

abbrev calls : List Call
calls = down 1 ∷ down 2 ∷ up 5 ∷ up 6 ∷ []

abbrev events : List Event
events = call (down 1) ∷ call (down 2) ∷ sweep_at 30 ∷ call (up 5) ∷ call (up 6) ∷ []

asked_twice : Sweeps.grant_times ops config profile "market" new_entry events ≡ 10 ∷ 50 ∷ []
unfolding Sweeps.grant_times Sweeps.after Sweeps.asks Sweeps.swept is_dropped is_idle lookup
    mint_one mint_stale gate gate_interval use_grant backoff_for double_until clamp_duration
    result_from
asked_twice = refl

market : lookup "market" config.profiles ≡ some profile
unfolding lookup
market = refl

grant_times-SpacedFrom_example :
    Sweeps.SpacedFrom new_entry.last_mint_at profile.min_refresh_interval
      (Sweeps.grant_times ops config profile "market" new_entry events)
grant_times-SpacedFrom_example =
    Sweeps.grant_times-SpacedFrom ops config profile "market" new_entry 0 events market
      (omega arith) refl
      (omega arith, (omega arith, (omega arith, (omega arith, (omega arith, tt))))) tt

abbrev lapsed_entry : MintState
lapsed_entry = record kept_entry { last_mint_at = some 10 }

mint_all-AllServe_example : History.AllServe (History.mint_all ops profile "market" new_entry calls)
mint_all-AllServe_example =
    History.mint_all-AllServe ops profile "market" new_entry calls tt
      (tt, (tt, (omega arith, (omega arith, tt))))

abbrev table : List (String × MintState)
table = ("k", new_entry) ∷ []

abbrev descriptor : Descriptor.Descriptor
descriptor = record {
  kind = "oauth2_client_credentials";
  grant_profile = "market";
  client_id_ref = "a/b/id";
  client_secret_ref = "a/b/secret";
}

descriptor_accepted : Descriptor.validate texts (some descriptor) ≡ ok tt
unfolding Descriptor.validate
descriptor_accepted = refl

-- `Validate` fills the closed list.
abbrev raw_config : Config ℕ
raw_config = record config { allowed_set = [] }

accepted : Profile.validate ops texts raw_config ≡ ok config
unfolding Profile.validate Profile.apply_defaults Profile.default_all Profile.with_defaults
    Profile.host_set Profile.validate_profiles Profile.validate_profile Profile.validate_url
    Profile.validate_numbers Profile.host_allowed Profile.has_host
accepted = refl

validate-IsSafe_example :
    All (Validity.IsSafe ops texts config) config.profiles
    × All (Validity.IsPaced ops texts) config.profiles
    × (length config.profiles ≡ length raw_config.profiles)
    × (config.allowed_hosts ≡ raw_config.allowed_hosts)
    × (config.allow_private ≡ raw_config.allow_private)
    × (config.allowed_set ≡ Profile.host_set ops texts raw_config.allowed_hosts)
validate-IsSafe_example = Validity.validate-IsSafe ops texts raw_config config accepted

host_allowed-closed_example : (Profile.host_allowed ops texts config "auth" ≡ true) ↔ (
    ◌≢◌ {A = String} "auth" ""
    × (i : ℕ) × (h : String) × (get_elem? raw_config.allowed_hosts i ≡ some h)
    × (h ≡ "auth"))
host_allowed-closed_example =
    Validity.host_allowed-closed ops texts raw_config config "auth" accepted

abbrev parse : Parsers ℕ
parse = record {
  split = λ s. s ∷ [];
  equal_fold = λ s t. s == t;
  parse_float = λ s. none;
  atoi = λ s. none;
  time_until = λ s. none;
  decode =
      λ body. some (field "access_token" (text "t") (field "expires_in" (number 60000) no_field));
  probe_error = λ body. "";
}

abbrev answer : Answer
answer = record { status = 200; retry_header = ""; body = ok (1 ∷ 2 ∷ []) }

abbrev request : Request
request = record {
  url = "https://auth/token";
  content_type = "application/json";
  params = ("grant_type", "client_credentials") ∷ ("client_id", "me") ∷ ("client_secret", "s") ∷ [];
}

do_grant-sent_example :
    (u : Url) × (texts.parse_url profile.token_url ≡ some u)
    × (Profile.host_allowed ops texts config u.hostname ≡ true)
    × (request.url ≡ profile.token_url)
    × GrantLaws.Holds profile "me" "s" request.params
unfolding Grant.do_grant Grant.build_request Grant.build_params Grant.send Profile.host_allowed
    Profile.has_host insert
do_grant-sent_example =
    GrantLaws.do_grant-sent ops texts parse (λ r. ok answer) config profile "me" "s" request refl
