-- ===== src/TokenMint/Profile.antt =====
-- tokenmint/profile.go: the defaults, the validation and the closed list of hosts. A map's
-- entries are visited in the order of the list; a set of hosts is a list.
pub mod Validity
use csar_core.Prelude.{
  ℕ, ◌*◌, String, Bool, false, not, ◌&&◌, ◌||◌, none, some, List, [], ◌∷◌, ltb, leb, if◌then◌else◌,
  string_eq, ◌==◌, nat_eq, length, Result, wrap, ◌>>=◌, fail_if, ◌>>◌, ok, err,
}
use csar_core.TokenMint.Types.{Floats, Texts, Profile, Config}

pub data ConfigError : Type 0 where
  no_profiles name_empty : ConfigError
  url_invalid url_without_host url_not_https host_not_allowed : String → ConfigError
  body_style_unknown : String → ConfigError
  haircut_out_of_range timeout_not_positive response_cap_not_positive : ConfigError
  scope_segments_too_few : ConfigError
  margin_too_long : ℕ → ℕ → ConfigError
  in_profile : String → ConfigError → ConfigError

-- Durations in nanoseconds.
abbrev pub second : ℕ
second = 1000000000

abbrev pub minute : ℕ
minute = 60 * second

abbrev text_default : String → String → String
text_default s d = if s == "" then d else s

abbrev default : ℕ → ℕ → ℕ
default n d = if leb n 0 then d else n

module _ {F : Type 0} (ops : Floats F) where
  -- The body of the loop of `applyDefaults`.
  unfoldable pub with_defaults : Profile F → Profile F
  with_defaults p = record p {
    body_style = text_default p.body_style "json";
    client_id_param = text_default p.client_id_param "client_id";
    client_secret_param = text_default p.client_secret_param "client_secret";
    access_token_path = text_default p.access_token_path "access_token";
    expires_in_path = text_default p.expires_in_path "expires_in";
    token_type_path = text_default p.token_type_path "token_type";
    default_expires_in = default p.default_expires_in (15 * minute);
    expires_in_haircut =
        if ops.positive p.expires_in_haircut then p.expires_in_haircut else ops.nine_tenths;
    refresh_margin = default p.refresh_margin (5 * minute);
    min_refresh_interval = default p.min_refresh_interval minute;
    error_backoff_base = default p.error_backoff_base (30 * second);
    error_backoff_max = default p.error_backoff_max (5 * minute);
    auth_error_backoff = default p.auth_error_backoff (15 * minute);
    idle_ttl = default p.idle_ttl (90 * minute);
    timeout = default p.timeout (8 * second);
    max_response_bytes = default p.max_response_bytes 65536;
    max_mints_per_minute =
        if ops.positive p.max_mints_per_minute then p.max_mints_per_minute else ops.thirty;
    secret_ref_scope_segments = default p.secret_ref_scope_segments 3;
  }

  unfoldable pub default_all : List (String × Profile F) → List (String × Profile F)
  default_all [] = []
  default_all ((name, p) ∷ rest) = (name, with_defaults p) ∷ default_all rest

  unfoldable pub apply_defaults : Config F → Config F
  apply_defaults c = record c { profiles = default_all c.profiles }

  unfoldable pub has_host : String → List String → Bool
  has_host host [] = false
  has_host host (h ∷ hosts) = h == host || has_host host hosts

  module _ (texts : Texts) where
    abbrev normal_host : String → String
    normal_host h = texts.to_lower (texts.trim_space h)

    -- The set of allowed hosts that `Validate` builds.
    unfoldable pub host_set : List String → List String
    host_set [] = []
    host_set (h ∷ hosts) =
        let rest = host_set hosts in if normal_host h == "" then rest else normal_host h ∷ rest

    unfoldable pub host_allowed : Config F → String → Bool
    host_allowed c host = has_host (normal_host host) c.allowed_set

    -- The checks of the token URL.
    unfoldable pub validate_url : Config F → Profile F → Result ConfigError (Unit {0})
    validate_url c p = elim (texts.parse_url p.token_url) [
      | none ↦ err (url_invalid p.token_url)
      | some u ↦
          if u.host == ""
          then err (url_without_host p.token_url)
          else if not (u.scheme == "https") && not c.allow_private
          then err (url_not_https p.token_url)
          else fail_if (not (host_allowed c u.hostname)) (host_not_allowed u.hostname)
    ]

    -- The checks behind those of the URL.
    unfoldable pub validate_numbers : Profile F → Result ConfigError (Unit {0})
    validate_numbers p =
        if not (p.body_style == "json" || p.body_style == "form")
        then err (body_style_unknown p.body_style)
        else if not (ops.positive p.expires_in_haircut)
            || not (ops.at_most_one p.expires_in_haircut)
        then err haircut_out_of_range
        else if leb p.timeout 0
        then err timeout_not_positive
        else if leb p.max_response_bytes 0
        then err response_cap_not_positive
        else if ltb p.secret_ref_scope_segments 1
        then err scope_segments_too_few
        else fail_if (leb p.default_expires_in p.refresh_margin)
            (margin_too_long p.refresh_margin p.default_expires_in)

    unfoldable pub validate_profile : Config F → String → Profile F → Result ConfigError (Unit {0})
    validate_profile c name p =
        if texts.trim_space name == ""
        then err name_empty
        else (do validate_url c p; validate_numbers p)

    unfoldable pub validate_profiles :
        Config F → List (String × Profile F) → Result ConfigError (Unit {0})
    validate_profiles c [] = ok tt
    validate_profiles c ((name, p) ∷ rest) = do
      wrap (in_profile name) (validate_profile c name p)
      validate_profiles c rest

    -- `Validate` changes the configuration also when it fails; the result is that of a success.
    unfoldable pub validate : Config F → Result ConfigError (Config F)
    validate c =
        if length c.profiles == 0
        then err no_profiles
        else (let d = apply_defaults c in
            let e : Config F = record d { allowed_set = host_set d.allowed_hosts } in
            validate_profiles e e.profiles >>= λ _. ok e)
