-- ===== src/AuthnConfig.antt =====
-- authnconfig/route_tokens.go: the profiles of route tokens. `strings.TrimSpace` and
-- `strings.Split` at the dots are arguments. Times are integers of nanoseconds, negative ones too.
pub mod Sources
pub mod Laws
mod Tests
use csar_core.Prelude.{
  ℕ, zero, suc, ◌*◌, String, Bool, true, false, not, ◌&&◌, ◌||◌, List, [], ◌∷◌, ltb, if◌then◌else◌,
  string_eq, ◌==◌, nat_eq, Result, wrap, fail_if, ◌>>◌, ok, err,
}
use csar_core.Prelude.Int.{ℤ, pos, negsuc}

abbrev pub second : ℕ
second = 1000000000

abbrev default_ttl : ℤ
default_ttl = pos (300 * second)

abbrev default_max_ttl : ℤ
default_max_ttl = pos (3600 * second)

abbrev default_leeway : ℤ
default_leeway = pos (30 * second)

pub record ClaimSource : Type 0 where
  pub source : String
  pub as_type : String

-- The secret and the static claims are kept as texts.
pub record RouteToken : Type 0 where
  pub enabled : Bool
  pub algorithm : String
  pub secret : String
  pub ttl : ℤ
  pub max_ttl : ℤ
  pub leeway : ℤ
  pub issuer : String
  pub audience : List String
  pub on_missing_claim : String
  pub claims : List (String × ClaimSource)

pub data SourceError : Type 0 where
  source_required : SourceError
  type_unknown : SourceError
  source_unknown : String → SourceError

pub data ProfileError : Type 0 where
  name_empty : ProfileError
  algorithm_unknown : String → String → ProfileError
  secret_required ttl_not_positive max_ttl_not_positive ttl_over_max : String → ProfileError
  leeway_negative on_missing_unknown claim_empty : String → ProfileError
  claim_source : String → String → SourceError → ProfileError

pub record Strings : Type 0 where
  pub trim_space : String → String
  pub split_dots : String → List String

abbrev pub is_zero : ℤ → Bool
is_zero (pos zero) = true
is_zero (pos (suc n)) = false
is_zero (negsuc n) = false

abbrev pub is_positive : ℤ → Bool
is_positive (pos zero) = false
is_positive (pos (suc n)) = true
is_positive (negsuc n) = false

abbrev pub is_negative : ℤ → Bool
is_negative (pos n) = false
is_negative (negsuc n) = true

abbrev pub exceeds : ℤ → ℤ → Bool
exceeds (pos a) (pos b) = ltb b a
exceeds (pos a) (negsuc b) = true
exceeds (negsuc a) (pos b) = false
exceeds (negsuc a) (negsuc b) = ltb a b

abbrev text_or : String → String → String
text_or s d = if s == "" then d else s

abbrev time_or : ℤ → ℤ → ℤ
time_or t d = if is_zero t then d else t

unfoldable pub default_claims : List (String × ClaimSource) → List (String × ClaimSource)
default_claims [] = []
default_claims ((k, c) ∷ rest) =
    (k, record c { as_type = text_or c.as_type "string" }) ∷ default_claims rest

unfoldable pub default_profile : RouteToken → RouteToken
default_profile p = record p {
  algorithm = text_or p.algorithm "HS256";
  ttl = time_or p.ttl default_ttl;
  max_ttl = time_or p.max_ttl default_max_ttl;
  leeway = time_or p.leeway default_leeway;
  on_missing_claim = text_or p.on_missing_claim "fail_closed";
  claims = default_claims p.claims;
}

-- `applyRouteTokenDefaults`.
unfoldable pub apply_defaults : List (String × RouteToken) → List (String × RouteToken)
apply_defaults [] = []
apply_defaults ((name, p) ∷ rest) = (name, default_profile p) ∷ apply_defaults rest

-- The sources that are known, by the parts of their names.
unfoldable pub is_known_source : List String → Bool
is_known_source (a ∷ b ∷ []) =
    if a == "user"
    then (b == "id") || (b == "email") || (b == "phone") || (b == "display_name")
    else (a == "session") && (b == "id")
is_known_source (a ∷ b ∷ c ∷ []) =
    (a == "oauth") && not (b == "") && ((c == "provider_user_id") || (c == "email"))
is_known_source (a ∷ b ∷ c ∷ d ∷ []) =
    (a == "oauth") && not (b == "") && (c == "metadata") && not (d == "")
is_known_source _ = false

unfoldable pub validate_times : String → RouteToken → Result ProfileError (Unit {0})
validate_times name p =
    if not (is_positive p.ttl)
    then err (ttl_not_positive name)
    else if not (is_positive p.max_ttl)
    then err (max_ttl_not_positive name)
    else if exceeds p.ttl p.max_ttl
    then err (ttl_over_max name)
    else fail_if (is_negative p.leeway) (leeway_negative name)

module _ (strings : Strings) where
  -- `validateRouteTokenClaimSource`.
  unfoldable pub validate_source : ClaimSource → Result SourceError (Unit {0})
  validate_source c =
      if c.source == ""
      then err source_required
      else if not ((c.as_type == "string") || (c.as_type == "int") || (c.as_type == "bool"))
      then err type_unknown
      else fail_if (not (is_known_source (strings.split_dots c.source))) (source_unknown c.source)

  unfoldable pub validate_claims :
      String → List (String × ClaimSource) → Result ProfileError (Unit {0})
  validate_claims name [] = ok tt
  validate_claims name ((k, c) ∷ rest) =
      let others = validate_claims name rest in
      if strings.trim_space k == ""
      then err (claim_empty name)
      else (wrap (claim_source name k) (validate_source c) >> others)

  -- One profile of the loop of `validateRouteTokens`.
  unfoldable pub validate_profile : String → RouteToken → Result ProfileError (Unit {0})
  validate_profile name p =
      if strings.trim_space name == ""
      then err name_empty
      else if not p.enabled
      then ok tt
      else if not (p.algorithm == "HS256")
      then err (algorithm_unknown name p.algorithm)
      else if p.secret == ""
      then err (secret_required name)
      else (validate_times name p
          >> (fail_if
                (not ((p.on_missing_claim == "fail_closed") || (p.on_missing_claim == "omit")))
                (on_missing_unknown name)
              >> validate_claims name p.claims))

  -- `validateRouteTokens`; Go visits the profiles in any order.
  unfoldable pub validate_route_tokens : List (String × RouteToken) → Result ProfileError (Unit {0})
  validate_route_tokens [] = ok tt
  validate_route_tokens ((name, p) ∷ rest) = validate_profile name p >> validate_route_tokens rest
