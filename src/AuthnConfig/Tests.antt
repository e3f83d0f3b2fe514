-- ===== src/AuthnConfig/Tests.antt =====
-- The theorem on route tokens at a concrete profile.
use csar_core.Prelude.{◌≡◌, refl, ◌↔◌, true, [], ◌∷◌, All, ok}
use csar_core.Prelude.Int.{pos}
use csar_core.AuthnConfig.{
  RouteToken, Strings, default_claims, default_profile, apply_defaults, is_known_source,
  validate_times, validate_source, validate_claims, validate_profile, validate_route_tokens,
}
use csar_core.AuthnConfig.Laws.{GoodProfile, validate_route_tokens-GoodProfile}
use csar_core.AuthnConfig.Laws

abbrev strings : Strings
strings = record { trim_space = λ s. s; split_dots = λ s. "user" ∷ "id" ∷ [] }

abbrev profile : RouteToken
profile = record {
  enabled = true;
  algorithm = "";
  secret = "s";
  ttl = pos 0;
  max_ttl = pos 0;
  leeway = pos 0;
  issuer = "";
  audience = [];
  on_missing_claim = "";
  claims = ("uid", record { source = "user.id"; as_type = "" }) ∷ [];
}

defaulted_valid : validate_route_tokens strings (apply_defaults (("p", profile) ∷ [])) ≡ ok tt
unfolding apply_defaults default_profile default_claims validate_route_tokens validate_profile
    validate_times validate_claims validate_source is_known_source
defaulted_valid = refl

validate_route_tokens-GoodProfile_example :
    (validate_route_tokens strings (apply_defaults (("p", profile) ∷ [])) ≡ ok tt)
    ↔ All (GoodProfile strings) (apply_defaults (("p", profile) ∷ []))
validate_route_tokens-GoodProfile_example =
    Laws.validate_route_tokens-GoodProfile strings (apply_defaults (("p", profile) ∷ []))
