-- ===== src/Jwt/Sign.antt =====
-- jwtx/sign.go. `SignedString` of the library golang-jwt is an argument; it takes the name of the
-- algorithm, the id of the key, the private key or the secret, and the claims as they are decoded.
pub mod Roundtrip
pub mod Verified
use csar_core.Prelude.{
  ℕ, ◌+◌, ◌/◌, String, not, Option, none, some, List, [], ◌∷◌, ltb, leb, if◌then◌else◌, string_eq,
  ◌==◌, nat_eq, length, Result, wrap, ◌>>=◌, ok, err,
}
use csar_core.Prelude.Dict.{insert}
use csar_core.Jwt.Verify.{Value, Values, Claims, second, text, number, array, no_value, value}
use csar_core.Prelude.Int.{pos}

pub record SigningConfig : Type 0 where
  pub issuer : String
  pub audience : List String
  pub ttl : ℕ

pub record KeyPair (P : Type 0) : Type 0 where
  pub kid : String
  pub algorithm : String
  pub private_key : P

pub data SignError : Type 0 where
  unsupported_signing : String → SignError
  unsupported_hmac : String → SignError
  signing : String → SignError
  secret_empty config_nil : SignError

pub record Signer (P : Type 0) : Type 0 where
  pub signed_string : String → String → P → Claims → Result String (List ℕ)
  pub signed_hmac : String → List ℕ → Claims → Result String (List ℕ)

abbrev pub texts_of : List String → Values
texts_of [] = no_value
texts_of (s ∷ rest) = value (text s) (texts_of rest)

-- The claims that both configured signers begin with; `NewNumericDate` cuts to whole seconds.
unfoldable pub standard_claims : SigningConfig → ℕ → Claims
standard_claims cfg now =
    let times : Claims =
      ("iat", number (pos (now / second)))
      ∷ ("nbf", number (pos (now / second)))
      ∷ ("exp", number (pos ((now + cfg.ttl) / second)))
      ∷ [] in
    let issued = if cfg.issuer == "" then times else insert "iss" (text cfg.issuer) times in
    if ltb 0 (length cfg.audience)
    then insert "aud" (array (texts_of cfg.audience)) issued
    else issued

unfoldable pub add_claims : List (String × Value) → Claims → Claims
add_claims [] claims = claims
add_claims ((k, v) ∷ rest) claims = add_claims rest (insert k v claims)

module _ {P : Type 0} (lib : Signer P) where
  -- `signingMethodAndKey`.
  unfoldable pub signing_method : KeyPair P → Result SignError String
  signing_method kp =
      if kp.algorithm == "EdDSA"
      then ok "EdDSA"
      else if kp.algorithm == "RS256"
      then ok "RS256"
      else err (unsupported_signing kp.algorithm)

  unfoldable pub sign : KeyPair P → Claims → Result SignError (List ℕ)
  sign kp claims = signing_method kp >>= λ method.
      wrap signing (lib.signed_string method kp.kid kp.private_key claims)

  unfoldable pub sign_with_config :
      KeyPair P → SigningConfig → ℕ → List (String × Value) → Result SignError (List ℕ)
  sign_with_config kp cfg now extra = sign kp (add_claims extra (standard_claims cfg now))

  unfoldable pub sign_hmac : List ℕ → String → Claims → Result SignError (List ℕ)
  sign_hmac secret alg claims =
      if not (alg == "HS256")
      then err (unsupported_hmac alg)
      else if leb (length secret) 0
      then err secret_empty
      else wrap signing (lib.signed_hmac alg secret claims)

  unfoldable pub sign_hmac_with_config :
      List ℕ → String → Option SigningConfig → ℕ → List (String × Value) → Result SignError (List ℕ)
  sign_hmac_with_config secret alg none now extra = err config_nil
  sign_hmac_with_config secret alg (some cfg) now extra =
      sign_hmac secret alg (add_claims extra (standard_claims cfg now))
