-- ===== src/Jwt/Tests.antt =====
-- The theorems on keys and tokens at concrete ones. A decoder knows one header and one set of
-- claims, and each signature is good.
use csar_core.Prelude.{
  ℕ, ◌≤◌, String, ◌≡◌, refl, ◌↔◌, ◌⊎◌, inr, true, false, none, some, List, [], ◌∷◌, map, arith,
  if◌then◌else◌, string_eq, ◌==◌, nat_eq, any, Result, ok, err,
}
use csar_core.Prelude.Dict.{lookup, insert}
use csar_core.Jwt.Jwk.{PublicKey, Jwk, JwkError, jwk_to_public_key, new_jwks, rsa, ed25519}
use csar_core.Jwt.Jwk.Roundtrip
use csar_core.Jwt.Remote.{
  Cache, RemoteJwks, RemoteError, Answer, matches, match_key, find_key, fetching,
}
use csar_core.Jwt.Remote.Laws.{Source, FirstOf, find_key-Source, no_answer, unknown_kid_evicts}
use csar_core.Jwt.Remote.Laws
use csar_core.Jwt.Verify.{
  Claims, VerifyConfig, VerifiedToken, Crypto, split_token, text_claim, numeric_claim, verify_eddsa,
  verify_sig, verify, text,
}
use csar_core.Jwt.Verify.Times.{HasInt64}
use csar_core.Jwt.Verify.Accepts.{SignedBy, ClaimsOf, verify-accepts}
use csar_core.Jwt.Verify.Accepts
use csar_core.Jwt.Sign.{
  SigningConfig, KeyPair, Signer, standard_claims, add_claims, signing_method, sign,
  sign_with_config,
}
use csar_core.Jwt.Sign.Roundtrip.{compact}
use csar_core.Jwt.Sign.Verified.{Compacted, verify-sign_with_config}
use csar_core.Jwt.Sign.Verified

abbrev compute_kid : PublicKey → Result JwkError String
compute_kid key = ok "k"

jwk_to_public_key-new_jwks_example :
    (jwks : List Jwk) × (new_jwks compute_kid (rsa 3233 17 ∷ []) ≡ ok jwks)
    × (map jwk_to_public_key jwks ≡ map ok (rsa 3233 17 ∷ []))
jwk_to_public_key-new_jwks_example =
    Roundtrip.jwk_to_public_key-new_jwks compute_kid (rsa 3233 17 ∷ [])
      ((omega arith, ("k", refl)), tt)

abbrev published : Jwk
published = record {
  kty = "RSA";
  kid = "k";
  use_for = "sig";
  alg = "RS256";
  n = [];
  e = [];
  crv = "";
  x = [];
  y = [];
}

abbrev held : Cache
held = record { keys = published ∷ []; fetched_at = 5 }

abbrev remote : RemoteJwks
remote = record { ttl = 10; cache = some held }

abbrev down : ℕ × Answer
down = (8, Laws.no_answer "timeout" 9)

find_key-Source_example :
    let done = find_key remote (7, Laws.no_answer "unused" 7) down "k" "RS256" in
    (done.requests ≤ 2)
    × (((k : Jwk) × (keys : List Jwk) × (done.outcome ≡ ok k)
          × Source remote (7, Laws.no_answer "unused" 7) down keys
          × Laws.FirstOf "k" "RS256" keys k)
        ⊎ ((e : RemoteError) × (done.outcome ≡ err e)))
find_key-Source_example =
    Laws.find_key-Source remote (7, Laws.no_answer "unused" 7) down "k" "RS256"

unknown_held : match_key held.keys "z" "RS256" ≡ none
unfolding match_key matches
unknown_held = refl

unknown_kid_evicts_example :
    let evicted =
      (find_key remote
        (7, Laws.no_answer "unused" 7)
        (8, Laws.no_answer "timeout" 9)
        "z"
        "RS256").remote in
    (evicted.cache ≡ none)
    × ((find_key evicted (10, Laws.no_answer "timeout" 11) down "k" "RS256").outcome
        ≡ err (fetching "timeout"))
unknown_kid_evicts_example =
    Laws.unknown_kid_evicts remote held 7 8 (Laws.no_answer "unused" 7) "z" "RS256" "timeout" 10
      down "k" "RS256" "timeout" 9 11 refl (omega arith) unknown_held

abbrev header : Claims
header = ("alg", text "EdDSA") ∷ ("kid", text "k") ∷ []

abbrev signing_config : SigningConfig
signing_config = record { issuer = "auth"; audience = "api" ∷ []; ttl = 60000000000 }

abbrev claims : Claims
claims = standard_claims signing_config 1000000000

decoder : List ℕ → Result String Claims
decoder bytes =
    if any (λ b. b == 1) bytes
    then ok header
    else if any (λ b. b == 2) bytes
    then ok claims
    else err "unexpected input"

abbrev crypto : Crypto
crypto = record {
  unmarshal = decoder;
  equal_fold = λ s t. s == t;
  has_prefix = λ s p. false;
  sum = λ h bytes. bytes;
  curve_bits = λ c. 256;
  rsa_verify = λ n e h digest sig. true;
  ecdsa_verify = λ c x y digest r s. true;
  ed25519_verify = λ key input sig. true;
}

abbrev signer : Signer ℕ
signer = record {
  signed_string = λ alg id p given. ok (compact (1 ∷ []) (2 ∷ []) (3 ∷ []));
  signed_hmac = λ alg secret given. err "unused";
}

abbrev key_pair : KeyPair ℕ
key_pair = record { kid = "k"; algorithm = "EdDSA"; private_key = 0 }

abbrev key_func : String → String → Result String PublicKey
key_func id alg = ok (ed25519 (7 ∷ []))

abbrev verifier : VerifyConfig
verifier = record {
  allowed_algorithms = "EdDSA" ∷ [];
  required_issuer = "auth";
  required_audience = "api";
  clock_skew = 0;
}

serializes :
    (signed : List ℕ)
    → signer.signed_string "EdDSA" "k" 0 claims ≡ ok signed
    → Compacted crypto (ed25519 (7 ∷ [])) "EdDSA" "k" claims signed
unfolding decoder any text_claim lookup verify_sig verify_eddsa
serializes signed e = record {
  header_bytes = 1 ∷ [];
  claim_bytes = 2 ∷ [];
  sig = 3 ∷ [];
  header = header;
  read = claims;
  is_compact = ground arith;
  are_bytes = ((omega arith, tt), (omega arith, tt), (omega arith, tt));
  header_parses = refl;
  has_alg = refl;
  has_kid = refl;
  claims_parse = refl;
  same_claims = λ k. refl;
  is_signed = refl;
}

signs :
    sign_with_config signer key_pair signing_config 1000000000 []
    ≡ ok (compact (1 ∷ []) (2 ∷ []) (3 ∷ []))
unfolding sign_with_config add_claims sign signing_method
signs = refl

verify-sign_with_config_example :
    (t : VerifiedToken) × (verify crypto key_func verifier 2000000000
        (compact (1 ∷ []) (2 ∷ []) (3 ∷ []))
      ≡ ok t)
    × ((k : String) → lookup k t.claims ≡ lookup k claims)
unfolding any
verify-sign_with_config_example =
    Verified.verify-sign_with_config crypto signer key_pair (ed25519 (7 ∷ [])) key_func
      signing_config verifier 1000000000 2000000000 (compact (1 ∷ []) (2 ∷ []) (3 ∷ [])) serializes
      refl refl signs refl (inr refl) (inr refl, inr refl) (omega arith) (omega arith) (omega arith)

abbrev verified : VerifiedToken
verified = record { header = header; claims = claims }

exp_fits : HasInt64 (numeric_claim "exp" claims)
unfolding numeric_claim standard_claims lookup insert
exp_fits = omega arith

nbf_fits : HasInt64 (numeric_claim "nbf" claims)
unfolding numeric_claim standard_claims lookup insert
nbf_fits = omega arith

verify-accepts_example :
    (verify crypto key_func verifier 2000000000 (compact (1 ∷ []) (2 ∷ []) (3 ∷ [])) ≡ ok verified)
    ↔ ((h : List ℕ) × (p : List ℕ) × (s : List ℕ) × (split_token
            (compact (1 ∷ []) (2 ∷ []) (3 ∷ []))
          ≡ some (h, p, s))
        × SignedBy crypto key_func verifier 2000000000 h p s header
        × ClaimsOf crypto key_func verifier 2000000000 p claims)
verify-accepts_example =
    Accepts.verify-accepts crypto key_func verifier 2000000000 (compact (1 ∷ []) (2 ∷ []) (3 ∷ []))
      verified (omega arith) exp_fits nbf_fits
