-- ===== src/Jwt/Verify.antt =====
-- jwtx/verify.go. Tokens are lists of bytes. The decoder of JSON, the hashes, the signature
-- schemes and the comparison of strings without regard to case are arguments. A number of a
-- claim is the integer that `int64` gives; readings of the clock are in nanoseconds since 1970.
pub mod Times
pub mod Current
pub mod Accepts
use csar_core.Prelude.{
  ℕ, suc, ◌+◌, ◌-◌, ◌*◌, ◌/◌, ◌%◌, ◌^◌, String, Bool, false, not, ◌&&◌, ◌||◌, Option, none, some,
  map_option, List, [], ◌∷◌, ◌++◌, ltb, if◌then◌else◌, string_eq, ◌==◌, nat_eq, length, take, drop,
  any, Result, wrap, ◌>>=◌, fail_if, ◌>>◌, ok, err,
}
use csar_core.Prelude.Dict.{lookup}
use csar_core.Jwt.Base64.{base64url_decode}
use csar_core.Jwt.Jwk.{PublicKey, set_bytes, rsa, ecdsa, ed25519}
use csar_core.Prelude.Int.{ℤ, pos, negsuc}

-- A decoded value; `other` is null, a Boolean or an object. A `json.Number` need not be an int64.
mutual
  pub data Value : Type 0 where
    text : String → Value
    number : ℤ → Value
    json_number : Option ℤ → Value
    array : Values → Value
    other : Value

  pub data Values : Type 0 where
    no_value : Values
    value : Value → Values → Values

abbrev pub Claims : Type 0
Claims = List (String × Value)

pub data Hash : Type 0 where
  sha256 sha384 sha512 : Hash

-- `header_unparsed` and `claims_unparsed` carry the message of the decoder.
pub data VerifyError : Type 0 where
  malformed header_undecodable unsecured : VerifyError
  header_unparsed claims_unparsed key_lookup : String → VerifyError
  algorithm_refused : String → VerifyError
  signature_undecodable claims_undecodable : VerifyError
  unsupported_algorithm : String → VerifyError
  key_mismatch unsupported_hash signature_length signature_failed : VerifyError
  expired not_yet_valid : VerifyError
  issuer_mismatch : String → VerifyError
  audience_mismatch : VerifyError

pub record VerifyConfig : Type 0 where
  pub allowed_algorithms : List String
  pub required_issuer : String
  pub required_audience : String
  pub clock_skew : ℕ

pub record VerifiedToken : Type 0 where
  pub header : Claims
  pub claims : Claims

-- The standard library. `ed25519_verify` takes the bytes of the key, `curve_bits` is the size of
-- a curve.
pub record Crypto : Type 0 where
  pub unmarshal : List ℕ → Result String Claims
  pub equal_fold : String → String → Bool
  pub has_prefix : String → String → Bool
  pub sum : Hash → List ℕ → List ℕ
  pub curve_bits : String → ℕ
  pub rsa_verify : ℕ → ℕ → Hash → List ℕ → List ℕ → Bool
  pub ecdsa_verify : String → ℕ → ℕ → List ℕ → ℕ → ℕ → Bool
  pub ed25519_verify : List ℕ → List ℕ → List ℕ → Bool

abbrev pub second : ℕ
second = 1000000000

abbrev pub dot : ℕ
dot = 46

-- What stands before the first dot and behind it.
unfoldable pub cut : List ℕ → Option (List ℕ × List ℕ)
cut [] = none
cut (c ∷ rest) =
    let later = cut rest in
    if c == dot then some ([], rest) else map_option (λ p. (c ∷ p.0, p.1)) later

-- `strings.SplitN(tokenString, ".", 3)` with the test that there are three parts.
unfoldable pub split_token : List ℕ → Option (List ℕ × List ℕ × List ℕ)
split_token token = elim (cut token) [
  | none ↦ none
  | some (h, rest) ↦ (elim (cut rest) [ none ↦ none | some (p, s) ↦ some (h, p, s) ])
]

unfoldable pub text_claim : String → Claims → String
text_claim key claims = elim (lookup key claims) [ some (text s) ↦ s | _ ↦ "" ]

-- `numericClaim`.
unfoldable pub numeric_claim : String → Claims → Option ℤ
numeric_claim key claims = elim (lookup key claims) [
  | some (number n) ↦ some n
  | some (json_number n) ↦ n
  | _ ↦ none
]

unfoldable pub some_text_is : Values → String → Bool
some_text_is no_value target = false
some_text_is (value (text s) rest) target = (s == target) || some_text_is rest target
some_text_is (value (number n) rest) target = some_text_is rest target
some_text_is (value (json_number n) rest) target = some_text_is rest target
some_text_is (value (array vs) rest) target = some_text_is rest target
some_text_is (value other rest) target = some_text_is rest target

-- `audienceContains`; a missing claim is nil.
unfoldable pub audience_contains : Option Value → String → Bool
audience_contains aud target = elim aud [
  | some (text s) ↦ s == target
  | some (array vs) ↦ some_text_is vs target
  | _ ↦ false
]

-- The seconds from the year 1 to 1970, in which Go counts its times as an int64.
abbrev pub unix_to_internal : ℕ
unix_to_internal = 62135596800

-- A time in nanoseconds since the least second of an int64. `time.Unix` adds the two counts of
-- seconds and wraps.
unfoldable pub time_unix : ℤ → ℕ
time_unix (pos n) = (n + (unix_to_internal + 2 ^ 63)) % 2 ^ 64 * second
time_unix (negsuc n) = (2 ^ 64 + (unix_to_internal + 2 ^ 63) - suc n) % 2 ^ 64 * second

-- A reading of the clock, given in nanoseconds since 1970, on the same scale.
unfoldable pub reading : ℕ → ℕ
reading now = now + (unix_to_internal + 2 ^ 63) * second

-- `now.After(time.Unix(exp, 0).Add(skew))`. `Add` stops at the last time and, for the next test,
-- at the first one; no reading of the clock is behind the one or before the other, so the sums are
-- written without these bounds.
unfoldable pub is_expired : ℕ → ℕ → ℤ → Bool
is_expired now skew exp = ltb (time_unix exp + skew) (reading now)

-- `now.Before(time.Unix(nbf, 0).Add(-skew))`.
unfoldable pub is_early : ℕ → ℕ → ℤ → Bool
is_early now skew nbf = ltb (reading now) (time_unix nbf - skew)

unfoldable pub alg_to_hash : String → Option Hash
alg_to_hash alg =
    if (alg == "RS256") || (alg == "ES256")
    then some sha256
    else if (alg == "RS384") || (alg == "ES384")
    then some sha384
    else if (alg == "RS512") || (alg == "ES512")
    then some sha512
    else none

unfoldable pub check_expiry : VerifyConfig → ℕ → Claims → Result VerifyError (Unit {0})
check_expiry cfg now claims = elim (numeric_claim "exp" claims) [
  | none ↦ ok tt
  | some e ↦ fail_if (is_expired now cfg.clock_skew e) expired
]

unfoldable pub check_not_before : VerifyConfig → ℕ → Claims → Result VerifyError (Unit {0})
check_not_before cfg now claims = elim (numeric_claim "nbf" claims) [
  | none ↦ ok tt
  | some n ↦ fail_if (is_early now cfg.clock_skew n) not_yet_valid
]

unfoldable pub check_issuer : VerifyConfig → Claims → Result VerifyError (Unit {0})
check_issuer cfg claims =
    let iss = text_claim "iss" claims in
    fail_if (not (cfg.required_issuer == "") && not (iss == cfg.required_issuer))
      (issuer_mismatch iss)

unfoldable pub check_audience : VerifyConfig → Claims → Result VerifyError (Unit {0})
check_audience cfg claims =
    fail_if
      (not (cfg.required_audience == "")
        && not (audience_contains (lookup "aud" claims) cfg.required_audience))
      audience_mismatch

unfoldable pub check_claims : VerifyConfig → ℕ → Claims → Result VerifyError (Unit {0})
check_claims cfg now claims =
    check_expiry cfg now claims
    >> (check_not_before cfg now claims >> (check_issuer cfg claims >> check_audience cfg claims))

unfoldable pub decode_part : VerifyError → List ℕ → Result VerifyError (List ℕ)
decode_part e part = elim (base64url_decode part) [ none ↦ err e | some bytes ↦ ok bytes ]

module _ (crypto : Crypto) where
  unfoldable pub verify_rsa : String → PublicKey → List ℕ → List ℕ → Result VerifyError (Unit {0})
  verify_rsa alg (rsa n e) input signature = elim (alg_to_hash alg) [
    | none ↦ err unsupported_hash
    | some h ↦
        fail_if (not (crypto.rsa_verify n e h (crypto.sum h input) signature)) signature_failed
  ]
  verify_rsa alg _ input signature = err key_mismatch

  -- The signature is two numbers of the size of the curve, one after the other.
  unfoldable pub verify_ecdsa : String → PublicKey → List ℕ → List ℕ → Result VerifyError (Unit {0})
  verify_ecdsa alg (ecdsa curve x y) input signature = elim (alg_to_hash alg) [
    | none ↦ err unsupported_hash
    | some h ↦
        let key_size = (crypto.curve_bits curve + 7) / 8 in
        if not (length signature == 2 * key_size)
        then err signature_length
        else fail_if
            (not (
              crypto.ecdsa_verify curve x y (crypto.sum h input)
                (set_bytes (take key_size signature)) (set_bytes (drop key_size signature))))
            signature_failed
  ]
  verify_ecdsa alg _ input signature = err key_mismatch

  unfoldable pub verify_eddsa : PublicKey → List ℕ → List ℕ → Result VerifyError (Unit {0})
  verify_eddsa (ed25519 key) input signature =
      fail_if (not (crypto.ed25519_verify key input signature)) signature_failed
  verify_eddsa _ input signature = err key_mismatch

  unfoldable pub verify_sig : String → PublicKey → List ℕ → List ℕ → Result VerifyError (Unit {0})
  verify_sig alg key input signature =
      if crypto.has_prefix alg "RS"
      then verify_rsa alg key input signature
      else if crypto.has_prefix alg "ES"
      then verify_ecdsa alg key input signature
      else if alg == "EdDSA"
      then verify_eddsa key input signature
      else err (unsupported_algorithm alg)

  unfoldable pub check_algorithm : VerifyConfig → String → Result VerifyError (Unit {0})
  check_algorithm cfg alg =
      if crypto.equal_fold alg "none"
      then err unsecured
      else fail_if
          (ltb 0 (length cfg.allowed_algorithms)
            && not (any (λ a. a == alg) cfg.allowed_algorithms))
          (algorithm_refused alg)

  -- The parts, the header and the signature of `Verify`; the claims are read behind it.
  unfoldable pub verify_signature :
      (String → String → Result String PublicKey)
      → VerifyConfig
      → List ℕ
      → List ℕ
      → List ℕ
      → Result VerifyError Claims
  verify_signature key_func cfg h p s = decode_part header_undecodable h >>= λ header_bytes.
      wrap header_unparsed (crypto.unmarshal header_bytes) >>= λ header.
      check_algorithm cfg (text_claim "alg" header)
      >> (wrap key_lookup (key_func (text_claim "kid" header) (text_claim "alg" header)) >>= λ key.
          decode_part signature_undecodable s >>= λ signature.
          verify_sig (text_claim "alg" header) key (h ++ dot ∷ p) signature >> ok header)

  unfoldable pub read_claims : VerifyConfig → ℕ → List ℕ → Result VerifyError Claims
  read_claims cfg now p = decode_part claims_undecodable p >>= λ claim_bytes.
      wrap claims_unparsed (crypto.unmarshal claim_bytes) >>= λ claims.
      check_claims cfg now claims >> ok claims

  -- `Verify`; a nil configuration is the empty one.
  unfoldable pub verify :
      (String → String → Result String PublicKey)
      → VerifyConfig
      → ℕ
      → List ℕ
      → Result VerifyError VerifiedToken
  verify key_func cfg now token = elim (split_token token) [
    | none ↦ err malformed
    | some (h, p, s) ↦ verify_signature key_func cfg h p s >>= λ header.
        read_claims cfg now p >>= λ claims. ok (record { header = header; claims = claims })
  ]

  -- `VerifyWithKey`.
  unfoldable pub verify_with_key :
      PublicKey → VerifyConfig → ℕ → List ℕ → Result VerifyError VerifiedToken
  verify_with_key key cfg now token = verify (λ id alg. ok key) cfg now token
