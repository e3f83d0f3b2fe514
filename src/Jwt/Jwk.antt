-- ===== src/Jwt/Jwk.antt =====
-- jwtx/jwk.go: public keys and JSON Web Keys. The fields of a JWK that are decoded are lists of
-- bytes. `big.Int.Bytes` and `SetBytes` are the big-endian digits to the base 256, without zeros
-- in front. A curve is known by its name.
pub mod Roundtrip
use csar_core.Prelude.{
  ℕ, zero, suc, ◌+◌, ◌*◌, ◌/◌, ◌%◌, String, not, ◌||◌, none, some, List, [], ◌∷◌, ◌++◌,
  if◌then◌else◌, string_eq, ◌==◌, nat_eq, length, Result, ◌>>=◌, ok, err,
}
use csar_core.Jwt.Base64.{encode, base64url_decode}

pub data PublicKey : Type 0 where
  rsa : ℕ → ℕ → PublicKey
  ecdsa : String → ℕ → ℕ → PublicKey
  ed25519 : List ℕ → PublicKey
  other_key : PublicKey

pub record Jwk : Type 0 where
  pub kty : String
  pub kid : String
  pub use_for : String
  pub alg : String
  pub n : List ℕ
  pub e : List ℕ
  pub crv : String
  pub x : List ℕ
  pub y : List ℕ

pub data JwkError : Type 0 where
  unsupported_key : JwkError
  unsupported_kty : String → JwkError
  unsupported_curve : String → JwkError
  not_base64 : JwkError
  key_length : ℕ → JwkError
  kid_failed : String → JwkError

-- The digits of a number with at most `fuel` of them; `big_bytes` gives as many as the number.
unfoldable pub digits : ℕ → ℕ → List ℕ
digits zero n = []
digits (suc fuel) n =
    let front = digits fuel (n / 256) in if n == 0 then [] else front ++ (n % 256) ∷ []

abbrev pub big_bytes : ℕ → List ℕ
big_bytes n = digits n n

unfoldable pub set_bytes_from : ℕ → List ℕ → ℕ
set_bytes_from acc [] = acc
set_bytes_from acc (b ∷ rest) = set_bytes_from (acc * 256 + b) rest

abbrev pub set_bytes : List ℕ → ℕ
set_bytes bytes = set_bytes_from 0 bytes

-- The loop over the bytes of the exponent, in an int of 64 bits.
unfoldable pub exponent_from : ℕ → List ℕ → ℕ
exponent_from e [] = e
exponent_from e (b ∷ rest) = exponent_from ((e * 256 + b) % 18446744073709551616) rest

abbrev pub exponent : List ℕ → ℕ
exponent bytes = exponent_from 0 bytes

abbrev blank : Jwk
blank = record {
  kty = "";
  kid = "";
  use_for = "";
  alg = "";
  n = [];
  e = [];
  crv = "";
  x = [];
  y = [];
}

-- `NewJWKFromPublicKey`.
unfoldable pub new_jwk_from_public_key : PublicKey → String → Result JwkError Jwk
new_jwk_from_public_key (ed25519 key) id = ok (record blank {
  kty = "OKP";
  kid = id;
  use_for = "sig";
  alg = "EdDSA";
  crv = "Ed25519";
  x = encode key;
})
new_jwk_from_public_key (rsa modulus exp) id = ok (record blank {
  kty = "RSA";
  kid = id;
  use_for = "sig";
  alg = "RS256";
  n = encode (big_bytes modulus);
  e = encode (big_bytes exp);
})
new_jwk_from_public_key (ecdsa curve x y) id = err unsupported_key
new_jwk_from_public_key other_key id = err unsupported_key

unfoldable pub decode_field : List ℕ → Result JwkError (List ℕ)
decode_field s = elim (base64url_decode s) [ none ↦ err not_base64 | some bytes ↦ ok bytes ]

unfoldable pub jwk_to_rsa_public_key : Jwk → Result JwkError PublicKey
jwk_to_rsa_public_key jwk = decode_field jwk.n >>= λ n_bytes.
    decode_field jwk.e >>= λ e_bytes. ok (rsa (set_bytes n_bytes) (exponent e_bytes))

unfoldable pub ec_curve : String → Result JwkError String
ec_curve crv =
    if (crv == "P-256") || (crv == "P-384") || (crv == "P-521")
    then ok crv
    else err (unsupported_curve crv)

unfoldable pub jwk_to_ec_public_key : Jwk → Result JwkError PublicKey
jwk_to_ec_public_key jwk = ec_curve jwk.crv >>= λ curve. decode_field jwk.x >>= λ x_bytes.
    decode_field jwk.y >>= λ y_bytes. ok (ecdsa curve (set_bytes x_bytes) (set_bytes y_bytes))

unfoldable pub jwk_to_ed_public_key : Jwk → Result JwkError PublicKey
jwk_to_ed_public_key jwk =
    if not (jwk.crv == "Ed25519")
    then err (unsupported_curve jwk.crv)
    else decode_field jwk.x >>= λ x_bytes.
        if length x_bytes == 32 then ok (ed25519 x_bytes) else err (key_length (length x_bytes))

-- `JWKToPublicKey`.
unfoldable pub jwk_to_public_key : Jwk → Result JwkError PublicKey
jwk_to_public_key jwk =
    if jwk.kty == "RSA"
    then jwk_to_rsa_public_key jwk
    else if jwk.kty == "EC"
    then jwk_to_ec_public_key jwk
    else if jwk.kty == "OKP"
    then jwk_to_ed_public_key jwk
    else err (unsupported_kty jwk.kty)

-- `NewJWKS`; `compute_kid` stands for the hash of the encoded key.
unfoldable pub new_jwks :
    (PublicKey → Result JwkError String) → List PublicKey → Result JwkError (List Jwk)
new_jwks compute_kid [] = ok []
new_jwks compute_kid (key ∷ rest) =
    let others = new_jwks compute_kid rest in
    compute_kid key >>= λ id.
    new_jwk_from_public_key key id >>= λ jwk. others >>= λ jwks. ok (jwk ∷ jwks)
