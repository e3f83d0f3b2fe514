-- ===== src/Jwt/Jwk/Roundtrip.antt =====
-- A public key that is published as a JWK is read back as the same key.
use csar_core.Prelude.{
  ℕ, zero, suc, ◌+◌, ◌*◌, ◌/◌, ◌%◌, ◌≤◌, ◌<◌, String, ◌≡◌, refl, inl, inr, List, [], ◌∷◌, ◌++◌, map,
  arith, string_eq, ◌==◌, nat_eq, Bool-cases, length, All, All-append, Result, ok,
}
use csar_core.Jwt.Base64.{encode, IsBytes}
use csar_core.Jwt.Base64.Roundtrip.{base64url_decode-encode}
use csar_core.Jwt.Jwk.{
  PublicKey, Jwk, JwkError, digits, big_bytes, set_bytes_from, set_bytes, exponent_from, exponent,
  new_jwk_from_public_key, decode_field, jwk_to_rsa_public_key, jwk_to_ed_public_key,
  jwk_to_public_key, new_jwks, rsa, ecdsa, ed25519, other_key,
}

set_bytes_from-append :
    (acc : ℕ) (bytes : List ℕ) (b : ℕ)
    → set_bytes_from acc (bytes ++ b ∷ []) ≡ set_bytes_from acc bytes * 256 + b
unfolding set_bytes_from
set_bytes_from-append acc [] b = refl
set_bytes_from-append acc (c ∷ rest) b = set_bytes_from-append (acc * 256 + c) rest b

set_bytes-digits : (fuel n : ℕ) → n ≤ fuel → set_bytes (digits fuel n) ≡ n
unfolding digits set_bytes_from
set_bytes-digits zero n h = omega arith
set_bytes-digits (suc fuel) n h = elim (Bool-cases (n == 0)) [
  | inl e ↦ ground (arith)
  | inr e ↦
      let front = set_bytes-digits fuel (n / 256) (ground arith) in
      let grown = set_bytes_from-append 0 (digits fuel (n / 256)) (n % 256) in
      ground (arith, front, grown)
]

IsBytes-digits : (fuel n : ℕ) → IsBytes (digits fuel n)
unfolding digits
IsBytes-digits zero n = tt
IsBytes-digits (suc fuel) n = elim (Bool-cases (n == 0)) [
  | inl e ↦ rw e tt
  | inr e ↦ rw e (
      All-append (λ b. b < 256) (digits fuel (n / 256)) (n % 256 ∷ [])
        (IsBytes-digits fuel (n / 256)) (omega arith, tt))
]

exponent-set_bytes :
    (a : ℕ) (bytes : List ℕ)
    → exponent_from (a % 18446744073709551616) bytes ≡ set_bytes_from a bytes % 18446744073709551616
unfolding exponent_from set_bytes_from
exponent-set_bytes a [] = refl
exponent-set_bytes a (b ∷ rest) =
    let same : (a % 18446744073709551616 * 256 + b) % 18446744073709551616
        ≡ (a * 256 + b) % 18446744073709551616 =
      omega arith in
    rw same (exponent-set_bytes (a * 256 + b) rest)

exponent-big_bytes : (e : ℕ) → e < 9223372036854775808 → exponent (big_bytes e) ≡ e
exponent-big_bytes e h =
    let folded = exponent-set_bytes 0 (big_bytes e) in
    let read = set_bytes-digits e e (omega arith) in omega (arith, folded, read, h)

decode_field-encode : (bytes : List ℕ) → IsBytes bytes → decode_field (encode bytes) ≡ ok bytes
unfolding decode_field
decode_field-encode bytes h = ground (arith, base64url_decode-encode bytes h)

-- An RSA key whose exponent is an int, or an Ed25519 key of 32 bytes.
abbrev pub IsPublishable : PublicKey → Type 0
IsPublishable (rsa modulus exp) = exp < 9223372036854775808
IsPublishable (ed25519 key) = (length key ≡ 32) × IsBytes key
IsPublishable (ecdsa curve x y) = ⊥
IsPublishable other_key = ⊥

-- The key is published, under the id that is given, and read back as the same key.
pub jwk_to_public_key-new_jwk :
    (key : PublicKey) (id : String)
    → IsPublishable key
    → (jwk : Jwk) × (new_jwk_from_public_key key id ≡ ok jwk)
      × (jwk.kid ≡ id)
      × (jwk_to_public_key jwk ≡ ok key)
unfolding new_jwk_from_public_key jwk_to_public_key jwk_to_rsa_public_key jwk_to_ed_public_key
jwk_to_public_key-new_jwk (rsa modulus exp) id h = (
  _,
  refl,
  refl,
  let n_field = decode_field-encode (big_bytes modulus) (IsBytes-digits modulus modulus) in
      let e_field = decode_field-encode (big_bytes exp) (IsBytes-digits exp exp) in
      let n_same = set_bytes-digits modulus modulus (omega arith) in
      let e_same = exponent-big_bytes exp h in rw (n_field, e_field, n_same, e_same) refl,
)
jwk_to_public_key-new_jwk (ed25519 key) id (size, bytes) =
    (_, refl, refl, let x_field = decode_field-encode key bytes in rw (x_field, size) refl)
jwk_to_public_key-new_jwk (ecdsa curve x y) id h = absurd h
jwk_to_public_key-new_jwk other_key id h = absurd h

-- A set of publishable keys whose ids can be computed is published in full, in the order given,
-- and each of its entries is read back as the key that it was made from.
pub jwk_to_public_key-new_jwks :
    (compute_kid : PublicKey → Result JwkError String) (keys : List PublicKey)
    → All (λ key. IsPublishable key × ((id : String) × (compute_kid key ≡ ok id))) keys
    → (jwks : List Jwk) × (new_jwks compute_kid keys ≡ ok jwks)
      × (map jwk_to_public_key jwks ≡ map ok keys)
unfolding new_jwks
jwk_to_public_key-new_jwks compute_kid [] h = ([], refl, refl)
jwk_to_public_key-new_jwks compute_kid (key ∷ rest) ((good, (id, named)), others) =
    let (jwk, made, _, read) = jwk_to_public_key-new_jwk key id good in
    let (jwks, all_made, all_read) = jwk_to_public_key-new_jwks compute_kid rest others in
    (jwk ∷ jwks, rw (named, made, all_made) refl, ground (arith, read, all_read))
