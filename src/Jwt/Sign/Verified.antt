-- ===== src/Jwt/Sign/Verified.antt =====
-- A token that is signed with a configuration is verified until it expires.
use csar_core.Prelude.{
  ℕ, ◌+◌, ◌*◌, ◌/◌, ◌≤◌, ◌<◌, String, ◌≡◌, sym, ap, ◌∙◌, ◌⊎◌, inl, inr, Bool, true, false, some,
  List, [], ◌∷◌, ◌++◌, arith, eq_iff, string_eq, ◌==◌, nat_eq, Bool-cases, length, any, Result,
  wrap, ok, err,
}
use csar_core.Prelude.Dict.{lookup}
use csar_core.Jwt.Base64.{encode, IsBytes}
use csar_core.Jwt.Jwk.{PublicKey}
use csar_core.Jwt.Verify.{
  Claims, VerifyConfig, VerifiedToken, Crypto, second, dot, split_token, text_claim, numeric_claim,
  audience_contains, verify_sig, verify,
}
use csar_core.Jwt.Verify.Times.{unix_limit}
use csar_core.Jwt.Verify.Current.{Current, HasTimes}
use csar_core.Jwt.Sign.{
  SigningConfig, KeyPair, Signer, standard_claims, add_claims, signing_method, sign,
  sign_with_config, signing,
}
use csar_core.Jwt.Sign.Roundtrip.{
  compact, split_token-compact, lookup-standard, lookup-issuer, lookup-audience,
  some_text_is-texts_of,
}
use csar_core.Jwt.Verify.Accepts.{SignedBy, verify_accepts_fits}
use csar_core.Jwt.Base64.Roundtrip.{base64url_decode-encode}
use csar_core.Prelude.Int.{pos}

-- The token is the compact form of a header with the algorithm and the id, of the claims and of
-- a signature that suits the key, as RFC 7515 has it. The order of the claims may differ.
pub record Compacted (crypto : Crypto) (key : PublicKey) (alg id : String) (claims : Claims)
    (token : List ℕ) : Type 0 where
  pub header_bytes : List ℕ
  pub claim_bytes : List ℕ
  pub sig : List ℕ
  pub header : Claims
  pub read : Claims
  pub is_compact : token ≡ compact header_bytes claim_bytes sig
  pub are_bytes : IsBytes header_bytes × IsBytes claim_bytes × IsBytes sig
  pub header_parses : crypto.unmarshal header_bytes ≡ ok header
  pub has_alg : text_claim "alg" header ≡ alg
  pub has_kid : text_claim "kid" header ≡ id
  pub claims_parse : crypto.unmarshal claim_bytes ≡ ok read
  pub same_claims : (k : String) → lookup k read ≡ lookup k claims
  pub is_signed :
      verify_sig crypto alg key (encode header_bytes ++ dot ∷ encode claim_bytes) sig ≡ ok tt

-- The verifier asks for the issuer and for one of the audiences of the signer, or for none.
abbrev pub Agrees : SigningConfig → VerifyConfig → Type 0
Agrees cfg wanted =
    ((wanted.required_issuer ≡ "") ⊎ (wanted.required_issuer ≡ cfg.issuer))
    × ((wanted.required_audience ≡ "")
        ⊎ (any (λ s. s == wanted.required_audience) cfg.audience ≡ true))

any-length : (p : String → Bool) (xs : List String) → any p xs ≡ true → 0 < length xs
unfolding any
any-length p [] h = absurd (cc)
any-length p (x ∷ xs) h = omega arith

Current-standard :
    (cfg : SigningConfig) (wanted : VerifyConfig) (now later : ℕ) (read : Claims)
    → ((k : String) → lookup k read ≡ lookup k (standard_claims cfg now))
    → Agrees cfg wanted
    → now ≤ later
    → now + cfg.ttl < unix_limit * second
    → later ≤ (now + cfg.ttl) / second * second + wanted.clock_skew
    → Current wanted later read
unfolding numeric_claim text_claim audience_contains
Current-standard cfg wanted now later read same (issuer, audience) begun range live =
    let (nbf, exp) = lookup-standard cfg now in
    (
      inr (
        pos ((now + cfg.ttl) / second),
        ground (arith, same "exp", exp),
        (omega (arith, range), live),
      ),
      inr (pos (now / second), ground (arith, same "nbf", nbf), inr (omega (arith, begun))),
      elim issuer [
        | inl any_issuer ↦ inl any_issuer
        | inr equal ↦ elim (Bool-cases (cfg.issuer == "")) [
          | inl e ↦ inl (ground (arith, eq_iff cfg.issuer ""))
          | inr e ↦
              let held =
                lookup-issuer cfg now (λ x. absurd (ground (arith, eq_iff cfg.issuer ""))) in
              inr (ground (arith, same "iss", held))
        ]
      ],
      elim audience [
        | inl any_audience ↦ inl any_audience
        | inr listed ↦
            let held = lookup-audience cfg now (any-length _ cfg.audience listed) in
            let found = some_text_is-texts_of wanted.required_audience cfg.audience in
            inr (ground (arith, same "aud", held, found))
      ],
    )

HasTimes-standard :
    (cfg : SigningConfig) (wanted : VerifyConfig) (now later : ℕ) (read : Claims)
    → ((k : String) → lookup k read ≡ lookup k (standard_claims cfg now))
    → now + cfg.ttl < unix_limit * second
    → HasTimes wanted later read
unfolding numeric_claim
HasTimes-standard cfg wanted now later read same range =
    let (nbf, exp) = lookup-standard cfg now in
    let e : numeric_claim "exp" read ≡ some (pos ((now + cfg.ttl) / second)) =
      ground (arith, same "exp", exp) in
    let n : numeric_claim "nbf" read ≡ some (pos (now / second)) =
      ground (arith, same "nbf", nbf) in
    (rw e (omega (arith, range), inr (omega (arith, range))), rw n (omega (arith, range)))

SignedBy-compact :
    (crypto : Crypto) (key_func : String → String → Result String PublicKey) (wanted : VerifyConfig)
    (later : ℕ) (key : PublicKey) (alg id : String) (claims : Claims) (token : List ℕ)
    (c : Compacted crypto key alg id claims token)
    → key_func id alg ≡ ok key
    → crypto.equal_fold alg "none" ≡ false
    → ((wanted.allowed_algorithms ≡ []) ⊎ (any (λ a. a == alg) wanted.allowed_algorithms ≡ true))
    → SignedBy crypto key_func wanted later
        (encode c.header_bytes)
        (encode c.claim_bytes)
        (encode c.sig)
        c.header
SignedBy-compact crypto key_func wanted later key alg id claims token c resolves secured allowed =
    record {
      header_bytes = c.header_bytes;
      decodes = base64url_decode-encode c.header_bytes c.are_bytes.0;
      parses = c.header_parses;
      is_secured = rw c.has_alg secured;
      is_allowed = rw c.has_alg allowed;
      key = key;
      resolves = rw (c.has_alg, c.has_kid) resolves;
      signature = c.sig;
      signature_decodes = base64url_decode-encode c.sig c.are_bytes.2;
      is_signed = rw c.has_alg c.is_signed;
    }

wrap-signed :
    (m : Result String (List ℕ)) (token : List ℕ) → wrap signing m ≡ ok token → m ≡ ok token
wrap-signed (ok t) token h = ground arith
wrap-signed (err e) token h = absurd (cc)

sign-method :
    {P : Type 0} (lib : Signer P) (kp : KeyPair P) (claims : Claims) (token : List ℕ)
    → sign lib kp claims ≡ ok token
    → ((kp.algorithm ≡ "EdDSA") ⊎ (kp.algorithm ≡ "RS256"))
      × (lib.signed_string kp.algorithm kp.kid kp.private_key claims ≡ ok token)
unfolding sign signing_method
sign-method lib kp claims token h = elim (Bool-cases (kp.algorithm == "EdDSA")) [
  | inl e ↦
      let alg : kp.algorithm ≡ "EdDSA" = ground (arith, eq_iff kp.algorithm "EdDSA") in
      let method : signing_method lib kp ≡ ok "EdDSA" = ground arith in
      let same : sign lib kp claims
          ≡ wrap signing (lib.signed_string "EdDSA" kp.kid kp.private_key claims) =
        ground (arith, method) in
      (inl alg, rw alg (wrap-signed _ token (sym same ∙ h)))
  | inr e ↦ elim (Bool-cases (kp.algorithm == "RS256")) [
    | inl f ↦
        let alg : kp.algorithm ≡ "RS256" = ground (arith, eq_iff kp.algorithm "RS256") in
        let method : signing_method lib kp ≡ ok "RS256" = ground arith in
        let same : sign lib kp claims
            ≡ wrap signing (lib.signed_string "RS256" kp.kid kp.private_key claims) =
          ground (arith, method) in
        (inr alg, rw alg (wrap-signed _ token (sym same ∙ h)))
    | inr f ↦ absurd (ground arith)
  ]
]

-- Let what the library makes of the claims be a compact token whose signature suits the public
-- key. A token that is signed with a configuration and no further claims is verified, with the
-- claims that it was signed with, from the time of the signing until it expires, if the expiry is
-- a time that Go can represent, the key of the signer is resolved, its algorithm is allowed and
-- the issuer and the audience agree.
pub verify-sign_with_config :
    {P : Type 0} (crypto : Crypto) (lib : Signer P) (kp : KeyPair P) (key : PublicKey)
    (key_func : String → String → Result String PublicKey) (cfg : SigningConfig)
    (wanted : VerifyConfig) (now later : ℕ) (token : List ℕ)
    → ((signed : List ℕ)
        → lib.signed_string kp.algorithm kp.kid kp.private_key (standard_claims cfg now) ≡ ok signed
        → Compacted crypto key kp.algorithm kp.kid (standard_claims cfg now) signed)
    → crypto.equal_fold "EdDSA" "none" ≡ false
    → crypto.equal_fold "RS256" "none" ≡ false
    → sign_with_config lib kp cfg now [] ≡ ok token
    → key_func kp.kid kp.algorithm ≡ ok key
    → ((wanted.allowed_algorithms ≡ [])
        ⊎ (any (λ a. a == kp.algorithm) wanted.allowed_algorithms ≡ true))
    → Agrees cfg wanted
    → now ≤ later
    → now + cfg.ttl < unix_limit * second
    → later ≤ (now + cfg.ttl) / second * second + wanted.clock_skew
    → (t : VerifiedToken) × (verify crypto key_func wanted later token ≡ ok t)
      × ((k : String) → lookup k t.claims ≡ lookup k (standard_claims cfg now))
unfolding sign_with_config add_claims
verify-sign_with_config crypto lib kp key key_func cfg wanted now later token serializes ed rs made
      resolves allowed agrees begun range live =
    let (method, signed) = sign-method lib kp (standard_claims cfg now) token made in
    let c = serializes token signed in
    let secured : crypto.equal_fold kp.algorithm "none" ≡ false = elim method [
      | inl e ↦ rw e ed
      | inr e ↦ rw e rs
    ] in
    let t : VerifiedToken = record { header = c.header; claims = c.read } in
    (
      t,
      (verify_accepts_fits crypto key_func wanted later token t
            (HasTimes-standard cfg wanted now later c.read c.same_claims range)).1
          (
            encode c.header_bytes,
            encode c.claim_bytes,
            encode c.sig,
            ap split_token c.is_compact ∙ split_token-compact c.header_bytes c.claim_bytes c.sig,
            SignedBy-compact crypto key_func wanted later key kp.algorithm kp.kid
                (standard_claims cfg now) token c resolves secured allowed,
            record {
              claim_bytes = c.claim_bytes;
              decodes = base64url_decode-encode c.claim_bytes c.are_bytes.1;
              parses = c.claims_parse;
              is_current =
                  Current-standard cfg wanted now later c.read c.same_claims agrees begun range
                    live;
            },
          ),
      c.same_claims,
    )
