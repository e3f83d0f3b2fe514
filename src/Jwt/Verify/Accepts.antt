-- ===== src/Jwt/Verify/Accepts.antt =====
-- What an accepted token is.
use csar_core.Prelude.{
  ℕ, ◌^◌, ◌<◌, String, ◌≡◌, sym, ap, subst, ◌↔◌, ◌⊎◌, inl, inr, true, false, some, List, [], ◌∷◌,
  ◌++◌, arith, string_eq, ◌==◌, nat_eq, Bool-cases, Option-cases, any, List-cases, Result,
  Result-cases, ok,
}
use csar_core.Jwt.Base64.{base64url_decode}
use csar_core.Jwt.Jwk.{PublicKey}
use csar_core.Jwt.Verify.{
  Claims, VerifyConfig, VerifiedToken, Crypto, dot, split_token, text_claim, numeric_claim,
  check_claims, decode_part, verify_sig, check_algorithm, verify_signature, read_claims, verify,
}
use csar_core.Jwt.Verify.Times.{HasInt64, HasInt64-HasInRange}
use csar_core.Jwt.Verify.Current.{Current, HasTimes, check_claims-Current}

abbrev pub header_alg : Claims → String
header_alg header = text_claim "alg" header

module _ (crypto : Crypto) (key_func : String → String → Result String PublicKey)
    (cfg : VerifyConfig) (now : ℕ) where
  -- The header of a token and the key that its signature suits.
  pub record SignedBy (h p s : List ℕ) (header : Claims) : Type 0 where
    pub header_bytes : List ℕ
    pub decodes : base64url_decode h ≡ some header_bytes
    pub parses : crypto.unmarshal header_bytes ≡ ok header
    pub is_secured : crypto.equal_fold (header_alg header) "none" ≡ false
    pub is_allowed :
        (cfg.allowed_algorithms ≡ [])
        ⊎ (any (λ a. a == header_alg header) cfg.allowed_algorithms ≡ true)
    pub key : PublicKey
    pub resolves : key_func (text_claim "kid" header) (header_alg header) ≡ ok key
    pub signature : List ℕ
    pub signature_decodes : base64url_decode s ≡ some signature
    pub is_signed : verify_sig crypto (header_alg header) key (h ++ dot ∷ p) signature ≡ ok tt

  check_algorithm-ok :
      (alg : String)
      → (check_algorithm crypto cfg alg ≡ ok tt) ↔ (
          (crypto.equal_fold alg "none" ≡ false)
          × ((cfg.allowed_algorithms ≡ []) ⊎ (any (λ a. a == alg) cfg.allowed_algorithms ≡ true)))
  unfolding check_algorithm
  check_algorithm-ok alg = elim (Bool-cases (crypto.equal_fold alg "none")) [
    | inl e ↦ (λ h. absurd (ground arith), λ w. absurd (let x = w.0 in cc))
    | inr e ↦ elim (Bool-cases (any (λ a. a == alg) cfg.allowed_algorithms)) [
      | inl f ↦ (λ h. (e, inr f), λ w. ground arith)
      | inr f ↦ elim (List-cases cfg.allowed_algorithms) [
        | inl g ↦ (λ h. (e, inl g), λ w. ground arith)
        | inr (x, xs, g) ↦ (
          λ h. absurd (ground arith),
          λ w. elim w.1 [ inl y ↦ absurd (ground arith) | inr y ↦ absurd (cc) ],
        )
      ]
    ]
  ]

  verify_signature-SignedBy :
      (h p s : List ℕ) (header : Claims)
      → verify_signature crypto key_func cfg h p s ≡ ok header
      → SignedBy h p s header
  unfolding verify_signature decode_part
  verify_signature-SignedBy h p s header done = elim (Option-cases (base64url_decode h)) [
    | inl bad ↦ absurd (ground arith)
    | inr (bytes, d) ↦ elim (Result-cases (crypto.unmarshal bytes)) [
      | inr (x, bad) ↦ absurd (ground arith)
      | inl (read, u) ↦ elim (Result-cases (check_algorithm crypto cfg (header_alg read))) [
        | inr (x, bad) ↦ absurd (ground arith)
        | inl (_, c) ↦ elim (Result-cases (key_func (text_claim "kid" read) (header_alg read))) [
          | inr (x, bad) ↦ absurd (ground arith)
          | inl (key, k) ↦ elim (Option-cases (base64url_decode s)) [
            | inl bad ↦ absurd (ground arith)
            | inr (signature, g) ↦
                elim (Result-cases
                  (verify_sig crypto (header_alg read) key (h ++ dot ∷ p) signature)) [
                    | inr (x, bad) ↦ absurd (ground arith)
                    | inl (_, v) ↦
                        let same : read ≡ header = ground arith in
                        let (secured, allowed) = (check_algorithm-ok (header_alg read)).0 c in
                        subst (SignedBy h p s) same (record {
                          header_bytes = bytes;
                          decodes = d;
                          parses = u;
                          is_secured = secured;
                          is_allowed = allowed;
                          key = key;
                          resolves = k;
                          signature = signature;
                          signature_decodes = g;
                          is_signed = v;
                        })
                  ]
          ]
        ]
      ]
    ]
  ]

  SignedBy-verify_signature :
      (h p s : List ℕ) (header : Claims)
      → SignedBy h p s header
      → verify_signature crypto key_func cfg h p s ≡ ok header
  unfolding verify_signature decode_part
  SignedBy-verify_signature h p s header v =
      let algorithm = (check_algorithm-ok (header_alg header)).1 (v.is_secured, v.is_allowed) in
      ground (arith, v.decodes, v.parses, algorithm, v.resolves, v.signature_decodes, v.is_signed)

  -- The claims of the second part.
  pub record ClaimsOf (p : List ℕ) (claims : Claims) : Type 0 where
    pub claim_bytes : List ℕ
    pub decodes : base64url_decode p ≡ some claim_bytes
    pub parses : crypto.unmarshal claim_bytes ≡ ok claims
    pub is_current : Current cfg now claims

  read_claims-ClaimsOf :
      (p : List ℕ) (claims : Claims)
      → HasTimes cfg now claims
      → (read_claims crypto cfg now p ≡ ok claims) ↔ ClaimsOf p claims
  unfolding read_claims decode_part
  read_claims-ClaimsOf p claims fits = (
    λ done. elim (Option-cases (base64url_decode p)) [
      | inl bad ↦ absurd (ground arith)
      | inr (bytes, d) ↦ elim (Result-cases (crypto.unmarshal bytes)) [
        | inr (x, bad) ↦ absurd (ground arith)
        | inl (read, u) ↦ elim (Result-cases (check_claims cfg now read)) [
          | inr (x, bad) ↦ absurd (ground arith)
          | inl (_, c) ↦
              let same : read ≡ claims = ground arith in
              subst (ClaimsOf p) same (record {
                claim_bytes = bytes;
                decodes = d;
                parses = u;
                is_current =
                    (check_claims-Current cfg now read (subst (HasTimes cfg now) (sym same) fits)).0
                      c;
              })
        ]
      ]
    ],
    λ v.
        let current = (check_claims-Current cfg now claims fits).1 v.is_current in
        ground (arith, v.decodes, v.parses, current),
  )

  pub verify_accepts_fits :
      (token : List ℕ) (t : VerifiedToken)
      → HasTimes cfg now t.claims
      → (verify crypto key_func cfg now token ≡ ok t) ↔ (
          (h : List ℕ) × (p : List ℕ) × (s : List ℕ) × (split_token token ≡ some (h, p, s))
          × SignedBy h p s t.header
          × ClaimsOf p t.claims)
  unfolding verify
  verify_accepts_fits token t fits = (
    λ done. elim (Option-cases (split_token token)) [
      | inl bad ↦ absurd (ground arith)
      | inr (parts, e) ↦
          let (h, p, s) = parts in
          elim (Result-cases (verify_signature crypto key_func cfg h p s)) [
            | inr (x, bad) ↦ absurd (ground arith)
            | inl (header, v) ↦ elim (Result-cases (read_claims crypto cfg now p)) [
              | inr (x, bad) ↦ absurd (ground arith)
              | inl (claims, r) ↦
                  let same : record { header = header; claims = claims } ≡ t = ground arith in
                  (
                    h,
                    p,
                    s,
                    e,
                    subst (SignedBy h p s) (ap (λ (w : VerifiedToken). w.header) same)
                        (verify_signature-SignedBy h p s header v),
                    subst (ClaimsOf p) (ap (λ (w : VerifiedToken). w.claims) same) (
                        (read_claims-ClaimsOf p claims (
                            subst (HasTimes cfg now)
                              (ap (λ (w : VerifiedToken). w.claims) (sym same)) fits)).0
                          r),
                  )
            ]
          ]
    ],
    λ (h, p, s, e, signed, read).
        let header_read = SignedBy-verify_signature h p s t.header signed in
        let claims_read = (read_claims-ClaimsOf p t.claims fits).1 read in
        ground (arith, e, header_read, claims_read),
  )

  -- Let the tolerance be a duration of Go and the numeric times of the claims integers of 64 bits.
  -- A token is accepted exactly if it has three parts, its header and its claims can be read and
  -- are what is returned, its algorithm is allowed and not "none", its signature suits the key
  -- that is resolved for it, its expiry, if it has one, is a time that Go can represent and has
  -- not passed, its "not before", if it has one, has come or is no such time, and its issuer and
  -- audience are the required ones.
  pub verify-accepts :
      (token : List ℕ) (t : VerifiedToken)
      → cfg.clock_skew < 2 ^ 63
      → HasInt64 (numeric_claim "exp" t.claims)
      → HasInt64 (numeric_claim "nbf" t.claims)
      → (verify crypto key_func cfg now token ≡ ok t) ↔ (
          (h : List ℕ) × (p : List ℕ) × (s : List ℕ) × (split_token token ≡ some (h, p, s))
          × SignedBy h p s t.header
          × ClaimsOf p t.claims)
  verify-accepts token t few exp nbf =
      verify_accepts_fits token t
        (HasInt64-HasInRange cfg.clock_skew (numeric_claim "exp" t.claims) few exp, nbf)
