-- ===== src/Jwt/Verify/Current.antt =====
-- The checks of the claims against one description of them.
use csar_core.Prelude.{
  ℕ, ◌≡◌, ◌↔◌, ◌⊎◌, inl, inr, true, none, some, arith, eq_iff, string_eq, ◌==◌, nat_eq, Bool-cases,
  Option-cases, ◌>>◌, >>-ok, ok,
}
use csar_core.Prelude.Dict.{lookup}
use csar_core.Jwt.Verify.Times.{
  Unexpired, Begun, is_expired-Unexpired, is_early-Begun, HasInRange, HasInt64,
}
use csar_core.Jwt.Verify.{
  Claims, VerifyConfig, text_claim, numeric_claim, audience_contains, is_expired, is_early,
  check_expiry, check_not_before, check_issuer, check_audience, check_claims, ℤ,
}
use csar_core.Prelude.Int.{ℤ}

module _ (cfg : VerifyConfig) (now : ℕ) where
  -- The claims hold at the time and are addressed as the configuration requires.
  abbrev pub Current : Claims → Type 0
  Current claims =
      ((numeric_claim "exp" claims ≡ none)
        ⊎ ((e : ℤ) × (numeric_claim "exp" claims ≡ some e) × Unexpired now cfg.clock_skew e))
      × ((numeric_claim "nbf" claims ≡ none)
          ⊎ ((n : ℤ) × (numeric_claim "nbf" claims ≡ some n) × Begun now cfg.clock_skew n))
      × ((cfg.required_issuer ≡ "") ⊎ (text_claim "iss" claims ≡ cfg.required_issuer))
      × ((cfg.required_audience ≡ "")
          ⊎ (audience_contains (lookup "aud" claims) cfg.required_audience ≡ true))

  check_expiry-Current :
      (claims : Claims)
      → HasInRange cfg.clock_skew (numeric_claim "exp" claims)
      → (check_expiry cfg now claims ≡ ok tt) ↔ (
          (numeric_claim "exp" claims ≡ none)
          ⊎ ((e : ℤ) × (numeric_claim "exp" claims ≡ some e) × Unexpired now cfg.clock_skew e))
  unfolding check_expiry
  check_expiry-Current claims fits = elim (Option-cases (numeric_claim "exp" claims)) [
    | inl e ↦ (λ _. inl e, λ _. ground arith)
    | inr (n, e) ↦
        let times = is_expired-Unexpired now cfg.clock_skew n (rw e at fits) in
        elim (Bool-cases (is_expired now cfg.clock_skew n)) [
          | inl late ↦ (
            λ h. absurd (ground arith),
            λ w. elim w [
              | inl x ↦ absurd (ground arith)
              | inr (m, x, y) ↦
                  let same : m ≡ n = ground arith in
                  absurd (let no' = times.1 (rw same at y) in ground arith)
            ],
          )
          | inr live ↦ (λ _. inr (n, e, times.0 live), λ _. ground arith)
        ]
  ]

  check_not_before-Current :
      (claims : Claims)
      → HasInt64 (numeric_claim "nbf" claims)
      → (check_not_before cfg now claims ≡ ok tt) ↔ (
          (numeric_claim "nbf" claims ≡ none)
          ⊎ ((n : ℤ) × (numeric_claim "nbf" claims ≡ some n) × Begun now cfg.clock_skew n))
  unfolding check_not_before
  check_not_before-Current claims fits = elim (Option-cases (numeric_claim "nbf" claims)) [
    | inl e ↦ (λ _. inl e, λ _. ground arith)
    | inr (n, e) ↦
        let times = is_early-Begun now cfg.clock_skew n (rw e at fits) in
        elim (Bool-cases (is_early now cfg.clock_skew n)) [
          | inl early ↦ (
            λ h. absurd (ground arith),
            λ w. elim w [
              | inl x ↦ absurd (ground arith)
              | inr (m, x, y) ↦
                  let same : m ≡ n = ground arith in
                  absurd (let no' = times.1 (rw same at y) in ground arith)
            ],
          )
          | inr live ↦ (λ _. inr (n, e, times.0 live), λ _. ground arith)
        ]
  ]

  check_issuer-Current :
      (claims : Claims)
      → (check_issuer cfg claims ≡ ok tt)
        ↔ ((cfg.required_issuer ≡ "") ⊎ (text_claim "iss" claims ≡ cfg.required_issuer))
  unfolding check_issuer
  check_issuer-Current claims =
      let wanted = eq_iff cfg.required_issuer "" in
      let same = eq_iff (text_claim "iss" claims) cfg.required_issuer in
      elim (Bool-cases (cfg.required_issuer == "")) [
        | inl e ↦ (λ _. inl (ground arith), λ _. ground arith)
        | inr e ↦ elim (Bool-cases (text_claim "iss" claims == cfg.required_issuer)) [
          | inl f ↦ (λ _. inr (ground arith), λ _. ground arith)
          | inr f ↦ (
            λ h. absurd (ground arith),
            λ w. elim w [ inl x ↦ absurd (ground arith) | inr x ↦ absurd (ground arith) ],
          )
        ]
      ]

  check_audience-Current :
      (claims : Claims)
      → (check_audience cfg claims ≡ ok tt) ↔ (
          (cfg.required_audience ≡ "")
          ⊎ (audience_contains (lookup "aud" claims) cfg.required_audience ≡ true))
  unfolding check_audience
  check_audience-Current claims =
      let wanted = eq_iff cfg.required_audience "" in
      elim (Bool-cases (cfg.required_audience == "")) [
        | inl e ↦ (λ _. inl (ground arith), λ _. ground arith)
        | inr e ↦
            elim (Bool-cases (audience_contains (lookup "aud" claims) cfg.required_audience)) [
              | inl f ↦ (λ _. inr f, λ _. ground arith)
              | inr f ↦ (
                λ h. absurd (ground arith),
                λ w. elim w [ inl x ↦ absurd (ground arith) | inr x ↦ absurd (cc) ],
              )
            ]
      ]

  -- The integers among the times are those of an int64, and a tolerance that is no duration meets
  -- only times.
  abbrev pub HasTimes : Claims → Type 0
  HasTimes claims =
      HasInRange cfg.clock_skew (numeric_claim "exp" claims) × HasInt64 (numeric_claim "nbf" claims)

  -- A token's claims are accepted exactly if they hold now and are addressed as required.
  pub check_claims-Current :
      (claims : Claims) → HasTimes claims → (check_claims cfg now claims ≡ ok tt) ↔ Current claims
  unfolding check_claims
  check_claims-Current claims fits =
      let e = check_expiry-Current claims fits.0 in
      let n = check_not_before-Current claims fits.1 in
      let i = check_issuer-Current claims in
      let a = check_audience-Current claims in
      let first =
        >>-ok (check_expiry cfg now claims)
          (check_not_before cfg now claims
            >> (check_issuer cfg claims >> check_audience cfg claims))
          tt in
      let next =
        >>-ok (check_not_before cfg now claims)
          (check_issuer cfg claims >> check_audience cfg claims) tt in
      let last = >>-ok (check_issuer cfg claims) (check_audience cfg claims) tt in
      (
        λ h.
            let (h1, r1) = first.0 h in
            let (h2, r2) = next.0 r1 in
            let (h3, h4) = last.0 r2 in (e.0 h1, n.0 h2, i.0 h3, a.0 h4),
        λ w. first.1 (e.1 w.0, next.1 (n.1 w.1, last.1 (i.1 w.2, a.1 w.3))),
      )
