-- ===== src/AuthnConfig/Laws.antt =====
-- The validation of route tokens against one description of good profiles.
use csar_core.Prelude.{
  String, ◌≡◌, refl, sym, ◌∙◌, ◌≢◌, ◌↔◌, ◌⊎◌, inl, inr, true, false, not, ◌||◌, List, [], ◌∷◌,
  arith, eq_iff, string_eq, ◌==◌, nat_eq, Bool-cases, All, OneOf, wrap, fail_if, ◌>>◌, >>-ok,
  wrap-ok, ok,
}
use csar_core.AuthnConfig.Sources.{
  KnownSource, KnownSource-is_known, is_known-KnownSource, GoodTimes, times-GoodTimes,
}
use csar_core.AuthnConfig.{
  ClaimSource, RouteToken, Strings, is_positive, is_negative, exceeds, validate_times,
  validate_source, validate_claims, validate_profile, validate_route_tokens, on_missing_unknown,
  claim_source,
}

module _ (strings : Strings) where
  abbrev pub GoodClaim : String × ClaimSource → Type 0
  GoodClaim (k, c) =
      (strings.trim_space k ≢ "")
      × OneOf c.as_type ("string" ∷ "int" ∷ "bool" ∷ [])
      × (c.source ≢ "")
      × KnownSource (strings.split_dots c.source)

  -- Signed with a secret, its times in order, its claims from known sources.
  pub record Good (p : RouteToken) : Type 0 where
    pub is_hmac : p.algorithm ≡ "HS256"
    pub has_secret : p.secret ≢ ""
    pub lives : GoodTimes p.ttl p.max_ttl p.leeway
    pub on_missing : OneOf p.on_missing_claim ("fail_closed" ∷ "omit" ∷ [])
    pub good_claims : All GoodClaim p.claims

  -- A profile has a name, and is good or disabled.
  abbrev pub GoodProfile : String × RouteToken → Type 0
  GoodProfile (name, p) = (strings.trim_space name ≢ "") × ((p.enabled ≡ false) ⊎ Good p)

  validate_source-ok :
      (c : ClaimSource)
      → (validate_source strings c ≡ ok tt) ↔ (
          OneOf c.as_type ("string" ∷ "int" ∷ "bool" ∷ [])
          × (c.source ≢ "")
          × KnownSource (strings.split_dots c.source))
  unfolding validate_source
  validate_source-ok c =
      let given = eq_iff c.source "" in
      let is_string = eq_iff c.as_type "string" in
      let is_int = eq_iff c.as_type "int" in
      let is_bool = eq_iff c.as_type "bool" in
      let known = is_known-KnownSource (strings.split_dots c.source) in
      let found = KnownSource-is_known (strings.split_dots c.source) in
      (
        λ h. (
          ground (arith, is_string, is_int, is_bool),
          ground (arith, given),
          known (ground arith),
        ),
        λ w.
            let source = found w.2 in
            let kind = w.0 in
            let there = w.1 in
            ground (arith, is_string, is_int, is_bool, given, source, kind, there),
      )

  validate_claims-ok :
      (name : String) (claims : List (String × ClaimSource))
      → (validate_claims strings name claims ≡ ok tt) ↔ All GoodClaim claims
  unfolding validate_claims
  validate_claims-ok name [] = (λ h. tt, λ w. refl)
  validate_claims-ok name ((k, c) ∷ rest) =
      let named = eq_iff (strings.trim_space k) "" in
      let others = validate_claims-ok name rest in
      let this = validate_source-ok c in
      let wrapped = wrap-ok (claim_source name k) (validate_source strings c) tt in
      let both =
        >>-ok (wrap (claim_source name k) (validate_source strings c))
          (validate_claims strings name rest) tt in
      elim (Bool-cases (strings.trim_space k == "")) [
        | inl a ↦ (λ h. absurd (ground arith), λ w. absurd (w.0.0 (ground arith)))
        | inr a ↦
            let same : validate_claims strings name ((k, c) ∷ rest) ≡ (
                wrap (claim_source name k) (validate_source strings c)
                >> validate_claims strings name rest) =
              ground arith in
            (
              λ h.
                  let (h1, h2) = both.0 (sym same ∙ h) in
                  let (s, t, u) = this.0 (wrapped.0 h1) in
                  ((λ e. absurd (ground arith), s, t, u), others.0 h2),
              λ w.
                  let good = this.1 (w.0.1, w.0.2, w.0.3) in
                  same ∙ both.1 (wrapped.1 good, others.1 w.1),
            )
      ]

  validate_times-ok :
      (name : String) (p : RouteToken)
      → (validate_times name p ≡ ok tt) ↔ (
          (is_positive p.ttl ≡ true)
          × (is_positive p.max_ttl ≡ true)
          × (exceeds p.ttl p.max_ttl ≡ false)
          × (is_negative p.leeway ≡ false))
  unfolding validate_times
  validate_times-ok name p = elim (Bool-cases (is_positive p.ttl)) [
    | inr a ↦ (λ h. absurd (ground arith), λ w. absurd (let f = w.0 in ground arith))
    | inl a ↦ elim (Bool-cases (is_positive p.max_ttl)) [
      | inr b ↦ (λ h. absurd (ground arith), λ w. absurd (let f = w.1 in ground arith))
      | inl b ↦ elim (Bool-cases (exceeds p.ttl p.max_ttl)) [
        | inl c ↦ (λ h. absurd (ground arith), λ w. absurd (let f = w.2 in ground arith))
        | inr c ↦ elim (Bool-cases (is_negative p.leeway)) [
          | inl d ↦ (λ h. absurd (ground arith), λ w. absurd (let f = w.3 in ground arith))
          | inr d ↦ (λ h. (a, b, c, d), λ w. ground arith)
        ]
      ]
    ]
  ]

  validate_enabled-ok :
      (name : String) (p : RouteToken)
      → (strings.trim_space name == "") ≡ false
      → p.enabled ≡ true
      → (validate_profile strings name p ≡ ok tt) ↔ Good p
  unfolding validate_profile
  validate_enabled-ok name p named on =
      let signs = eq_iff p.algorithm "HS256" in
      let hidden = eq_iff p.secret "" in
      let times = validate_times-ok name p in
      let in_order = times-GoodTimes p.ttl p.max_ttl p.leeway in
      let closed = eq_iff p.on_missing_claim "fail_closed" in
      let omits = eq_iff p.on_missing_claim "omit" in
      let claims = validate_claims-ok name p.claims in
      let missing =
        fail_if (not ((p.on_missing_claim == "fail_closed") || (p.on_missing_claim == "omit")))
          (on_missing_unknown name) in
      let first =
        >>-ok (validate_times name p) (missing >> validate_claims strings name p.claims) tt in
      let next = >>-ok missing (validate_claims strings name p.claims) tt in
      elim (Bool-cases (p.algorithm == "HS256")) [
        | inr a ↦ (λ h. absurd (ground arith), λ w. absurd (let f = w.is_hmac in ground arith))
        | inl a ↦ elim (Bool-cases (p.secret == "")) [
          | inl b ↦ (λ h. absurd (ground arith), λ w. absurd (w.has_secret (ground arith)))
          | inr b ↦
              let same : validate_profile strings name p
                  ≡ (validate_times name p >> (missing >> validate_claims strings name p.claims)) =
                ground arith in
              (
                λ h.
                    let (t, rest) = first.0 (sym same ∙ h) in
                    let (m, c) = next.0 rest in
                    record {
                      is_hmac = ground arith;
                      has_secret = λ e. absurd (ground arith);
                      lives = in_order.0 (times.0 t);
                      on_missing = ground (arith, m, closed, omits);
                      good_claims = claims.0 c;
                    },
                λ w.
                    let good = w.on_missing in
                    same
                    ∙ first.1 (
                      times.1 (in_order.1 w.lives),
                      next.1 (ground (arith, closed, omits, good), claims.1 w.good_claims),
                    ),
              )
        ]
      ]

  validate_profile-ok :
      (name : String) (p : RouteToken)
      → (validate_profile strings name p ≡ ok tt) ↔ GoodProfile (name, p)
  unfolding validate_profile
  validate_profile-ok name p =
      let named = eq_iff (strings.trim_space name) "" in
      elim (Bool-cases (strings.trim_space name == "")) [
        | inl a ↦ (λ h. absurd (ground arith), λ w. absurd (w.0 (ground arith)))
        | inr a ↦
            let is_named : strings.trim_space name ≢ "" = λ e. absurd (ground arith) in
            elim (Bool-cases p.enabled) [
              | inr off ↦ (λ h. (is_named, inl off), λ w. ground arith)
              | inl on ↦
                  let enabled = validate_enabled-ok name p a on in
                  (
                    λ h. (is_named, inr (enabled.0 h)),
                    λ w. elim w.1 [ inl off ↦ absurd (cc) | inr good ↦ enabled.1 good ],
                  )
            ]
      ]

  -- The profiles of route tokens are accepted exactly if each has a name and is disabled or good:
  -- signed by HS256 with a secret, with a positive life within the maximum and a leeway that is
  -- not negative; a claim that is missing makes it fail or is left out; and each claim has a name,
  -- is a text, an integer or a Boolean, and comes from `user.id`, `user.email`, `user.phone`,
  -- `user.display_name`, `session.id`, or, for a provider and a key that are not empty, from
  -- `oauth.<provider>.provider_user_id`, `oauth.<provider>.email` or
  -- `oauth.<provider>.metadata.<key>`. The order in which they are visited does not matter.
  pub validate_route_tokens-GoodProfile :
      (profiles : List (String × RouteToken))
      → (validate_route_tokens strings profiles ≡ ok tt) ↔ All GoodProfile profiles
  unfolding validate_route_tokens
  validate_route_tokens-GoodProfile [] = (λ h. tt, λ w. refl)
  validate_route_tokens-GoodProfile ((name, p) ∷ rest) =
      let this = validate_profile-ok name p in
      let others = validate_route_tokens-GoodProfile rest in
      let both = >>-ok (validate_profile strings name p) (validate_route_tokens strings rest) tt in
      (
        λ h. let (h1, h2) = both.0 h in (this.0 h1, others.0 h2),
        λ w. both.1 (this.1 w.0, others.1 w.1),
      )
