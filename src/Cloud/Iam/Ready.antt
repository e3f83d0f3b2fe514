-- ===== src/Cloud/Iam/Ready.antt =====
-- What a resolver that was constructed keeps for ever.
use csar_core.Prelude.{
  ℕ, String, ◌≡◌, sym, ap, ◌∙◌, ◌≢◌, ◌⊎◌, inl, inr, Option, some, List, [], ◌∷◌, arith, eq_iff,
  string_eq, ◌==◌, nat_eq, Bool-cases, Result, Result-cases, ok, err,
}
use csar_core.Cloud.Iam.{
  AuthConfig, SaKey, Resolver, KeyReader, Answer, Request, read_answer, exchange_expiry,
  metadata_expiry, load_sa_key, with_sa_key, new_resolver, exchange_sa_token, fetch_token,
  resolve_token, resolve_all, cannot_refresh, exchange_oauth, ask_metadata, exchange_jwt,
}
use csar_core.Cloud.Iam.Laws.{resolve_token_cases}

-- The mode is supported, and has what it needs.
abbrev pub Ready : {K : Type 0} → Resolver K → Type 0
Ready {K} r =
    ((r.auth_mode ≡ "iam_token") × (r.auth_token ≢ ""))
    ⊎ ((r.auth_mode ≡ "oauth_token") × (r.oauth_token ≢ ""))
    ⊎ (r.auth_mode ≡ "metadata")
    ⊎ ((r.auth_mode ≡ "service_account") × ((key : SaKey K) × (r.sa_key ≡ some key)))

read_answer-known :
    (lifetime : ℕ → ℕ) (answer : Result String Answer) (mode : String)
    → read_answer lifetime answer ≢ err (cannot_refresh mode)
unfolding read_answer
read_answer-known lifetime (err e) mode = λ h. absurd (ground arith)
read_answer-known lifetime (ok a) mode = elim (Bool-cases (a.status == 200)) [
  | inr bad ↦ λ h. absurd (ground arith)
  | inl good ↦ elim (Result-cases a.decoded) [
    | inr (e, f) ↦ λ h. absurd (ground arith)
    | inl (got, f) ↦ λ h. absurd (ground arith)
  ]
]

module _ {K : Type 0} where
  with_sa_key-Ready :
      (reader : KeyReader K) (cfg : AuthConfig) (r : Resolver K)
      → cfg.auth_mode ≡ "service_account"
      → with_sa_key reader cfg ≡ ok r
      → Ready r
  unfolding with_sa_key
  with_sa_key-Ready reader cfg r mode h = elim (Bool-cases (cfg.sa_key_file == "")) [
    | inl e ↦ absurd (ground arith)
    | inr e ↦ elim (Result-cases (load_sa_key reader cfg.sa_key_file)) [
      | inr (x, f) ↦ absurd (ground arith)
      | inl (key, f) ↦ inr (inr (inr (ground arith, (key, ground arith))))
    ]
  ]

  new_resolver-Ready :
      (reader : KeyReader K) (cfg : AuthConfig) (r : Resolver K)
      → new_resolver reader cfg ≡ ok r
      → Ready r
  unfolding new_resolver
  new_resolver-Ready reader cfg r h =
      let iam = eq_iff cfg.auth_mode "iam_token" in
      let oauth = eq_iff cfg.auth_mode "oauth_token" in
      let metadata = eq_iff cfg.auth_mode "metadata" in
      let account = eq_iff cfg.auth_mode "service_account" in
      let token = eq_iff cfg.iam_token "" in
      let oauth_given = eq_iff cfg.oauth_token "" in
      elim (Bool-cases (cfg.auth_mode == "iam_token")) [
        | inl a ↦ inl (ground arith, ground arith)
        | inr a ↦ elim (Bool-cases (cfg.auth_mode == "oauth_token")) [
          | inl b ↦ inr (inl (ground arith, ground arith))
          | inr b ↦ elim (Bool-cases (cfg.auth_mode == "metadata")) [
            | inl c ↦ inr (inr (inl (ground arith)))
            | inr c ↦ elim (Bool-cases (cfg.auth_mode == "service_account")) [
              | inl d ↦ with_sa_key-Ready reader cfg r (ground arith) (ground arith)
              | inr d ↦ absurd (ground arith)
            ]
          ]
        ]
      ]

module _ {K : Type 0} (server : Request → Result String Answer)
    (sign_jwt : Option (SaKey K) → ℕ → Result String String) where
  resolve_token-Ready :
      (r : Resolver K) (now : ℕ) → Ready r → Ready (resolve_token server sign_jwt r now).resolver
  resolve_token-Ready r now ready = elim (resolve_token_cases server sign_jwt r now) [
    | inl (_, _, same, _) ↦ rw same ready
    | inr (_, _, inl (e, _, _, same), _) ↦ rw same ready
    | inr (other_mode, _, inr (tok, exp, _, _, same), _) ↦
        rw same (elim ready [ inl iam ↦ absurd (other_mode iam.0) | inr rest ↦ inr rest ])
  ]

  resolve_all-Ready :
      (r : Resolver K) (times : List ℕ) → Ready r → Ready (resolve_all server sign_jwt r times)
  unfolding resolve_all
  resolve_all-Ready r [] ready = ready
  resolve_all-Ready r (now ∷ rest) ready =
      resolve_all-Ready (resolve_token server sign_jwt r now).resolver rest
        (resolve_token-Ready r now ready)

  exchange_sa_token-known :
      (key : Option (SaKey K)) (now : ℕ) (mode : String)
      → (exchange_sa_token server sign_jwt key now).0 ≢ err (cannot_refresh mode)
  unfolding exchange_sa_token
  exchange_sa_token-known key now mode = elim (Result-cases (sign_jwt key now)) [
    | inr (e, f) ↦ λ h. absurd (ground arith)
    | inl (jwt, f) ↦ λ h.
        absurd
          (read_answer-known (exchange_expiry now) (server (exchange_jwt jwt)) mode (ground arith))
  ]

  fetch_token-known :
      (r : Resolver K) (now : ℕ) (mode : String)
      → Ready r
      → r.auth_mode ≢ "iam_token"
      → (fetch_token server sign_jwt r now).0 ≢ err (cannot_refresh mode)
  unfolding fetch_token
  fetch_token-known r now mode ready refreshes = elim ready [
    | inl (iam, _) ↦ absurd (refreshes iam)
    | inr (inl (m, _)) ↦
        rw m (read_answer-known (exchange_expiry now) (server (exchange_oauth r.oauth_token)) mode)
    | inr (inr (inl m)) ↦ rw m (read_answer-known (metadata_expiry now) (server ask_metadata) mode)
    | inr (inr (inr (m, _))) ↦ rw m (exchange_sa_token-known r.sa_key now mode)
  ]

  refresh-Supported :
      (r : Resolver K) (now : ℕ) (mode : String)
      → Ready r
      → (resolve_token server sign_jwt r now).outcome ≢ err (cannot_refresh mode)
  refresh-Supported r now mode ready = elim (resolve_token_cases server sign_jwt r now) [
    | inl (_, done, _, _) ↦ λ h. absurd (let e = sym done ∙ h in cc)
    | inr (_, _, inr (tok, exp, _, done, _), _) ↦ λ h. absurd (let e = sym done ∙ h in cc)
    | inr (other_mode, _, inl (e, failed, done, _), _) ↦ λ h.
        let same : e ≡ cannot_refresh mode = let both = sym done ∙ h in ground arith in
        fetch_token-known r now mode ready other_mode (failed ∙ ap err same)
  ]

  -- Whatever calls a resolver that was constructed has answered, it is ready: its mode is one of
  -- the four and has its token or key, and the next call does not fail for an unknown mode.
  pub resolve_all-new_resolver :
      (reader : KeyReader K) (cfg : AuthConfig) (r : Resolver K) (times : List ℕ) (now : ℕ)
      (mode : String)
      → new_resolver reader cfg ≡ ok r
      → Ready (resolve_all server sign_jwt r times)
        × ((resolve_token server sign_jwt (resolve_all server sign_jwt r times) now).outcome
            ≢ err (cannot_refresh mode))
  resolve_all-new_resolver reader cfg r times now mode h =
      let ready = resolve_all-Ready r times (new_resolver-Ready reader cfg r h) in
      (ready, refresh-Supported (resolve_all server sign_jwt r times) now mode ready)
