-- ===== src/Cloud/Postbox/Usable.antt =====
-- A configuration that is validated can be used.
use csar_core.Prelude.{
  ◌≡◌, ◌⊎◌, inl, inr, false, some, arith, string_eq, ◌==◌, nat_eq, Bool-cases, Result-cases, ok,
  err,
}
use csar_core.Cloud.Iam.{
  AuthConfig, IamError, Resolver, KeyReader, load_sa_key, unresolved, with_sa_key, new_resolver,
  load_key,
}
use csar_core.Cloud.Postbox.{Config, apply_defaults, validate_auth, validate}

with_sa_key_cases :
    {K : Type 0} (reader : KeyReader K) (cfg : AuthConfig)
    → (cfg.sa_key_file == "") ≡ false
    → ((r : Resolver K) × (with_sa_key reader cfg ≡ ok r))
      ⊎ ((e : IamError) × (with_sa_key reader cfg ≡ err (load_key e)))
unfolding with_sa_key
with_sa_key_cases reader cfg h = elim (Result-cases (load_sa_key reader cfg.sa_key_file)) [
  | inl (key, f) ↦ inl (
    _,
    let same : with_sa_key reader cfg ≡ ok (record (unresolved cfg) { sa_key = some key }) =
          ground arith in
        same,
  )
  | inr (e, f) ↦ inr (e, ground arith)
]

new_resolver_cases :
    {K : Type 0} (reader : KeyReader K) (cfg : AuthConfig)
    → validate_auth cfg ≡ ok tt
    → ((r : Resolver K) × (new_resolver reader cfg ≡ ok r))
      ⊎ ((e : IamError) × (new_resolver reader cfg ≡ err (load_key e)))
unfolding validate_auth new_resolver
new_resolver_cases reader cfg h = elim (Bool-cases (cfg.auth_mode == "iam_token")) [
  | inl a ↦ inl (record (unresolved cfg) { auth_token = cfg.iam_token }, ground arith)
  | inr a ↦ elim (Bool-cases (cfg.auth_mode == "oauth_token")) [
    | inl b ↦ inl (unresolved cfg, ground arith)
    | inr b ↦ elim (Bool-cases (cfg.auth_mode == "metadata")) [
      | inl c ↦ inl (unresolved cfg, ground arith)
      | inr c ↦ elim (Bool-cases (cfg.auth_mode == "service_account")) [
        | inr d ↦ absurd (ground arith)
        | inl d ↦
            let same : new_resolver reader cfg ≡ with_sa_key reader cfg = ground arith in
            rw same (with_sa_key_cases reader cfg (ground arith))
      ]
    ]
  ]
]

-- A configuration that passes the validation has a resolver of tokens, unless the key file of its
-- service account cannot be loaded; the defaults do not change that.
pub validate-new_resolver :
    {K : Type 0} (reader : KeyReader K) (c : Config)
    → validate c ≡ ok tt
    → (apply_defaults c ≡ c)
      × (((r : Resolver K) × (new_resolver reader c.auth ≡ ok r))
          ⊎ ((e : IamError) × (new_resolver reader c.auth ≡ err (load_key e))))
unfolding validate apply_defaults
validate-new_resolver reader c h = (ground arith, new_resolver_cases reader c.auth (ground arith))
