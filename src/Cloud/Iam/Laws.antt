-- ===== src/Cloud/Iam/Laws.antt =====
-- When a token is kept and when it is fetched.
use csar_core.Prelude.{
  ℕ, ◌+◌, ◌≤◌, ◌<◌, String, ◌≡◌, ◌≢◌, ◌⊎◌, inl, inr, Option, none, arith, eq_iff, string_eq, ◌==◌,
  nat_eq, Bool-cases, Result, Result-cases, ok, err,
}
use csar_core.Cloud.Iam.{
  refresh_margin, SaKey, IamError, Resolver, Answer, Request, is_valid, fetch_token, refresh_once,
  refresh_token, resolve_token,
}

module _ {K : Type 0} (server : Request → Result String Answer)
    (sign_jwt : Option (SaKey K) → ℕ → Result String String) where
  -- A call that is answered without a request has returned the token at hand, which is configured
  -- or outlives the margin. A call with a request has found no such token, and returns what was
  -- fetched and keeps it; if the fetch fails, the resolver is as it was.
  pub resolve_token_cases :
      (r : Resolver K) (now : ℕ)
      → let done = resolve_token server sign_jwt r now in
        (((r.auth_mode ≡ "iam_token") ⊎ ((r.auth_token ≢ "") × (now + refresh_margin < r.expiry)))
          × (done.outcome ≡ ok r.auth_token)
          × (done.resolver ≡ r)
          × (done.sent ≡ none))
        ⊎ ((r.auth_mode ≢ "iam_token")
            × ((r.auth_token ≡ "") ⊎ (r.expiry ≤ now + refresh_margin))
            × (((e : IamError) × ((fetch_token server sign_jwt r now).0 ≡ err e)
                  × (done.outcome ≡ err e)
                  × (done.resolver ≡ r))
                ⊎ ((tok : String) × (exp : ℕ) × ((fetch_token server sign_jwt r now).0
                      ≡ ok (tok, exp))
                    × (done.outcome ≡ ok tok)
                    × (done.resolver ≡ record r { auth_token = tok; expiry = exp })))
            × (done.sent ≡ (fetch_token server sign_jwt r now).1))
  unfolding resolve_token refresh_token refresh_once
  resolve_token_cases r now =
      let mode = eq_iff r.auth_mode "iam_token" in
      let held = eq_iff r.auth_token "" in
      elim (Bool-cases (r.auth_mode == "iam_token")) [
        | inl e ↦ inl (inl (ground arith), ground arith, ground arith, ground arith)
        | inr e ↦ elim (Bool-cases (is_valid now r)) [
          | inl v ↦ inl (inr (ground arith, ground arith), ground arith, ground arith, ground arith)
          | inr v ↦
              let spent : (r.auth_token ≡ "") ⊎ (r.expiry ≤ now + refresh_margin) =
                elim (Bool-cases (r.auth_token == "")) [
                  | inl b ↦ inl (ground arith)
                  | inr b ↦ inr (ground arith)
                ] in
              elim (Result-cases (fetch_token server sign_jwt r now).0) [
                | inr (x, f) ↦
                    inr (ground arith, spent, inl (x, f, ground arith, ground arith), ground arith)
                | inl (got, f) ↦ inr (
                  ground arith,
                  spent,
                  inr (got.0, got.1, f, ground arith, ground arith),
                  ground arith,
                )
              ]
        ]
      ]
