-- ===== src/Redaction/Keys.antt =====
-- `IsSensitiveKey` of logutil/redact.go, and the sets of keys of jsonredact/redact.go.
use csar_core.Prelude.{
  String, Bool, true, List, [], ◌∷◌, map, if◌then◌else◌, string_eq, ◌==◌, nat_eq, any,
}

-- What the code uses of the package strings.
pub record Strings : Type 0 where
  pub to_lower : String → String
  pub contains : String → String → Bool
  pub split_dots : String → List String

abbrev pub sensitive_keys : List String
sensitive_keys =
    "authorization" ∷ "bearer" ∷ "token" ∷ "password" ∷ "key" ∷ "secret" ∷ "api_key" ∷ "api-key"
    ∷ "iam_token" ∷ "oauth_token" ∷ "cookie" ∷ "set-cookie" ∷ "x-api-key" ∷ "x-csar-authorization"
    ∷ []

abbrev pub sensitive_parts : List String
sensitive_parts =
    "token" ∷ "secret" ∷ "password" ∷ "bearer" ∷ "authorization" ∷ "api_key" ∷ "api-key" ∷ []

abbrev pub redacted_value : String
redacted_value = "[REDACTED]"

module _ (strings : Strings) where
  unfoldable pub is_sensitive_key : String → Bool
  is_sensitive_key key =
      let lower = strings.to_lower key in
      if any (λ k. lower == k) sensitive_keys
      then true
      else any (λ part. strings.contains lower part) sensitive_parts

  -- The lookup of `RedactKeys` and `RedactQueryMap`.
  unfoldable pub in_keys : List String → String → Bool
  in_keys keys k = any (λ s. strings.to_lower s == strings.to_lower k) keys

  -- `RedactQueryMap`.
  unfoldable pub redact_query_map :
      String → List String → List (String × String) → List (String × String)
  redact_query_map mask extra_keys query =
      map
        (λ e.
          let (k, v) = e in
          if is_sensitive_key k
          then (k, mask)
          else if in_keys extra_keys k
          then (k, mask)
          else (k, v))
        query
