-- ===== src/Gateway.antt =====
-- gatewayctx/gatewayctx.go: the identity that the gateway hands to a service in headers. Names of
-- headers are compared in their canonical form, which an argument gives; `strings.Split` at the
-- commas, `strings.TrimSpace` and `uuid.Parse` are arguments too.
pub mod Laws
mod Tests
use csar_core.Prelude.{
  String, Bool, Option, none, some, List, [], ◌∷◌, if◌then◌else◌, string_eq, ◌==◌, nat_eq, any,
  Result, ok, err,
}
use csar_core.Prelude.Dict.{lookup, delete}

abbrev pub Header : Type 0
Header = List (String × List String)

pub record Strings : Type 0 where
  pub canonical : String → String
  pub split_commas : String → List String
  pub trim_space : String → String

abbrev pub trusted_headers : List String
trusted_headers =
    "X-Gateway-Subject" ∷ "X-Gateway-Tenant" ∷ "X-Gateway-Roles" ∷ "X-Gateway-Scopes"
    ∷ "X-Gateway-Authz-Result" ∷ "X-Gateway-Authz-Scope" ∷ "X-Gateway-Authz-Policy"
    ∷ "X-Gateway-Credential-ID" ∷ []

pub record Identity : Type 0 where
  pub request_id : String
  pub subject : String
  pub tenant : String
  pub roles : List String
  pub scopes : List String
  pub authz_result : String
  pub authz_scopes : List String
  pub authz_policy : String
  pub credential_id : String

unfoldable pub is_platform_actor : Identity → Bool
is_platform_actor id = any (λ scope. scope == "platform") id.authz_scopes

-- `SubjectUUID`: `none` for the empty subject.
unfoldable pub subject_uuid : {U : Type 0} → (String → Option U) → Identity → Option U
subject_uuid parse id = if id.subject == "" then none else parse id.subject

module _ (strings : Strings) where
  unfoldable pub get_header : Header → String → String
  get_header h name = elim (lookup (strings.canonical name) h) [ some (v ∷ rest) ↦ v | _ ↦ "" ]

  unfoldable pub del_all : List String → Header → Header
  del_all [] h = h
  del_all (name ∷ rest) h = del_all rest (delete (strings.canonical name) h)

  -- `StripTrusted`.
  unfoldable pub strip_trusted : Header → Header
  strip_trusted h = del_all trusted_headers h

  unfoldable pub keep_parts : List String → List String
  keep_parts [] = []
  keep_parts (p ∷ rest) =
      let others = keep_parts rest in
      if strings.trim_space p == "" then others else strings.trim_space p ∷ others

  -- `splitCSV`; nil is the empty list.
  unfoldable pub split_csv : String → List String
  split_csv s = if s == "" then [] else keep_parts (strings.split_commas s)

  unfoldable pub from_request : Header → Identity
  from_request h = record {
    request_id = get_header h "X-Request-ID";
    subject = get_header h "X-Gateway-Subject";
    tenant = get_header h "X-Gateway-Tenant";
    roles = split_csv (get_header h "X-Gateway-Roles");
    scopes = split_csv (get_header h "X-Gateway-Scopes");
    authz_result = get_header h "X-Gateway-Authz-Result";
    authz_scopes = split_csv (get_header h "X-Gateway-Authz-Scope");
    authz_policy = get_header h "X-Gateway-Authz-Policy";
    credential_id = get_header h "X-Gateway-Credential-ID";
  }

  -- `TrustedMiddleware`: what the next handler answers to the identity, or the refusal with 403.
  unfoldable pub trusted_middleware :
      {R : Type 0} → (Header → Option String) → (Identity → R) → Header → Result String R
  trusted_middleware verify next h = elim (verify h) [
    | some e ↦ err e
    | none ↦ ok (next (from_request h))
  ]
