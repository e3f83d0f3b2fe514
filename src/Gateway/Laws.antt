-- ===== src/Gateway/Laws.antt =====
-- What a client can say about itself behind the gateway.
use csar_core.Prelude.{
  String, ◌≡◌, refl, ap, ◌∙◌, ◌≢◌, ◌⊎◌, inl, inr, Option, none, some, List, [], ◌∷◌, arith, eq_iff,
  string_eq, ◌==◌, nat_eq, Bool-cases, Option-cases, All, ok, err,
}
use csar_core.Prelude.Dict.{lookup, delete, lookup-delete, lookup-delete_self}
use csar_core.Gateway.{
  Header, Strings, trusted_headers, Identity, get_header, del_all, strip_trusted, keep_parts,
  split_csv, from_request, trusted_middleware,
}

module _ (strings : Strings) where
  lookup-del_all :
      (names : List String) (h : Header) (k : String)
      → lookup k h ≡ none
      → lookup k (del_all strings names h) ≡ none
  unfolding del_all
  lookup-del_all [] h k e = e
  lookup-del_all (name ∷ rest) h k e =
      lookup-del_all rest (delete (strings.canonical name) h) k
        (ground (arith, lookup-delete (strings.canonical name) k h))

  -- The names that are removed are gone.
  lookup-del_all-removed :
      (names : List String) (h : Header)
      → All (λ name. lookup (strings.canonical name) (del_all strings names h) ≡ none) names
  unfolding del_all
  lookup-del_all-removed [] h = tt
  lookup-del_all-removed (name ∷ rest) h =
      let gone = delete (strings.canonical name) h in
      (
        lookup-del_all rest gone (strings.canonical name)
            (lookup-delete_self (strings.canonical name) h),
        lookup-del_all-removed rest gone,
      )

  get_header-absent :
      (h : Header) (name : String)
      → lookup (strings.canonical name) h ≡ none
      → get_header strings h name ≡ ""
  unfolding get_header
  get_header-absent h name e = ground arith

  split_csv-empty : split_csv strings "" ≡ []
  unfolding split_csv
  split_csv-empty = refl

  split_csv-absent :
      (h : Header) (name : String)
      → lookup (strings.canonical name) h ≡ none
      → split_csv strings (get_header strings h name) ≡ []
  split_csv-absent h name e = ap (split_csv strings) (get_header-absent h name e) ∙ split_csv-empty

  keep_parts-nonempty : (parts : List String) → All (λ p. p ≢ "") (keep_parts strings parts)
  unfolding keep_parts
  keep_parts-nonempty [] = tt
  keep_parts-nonempty (p ∷ rest) = elim (Bool-cases (strings.trim_space p == "")) [
    | inl e ↦ rw e (keep_parts-nonempty rest)
    | inr e ↦ rw e (
      (λ same. absurd (ground (arith, eq_iff (strings.trim_space p) ""))),
      keep_parts-nonempty rest,
    )
  ]

  split_csv-nonempty : (s : String) → All (λ p. p ≢ "") (split_csv strings s)
  unfolding split_csv
  split_csv-nonempty s = elim (Bool-cases (s == "")) [
    | inl e ↦ rw e tt
    | inr e ↦ rw e (keep_parts-nonempty (strings.split_commas s))
  ]

  -- Once the gateway has stripped a request, and has added nothing, the identity that a service
  -- reads from it is empty but for the id of the request, whatever the client has sent.
  pub from_request-strip_trusted :
      (h : Header)
      → let id = from_request strings (strip_trusted strings h) in
        id ≡ record {
          request_id = id.request_id;
          subject = "";
          tenant = "";
          roles = [];
          scopes = [];
          authz_result = "";
          authz_scopes = [];
          authz_policy = "";
          credential_id = "";
        }
  unfolding from_request strip_trusted
  from_request-strip_trusted h =
      let (a, (b, (c, (d, (e, (f, (g, (i, _)))))))) = lookup-del_all-removed trusted_headers h in
      let gone = strip_trusted strings h in
      ground (
        arith,
        get_header-absent gone "X-Gateway-Subject" a,
        get_header-absent gone "X-Gateway-Tenant" b,
        split_csv-absent gone "X-Gateway-Roles" c,
        split_csv-absent gone "X-Gateway-Scopes" d,
        get_header-absent gone "X-Gateway-Authz-Result" e,
        split_csv-absent gone "X-Gateway-Authz-Scope" f,
        get_header-absent gone "X-Gateway-Authz-Policy" g,
        get_header-absent gone "X-Gateway-Credential-ID" i,
      )

  -- The names of a list in a header are not empty, and a handler behind the check of trust sees
  -- an identity exactly if the request is trusted: the one that its headers hold.
  pub trusted_middleware-from_request :
      {R : Type 0} (verify : Header → Option String) (next : Identity → R) (h : Header)
      → (((e : String) × (verify h ≡ some e) × (trusted_middleware strings verify next h ≡ err e))
          ⊎ ((verify h ≡ none)
              × (trusted_middleware strings verify next h ≡ ok (next (from_request strings h)))))
        × All (λ p. p ≢ "") (from_request strings h).roles
        × All (λ p. p ≢ "") (from_request strings h).scopes
        × All (λ p. p ≢ "") (from_request strings h).authz_scopes
  unfolding trusted_middleware from_request
  trusted_middleware-from_request verify next h = (
    elim (Option-cases (verify h)) [
      | inl e ↦ inr (e, ground arith)
      | inr (x, e) ↦ inl (x, e, ground arith)
    ],
    split_csv-nonempty (get_header strings h "X-Gateway-Roles"),
    split_csv-nonempty (get_header strings h "X-Gateway-Scopes"),
    split_csv-nonempty (get_header strings h "X-Gateway-Authz-Scope"),
  )
