-- ===== src/TokenMint/Grant/Laws.antt =====
-- Where a credential is sent, and which answers become tokens.
use csar_core.Prelude.{
  ℕ, ◌≤◌, ◌<◌, String, ◌≡◌, ◌∙◌, ◌≢◌, ◌⊎◌, inl, inr, true, none, some, List, arith, eq_iff,
  string_eq, ◌==◌, nat_eq, Bool-cases, Option-cases, length, any, Result, Result-cases, ok,
}
use csar_core.Prelude.Dict.{lookup, insert, lookup-insert, lookup-insert_self}
use csar_core.TokenMint.Types.{Floats, Url, Texts, Profile, Config, GrantResponse}
use csar_core.TokenMint.Profile.{host_allowed}
use csar_core.TokenMint.Grant.{
  Fields, Request, Answer, Parsers, build_params, build_request, lookup_string, lookup_number,
  parse_expiry, read_document, parse_grant_response, read_answer, send, do_grant,
}

-- What the parameters of a request hold: the secret under its name, the id under its name if that
-- is another one, and what the static parameters have under every further name.
abbrev pub Holds : {F : Type 0} → Profile F → String → String → List (String × String) → Type 0
Holds p id secret params =
    (lookup p.client_secret_param params ≡ some secret)
    × ((p.client_id_param ≡ p.client_secret_param) ⊎ (lookup p.client_id_param params ≡ some id))
    × ((k : String)
        → (k ≡ p.client_id_param)
          ⊎ (k ≡ p.client_secret_param)
          ⊎ (lookup k params ≡ lookup k p.static_params))

build_params-Holds :
    {F : Type 0} (p : Profile F) (id secret : String) → Holds p id secret (build_params p id secret)
unfolding build_params
build_params-Holds p id secret =
    let base = insert p.client_id_param id p.static_params in
    (
      lookup-insert_self p.client_secret_param secret base,
      ground (
        arith,
        eq_iff p.client_secret_param p.client_id_param,
        lookup-insert p.client_secret_param p.client_id_param secret base,
        lookup-insert_self p.client_id_param id p.static_params,
      ),
      λ k. ground (
        arith,
        eq_iff p.client_secret_param k,
        eq_iff p.client_id_param k,
        lookup-insert p.client_secret_param k secret base,
        lookup-insert p.client_id_param k id p.static_params,
      ),
    )

module _ {F : Type 0} (ops : Floats F) (texts : Texts) (parse : Parsers F) where
  build_request-ok :
      (p : Profile F) (id secret : String) (r : Request)
      → build_request ops texts parse p id secret ≡ ok r
      → (r.url ≡ p.token_url) × (r.params ≡ build_params p id secret)
  unfolding build_request
  build_request-ok p id secret r h = (ground arith, ground arith)

  send-sent :
      (server : Request → Result String Answer) (p : Profile F) (r : Request)
      → (send ops texts parse server p r).sent ≡ some r
  unfolding send
  send-sent server p r = elim (Result-cases (server r)) [
    | inl (a, e) ↦ ground arith
    | inr (x, e) ↦ ground arith
  ]

  -- Whatever the profile says, a credential leaves only in a request to the profile's URL, whose
  -- host is on the closed list at that moment. The request has the secret under the profile's name
  -- for it, the id under its own name if the two names differ, also when the static parameters use
  -- these names, and under every further name what the static parameters have.
  pub do_grant-sent :
      (server : Request → Result String Answer) (c : Config F) (p : Profile F) (id secret : String)
      (r : Request)
      → (do_grant ops texts parse server c p id secret).sent ≡ some r
      → (u : Url) × (texts.parse_url p.token_url ≡ some u)
        × (host_allowed ops texts c u.hostname ≡ true)
        × (r.url ≡ p.token_url)
        × Holds p id secret r.params
  unfolding do_grant
  do_grant-sent server c p id secret r h = elim (Option-cases (texts.parse_url p.token_url)) [
    | inl e ↦ absurd (ground arith)
    | inr (u, e) ↦ elim (Bool-cases (host_allowed ops texts c u.hostname)) [
      | inr closed ↦ absurd (ground arith)
      | inl listed ↦ elim (Result-cases (build_request ops texts parse p id secret)) [
        | inr (x, q) ↦ absurd (ground (arith, q))
        | inl (r', q) ↦
            let built = build_request-ok p id secret r' q in
            let same : r' ≡ r = ground (arith, send-sent server p r') in
            rw (← same) (u, e, listed, built.0, rw built.1 (build_params-Holds p id secret))
      ]
    ]
  ]

  -- The life of a token is what the document says.
  abbrev pub Expires : Profile F → Fields F → ℕ → Type 0
  Expires p doc n =
      ((lookup_number ops texts parse doc p.expires_in_path ≡ none) × (n ≡ p.default_expires_in))
      ⊎ ((secs : F) × (lookup_number ops texts parse doc p.expires_in_path ≡ some secs)
          × (ops.positive secs ≡ true)
          × (n ≡ ops.seconds secs))

  parse_expiry-Expires :
      (p : Profile F) (doc : Fields F) (n : ℕ)
      → parse_expiry ops texts parse p doc ≡ ok n
      → Expires p doc n
  unfolding parse_expiry
  parse_expiry-Expires p doc n h =
      elim (Option-cases (lookup_number ops texts parse doc p.expires_in_path)) [
        | inl e ↦ inl (e, ground arith)
        | inr (secs, e) ↦ inr (secs, e, ground arith, ground arith)
      ]

  -- The response is what the document says.
  abbrev pub IsRead : Profile F → Fields F → GrantResponse → Type 0
  IsRead p doc resp =
      (resp.access_token ≢ "")
      × (resp.access_token ≡ lookup_string ops texts parse doc p.access_token_path)
      × ((p.expected_token_type ≡ "")
          ⊎ (resp.token_type ≡ "")
          ⊎ (parse.equal_fold resp.token_type p.expected_token_type ≡ true))
      × Expires p doc resp.expires_in

  read_document-IsRead :
      (p : Profile F) (doc : Fields F) (resp : GrantResponse)
      → read_document ops texts parse p doc ≡ ok resp
      → IsRead p doc resp
  unfolding read_document
  read_document-IsRead p doc resp h = elim (Result-cases (parse_expiry ops texts parse p doc)) [
    | inr (x, e) ↦ absurd (ground arith)
    | inl (n, e) ↦
        let token = lookup_string ops texts parse doc p.access_token_path in
        let kind = lookup_string ops texts parse doc p.token_type_path in
        let life : resp.expires_in ≡ n = ground arith in
        let kind_is : resp.token_type ≡ kind = ground arith in
        (
          ground (arith, eq_iff token ""),
          ground arith,
          (elim (Bool-cases (p.expected_token_type == "")) [
            | inl any ↦ inl ((eq_iff p.expected_token_type "").0 any)
            | inr one ↦ elim (Bool-cases (kind == "")) [
              | inl bare ↦ inr (inl (kind_is ∙ (eq_iff kind "").0 bare))
              | inr given ↦ inr (inr (rw kind_is (ground arith)))
            ]
          ]),
          rw life (parse_expiry-Expires p doc n e),
        )
  ]

  -- A grant succeeds only on an answer with a status from 200 to 299 and a body within the cap
  -- that decodes to a document with a token at the profile's path; a type that is given agrees
  -- with the expected one, and the life is that of a positive number in the document, or the
  -- default when there is none.
  pub read_answer-ok :
      (p : Profile F) (answer : Answer) (resp : GrantResponse)
      → read_answer ops texts parse p answer ≡ ok resp
      → (body : List ℕ) × (doc : Fields F) × (answer.body ≡ ok body)
        × (length body ≤ p.max_response_bytes)
        × (200 ≤ answer.status)
        × (answer.status < 300)
        × (parse.decode body ≡ some doc)
        × IsRead p doc resp
  unfolding read_answer parse_grant_response
  read_answer-ok p answer resp h = elim (Result-cases answer.body) [
    | inr (x, e) ↦ absurd (ground arith)
    | inl (body, e) ↦ elim (Option-cases (parse.decode body)) [
      | inl q ↦ absurd (ground arith)
      | inr (doc, q) ↦ (
        body,
        doc,
        e,
        ground arith,
        ground arith,
        ground arith,
        q,
        read_document-IsRead p doc resp (ground arith),
      )
    ]
  ]
