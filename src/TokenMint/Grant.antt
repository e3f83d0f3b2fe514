-- ===== src/TokenMint/Grant.antt =====
-- tokenmint/client.go: one grant. The server, the decoder of JSON, the parsers of numbers and
-- dates and `strings` are arguments; the dial guard of `newHTTPClient` belongs to the server.
pub mod Laws
use Prim.Native.String.{len, slice}
use csar_core.Prelude.{
  ℕ, ◌*◌, ◌%◌, ◌^◌, String, Bool, not, ◌&&◌, ◌||◌, Option, none, some, List, [], ◌∷◌, ltb,
  if◌then◌else◌, string_eq, ◌==◌, nat_eq, length, Result, ◌>>=◌, ok, err,
}
use csar_core.Prelude.Dict.{insert}
use csar_core.TokenMint.Types.{
  Floats, Url, Texts, Profile, Config, GrantError, GrantResponse, url_unparsable, host_forbidden,
  style_unsupported, transport, body_unreadable, body_too_long, not_json, token_missing,
  expiry_not_positive, type_mismatch, invalid_client, upstream, other_failure,
}
use csar_core.TokenMint.Profile.{second, host_allowed}

-- A decoded document. `other` is null, a Boolean or an array.
mutual
  pub data Json (F : Type 0) : Type 0 where
    text : String → Json F
    number : F → Json F
    object : Fields F → Json F
    other : Json F

  pub data Fields (F : Type 0) : Type 0 where
    no_field : Fields F
    field : String → Json F → Fields F → Fields F

pub record Request : Type 0 where
  pub url : String
  pub content_type : String
  pub params : List (String × String)

-- The status, the header Retry-After and the body, which may fail to be read.
pub record Answer : Type 0 where
  pub status : ℕ
  pub retry_header : String
  pub body : Result String (List ℕ)

-- The rest of what the package uses of the standard library. A number or a distance in time that
-- is not positive is 0; `probe_error` is the field "error" of a document, empty if there is none.
pub record Parsers (F : Type 0) : Type 0 where
  pub split : String → List String
  pub equal_fold : String → String → Bool
  pub parse_float : String → Option F
  pub atoi : String → Option ℕ
  pub time_until : String → Option ℕ
  pub decode : List ℕ → Option (Fields F)
  pub probe_error : List ℕ → String

-- What `doGrant` returns, and the request if one was sent.
pub record Grant : Type 0 where
  pub outcome : Result GrantError GrantResponse
  pub sent : Option Request

unfoldable pub find_field : {F : Type 0} → String → Fields F → Option (Json F)
find_field key no_field = none
find_field key (field k v rest) = if k == key then some v else find_field key rest

unfoldable pub walk : {F : Type 0} → Json F → List String → Option (Json F)
walk doc [] = some doc
walk (object fields) (seg ∷ rest) = elim (find_field seg fields) [
  | none ↦ none
  | some v ↦ walk v rest
]
walk (text s) (seg ∷ rest) = none
walk (number n) (seg ∷ rest) = none
walk other (seg ∷ rest) = none

unfoldable pub build_params : {F : Type 0} → Profile F → String → String → List (String × String)
build_params p client_id client_secret =
    insert p.client_secret_param client_secret (insert p.client_id_param client_id p.static_params)

-- The product of `time.Duration` wraps as an int64. A negative one is 0 here: whoever reads it
-- only asks whether it is positive.
unfoldable as_duration : ℕ → ℕ
as_duration n = let w = n % 2 ^ 64 in if ltb w (2 ^ 63) then w else 0

module _ {F : Type 0} (ops : Floats F) (texts : Texts) (parse : Parsers F) where
  unfoldable pub build_request : Profile F → String → String → Result GrantError Request
  build_request p client_id client_secret =
      let params = build_params p client_id client_secret in
      if p.body_style == "form"
      then ok (record {
        url = p.token_url;
        content_type = "application/x-www-form-urlencoded";
        params = params;
      })
      else if p.body_style == "json"
      then ok (record { url = p.token_url; content_type = "application/json"; params = params })
      else err (other_failure (style_unsupported p.body_style))

  unfoldable pub parse_date : String → ℕ
  parse_date v = elim (parse.time_until v) [ some d ↦ d | none ↦ 0 ]

  unfoldable pub parse_retry_after : String → ℕ
  unfolding as_duration
  parse_retry_after v = if v == "" then 0 else (elim (parse.atoi (texts.trim_space v)) [
    | some secs ↦ if ltb 0 secs then as_duration (secs * second) else parse_date v
    | none ↦ parse_date v
  ])

  unfoldable pub extract_error_code : List ℕ → String
  extract_error_code body =
      let code = parse.probe_error body in
      if not (code == "")
      then (if ltb 64 (len code) then slice code 0 64 else code)
      else "unspecified"

  unfoldable pub is_credential_error_code : String → Bool
  is_credential_error_code code =
      let c = texts.to_lower code in
      c == "invalid_client"
      || c == "unauthorized_client"
      || c == "invalid_grant"
      || c == "access_denied"

  unfoldable pub classify_failure : Answer → List ℕ → GrantError
  classify_failure answer body =
      let code = extract_error_code body in
      if answer.status == 401
        || answer.status == 403
        || (answer.status == 400 && is_credential_error_code code)
      then invalid_client answer.status code
      else upstream answer.status (parse_retry_after answer.retry_header) code

  unfoldable pub lookup_path : Fields F → String → Option (Json F)
  lookup_path doc path = if path == "" then none else walk (object doc) (parse.split path)

  -- The string that `lookupString` gives, empty when it finds none.
  unfoldable pub lookup_string : Fields F → String → String
  lookup_string doc path = elim (lookup_path doc path) [
    | some (text s) ↦ s
    | some (number n) ↦ ""
    | some (object fields) ↦ ""
    | some other ↦ ""
    | none ↦ ""
  ]

  unfoldable pub lookup_number : Fields F → String → Option F
  lookup_number doc path = elim (lookup_path doc path) [
    | some (number n) ↦ some n
    | some (text s) ↦ parse.parse_float s
    | some (object fields) ↦ none
    | some other ↦ none
    | none ↦ none
  ]

  -- The life that the document gives, or the default.
  unfoldable pub parse_expiry : Profile F → Fields F → Result GrantError ℕ
  parse_expiry p doc = elim (lookup_number doc p.expires_in_path) [
    | none ↦ ok p.default_expires_in
    | some secs ↦
        if not (ops.positive secs)
        then err (other_failure (expiry_not_positive p.expires_in_path))
        else ok (ops.seconds secs)
  ]

  unfoldable pub read_document : Profile F → Fields F → Result GrantError GrantResponse
  read_document p doc =
      let token = lookup_string doc p.access_token_path in
      let token_type = lookup_string doc p.token_type_path in
      if token == ""
      then err (other_failure (token_missing p.access_token_path))
      else if not (p.expected_token_type == "")
          && not (token_type == "")
          && not (parse.equal_fold token_type p.expected_token_type)
      then err (other_failure (type_mismatch token_type p.expected_token_type))
      else (parse_expiry p doc >>= λ expires_in.
          ok (record { access_token = token; token_type = token_type; expires_in = expires_in }))

  unfoldable pub parse_grant_response : Profile F → List ℕ → Result GrantError GrantResponse
  parse_grant_response p body = elim (parse.decode body) [
    | none ↦ err (other_failure not_json)
    | some doc ↦ read_document p doc
  ]

  -- The part behind `client.Do`.
  unfoldable pub read_answer : Profile F → Answer → Result GrantError GrantResponse
  read_answer p answer = elim answer.body [
    | err e ↦ err (other_failure (body_unreadable e))
    | ok body ↦
        if ltb p.max_response_bytes (length body)
        then err (other_failure body_too_long)
        else if ltb answer.status 200 || ltb 299 answer.status
        then err (classify_failure answer body)
        else parse_grant_response p body
  ]

  unfoldable pub send : (Request → Result String Answer) → Profile F → Request → Grant
  send server p r = elim (server r) [
    | err e ↦ record { outcome = err (other_failure (transport e)); sent = some r }
    | ok answer ↦ record { outcome = read_answer p answer; sent = some r }
  ]

  send_to : (Request → Result String Answer) → Config F → Profile F → String → String → Url → Grant
  send_to server c p client_id client_secret u =
      if not (host_allowed ops texts c u.hostname)
      then record { outcome = err (other_failure (host_forbidden u.hostname)); sent = none }
      else (elim (build_request p client_id client_secret) [
        | err e ↦ record { outcome = err e; sent = none }
        | ok r ↦ send server p r
      ])

  unfoldable pub do_grant :
      (Request → Result String Answer) → Config F → Profile F → String → String → Grant
  unfolding send_to
  do_grant server c p client_id client_secret = elim (texts.parse_url p.token_url) [
    | none ↦ record { outcome = err (other_failure (url_unparsable p.token_url)); sent = none }
    | some u ↦ send_to server c p client_id client_secret u
  ]
