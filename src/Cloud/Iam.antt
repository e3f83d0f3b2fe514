-- ===== src/Cloud/Iam.antt =====
-- ycloud/iam.go. The clock, the server, the file of the service account and the signer of its JWT
-- are arguments. Times are in nanoseconds and the zero time is 0. Concurrent refreshes share one
-- request; here a call is one step.
pub mod Laws
pub mod Ready
pub mod Answered
use csar_core.Prelude.{
  ℕ, ◌+◌, ◌-◌, ◌*◌, ◌%◌, ◌^◌, String, Bool, not, ◌&&◌, ◌||◌, Option, none, some, List, [], ◌∷◌, ltb,
  if◌then◌else◌, string_eq, ◌==◌, nat_eq, Result, wrap, ◌>>=◌, ok, err,
}

abbrev pub second : ℕ
second = 1000000000

abbrev pub refresh_margin : ℕ
refresh_margin = 30 * second

abbrev pub default_lifetime : ℕ
default_lifetime = 39600 * second

pub record AuthConfig : Type 0 where
  pub auth_mode : String
  pub iam_token : String
  pub oauth_token : String
  pub sa_key_file : String

pub record SaKey (K : Type 0) : Type 0 where
  pub id : String
  pub service_account_id : String
  pub private_key : K

pub data IamError : Type 0 where
  iam_token_required oauth_token_required sa_key_file_required : IamError
  load_key : IamError → IamError
  read_file parse_json parse_key mint_jwt transport decode_response : String → IamError
  missing_id missing_account missing_key not_pem not_rsa : IamError
  unsupported_mode cannot_refresh : String → IamError
  http_status : ℕ → IamError

pub record Resolver (K : Type 0) : Type 0 where
  pub auth_token : String
  pub expiry : ℕ
  pub auth_mode : String
  pub oauth_token : String
  pub sa_key : Option (SaKey K)

-- `saKeyJSON`.
pub record SaKeyJson : Type 0 where
  pub id : String
  pub service_account_id : String
  pub private_key : String

-- What `LoadSAKey` uses: the file, the decoders, and the two parsers of keys. `parse_pkcs8` gives
-- `ok none` for a key that is not RSA.
pub record KeyReader (K : Type 0) : Type 0 where
  pub read_file : String → Result String (List ℕ)
  pub unmarshal : List ℕ → Result String SaKeyJson
  pub pem_decode : String → Option (List ℕ)
  pub parse_pkcs8 : List ℕ → Result String (Option K)
  pub parse_pkcs1 : List ℕ → Result String K

-- The answer to a request: the status and the decoded body, with the token and its expiry, or for
-- the metadata service its life in seconds.
pub record Answer : Type 0 where
  pub status : ℕ
  pub decoded : Result String (String × ℕ)

-- The request that is sent.
pub data Request : Type 0 where
  exchange_oauth : String → Request
  ask_metadata : Request
  exchange_jwt : String → Request

-- What a call returns, the resolver after it and the request that it has made.
pub record Resolved (K : Type 0) : Type 0 where
  pub outcome : Result IamError String
  pub resolver : Resolver K
  pub sent : Option Request

-- The token and the expiry of an answer; `lifetime` reads the second number of the body.
unfoldable pub read_answer : (ℕ → ℕ) → Result String Answer → Result IamError (String × ℕ)
read_answer lifetime (err e) = err (transport e)
read_answer lifetime (ok a) =
    if not (a.status == 200)
    then err (http_status a.status)
    else elim a.decoded [ err e ↦ err (decode_response e) | ok (tok, n) ↦ ok (tok, lifetime n) ]

abbrev pub exchange_expiry : ℕ → ℕ → ℕ
exchange_expiry now e = if e == 0 then now + default_lifetime else e

-- `time.Now().Add(time.Duration(n) * time.Second)`: the product wraps as an int64, and a negative
-- one leads back from the present.
unfoldable pub metadata_expiry : ℕ → ℕ → ℕ
metadata_expiry now n =
    let w = n * second % 2 ^ 64 in if ltb w (2 ^ 63) then now + w else now - (2 ^ 64 - w)

module _ {K : Type 0} where
  unfoldable pub parse_private_key : KeyReader K → List ℕ → Result IamError K
  parse_private_key reader block = elim (reader.parse_pkcs8 block) [
    | err e ↦ wrap parse_key (reader.parse_pkcs1 block)
    | ok none ↦ err not_rsa
    | ok (some k) ↦ ok k
  ]

  -- `LoadSAKey`.
  unfoldable pub load_sa_key : KeyReader K → String → Result IamError (SaKey K)
  load_sa_key reader path = wrap IamError.read_file (reader.read_file path) >>= λ bytes.
      wrap parse_json (reader.unmarshal bytes) >>= λ k.
      if k.id == ""
      then err missing_id
      else if k.service_account_id == ""
      then err missing_account
      else if k.private_key == ""
      then err missing_key
      else elim (reader.pem_decode k.private_key) [
        | none ↦ err not_pem
        | some block ↦ parse_private_key reader block >>= λ key.
            ok (record { id = k.id; service_account_id = k.service_account_id; private_key = key })
      ]

  abbrev pub unresolved : AuthConfig → Resolver K
  unresolved cfg = record {
    auth_token = "";
    expiry = 0;
    auth_mode = cfg.auth_mode;
    oauth_token = cfg.oauth_token;
    sa_key = none;
  }

  unfoldable pub with_sa_key : KeyReader K → AuthConfig → Result IamError (Resolver K)
  with_sa_key reader cfg =
      if cfg.sa_key_file == ""
      then err sa_key_file_required
      else (wrap load_key (load_sa_key reader cfg.sa_key_file) >>= λ key.
          ok (record (unresolved cfg) { sa_key = some key }))

  -- `NewIAMTokenResolver`.
  unfoldable pub new_resolver : KeyReader K → AuthConfig → Result IamError (Resolver K)
  new_resolver reader cfg =
      if cfg.auth_mode == "iam_token"
      then (if cfg.iam_token == ""
          then err iam_token_required
          else ok (record (unresolved cfg) { auth_token = cfg.iam_token }))
      else if cfg.auth_mode == "oauth_token"
      then (if cfg.oauth_token == "" then err oauth_token_required else ok (unresolved cfg))
      else if cfg.auth_mode == "metadata"
      then ok (unresolved cfg)
      else if cfg.auth_mode == "service_account"
      then with_sa_key reader cfg
      else err (unsupported_mode cfg.auth_mode)

  -- The token is there and does not expire within the margin.
  abbrev pub is_valid : ℕ → Resolver K → Bool
  is_valid now r = not (r.auth_token == "") && ltb (now + refresh_margin) r.expiry

module _ {K : Type 0} (server : Request → Result String Answer)
    (sign_jwt : Option (SaKey K) → ℕ → Result String String) where
  -- `exchangeOAuthToken`, `fetchMetadataToken` and `exchangeSAToken`, with the request sent.
  unfoldable pub exchange_sa_token :
      Option (SaKey K) → ℕ → Result IamError (String × ℕ) × Option Request
  exchange_sa_token key now = elim (sign_jwt key now) [
    | err e ↦ (err (mint_jwt e), none)
    | ok jwt ↦
        (read_answer (exchange_expiry now) (server (exchange_jwt jwt)), some (exchange_jwt jwt))
  ]

  unfoldable pub fetch_token : Resolver K → ℕ → Result IamError (String × ℕ) × Option Request
  fetch_token r now =
      if r.auth_mode == "oauth_token"
      then (
        read_answer (exchange_expiry now) (server (exchange_oauth r.oauth_token)),
        some (exchange_oauth r.oauth_token),
      )
      else if r.auth_mode == "metadata"
      then (read_answer (metadata_expiry now) (server ask_metadata), some ask_metadata)
      else if r.auth_mode == "service_account"
      then exchange_sa_token r.sa_key now
      else (err (cannot_refresh r.auth_mode), none)

  -- What `refreshToken` hands to `singleflight`: the token is tested once more before it is
  -- fetched.
  unfoldable pub refresh_once : Resolver K → ℕ → Resolved K
  refresh_once r now =
      let (fetched, request) = fetch_token r now in
      if is_valid now r
      then record { outcome = ok r.auth_token; resolver = r; sent = none }
      else (elim fetched [
        | err e ↦ record { outcome = err e; resolver = r; sent = request }
        | ok (tok, exp) ↦ record {
          outcome = ok tok;
          resolver = record r { auth_token = tok; expiry = exp };
          sent = request;
        }
      ])

  -- `refreshToken`, for the call that refreshes.
  unfoldable pub refresh_token : Resolver K → ℕ → Resolved K
  refresh_token r now =
      if is_valid now r
      then record { outcome = ok r.auth_token; resolver = r; sent = none }
      else refresh_once r now

  -- `ResolveToken`.
  unfoldable pub resolve_token : Resolver K → ℕ → Resolved K
  resolve_token r now =
      if (r.auth_mode == "iam_token") || is_valid now r
      then record { outcome = ok r.auth_token; resolver = r; sent = none }
      else refresh_token r now

  -- The resolver behind a history of calls, at their times.
  unfoldable pub resolve_all : Resolver K → List ℕ → Resolver K
  resolve_all r [] = r
  resolve_all r (now ∷ rest) = resolve_all (resolve_token r now).resolver rest
