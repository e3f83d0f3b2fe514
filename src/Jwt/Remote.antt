-- ===== src/Jwt/Remote.antt =====
-- jwtx/jwk_remote.go: the cache of a remote key set. The server is an argument: what it answers
-- to the request that is made at a time. Times are in nanoseconds.
pub mod Laws
use csar_core.Prelude.{
  ℕ, ◌+◌, ◌-◌, String, Bool, true, false, not, ◌&&◌, Option, none, some, List, [], ◌∷◌, ltb,
  if◌then◌else◌, string_eq, ◌==◌, nat_eq, Result, wrap, ok, err,
}
use csar_core.Jwt.Jwk.{PublicKey, Jwk, JwkError, jwk_to_public_key}

pub record Cache : Type 0 where
  pub keys : List Jwk
  pub fetched_at : ℕ

pub record RemoteJwks : Type 0 where
  pub ttl : ℕ
  pub cache : Option Cache

pub data RemoteError : Type 0 where
  fetching : String → RemoteError
  no_match : String → String → RemoteError
  bad_jwk : JwkError → RemoteError

-- What a method returns, the state after it and the number of requests.
pub record Fetched (A : Type 0) : Type 0 where
  pub outcome : Result RemoteError A
  pub remote : RemoteJwks
  pub requests : ℕ

unfoldable pub is_fresh : ℕ → ℕ → Cache → Bool
is_fresh ttl now c = ltb (now - c.fetched_at) ttl

-- The answer of the server if it is asked, and the time at which it has been read.
pub record Answer : Type 0 where
  pub keys : Result String (List Jwk)
  pub read_at : ℕ

-- `getJWKS` at a time.
unfoldable pub get_jwks : RemoteJwks → ℕ → Answer → Fetched (List Jwk)
get_jwks r now answer =
    let fetched : Fetched (List Jwk) = elim answer.keys [
      | err e ↦ record { outcome = err (fetching e); remote = r; requests = 1 }
      | ok keys ↦ record {
        outcome = ok keys;
        remote = record r { cache = some (record { keys = keys; fetched_at = answer.read_at }) };
        requests = 1;
      }
    ] in
    elim r.cache [
      | none ↦ fetched
      | some c ↦
          if is_fresh r.ttl now c
          then record { outcome = ok c.keys; remote = r; requests = 0 }
          else fetched
    ]

unfoldable pub matches : String → String → Jwk → Bool
matches kid alg k =
    if not (kid == "") && not (k.kid == kid)
    then false
    else if not (k.alg == "") && not (k.alg == alg)
    then false
    else if not (k.use_for == "") && not (k.use_for == "sig")
    then false
    else true

-- `matchKey`.
unfoldable pub match_key : List Jwk → String → String → Option Jwk
match_key [] kid alg = none
match_key (k ∷ rest) kid alg =
    let later = match_key rest kid alg in if matches kid alg k then some k else later

-- The second half of `findKey`: the cache is dropped and the keys are fetched again.
unfoldable pub refetch : RemoteJwks → ℕ → Answer → String → String → ℕ → Fetched Jwk
refetch r now answer kid alg before =
    let again = get_jwks (record r { cache = none }) now answer in
    let requests = before + again.requests in
    elim again.outcome [
      | err e ↦ record { outcome = err e; remote = again.remote; requests = requests }
      | ok keys ↦ (elim (match_key keys kid alg) [
        | some k ↦ record { outcome = ok k; remote = again.remote; requests = requests }
        | none ↦ record {
          outcome = err (no_match kid alg);
          remote = again.remote;
          requests = requests;
        }
      ])
    ]

-- `findKey`, with the times and the answers of its two fetches.
unfoldable pub find_key : RemoteJwks → ℕ × Answer → ℕ × Answer → String → String → Fetched Jwk
find_key r (now, answer) (later, next_answer) kid alg =
    let first = get_jwks r now answer in
    elim first.outcome [
      | err e ↦ record { outcome = err e; remote = first.remote; requests = first.requests }
      | ok keys ↦ (elim (match_key keys kid alg) [
        | some k ↦ record { outcome = ok k; remote = first.remote; requests = first.requests }
        | none ↦ refetch first.remote later next_answer kid alg first.requests
      ])
    ]

-- `KeyFunc`.
unfoldable pub key_func : RemoteJwks → ℕ × Answer → ℕ × Answer → String → String → Fetched PublicKey
key_func r first second kid alg =
    let found = find_key r first second kid alg in
    record {
      outcome = elim found.outcome [ err e ↦ err e | ok k ↦ wrap bad_jwk (jwk_to_public_key k) ];
      remote = found.remote;
      requests = found.requests;
    }
