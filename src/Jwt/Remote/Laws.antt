-- ===== src/Jwt/Remote/Laws.antt =====
-- Where a key comes from, and what a lookup does to the cache.
use csar_core.Prelude.{
  ℕ, ◌+◌, ◌-◌, ◌≤◌, ◌<◌, String, ◌≡◌, refl, ◌↔◌, ◌⊎◌, inl, inr, true, false, not, ◌&&◌, none, some,
  List, [], ◌∷◌, arith, eq_iff, ltb, string_eq, ◌==◌, nat_eq, Bool-cases, Option-cases,
  Result-cases, ok, err,
}
use csar_core.Jwt.Jwk.{Jwk}
use csar_core.Jwt.Remote.{
  Cache, RemoteJwks, RemoteError, is_fresh, Answer, get_jwks, matches, match_key, refetch, find_key,
  fetching, no_match,
}

-- The keys of the cache while it is fresh, or of an answer.
abbrev pub Source : RemoteJwks → ℕ × Answer → ℕ × Answer → List Jwk → Type 0
Source r (now, answer) (later, next_answer) keys =
    ((c : Cache) × (r.cache ≡ some c) × (now - c.fetched_at < r.ttl) × (keys ≡ c.keys))
    ⊎ (answer.keys ≡ ok keys)
    ⊎ (next_answer.keys ≡ ok keys)

get_jwks_cases :
    (r : RemoteJwks) (now : ℕ) (answer : Answer)
    → ((c : Cache) × (r.cache ≡ some c)
        × (now - c.fetched_at < r.ttl)
        × (get_jwks r now answer ≡ record { outcome = ok c.keys; remote = r; requests = 0 }))
      ⊎ ((keys : List Jwk) × (answer.keys ≡ ok keys)
          × (get_jwks r now answer ≡ record {
            outcome = ok keys;
            remote = record r {
              cache = some (record { keys = keys; fetched_at = answer.read_at });
            };
            requests = 1;
          }))
      ⊎ ((e : String) × (answer.keys ≡ err e)
          × (get_jwks r now answer
              ≡ record { outcome = err (fetching e); remote = r; requests = 1 }))
unfolding get_jwks is_fresh
get_jwks_cases r now answer = elim (Option-cases r.cache) [
  | inl e ↦ elim (Result-cases answer.keys) [
    | inl (keys, a) ↦ inr (inl (keys, a, ground arith))
    | inr (x, a) ↦ inr (inr (x, a, ground arith))
  ]
  | inr (c, e) ↦ elim (Bool-cases (ltb (now - c.fetched_at) r.ttl)) [
    | inl fresh ↦ inl (c, e, ground arith, ground arith)
    | inr stale ↦ elim (Result-cases answer.keys) [
      | inl (keys, a) ↦ inr (inl (keys, a, ground arith))
      | inr (x, a) ↦ inr (inr (x, a, ground arith))
    ]
  ]
]

-- The key suits the id and the algorithm: it has the id that is asked for, if one is, its
-- algorithm is the one asked for or not given, and its use is the signature or not given.
abbrev pub Suits : String → String → Jwk → Type 0
Suits kid alg k =
    ((kid ≡ "") ⊎ (k.kid ≡ kid))
    × ((k.alg ≡ "") ⊎ (k.alg ≡ alg))
    × ((k.use_for ≡ "") ⊎ (k.use_for ≡ "sig"))

either_empty : (s t : String) → (not (s == "") && not (t == s)) ≡ false → (s ≡ "") ⊎ (t ≡ s)
either_empty s t h = ground (arith, eq_iff s "", eq_iff t s)

either_given : (s t : String) → (not (s == "") && not (s == t)) ≡ false → (s ≡ "") ⊎ (s ≡ t)
either_given s t h = ground (arith, eq_iff s "", eq_iff s t)

matches-Suits : (kid alg : String) (k : Jwk) → (matches kid alg k ≡ true) ↔ Suits kid alg k
unfolding matches
matches-Suits kid alg k =
    let a = eq_iff kid "" in
    let b = eq_iff k.kid kid in
    let c = eq_iff k.alg "" in
    let d = eq_iff k.alg alg in
    let e = eq_iff k.use_for "" in
    let f = eq_iff k.use_for "sig" in
    (
      λ h. (
        either_empty kid k.kid (ground arith),
        either_given k.alg alg (ground arith),
        either_given k.use_for "sig" (ground arith),
      ),
      λ w. ground (arith, w),
    )

-- The key is the first one of the list that suits.
abbrev pub FirstOf : String → String → List Jwk → Jwk → Type 0
FirstOf kid alg [] k = ⊥
FirstOf kid alg (x ∷ rest) k =
    ((x ≡ k) × Suits kid alg k) ⊎ ((¬ Suits kid alg x) × FirstOf kid alg rest k)

match_key-FirstOf :
    (keys : List Jwk) (kid alg : String) (k : Jwk)
    → match_key keys kid alg ≡ some k
    → FirstOf kid alg keys k
unfolding match_key
match_key-FirstOf [] kid alg k h = absurd (cc)
match_key-FirstOf (x ∷ rest) kid alg k h = elim (Bool-cases (matches kid alg x)) [
  | inl e ↦
      let same : x ≡ k = ground arith in inl (same, (matches-Suits kid alg k).0 (ground arith))
  | inr e ↦ inr (
    λ w. absurd (let m = (matches-Suits kid alg x).1 w in ground arith),
    match_key-FirstOf rest kid alg k (ground arith),
  )
]

refetch_cases :
    (r : RemoteJwks) (now : ℕ) (answer : Answer) (kid alg : String) (before : ℕ)
    → let done = refetch r now answer kid alg before in
      (done.requests ≡ before + 1)
      × (((keys : List Jwk) × (k : Jwk) × (answer.keys ≡ ok keys)
            × (match_key keys kid alg ≡ some k)
            × (done.outcome ≡ ok k))
          ⊎ ((e : RemoteError) × (done.outcome ≡ err e)))
unfolding refetch get_jwks
refetch_cases r now answer kid alg before = elim (Result-cases answer.keys) [
  | inr (e, a) ↦ (ground arith, inr (fetching e, ground arith))
  | inl (keys, a) ↦ elim (Option-cases (match_key keys kid alg)) [
    | inl m ↦ (ground arith, inr (no_match kid alg, ground arith))
    | inr (k, m) ↦ (ground arith, inl (keys, k, a, m, ground arith))
  ]
]

-- A lookup makes at most two requests. A key that it finds is the first one, in the fresh cache
-- or in an answer of the server, that has the id asked for, if one is, whose algorithm is the one
-- asked for or not given, and whose use is the signature or not given.
pub find_key-Source :
    (r : RemoteJwks) (first second : ℕ × Answer) (kid alg : String)
    → let done = find_key r first second kid alg in
      (done.requests ≤ 2)
      × (((k : Jwk) × (keys : List Jwk) × (done.outcome ≡ ok k)
            × Source r first second keys
            × FirstOf kid alg keys k)
          ⊎ ((e : RemoteError) × (done.outcome ≡ err e)))
unfolding find_key
find_key-Source r (now, answer) (later, next_answer) kid alg = elim (get_jwks_cases r now answer) [
  | inr (inr (e, a, same)) ↦
      let done : find_key r (now, answer) (later, next_answer) kid alg
          ≡ record { outcome = err (fetching e); remote = r; requests = 1 } =
        ground (arith, same) in
      rw done (omega arith, inr (fetching e, refl))
  | inl (c, e, fresh, same) ↦ elim (Option-cases (match_key c.keys kid alg)) [
    | inr (k, m) ↦
        let done : find_key r (now, answer) (later, next_answer) kid alg
            ≡ record { outcome = ok k; remote = r; requests = 0 } =
          ground (arith, same) in
        rw done (
          omega arith,
          inl (k, c.keys, refl, inl (c, e, fresh, refl), match_key-FirstOf c.keys kid alg k m),
        )
    | inl m ↦
        let (count, outcome) = refetch_cases r later next_answer kid alg 0 in
        let done : find_key r (now, answer) (later, next_answer) kid alg
            ≡ refetch r later next_answer kid alg 0 =
          ground (arith, same) in
        rw done (
          omega (arith, count),
          elim outcome [
            | inr failed ↦ inr failed
            | inl (keys, k, a, found, is_ok) ↦
                inl (k, keys, is_ok, inr (inr a), match_key-FirstOf keys kid alg k found)
          ],
        )
  ]
  | inr (inl (keys, a, same)) ↦ elim (Option-cases (match_key keys kid alg)) [
    | inr (k, m) ↦
        let done : ((find_key r (now, answer) (later, next_answer) kid alg).outcome ≡ ok k)
            × ((find_key r (now, answer) (later, next_answer) kid alg).requests ≡ 1) =
          (ground (arith, same), ground (arith, same)) in
        (
          omega (arith, done.1),
          inl (k, keys, done.0, inr (inl a), match_key-FirstOf keys kid alg k m),
        )
    | inl m ↦
        let fetched = record r {
          cache = some (record { keys = keys; fetched_at = answer.read_at });
        } in
        let (count, outcome) = refetch_cases fetched later next_answer kid alg 1 in
        let done : find_key r (now, answer) (later, next_answer) kid alg
            ≡ refetch fetched later next_answer kid alg 1 =
          ground (arith, same) in
        rw done (
          omega (arith, count),
          elim outcome [
            | inr failed ↦ inr failed
            | inl (others, k, b, found, is_ok) ↦
                inl (k, others, is_ok, inr (inr b), match_key-FirstOf others kid alg k found)
          ],
        )
  ]
]

-- A request that fails, with the time at which it has failed.
abbrev pub no_answer : String → ℕ → Answer
no_answer e at = record { keys = err e; read_at = at }

-- A lookup of an unknown id in a fresh cache, whose second fetch fails, drops the cache: the
-- next lookup of a key that the cache has held fails when the server does not answer.
pub unknown_kid_evicts :
    (r : RemoteJwks) (c : Cache) (now later : ℕ) (answer : Answer) (kid alg e : String) (third : ℕ)
    (second : ℕ × Answer) (kid' alg' e' : String) (at at' : ℕ)
    → r.cache ≡ some c
    → now - c.fetched_at < r.ttl
    → match_key c.keys kid alg ≡ none
    → let evicted = (find_key r (now, answer) (later, no_answer e at) kid alg).remote in
      (evicted.cache ≡ none)
      × ((find_key evicted (third, no_answer e' at') second kid' alg').outcome ≡ err (fetching e'))
unfolding find_key refetch get_jwks is_fresh
unknown_kid_evicts r c now later answer kid alg e third second kid' alg' e' at at' held fresh
      unknown =
    let evicted = (find_key r (now, answer) (later, no_answer e at) kid alg).remote in
    let gone : evicted.cache ≡ none = ground arith in (gone, ground (arith, gone))
