-- ===== src/Cloud/Iam/Answered.antt =====
-- One call of `ResolveToken` against the request that the mode calls for and its answer.
use csar_core.Prelude.{
  ℕ, ◌+◌, ◌*◌, ◌%◌, ◌^◌, ◌≤◌, ◌<◌, String, ◌≡◌, refl, ◌≢◌, ◌⊎◌, inl, inr, Option, none, some, arith,
  eq_iff, ltb, string_eq, ◌==◌, nat_eq, Bool-cases, text_ne, Result, Result-cases, ok, err,
}
use csar_core.Cloud.Iam.{
  second, SaKey, IamError, Resolver, Answer, Request, Resolved, read_answer, exchange_expiry,
  metadata_expiry, exchange_sa_token, fetch_token, resolve_token, mint_jwt, transport,
  decode_response, cannot_refresh, http_status, exchange_oauth, ask_metadata, exchange_jwt,
}
use csar_core.Cloud.Iam.Laws.{resolve_token_cases}

-- The life that the answer gives to its token: a number of seconds from the metadata service, if
-- they make a duration of Go; else an instant, or eleven hours when there is none.
abbrev pub Expires : String → ℕ → ℕ → ℕ → Type 0
Expires mode now n exp =
    ((mode ≡ "metadata") × ((2 ^ 63 ≤ n * 1000000000) ⊎ (exp ≡ now + n * 1000000000)))
    ⊎ ((mode ≢ "metadata") × (n ≡ 0) × (exp ≡ now + 39600 * 1000000000))
    ⊎ ((mode ≢ "metadata") × (n ≢ 0) × (exp ≡ n))

-- The reply is a response of status 200 whose body gives a token and a number.
abbrev pub Grants : Result String Answer → String → ℕ → Type 0
Grants reply tok n = (a : Answer) × (reply ≡ ok a) × (a.status ≡ 200) × (a.decoded ≡ ok (tok, n))

-- There is no response, or it has another status or a body that cannot be decoded.
abbrev pub Refuses : Result String Answer → Type 0
Refuses reply =
    ((e : String) × (reply ≡ err e))
    ⊎ ((a : Answer) × (reply ≡ ok a) × ((a.status ≢ 200) ⊎ ((e : String) × (a.decoded ≡ err e))))

read_answer_cases :
    (lifetime : ℕ → ℕ) (reply : Result String Answer)
    → (Refuses reply × ((e : IamError) × (read_answer lifetime reply ≡ err e)))
      ⊎ ((tok : String) × (n : ℕ) × Grants reply tok n
          × (read_answer lifetime reply ≡ ok (tok, lifetime n)))
unfolding read_answer
read_answer_cases lifetime (err e) = inl (inl (e, refl), (transport e, refl))
read_answer_cases lifetime (ok a) = elim (Bool-cases (a.status == 200)) [
  | inr bad ↦ inl (inr (a, refl, inl (ground arith)), (http_status a.status, ground arith))
  | inl good ↦ elim (Result-cases a.decoded) [
    | inr (e, f) ↦ inl (inr (a, refl, inr (e, f)), (decode_response e, ground arith))
    | inl (got, f) ↦ inr (got.0, got.1, (a, refl, ground arith, f), ground arith)
  ]
]

exchange-Expires :
    (mode : String) (now n : ℕ) → mode ≢ "metadata" → Expires mode now n (exchange_expiry now n)
exchange-Expires mode now n other = elim (Bool-cases (n == 0)) [
  | inl e ↦ inr (inl (other, ground arith, ground arith))
  | inr e ↦ inr (inr (other, ground arith, ground arith))
]

metadata-duration :
    (now n : ℕ) → (2 ^ 63 ≤ n * 1000000000) ⊎ (metadata_expiry now n ≡ now + n * 1000000000)
unfolding metadata_expiry
metadata-duration now n = elim (Bool-cases (ltb (n * 1000000000) (2 ^ 63))) [
  | inr large ↦ inl (ground arith)
  | inl small ↦
      let same : n * second % 2 ^ 64 ≡ n * second = ground arith in inr (rw same (ground arith))
]

module _ {K : Type 0} (server : Request → Result String Answer)
    (sign_jwt : Option (SaKey K) → ℕ → Result String String) where
  -- The request that the mode calls for.
  abbrev pub Asks : Resolver K → ℕ → Request → Type 0
  Asks r now request =
      ((r.auth_mode ≡ "oauth_token") × (request ≡ exchange_oauth r.oauth_token))
      ⊎ ((r.auth_mode ≡ "metadata") × (request ≡ ask_metadata))
      ⊎ ((r.auth_mode ≡ "service_account")
          × ((jwt : String) × (sign_jwt r.sa_key now ≡ ok jwt) × (request ≡ exchange_jwt jwt)))

  -- There is no request: the mode has none, or the JWT cannot be signed.
  abbrev pub Unsendable : Resolver K → ℕ → Type 0
  Unsendable r now =
      ((r.auth_mode ≢ "oauth_token")
        × (r.auth_mode ≢ "metadata")
        × (r.auth_mode ≢ "service_account"))
      ⊎ ((r.auth_mode ≡ "service_account") × ((e : String) × (sign_jwt r.sa_key now ≡ err e)))

  -- The token need not be fetched.
  abbrev pub Lasts : Resolver K → ℕ → Type 0
  Lasts r now =
      (r.auth_mode ≡ "iam_token") ⊎ ((r.auth_token ≢ "") × (now + 30 * 1000000000 < r.expiry))

  -- What a request gives: the token of an answer that grants one, which is kept with its expiry,
  -- or an error, which leaves the resolver as it was.
  abbrev pub Uses : Resolver K → ℕ → Request → Resolved K → Type 0
  Uses r now request done =
      ((tok : String) × (n exp : ℕ) × Grants (server request) tok n
        × Expires r.auth_mode now n exp
        × (done.outcome ≡ ok tok)
        × (done.resolver ≡ record r { auth_token = tok; expiry = exp }))
      ⊎ (Refuses (server request) × ((e : IamError) × (done.outcome ≡ err e)) × (done.resolver ≡ r))

  -- A fetch in all modes.
  abbrev Fetches : Resolver K → ℕ → Type 0
  Fetches r now =
      let fetched = fetch_token server sign_jwt r now in
      (Unsendable r now × (fetched.1 ≡ none) × ((e : IamError) × (fetched.0 ≡ err e)))
      ⊎ ((request : Request) × (lifetime : ℕ → ℕ) × Asks r now request
          × (fetched.1 ≡ some request)
          × (fetched.0 ≡ read_answer lifetime (server request))
          × ((n : ℕ) → Expires r.auth_mode now n (lifetime n)))

  fetch_token-Fetches : (r : Resolver K) (now : ℕ) → Fetches r now
  unfolding fetch_token exchange_sa_token
  fetch_token-Fetches r now = elim (Bool-cases (r.auth_mode == "oauth_token")) [
    | inl e ↦
        let m : r.auth_mode ≡ "oauth_token" = (eq_iff r.auth_mode "oauth_token").0 e in
        inr (
          exchange_oauth r.oauth_token,
          exchange_expiry now,
          inl (m, refl),
          ground arith,
          ground arith,
          λ n. exchange-Expires r.auth_mode now n (rw m (text_ne "oauth_token" "metadata" refl)),
        )
    | inr a ↦ elim (Bool-cases (r.auth_mode == "metadata")) [
      | inl e ↦
          let m : r.auth_mode ≡ "metadata" = (eq_iff r.auth_mode "metadata").0 e in
          inr (
            ask_metadata,
            metadata_expiry now,
            inr (inl (m, refl)),
            ground arith,
            ground arith,
            λ n. inl (m, metadata-duration now n),
          )
      | inr b ↦ elim (Bool-cases (r.auth_mode == "service_account")) [
        | inr c ↦ inl (
          inl (
            ground (arith, eq_iff r.auth_mode "oauth_token"),
            ground (arith, eq_iff r.auth_mode "metadata"),
            ground (arith, eq_iff r.auth_mode "service_account"),
          ),
          ground arith,
          (cannot_refresh r.auth_mode, ground arith),
        )
        | inl e ↦
            let m : r.auth_mode ≡ "service_account" = (eq_iff r.auth_mode "service_account").0 e in
            elim (Result-cases (sign_jwt r.sa_key now)) [
              | inr (x, f) ↦ inl (inr (m, (x, f)), ground arith, (mint_jwt x, ground arith))
              | inl (jwt, f) ↦ inr (
                exchange_jwt jwt,
                exchange_expiry now,
                inr (inr (m, (jwt, f, refl))),
                ground arith,
                ground arith,
                λ n.
                    exchange-Expires r.auth_mode now n
                      (rw m (text_ne "service_account" "metadata" refl)),
              )
            ]
      ]
    ]
  ]

  -- A call sends a request exactly if the token at hand neither is configured nor outlives the
  -- margin of thirty seconds, and if the mode has a request to send; it is the one that the mode
  -- calls for. Without a request a token that lasts is returned, else the call fails, and nothing
  -- changes. With one, the token of an answer of status 200 is returned and kept with its expiry,
  -- and any other answer makes the call fail and changes nothing.
  pub resolve_token-Uses :
      (r : Resolver K) (now : ℕ)
      → let done = resolve_token server sign_jwt r now in
        ((done.sent ≡ none)
          × (done.resolver ≡ r)
          × ((Lasts r now × (done.outcome ≡ ok r.auth_token))
              ⊎ ((¬ Lasts r now) × Unsendable r now × ((e : IamError) × (done.outcome ≡ err e)))))
        ⊎ ((request : Request) × (done.sent ≡ some request)
            × (¬ Lasts r now)
            × Asks r now request
            × Uses r now request done)
  resolve_token-Uses r now = elim (resolve_token_cases server sign_jwt r now) [
    | inl (lasts, done, same, quiet) ↦ inl (quiet, same, inl (lasts, done))
    | inr (other, spent, results, sent) ↦
        let lapsed : ¬ Lasts r now = λ l. elim l [
          | inl m ↦ absurd (other m)
          | inr (held, later) ↦ (elim spent [
            | inl empty ↦ absurd (held empty)
            | inr old ↦ absurd (omega (arith, old, later))
          ])
        ] in
        elim (fetch_token-Fetches r now) [
          | inl (unsendable, quiet, (e, failed)) ↦ (elim results [
            | inl (x, f, done, same) ↦ inl (ground arith, same, inr (lapsed, unsendable, (x, done)))
            | inr (tok, exp, f, done, same) ↦ absurd (ground arith)
          ])
          | inr (request, lifetime, asks, asked, got, lives) ↦
              let fetched = read_answer_cases lifetime (server request) in
              inr (
                request,
                ground arith,
                lapsed,
                asks,
                (elim fetched [
                  | inl (refuses, (y, g)) ↦ (elim results [
                    | inl (x, f, done, same) ↦ inr (refuses, (x, done), same)
                    | inr (tok, exp, f, done, same) ↦ absurd (ground arith)
                  ])
                  | inr (tok', n, grants, g) ↦ (elim results [
                    | inl (x, f, done, same) ↦ absurd (ground arith)
                    | inr (tok, exp, f, done, same) ↦
                        let t : tok' ≡ tok = ground arith in
                        let l : lifetime n ≡ exp = ground arith in
                        inl (tok, n, exp, rw t at grants, rw l at (lives n), done, same)
                  ])
                ]),
              )
        ]
  ]
