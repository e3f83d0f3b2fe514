-- ===== src/StsClient/Retry/Repeat.antt =====
-- Which requests may be repeated, and behind which replies.
use csar_core.Prelude.{
  String, ◌≡◌, ◌≢◌, ◌⊎◌, inl, inr, Bool, true, false, ◌||◌, [], ◌∷◌, arith, eq_iff, string_eq, ◌==◌,
  nat_eq, Bool-cases, is_some, OneOf,
}
use csar_core.StsClient.Retry.{
  Request, Reply, is_retryable_request, is_retryable_network_error, should_retry_response, response,
  nil_response, failure,
}

-- A request that the code may repeat: its method has no effect, or it is one of the methods that
-- write, with an idempotency key and a body that is absent or can be had again.
abbrev pub IsRepeatable : Request → Type 0
IsRepeatable r =
    OneOf r.method ("GET" ∷ "HEAD" ∷ "OPTIONS" ∷ "TRACE" ∷ [])
    ⊎ (OneOf r.method ("POST" ∷ "PUT" ∷ "PATCH" ∷ "DELETE" ∷ [])
        × (r.idempotency_key ≢ "")
        × ((r.has_body ≡ false) ⊎ (is_some r.get_body ≡ true)))

four_words :
    (s a b c d : String)
    → (s == a || s == b || s == c || s == d) ≡ true
    → OneOf s (a ∷ b ∷ c ∷ d ∷ [])
four_words s a b c d h = ground (arith, eq_iff s a, eq_iff s b, eq_iff s c, eq_iff s d)

pub retryable-IsRepeatable : (r : Request) → is_retryable_request r ≡ true → IsRepeatable r
unfolding is_retryable_request
retryable-IsRepeatable r h =
    elim (Bool-cases
      (r.method == "GET" || r.method == "HEAD" || r.method == "OPTIONS" || r.method == "TRACE")) [
        | inl reads ↦ inl (four_words r.method "GET" "HEAD" "OPTIONS" "TRACE" reads)
        | inr not_read ↦
            elim (Bool-cases (
              r.method == "POST"
              || r.method == "PUT"
              || r.method == "PATCH"
              || r.method == "DELETE")) [
                | inr odd ↦ absurd (ground arith)
                | inl writes ↦ inr (
                  four_words r.method "POST" "PUT" "PATCH" "DELETE" writes,
                  ground (arith, eq_iff r.idempotency_key ""),
                  (elim (Bool-cases r.has_body) [
                    | inl body ↦ inr (ground arith)
                    | inr bare ↦ inl bare
                  ]),
                )
              ]
      ]

-- What an attempt gets that is followed by another one: a response with one of three statuses, or
-- an error that timed out or whose text has one of four words.
abbrev pub IsPassing : (String → String → Bool) → Reply → Type 0
IsPassing contains (response status) = (status ≡ 502) ⊎ (status ≡ 503) ⊎ (status ≡ 504)
IsPassing contains nil_response = ⊥
IsPassing contains (failure e) =
    (e.timed_out ≡ true)
    ⊎ (contains e.message "connection reset" ≡ true)
    ⊎ (contains e.message "connection refused" ≡ true)
    ⊎ (contains e.message "broken pipe" ≡ true)
    ⊎ (contains e.message "unexpected eof" ≡ true)

pub retry-IsPassing :
    (contains : String → String → Bool) (a : Reply)
    → should_retry_response contains a ≡ true
    → IsPassing contains a
unfolding should_retry_response is_retryable_network_error
retry-IsPassing contains (response status) h = ground arith
retry-IsPassing contains nil_response h = absurd (cc)
retry-IsPassing contains (failure e) h = ground arith
