-- ===== src/StsClient/Retry.antt =====
-- stsclient/retry_transport.go. The base transport, the clock, the pauses and `GetBody` are
-- arguments, each by the number of the attempt. Time is in nanoseconds.
pub mod Repeat
pub mod Laws
use csar_core.Prelude.{
  ℕ, zero, suc, ◌+◌, ◌-◌, ◌/◌, min, String, Bool, true, false, not, ◌&&◌, ◌||◌, Option, none, some,
  leb, if◌then◌else◌, string_eq, ◌==◌, nat_eq, is_some,
}

abbrev pub max_retries : ℕ
max_retries = 2

abbrev pub budget_cap : ℕ
budget_cap = 20

-- `routerRetryRefill`, a second.
abbrev pub refill_time : ℕ
refill_time = 1000000000

pub record RetryBudget : Type 0 where
  pub tokens : ℕ
  pub last : ℕ

unfoldable pub new_budget : ℕ → RetryBudget
new_budget now = record { tokens = budget_cap; last = now }

-- `get_body` is `GetBody`, if it is set: the body for an attempt, or its failure.
pub record Request : Type 0 where
  pub method : String
  pub idempotency_key : String
  pub has_body : Bool
  pub get_body : Option (ℕ → Option String)

-- An error of the base transport: whether it is a `net.Error` that timed out, and its text in
-- lower case with what the text contains.
pub record NetError : Type 0 where
  pub timed_out : Bool
  pub message : String

-- What the base transport returns: a response, by its status, or nil, or an error.
pub data Reply : Type 0 where
  response : ℕ → Reply
  nil_response : Reply
  failure : NetError → Reply

-- What `RoundTrip` returns.
pub data Outcome : Type 0 where
  reply : Reply → Outcome
  body_failed : String → Outcome
  context_ended : String → Outcome

unfoldable pub is_retryable_request : Request → Bool
is_retryable_request r =
    if r.method == "GET" || r.method == "HEAD" || r.method == "OPTIONS" || r.method == "TRACE"
    then true
    else if r.method == "POST" || r.method == "PUT" || r.method == "PATCH" || r.method == "DELETE"
    then not (r.idempotency_key == "") && (not r.has_body || is_some r.get_body)
    else false

-- The failure of `cloneRequestForAttempt`, if it fails.
unfoldable pub clone_error : Request → ℕ → Option String
clone_error r zero = none
clone_error r (suc n) = elim r.get_body [ none ↦ none | some get ↦ get (suc n) ]

-- `contains` is `strings.Contains` on the text in lower case.
module _ (contains : String → String → Bool) where
  unfoldable pub is_retryable_network_error : NetError → Bool
  is_retryable_network_error e =
      e.timed_out
      || contains e.message "connection reset"
      || contains e.message "connection refused"
      || contains e.message "broken pipe"
      || contains e.message "unexpected eof"

  unfoldable pub should_retry_response : Reply → Bool
  should_retry_response (failure e) = is_retryable_network_error e
  should_retry_response nil_response = false
  should_retry_response (response status) = status == 502 || status == 503 || status == 504

-- The refill at the start of `take`.
unfoldable pub refill : RetryBudget → ℕ → RetryBudget
refill b now =
    if leb refill_time (now - b.last)
    then record { tokens = min budget_cap (b.tokens + (now - b.last) / refill_time); last = now }
    else b

unfoldable pub take : RetryBudget → ℕ → Bool × RetryBudget
take b now =
    let b' = refill b now in
    if leb b'.tokens 0 then (false, b') else (true, record b' { tokens = b'.tokens - 1 })

-- What an attempt gets from outside: the reply, the instant of the budget's test, and the error
-- of the context if it ends in the pause.
pub record Attempt : Type 0 where
  pub answer : Reply
  pub now : ℕ
  pub interrupted : Option String

-- The result of `RoundTrip`, the budget afterwards, and how often the base transport was called.
pub record Trip : Type 0 where
  pub outcome : Outcome
  pub budget : RetryBudget
  pub sent : ℕ

-- One more call of the base transport.
abbrev pub count_send : Trip → Trip
count_send t = record t { sent = t.sent + 1 }

module _ (contains : String → String → Bool) (attempts : ℕ → Attempt) where
  -- The loop from an attempt on, with the number of retries that are left.
  unfoldable pub attempt_loop : ℕ → ℕ → Request → RetryBudget → Trip
  attempt_loop zero n r b = elim (clone_error r n) [
    | some e ↦ record { outcome = body_failed e; budget = b; sent = 0 }
    | none ↦ record { outcome = reply (attempts n).answer; budget = b; sent = 1 }
  ]
  attempt_loop (suc left) n r b =
      let answer = (attempts n).answer in
      let (granted, b') = take b (attempts n).now in
      let next = attempt_loop left (suc n) r b' in
      elim (clone_error r n) [
        | some e ↦ record { outcome = body_failed e; budget = b; sent = 0 }
        | none ↦
            if not (should_retry_response contains answer)
            then record { outcome = reply answer; budget = b; sent = 1 }
            else if not granted
            then record { outcome = reply answer; budget = b'; sent = 1 }
            else (elim (attempts n).interrupted [
              | some e ↦ record { outcome = context_ended e; budget = b'; sent = 1 }
              | none ↦ count_send next
            ])
      ]

  unfoldable pub round_trip : Request → RetryBudget → Trip
  round_trip r b =
      if not (is_retryable_request r)
      then record { outcome = reply (attempts 0).answer; budget = b; sent = 1 }
      else attempt_loop max_retries 0 r b
