-- ===== src/StsClient/Tests.antt =====
-- The theorems on the retry transport at concrete inputs: two answers 503, then 200.
use csar_core.Prelude.{
  ℕ, zero, suc, ◌+◌, ◌-◌, ◌/◌, ◌≤◌, String, ◌≡◌, refl, Bool, false, none, [], ◌∷◌, arith, string_eq,
  ◌==◌, nat_eq,
}
use csar_core.StsClient.Retry.{
  refill_time, RetryBudget, Request, is_retryable_request, clone_error, should_retry_response,
  refill, take, Attempt, attempt_loop, round_trip, response,
}
use csar_core.StsClient.Retry.Repeat
use csar_core.StsClient.Retry.Laws

abbrev contains : String → String → Bool
contains s t = s == t

abbrev flaky : ℕ → Attempt
flaky zero = record { answer = response 503; now = 5; interrupted = none }
flaky (suc zero) = record { answer = response 503; now = 6; interrupted = none }
flaky (suc (suc n)) = record { answer = response 200; now = 7; interrupted = none }

abbrev get : Request
get = record { method = "GET"; idempotency_key = ""; has_body = false; get_body = none }

abbrev budget : RetryBudget
budget = record { tokens = 20; last = 0 }

sends_three : (round_trip contains flaky get budget).sent ≡ 3
unfolding round_trip attempt_loop is_retryable_request clone_error should_retry_response take refill
sends_three = refl

round_trip-retried_example : Repeat.IsRepeatable get × Repeat.IsPassing contains (flaky 1).answer
round_trip-retried_example =
    Laws.round_trip-retried contains flaky get budget 1 (rw sends_three (omega arith))

grants-supply_example :
    Laws.grants budget (5 ∷ 6 ∷ 2000000000 ∷ [])
    ≤ budget.tokens + (3000000000 - budget.last) / refill_time
grants-supply_example =
    Laws.grants-supply budget (5 ∷ 6 ∷ 2000000000 ∷ []) 3000000000
      (omega arith, (omega arith, (omega arith, omega arith)))
