-- ===== src/StsClient/Retry/Laws.antt =====
-- How often a request is sent, and how many retries the budget lets through.
use csar_core.Prelude.{
  ℕ, zero, suc, ◌+◌, ◌-◌, ◌/◌, ◌≤◌, ◌<◌, min, String, ◌≡◌, refl, ◌⊎◌, inl, inr, Bool, true, List,
  [], ◌∷◌, arith, leb, if◌then◌else◌, Bool-cases, Option-cases,
}
use csar_core.StsClient.Retry.Repeat.{
  IsRepeatable, retryable-IsRepeatable, IsPassing, retry-IsPassing,
}
use csar_core.StsClient.Retry.{
  max_retries, budget_cap, refill_time, RetryBudget, Request, Reply, is_retryable_request,
  clone_error, should_retry_response, refill, take, Attempt, Trip, count_send, attempt_loop,
  round_trip, reply,
}

-- The tokens that are there by an instant if none is taken.
abbrev pub supply : RetryBudget → ℕ → ℕ
supply b until = b.tokens + (until - b.last) / refill_time

-- The number of times that `take` succeeds at the instants.
unfoldable pub grants : RetryBudget → List ℕ → ℕ
grants b [] = 0
grants b (now ∷ rest) =
    let (granted, b') = take b now in
    let later = grants b' rest in if granted then later + 1 else later

-- Each instant is no earlier than the one before, the first no earlier than `from`, none later
-- than `until`.
abbrev pub Ordered : ℕ → List ℕ → ℕ → Type 0
Ordered from [] until = from ≤ until
Ordered from (now ∷ rest) until = (from ≤ now) × Ordered now rest until

Ordered-le : (from : ℕ) (times : List ℕ) (until : ℕ) → Ordered from times until → from ≤ until
Ordered-le from [] until h = h
Ordered-le from (now ∷ rest) until (le, later) = omega (arith, Ordered-le now rest until later)

refill-supply :
    (b : RetryBudget) (now until : ℕ)
    → b.last ≤ now
    → now ≤ until
    → (supply (refill b now) until ≤ supply b until)
      × (b.last ≤ (refill b now).last)
      × ((refill b now).last ≤ now)
unfolding refill
refill-supply b now until le lt = elim (Bool-cases (leb refill_time (now - b.last))) [
  | inl due ↦ (rw due (omega (arith, min-le b.tokens)), ground arith, ground arith)
  | inr early ↦ (ground arith, ground arith, ground arith)
]
  where
    min-le :
        (t : ℕ)
        → min budget_cap (t + (now - b.last) / refill_time) ≤ t + (now - b.last) / refill_time
    min-le t = omega arith

take-supply :
    (b : RetryBudget) (now until : ℕ)
    → b.last ≤ now
    → now ≤ until
    → (supply (take b now).1 until + (if (take b now).0 then 1 else 0) ≤ supply b until)
      × (b.last ≤ (take b now).1.last)
      × ((take b now).1.last ≤ now)
unfolding take
take-supply b now until le lt =
    let r = refill-supply b now until le lt in
    elim (Bool-cases (leb (refill b now).tokens 0)) [
      | inl empty ↦ rw empty (omega (arith, r.0), r.1, r.2)
      | inr some_left ↦ rw some_left (ground (arith, r.0), r.1, r.2)
    ]

-- Over any sequence of tests of the budget, by however many concurrent requests, the number of
-- retries that it lets through is at most the tokens at the start and one for each second that
-- has passed since the budget's last refill.
pub grants-supply :
    (b : RetryBudget) (times : List ℕ) (until : ℕ)
    → Ordered b.last times until
    → grants b times ≤ b.tokens + (until - b.last) / refill_time
unfolding grants
grants-supply b times until h = grants-from b b.last times until (omega arith) h
  where
    grants-from :
        (b : RetryBudget) (from : ℕ) (times : List ℕ) (until : ℕ)
        → b.last ≤ from
        → Ordered from times until
        → grants b times ≤ supply b until
    grants-from b from [] until le h = omega arith
    grants-from b from (now ∷ rest) until le (early, later) =
        let le' : b.last ≤ now = omega (arith, le, early) in
        let t = take-supply b now until le' (Ordered-le now rest until later) in
        let rec = grants-from (take b now).1 now rest until t.2 later in
        elim (Bool-cases (take b now).0) [
          | inl yes' ↦ rw yes' (omega (arith, rec, rw yes' at t.0))
          | inr no' ↦ rw no' (omega (arith, rec, rw no' at t.0))
        ]

module _ (contains : String → String → Bool) (attempts : ℕ → Attempt) where
  loop_cases :
      (left n : ℕ) (r : Request) (b : RetryBudget)
      → ((t : Trip) × (attempt_loop contains attempts left n r b ≡ t)
          × (t.sent ≤ 1)
          × ((a : Reply) → t.outcome ≡ reply a → (t.sent ≡ 1) × (a ≡ (attempts n).answer)))
        ⊎ ((l : ℕ) × (b' : RetryBudget) × (left ≡ suc l)
            × (should_retry_response contains (attempts n).answer ≡ true)
            × (attempt_loop contains attempts left n r b
                ≡ count_send (attempt_loop contains attempts l (suc n) r b')))
  unfolding attempt_loop
  loop_cases zero n r b = elim (Option-cases (clone_error r n)) [
    | inl e ↦ inl (_, refl, ground arith, λ a h. (ground arith, ground arith))
    | inr (x, e) ↦ inl (_, refl, ground arith, λ a h. absurd (ground arith))
  ]
  loop_cases (suc left) n r b = elim (Option-cases (clone_error r n)) [
    | inr (x, e) ↦ inl (_, refl, ground arith, λ a h. absurd (ground arith))
    | inl e ↦ elim (Bool-cases (should_retry_response contains (attempts n).answer)) [
      | inr final ↦ inl (_, refl, ground arith, λ a h. (ground arith, ground arith))
      | inl again ↦ elim (Bool-cases (take b (attempts n).now).0) [
        | inr spent ↦ inl (_, refl, ground arith, λ a h. (ground arith, ground arith))
        | inl granted ↦ elim (Option-cases (attempts n).interrupted) [
          | inr (x, q) ↦ inl (_, refl, ground arith, λ a h. absurd (ground arith))
          | inl q ↦ inr (left, (take b (attempts n).now).1, refl, again, ground arith)
        ]
      ]
    ]
  ]

  ends_here :
      (left n : ℕ) (r : Request) (b : RetryBudget) (a : Reply) (t : Trip)
      → attempt_loop contains attempts left n r b ≡ t
      → ((a : Reply) → t.outcome ≡ reply a → (t.sent ≡ 1) × (a ≡ (attempts n).answer))
      → t.outcome ≡ reply a
      → (1 ≤ (attempt_loop contains attempts left n r b).sent)
        × ((attempt_loop contains attempts left n r b).sent ≤ left + 1)
        × (a ≡ (attempts (n + (attempt_loop contains attempts left n r b).sent - 1)).answer)
  ends_here left n r b a t e last h =
      let only = last a h in
      let here : n + t.sent - 1 ≡ n = omega (arith, only.0) in
      rw e (omega (arith, only.0), omega (arith, only.0), rw here only.1)

  loop-reply :
      (left n : ℕ) (r : Request) (b : RetryBudget) (a : Reply)
      → (attempt_loop contains attempts left n r b).outcome ≡ reply a
      → (1 ≤ (attempt_loop contains attempts left n r b).sent)
        × ((attempt_loop contains attempts left n r b).sent ≤ left + 1)
        × (a ≡ (attempts (n + (attempt_loop contains attempts left n r b).sent - 1)).answer)
  loop-reply zero n r b a h = elim (loop_cases zero n r b) [
    | inl (t, e, le, last) ↦ ends_here zero n r b a t e last (rw e at h)
    | inr (l, b', q, again, e) ↦ absurd (cc)
  ]
  loop-reply (suc left) n r b a h = elim (loop_cases (suc left) n r b) [
    | inl (t, e, le, last) ↦ ends_here (suc left) n r b a t e last (rw e at h)
    | inr (l, b', q, again, e) ↦
        let same : l ≡ left = omega (arith, q) in
        let e' : attempt_loop contains attempts (suc left) n r b
            ≡ count_send (attempt_loop contains attempts left (suc n) r b') =
          rw same at e in
        let next = loop-reply left (suc n) r b' a (rw e' at h) in
        let m = (attempt_loop contains attempts left (suc n) r b').sent in
        let shift : n + (m + 1) - 1 ≡ suc n + m - 1 = omega arith in
        rw e' (omega arith, omega (arith, next.1), rw shift next.2)
  ]

  -- `RoundTrip` of a request that may be repeated gives the reply of the last attempt that it
  -- sent, when it gives one, and sends at least one and at most three.
  pub round_trip-reply :
      (r : Request) (b : RetryBudget) (a : Reply)
      → is_retryable_request r ≡ true
      → (round_trip contains attempts r b).outcome ≡ reply a
      → (1 ≤ (round_trip contains attempts r b).sent)
        × ((round_trip contains attempts r b).sent ≤ 3)
        × (a ≡ (attempts ((round_trip contains attempts r b).sent - 1)).answer)
  unfolding round_trip
  round_trip-reply r b a safe h =
      let l = loop-reply max_retries 0 r b a (rw safe at h) in
      let m = (attempt_loop contains attempts max_retries 0 r b).sent in
      let shift : 0 + m - 1 ≡ m - 1 = omega arith in
      rw safe (l.0, omega (arith, l.1), rw shift at l.2)

  loop-retried :
      (left n k : ℕ) (r : Request) (b : RetryBudget)
      → suc k < (attempt_loop contains attempts left n r b).sent
      → should_retry_response contains (attempts (n + k)).answer ≡ true
  loop-retried zero n k r b h = elim (loop_cases zero n r b) [
    | inl (t, e, le, last) ↦ absurd (omega (arith, le, rw e at h))
    | inr (l, b', q, again, e) ↦ absurd (cc)
  ]
  loop-retried (suc left) n zero r b h = elim (loop_cases (suc left) n r b) [
    | inl (t, e, le, last) ↦ absurd (omega (arith, le, rw e at h))
    | inr (l, b', q, again, e) ↦ let here : n + 0 ≡ n = omega arith in rw here again
  ]
  loop-retried (suc left) n (suc k) r b h = elim (loop_cases (suc left) n r b) [
    | inl (t, e, le, last) ↦ absurd (omega (arith, le, rw e at h))
    | inr (l, b', q, again, e) ↦
        let same : l ≡ left = omega (arith, q) in
        let e' : attempt_loop contains attempts (suc left) n r b
            ≡ count_send (attempt_loop contains attempts left (suc n) r b') =
          rw same at e in
        let shift : n + suc k ≡ suc n + k = omega arith in
        rw shift (loop-retried left (suc n) k r b' (omega (arith, rw e' at h)))
  ]

  -- Whenever a further attempt was sent, the request was a GET, HEAD, OPTIONS or TRACE, or a POST,
  -- PUT, PATCH or DELETE with an idempotency key and a body that is absent or can be had again;
  -- and each attempt before the last got a status 502, 503 or 504, or an error that timed out or
  -- whose text speaks of a connection reset or refused, a broken pipe or an unexpected end.
  pub round_trip-retried :
      (r : Request) (b : RetryBudget) (k : ℕ)
      → suc k < (round_trip contains attempts r b).sent
      → IsRepeatable r × IsPassing contains (attempts k).answer
  unfolding round_trip
  round_trip-retried r b k h = elim (Bool-cases (is_retryable_request r)) [
    | inl safe ↦
        let shift : 0 + k ≡ k = omega arith in
        (
          retryable-IsRepeatable r safe,
          retry-IsPassing contains _
              (rw shift at (loop-retried max_retries 0 k r b (rw safe at h))),
        )
    | inr unsafe ↦ absurd (omega (arith, rw unsafe at h))
  ]
