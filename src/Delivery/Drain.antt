-- ===== src/Delivery/Drain.antt =====
-- The work that is left, and the end of it once the client is closed.
use csar_core.Prelude.{
  ℕ, ◌+◌, ◌*◌, ◌≤◌, ◌<◌, ◌≡◌, refl, sym, ap, ◌∙◌, ◌≢◌, ◌⊎◌, inl, inr, Bool, true, false, List, [],
  ◌∷◌, ◌++◌, arith, ltb, Bool-cases, length, List-cases, length-append, All,
}
use csar_core.Prelude.Counts.{bit, count}
use csar_core.Delivery.Client.{
  Client, flush, receive, tick, take_batch, send_done, is_done, Action, step, record_one,
  receive_one, timer, take_one, finish_send, rotate_working, begin_close, end_close,
}
use csar_core.Delivery.Flow.{Inv}
use csar_core.Delivery.Dispatch.{gathered, receive_cases}

abbrev pub batch_weight : {E : Type 0} → List E → ℕ
batch_weight [] = 0
batch_weight (e ∷ es) = 3

-- How many steps of the dispatch loop and of the workers are left, at most.
abbrev pub weight : {E : Type 0} → Client E → ℕ
weight c =
    4 * length c.events
    + batch_weight c.batch
    + 2 * length c.batches
    + length c.working
    + bit c.dispatching

-- The steps of the dispatch loop and of the workers.
abbrev pub is_internal : {E : Type 0} → Action E → Bool
is_internal receive_one = true
is_internal timer = true
is_internal take_one = true
is_internal (finish_send b) = true
is_internal _ = false

-- Each action of the list changes the client it is applied to.
abbrev pub Changes : {E : Type 0} → Client E → List (Action E) → Type 0
Changes c [] = Unit
Changes c (a ∷ rest) = (step c a ≢ c) × Changes (step c a) rest

module _ {E : Type 0} where
  flush-weight :
      (c : Client E)
      → (weight (flush c) ≤ weight c)
        × ((c.batch ≡ []) ⊎ (weight (flush c) < weight c))
        × ((flush c).dispatching ≡ c.dispatching)
  unfolding flush
  flush-weight c = elim (List-cases c.batch) [
    | inl e ↦ (ground arith, inl e, ground arith)
    | inr (b, bs, e) ↦ elim (Bool-cases (ltb (length c.batches) c.out_cap)) [
      | inl room ↦
          let grows = length-append c.batches ((b ∷ bs) ∷ []) in
          (ground (arith, grows), inr (ground (arith, grows)), ground arith)
      | inr full ↦ (ground arith, inr (ground arith), ground arith)
    ]
  ]

  stop-weight :
      (c : Client E)
      → c.dispatching ≡ true
      → weight (record (flush c) { dispatching = false }) < weight c
  stop-weight c on = let (le, _, same) = flush-weight c in ground (arith, le, same)

  batch_weight-append : (es : List E) (e : E) → batch_weight (es ++ e ∷ []) ≡ 3
  batch_weight-append [] e = refl
  batch_weight-append (x ∷ es) e = refl

  gathered-weight :
      (c : Client E) (e : E) (rest : List E)
      → c.events ≡ e ∷ rest
      → weight (gathered c e rest) < weight c
  gathered-weight c e rest q = ground (arith, batch_weight-append c.batch e)

  receive-weight : (c : Client E) → (receive c ≡ c) ⊎ (weight (receive c) < weight c)
  receive-weight c = elim (receive_cases c) [
    | inl (e, _) ↦ inl e
    | inr (inl (on, e, rest, q, room, f)) ↦ inr (rw f (gathered-weight c e rest q))
    | inr (inr (inl (on, e, rest, q, f))) ↦
        let less = gathered-weight c e rest q in
        let same = (flush-weight (gathered c e rest)).0 in inr (rw f (omega (arith, less, same)))
    | inr (inr (inr (on, q, over, f))) ↦ inr (rw f (stop-weight c on))
  ]

  tick-weight : (c : Client E) → (tick c ≡ c) ⊎ (weight (tick c) < weight c)
  unfolding tick flush
  tick-weight c = elim (Bool-cases c.dispatching) [
    | inr off ↦ inl (ground arith)
    | inl on ↦
        let same : tick c ≡ flush c = ground arith in
        elim (flush-weight c).1 [
          | inl none_left ↦ inl (ground arith)
          | inr less ↦ inr (rw same less)
        ]
  ]

  take-weight : (c : Client E) → (take_batch c ≡ c) ⊎ (weight (take_batch c) < weight c)
  unfolding take_batch
  take-weight c = elim (List-cases c.batches) [
    | inl e ↦ inl (ground arith)
    | inr (b, rest, e) ↦ elim (Bool-cases (ltb (length c.working) c.workers)) [
      | inr full ↦ inl (ground arith)
      | inl free ↦ inr (ground (arith, length-append c.working (b ∷ [])))
    ]
  ]

  send-weight :
      (c : Client E) (b : Bool) → (send_done c b ≡ c) ⊎ (weight (send_done c b) < weight c)
  unfolding send_done
  send-weight c b = elim (List-cases c.working) [
    | inl e ↦ inl (ground arith)
    | inr (x, rest, e) ↦ inr (ground arith)
  ]

  step-weight :
      (c : Client E) (a : Action E)
      → is_internal a ≡ true
      → (step c a ≡ c) ⊎ (weight (step c a) < weight c)
  unfolding step
  step-weight c receive_one h = receive-weight c
  step-weight c timer h = tick-weight c
  step-weight c take_one h = take-weight c
  step-weight c (finish_send b) h = send-weight c b
  step-weight c (record_one e) h = absurd (cc)
  step-weight c rotate_working h = absurd (cc)
  step-weight c begin_close h = absurd (cc)
  step-weight c end_close h = absurd (cc)

  -- The dispatch loop and the workers come to rest: when no caller records, they change the
  -- client at most `weight` times, in whatever order they run and whether sends succeed or fail.
  pub Changes-weight :
      (c : Client E) (actions : List (Action E))
      → All (λ a. is_internal a ≡ true) actions
      → Changes c actions
      → length actions ≤ weight c
  Changes-weight c [] own ch = omega arith
  Changes-weight c (a ∷ rest) own ch = elim (step-weight c a own.0) [
    | inl same ↦ absurd (ch.0 same)
    | inr less ↦ omega (arith, less, Changes-weight (step c a) rest own.1 ch.1)
  ]

  receive_stuck : (c : Client E) → c.events_closed ≡ true → receive c ≡ c → c.dispatching ≡ false
  receive_stuck c over same = elim (receive_cases c) [
    | inl (_, inl off) ↦ off
    | inl (_, inr live) ↦ absurd (cc)
    | inr (inl (on, e, rest, q, room, f)) ↦
        let less = gathered-weight c e rest q in
        absurd (omega (arith, less, ap weight (sym f ∙ same)))
    | inr (inr (inl (on, e, rest, q, f))) ↦
        let less = gathered-weight c e rest q in
        absurd (omega (arith, less, (flush-weight (gathered c e rest)).0, ap weight (sym f ∙ same)))
    | inr (inr (inr (on, q, _, f))) ↦
        absurd (omega (arith, stop-weight c on, ap weight (sym f ∙ same)))
  ]

  send_stuck : (c : Client E) → send_done c false ≡ c → c.working ≡ []
  unfolding send_done
  send_stuck c same = elim (List-cases c.working) [
    | inl e ↦ e
    | inr (b, rest, e) ↦
        let fewer : (send_done c false).working ≡ rest = ground arith in
        absurd (ground (arith, ap (λ (d : Client E). length d.working) same, fewer))
  ]

  take_stuck : (c : Client E) → 0 < c.workers → c.working ≡ [] → take_batch c ≡ c → c.batches ≡ []
  unfolding take_batch
  take_stuck c some_worker idle same = elim (List-cases c.batches) [
    | inl e ↦ e
    | inr (b, rest, e) ↦
        let fewer : (take_batch c).batches ≡ rest = ground arith in
        absurd (ground (arith, ap (λ (d : Client E). length d.batches) same, fewer))
  ]

  -- When the client is closed and neither the dispatch loop nor a worker can do anything more,
  -- both have ended, so that `Close` returns, and each accepted event was sent, failed or lost.
  pub stuck-is_done :
      (c : Client E) (p : E → Bool)
      → Inv c
      → c.closed ≡ true
      → 0 < c.workers
      → receive c ≡ c
      → take_batch c ≡ c
      → send_done c false ≡ c
      → (is_done c ≡ true)
        × (count p c.accepted ≡ count p c.sent + count p c.failed + count p c.lost)
  stuck-is_done c p v over some_worker r t s =
      let off = receive_stuck c (v.closing ∙ over) r in
      let idle = send_stuck c s in
      let none_waiting = take_stuck c some_worker idle t in
      elim v.stopped [
        | inl on ↦ absurd (cc)
        | inr (q, b, _) ↦ (ground arith, ground (arith, v.conserved p))
      ]
