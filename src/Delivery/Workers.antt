-- ===== src/Delivery/Workers.antt =====
-- The steps of the workers keep the invariant.
use csar_core.Prelude.{
  ◌+◌, ◌≡◌, inl, inr, Bool, List, [], ◌∷◌, ◌++◌, arith, ltb, Bool-cases, length, List-cases,
  length-append,
}
use csar_core.Prelude.Counts.{count, count-append_all}
use csar_core.Delivery.Client.{Client, log_fallback, take_batch, send_done, rotate}
use csar_core.Delivery.Flow.{Inv}
use csar_core.Delivery.Dispatch.{count_all-append}

module _ {E : Type 0} where
  pub take-Inv : (c : Client E) → Inv c → Inv (take_batch c)
  unfolding take_batch
  take-Inv c v = elim (List-cases c.batches) [
    | inl e ↦ rw (e, take_batch) v
    | inr (b, rest, e) ↦ elim (Bool-cases (ltb (length c.working) c.workers)) [
      | inr full ↦ let same : take_batch c ≡ c = ground arith in rw same v
      | inl free ↦
          let same : take_batch c ≡ record c { batches = rest; working = c.working ++ b ∷ [] } =
            ground arith in
          rw same (record {
            closing = v.closing;
            safe = v.safe;
            queue = v.queue;
            gathered = v.gathered;
            waiting = ground (arith, v.waiting);
            busy = ground (arith, length-append c.working (b ∷ []));
            small = (rw e at v.small).1;
            stopped = v.stopped;
            conserved = λ p. ground (arith, v.conserved p, count_all-append p c.working b);
          })
    ]
  ]

  -- A batch leaves the workers; the lists at the end grow by it.
  settle-Inv :
      (c : Client E) (b : List E) (rest : List (List E)) (sent failed logged : List E)
      → Inv c
      → c.working ≡ b ∷ rest
      → ((p : E → Bool)
          → count p sent + count p failed ≡ count p c.sent + count p c.failed + count p b)
      → Inv (record c { working = rest; sent = sent; failed = failed; logged = logged })
  settle-Inv c b rest sent failed logged v got same = record {
    closing = v.closing;
    safe = v.safe;
    queue = v.queue;
    gathered = v.gathered;
    waiting = v.waiting;
    busy = ground (arith, v.busy);
    small = v.small;
    stopped = v.stopped;
    conserved = λ p. ground (arith, v.conserved p, same p);
  }

  pub send-Inv : (c : Client E) (b : Bool) → Inv c → Inv (send_done c b)
  unfolding send_done
  send-Inv c b v = elim (List-cases c.working) [
    | inl e ↦ let same : send_done c b ≡ c = ground arith in rw same v
    | inr (x, rest, e) ↦ elim (Bool-cases b) [
      | inl bad ↦
          let same : send_done c b
              ≡ record c { working = rest; failed = c.failed ++ x; logged = log_fallback c x } =
            ground arith in
          rw same (
            settle-Inv c x rest c.sent (c.failed ++ x) _ v e
              (λ p. omega (arith, count-append_all p c.failed x)))
      | inr good ↦
          let same : send_done c b ≡ record c { working = rest; sent = c.sent ++ x } =
            ground arith in
          rw same (
            settle-Inv c x rest (c.sent ++ x) c.failed c.logged v e
              (λ p. omega (arith, count-append_all p c.sent x)))
    ]
  ]

  pub rotate-Inv : (c : Client E) → Inv c → Inv (rotate c)
  unfolding rotate
  rotate-Inv c v = elim (List-cases c.working) [
    | inl e ↦ let same : rotate c ≡ c = ground arith in rw same v
    | inr (x, rest, e) ↦
        let same : rotate c ≡ record c { working = rest ++ x ∷ [] } = ground arith in
        rw same (record {
          closing = v.closing;
          safe = v.safe;
          queue = v.queue;
          gathered = v.gathered;
          waiting = v.waiting;
          busy = ground (arith, v.busy, length-append rest (x ∷ []));
          small = v.small;
          stopped = v.stopped;
          conserved = λ p. ground (arith, v.conserved p, count_all-append p rest x);
        })
  ]
