-- ===== src/Delivery/Reachable.antt =====
-- The invariant along every history.
use csar_core.Prelude.{
  ◌≡◌, ◌∙◌, inl, inr, true, ◌&&◌, some, List, [], ◌∷◌, arith, Bool-cases, length-append,
}
use csar_core.Prelude.Counts.{count-append}
use csar_core.Delivery.Client.{
  ClientConfig, Client, new_client, push, record_event, flush, tick, take_batch, send_done, rotate,
  close_begin, is_done, close_end, Action, step, run, record_one, receive_one, timer, take_one,
  finish_send, rotate_working, begin_close, end_close,
}
use csar_core.Delivery.Flow.{Inv}
use csar_core.Delivery.Dispatch.{tick-Inv, receive-Inv, receive_keeps}
use csar_core.Delivery.Workers.{take-Inv, send-Inv, rotate-Inv}

module _ {E : Type 0} where
  record-Inv : (c : Client E) (e : E) → Inv c → Inv (record_event c e)
  unfolding record_event push
  record-Inv c e v = record {
    closing = ground (arith, v.closing);
    safe = ground (arith, v.closing, v.safe);
    queue = ground (arith, v.queue, length-append c.events (e ∷ []));
    gathered = ground (arith, v.gathered);
    waiting = ground (arith, v.waiting);
    busy = ground (arith, v.busy);
    small = let same : (record_event c e).batches ≡ c.batches = ground arith in rw same v.small;
    stopped = elim v.stopped [
      | inl runs ↦ inl (ground (arith, runs))
      | inr (q, b, over) ↦ inr (ground (arith, q), ground (arith, b), ground (arith, over))
    ];
    conserved =
        λ p. ground (arith, v.conserved p, count-append p c.events e, count-append p c.accepted e);
  }

  pub begin_close-Inv : (c : Client E) → Inv c → Inv (close_begin c)
  unfolding close_begin
  begin_close-Inv c v = record {
    closing = ground (arith, v.closing);
    safe = ground (arith, v.safe);
    queue = ground (arith, v.queue);
    gathered = ground (arith, v.gathered);
    waiting = ground (arith, v.waiting);
    busy = ground (arith, v.busy);
    small = let same : (close_begin c).batches ≡ c.batches = ground arith in rw same v.small;
    stopped = elim v.stopped [
      | inl runs ↦ inl (ground (arith, runs))
      | inr (q, b, over) ↦ inr (ground (arith, q), ground (arith, b), ground (arith, over))
    ];
    conserved = λ p. ground (arith, v.conserved p);
  }

  pub end_close-Inv : (c : Client E) → Inv c → Inv (close_end c)
  unfolding close_end
  end_close-Inv c v = elim (Bool-cases (c.closed && is_done c)) [
    | inr early ↦ let same : close_end c ≡ c = ground arith in rw same v
    | inl over ↦
        let same : close_end c ≡ record c { transport_closed = true } = ground arith in
        rw same (record {
          closing = v.closing;
          safe = v.safe;
          queue = v.queue;
          gathered = v.gathered;
          waiting = v.waiting;
          busy = v.busy;
          small = v.small;
          stopped = v.stopped;
          conserved = v.conserved;
        })
  ]

  pub step-Inv : (c : Client E) (a : Action E) → Inv c → Inv (step c a)
  unfolding step
  step-Inv c (record_one e) v = record-Inv c e v
  step-Inv c receive_one v = receive-Inv c v
  step-Inv c timer v = tick-Inv c v
  step-Inv c take_one v = take-Inv c v
  step-Inv c (finish_send b) v = send-Inv c b v
  step-Inv c rotate_working v = rotate-Inv c v
  step-Inv c begin_close v = begin_close-Inv c v
  step-Inv c end_close v = end_close-Inv c v

  -- A closed channel stays closed.
  pub step_keeps_closed :
      (c : Client E) (a : Action E) → c.events_closed ≡ true → (step c a).events_closed ≡ true
  unfolding step record_event push tick flush take_batch send_done rotate close_begin close_end
  step_keeps_closed c (record_one e) h = ground arith
  step_keeps_closed c receive_one h = receive_keeps c ∙ h
  step_keeps_closed c timer h = ground arith
  step_keeps_closed c take_one h = ground arith
  step_keeps_closed c (finish_send b) h = ground arith
  step_keeps_closed c rotate_working h = ground arith
  step_keeps_closed c begin_close h = ground arith
  step_keeps_closed c end_close h = ground arith

  pub run-Inv : (c : Client E) (actions : List (Action E)) → Inv c → Inv (run c actions)
  unfolding run
  run-Inv c [] v = v
  run-Inv c (a ∷ rest) v = run-Inv (step c a) rest (step-Inv c a v)

  pub new_client-Inv : (cfg : ClientConfig) (c : Client E) → new_client cfg ≡ some c → Inv c
  unfolding new_client
  new_client-Inv cfg c h =
      let no_events : c.events ≡ [] = ground arith in
      let no_batch : c.batch ≡ [] = ground arith in
      let no_batches : c.batches ≡ [] = ground arith in
      let no_work : c.working ≡ [] = ground arith in
      let no_accepted : c.accepted ≡ [] = ground arith in
      let no_sent : c.sent ≡ [] = ground arith in
      let no_failed : c.failed ≡ [] = ground arith in
      let no_lost : c.lost ≡ [] = ground arith in
      record {
        closing = ground arith;
        safe = ground arith;
        queue = ground arith;
        gathered = ground arith;
        waiting = ground arith;
        busy = ground arith;
        small = rw no_batches tt;
        stopped = inl (ground arith);
        conserved = λ p. ground arith;
      }

  -- On a client that `NewClient` made, whatever callers record and close and however the dispatch
  -- loop, its timer and the workers run: nothing is sent on a closed channel; the queue, the
  -- gathered batch, the channel of batches and the workers' batches keep their bounds; and each
  -- accepted event is, as often as it was accepted, at one place: queued, gathered, in a waiting
  -- batch, with a worker, sent, failed or lost.
  pub run-new_client-Inv :
      (cfg : ClientConfig) (c : Client E) (actions : List (Action E))
      → new_client cfg ≡ some c
      → Inv (run c actions)
  run-new_client-Inv cfg c actions h = run-Inv c actions (new_client-Inv cfg c h)
