-- ===== src/Delivery/Tests.antt =====
-- The theorems on the delivery clients at concrete histories; an event is a number.
use csar_core.Prelude.{
  ℕ, ◌+◌, ◌≤◌, ◌≡◌, refl, sym, ap, true, false, none, some, List, [], ◌∷◌, ◌++◌, arith, string_eq,
  ◌==◌, nat_eq, length,
}
use csar_core.Prelude.Counts.{count}
use csar_core.Delivery.Client.{
  ClientConfig, Client, new_client, push, record_event, flush, receive, tick, take_batch, send_done,
  close_begin, is_done, Action, step, run, record_one, receive_one, timer, take_one, finish_send,
  begin_close,
}
use csar_core.Delivery.Flow.{Inv}
use csar_core.Delivery.Reachable
use csar_core.Delivery.Drain
use csar_core.Delivery.Drain.{weight, Changes, Changes-weight, stuck-is_done}
use csar_core.Delivery.Notify.{
  notify_run, goroutine_steps, overtaken_panics, push_pending, mark_closed, close_channel,
}
use csar_core.Delivery.Notify

abbrev config : ClientConfig
config = record { has_transport = true; buffer_size = 2; workers = 1; fallback_to_log = none }

abbrev fresh : Client ℕ
fresh = record {
  buffer_size = 2;
  out_cap = 4;
  workers = 1;
  fallback = true;
  closed = false;
  events_closed = false;
  events = [];
  dispatching = true;
  batch = [];
  batches = [];
  working = [];
  transport_closed = false;
  panicked = false;
  accepted = [];
  sent = [];
  failed = [];
  lost = [];
  logged = [];
}

new_fresh : new_client config ≡ some fresh
unfolding new_client
new_fresh = refl

-- Three events for a queue of two, one batch of one event, and the close.
abbrev history : List (Action ℕ)
history =
    record_one 1
    ∷ record_one 2
    ∷ record_one 3
    ∷ receive_one
    ∷ timer
    ∷ begin_close
    ∷ record_one 4
    ∷ []

two_accepted :
    ((run fresh history).accepted ≡ 1 ∷ 2 ∷ []) × ((run fresh history).logged ≡ 3 ∷ 4 ∷ [])
unfolding run step record_event push receive flush tick close_begin
two_accepted = (refl, refl)

run-new_client-Inv_example : Inv (run fresh history)
run-new_client-Inv_example = Reachable.run-new_client-Inv config fresh history new_fresh

abbrev shut : Client ℕ
shut = record fresh { closed = true; events_closed = true; events = 2 ∷ []; accepted = 2 ∷ [] }

-- The dispatch loop receives the last event, then sees the end of the channel.
abbrev drain : List (Action ℕ)
drain = receive_one ∷ receive_one ∷ []

drain-Changes : Changes shut drain
unfolding step receive flush
drain-Changes = (
  λ e. absurd (omega (arith, ap (λ (c : Client ℕ). length c.events) e)),
  (λ e. absurd (omega (arith, ap (λ (c : Client ℕ). length c.batch) e)), tt),
)

Changes-weight_example : length drain ≤ weight shut
Changes-weight_example = Drain.Changes-weight shut drain (refl, (refl, tt)) drain-Changes

abbrev last_history : List (Action ℕ)
last_history =
    record_one 2 ∷ begin_close ∷ receive_one ∷ receive_one ∷ take_one ∷ finish_send true ∷ []

abbrev drained : Client ℕ
drained = record fresh {
  closed = true;
  events_closed = true;
  dispatching = false;
  accepted = 2 ∷ [];
  failed = 2 ∷ [];
  logged = 2 ∷ [];
}

run-drained : run fresh last_history ≡ drained
unfolding run step record_event push receive flush tick close_begin take_batch send_done
run-drained = refl

drained-Inv : Inv drained
drained-Inv =
    rw (sym run-drained) (Reachable.run-new_client-Inv config fresh last_history new_fresh)

receive-drained : receive drained ≡ drained
unfolding receive
receive-drained = refl

take_batch-drained : take_batch drained ≡ drained
unfolding take_batch
take_batch-drained = refl

send_done-drained : send_done drained false ≡ drained
unfolding send_done
send_done-drained = refl

stuck-is_done_example :
    (is_done drained ≡ true)
    × (count (λ e. e == 2) drained.accepted
        ≡ count (λ e. e == 2) drained.sent
          + count (λ e. e == 2) drained.failed
          + count (λ e. e == 2) drained.lost)
stuck-is_done_example =
    Drain.stuck-is_done drained (λ e. e == 2) drained-Inv refl (omega arith) receive-drained
      take_batch-drained send_done-drained

overtaken_panics_example :
    (notify_run
      (record { client = fresh; pending = 7 ∷ [] })
      (mark_closed ∷ close_channel ∷ goroutine_steps (receive_one ∷ [])
        ++ push_pending ∷ [])).client.panicked
    ≡ true
overtaken_panics_example =
    Notify.overtaken_panics (record { client = fresh; pending = 7 ∷ [] }) 7 [] (receive_one ∷ [])
      refl refl
