-- ===== src/Delivery/Client.antt =====
-- What the two clients share, and `Record` of audit/client.go. The dispatch loop and the workers
-- run beside the callers: a history is a list of atomic steps. A closed channel `events` is a
-- flag beside the events that it still holds. The stopped and restarted timer of the dispatch
-- loop is a step `tick` that may come whenever a batch is gathered.
use csar_core.Prelude.{
  ℕ, ◌+◌, ◌*◌, Bool, true, false, not, ◌&&◌, Option, none, some, List, [], ◌∷◌, ◌++◌, ltb, leb,
  if◌then◌else◌, length,
}
use csar_core.Prelude.Counts.{count}

abbrev pub default_buffer_size : ℕ
default_buffer_size = 1000

abbrev pub default_workers : ℕ
default_workers = 2

abbrev pub max_batch : ℕ
max_batch = 100

abbrev pub batch_out_chan_multiplier : ℕ
batch_out_chan_multiplier = 4

-- Sizes that are not positive are 0. `fallback_to_log` is `none` for a nil pointer.
pub record ClientConfig : Type 0 where
  pub has_transport : Bool
  pub buffer_size : ℕ
  pub workers : ℕ
  pub fallback_to_log : Option Bool

-- `working` holds the batches that workers have taken and not yet sent, `dispatching` says that
-- the dispatch loop runs. `lost` has the events that went no further, whether logged or not,
-- `logged` those that were logged; `sent` and `failed` have the events of the calls of `Send`.
pub record Client (E : Type 0) : Type 0 where
  pub buffer_size : ℕ
  pub out_cap : ℕ
  pub workers : ℕ
  pub fallback : Bool
  pub closed : Bool
  pub events_closed : Bool
  pub events : List E
  pub dispatching : Bool
  pub batch : List E
  pub batches : List (List E)
  pub working : List (List E)
  pub transport_closed : Bool
  pub panicked : Bool
  pub accepted : List E
  pub sent : List E
  pub failed : List E
  pub lost : List E
  pub logged : List E

abbrev positive_or : ℕ → ℕ → ℕ
positive_or n d = if leb n 0 then d else n

module _ {E : Type 0} where
  unfoldable pub new_client : ClientConfig → Option (Client E)
  new_client cfg =
      let workers = positive_or cfg.workers default_workers in
      let out_cap = workers * batch_out_chan_multiplier in
      if not cfg.has_transport
      then none
      else some (record {
        buffer_size = positive_or cfg.buffer_size default_buffer_size;
        out_cap = if ltb out_cap 4 then 4 else out_cap;
        workers = workers;
        fallback = elim cfg.fallback_to_log [ none ↦ true | some b ↦ b ];
        closed = false;
        events_closed = false;
        events = [];
        dispatching = true;
        batch = [];
        batches = [];
        working = [];
        transport_closed = false;
        panicked = false;
        accepted = [];
        sent = [];
        failed = [];
        lost = [];
        logged = [];
      })

  -- `logFallback` and `logFallbackErr`.
  abbrev pub log_fallback : Client E → List E → List E
  log_fallback c es = if c.fallback then c.logged ++ es else c.logged

  -- The send on `events` with a default. A send on a closed channel panics.
  unfoldable pub push : Client E → E → Client E
  push c e =
      if c.events_closed
      then record c { panicked = true }
      else if leb c.buffer_size (length c.events)
      then record c { logged = log_fallback c (e ∷ []) }
      else record c { events = c.events ++ e ∷ []; accepted = c.accepted ++ e ∷ [] }

  -- `Record` behind `PrepareEvent`, under the mutex throughout.
  unfoldable pub record_event : Client E → E → Client E
  record_event c e = if c.closed then record c { logged = log_fallback c (e ∷ []) } else push c e

  -- `flush` of the dispatch loop.
  unfoldable pub flush : Client E → Client E
  flush c = elim c.batch [
    | [] ↦ c
    | e ∷ es ↦
        if ltb (length c.batches) c.out_cap
        then record c { batch = []; batches = c.batches ++ (e ∷ es) ∷ [] }
        else record c { batch = []; lost = c.lost ++ (e ∷ es); logged = log_fallback c (e ∷ es) }
  ]

  flush_full : Client E → Client E
  unfolding flush
  flush_full c = if leb max_batch (length c.batch) then flush c else c

  -- The dispatch loop receives: an event, or the end of the closed channel. `none`: it waits.
  unfoldable pub receive : Client E → Client E
  unfolding flush flush_full
  receive c = if not c.dispatching then c else (elim c.events [
    | e ∷ rest ↦ (elim c.batch [
      | [] ↦ record c { events = rest; batch = e ∷ [] }
      | b ∷ bs ↦ flush_full (record c { events = rest; batch = c.batch ++ e ∷ [] })
    ])
    | [] ↦ if c.events_closed then record (flush c) { dispatching = false } else c
  ])

  -- The timer fires while a batch is gathered.
  unfoldable pub tick : Client E → Client E
  tick c = if c.dispatching then flush c else c

  -- An idle worker takes a batch.
  unfoldable pub take_batch : Client E → Client E
  take_batch c = elim c.batches [
    | [] ↦ c
    | b ∷ rest ↦
        if ltb (length c.working) c.workers
        then record c { batches = rest; working = c.working ++ b ∷ [] }
        else c
  ]

  -- The worker that holds the first batch ends its call of `Send`; the flag says that it failed.
  -- Which worker is first does not matter: the batches of `working` may end in any order, since
  -- `rotate` moves the first one to the end.
  unfoldable pub send_done : Client E → Bool → Client E
  send_done c failed_send = elim c.working [
    | [] ↦ c
    | b ∷ rest ↦
        if failed_send
        then record c { working = rest; failed = c.failed ++ b; logged = log_fallback c b }
        else record c { working = rest; sent = c.sent ++ b }
  ]

  unfoldable pub rotate : Client E → Client E
  rotate c = elim c.working [ [] ↦ c | b ∷ rest ↦ record c { working = rest ++ b ∷ [] } ]

  -- The part of `Close` under the mutex: a second call goes on to the transport at once.
  unfoldable pub close_begin : Client E → Client E
  close_begin c =
      if c.closed
      then record c { transport_closed = true }
      else record c { closed = true; events_closed = true }

  -- All goroutines have ended, which `wg.Wait` waits for.
  abbrev pub is_done : Client E → Bool
  is_done c = not c.dispatching && leb (length c.batches) 0 && leb (length c.working) 0

  unfoldable pub close_end : Client E → Client E
  close_end c = if c.closed && is_done c then record c { transport_closed = true } else c

pub data Action (E : Type 0) : Type 0 where
  record_one : E → Action E
  receive_one : Action E
  timer : Action E
  take_one : Action E
  finish_send : Bool → Action E
  rotate_working : Action E
  begin_close : Action E
  end_close : Action E

module _ {E : Type 0} where
  unfoldable pub step : Client E → Action E → Client E
  step c (record_one e) = record_event c e
  step c receive_one = receive c
  step c timer = tick c
  step c take_one = take_batch c
  step c (finish_send b) = send_done c b
  step c rotate_working = rotate c
  step c begin_close = close_begin c
  step c end_close = close_end c

  unfoldable pub run : Client E → List (Action E) → Client E
  run c [] = c
  run c (a ∷ rest) = run (step c a) rest

  -- The events of a list of batches that pass a test.
  abbrev pub count_all : (E → Bool) → List (List E) → ℕ
  count_all p [] = 0
  count_all p (b ∷ rest) = count p b + count_all p rest
