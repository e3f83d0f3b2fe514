-- ===== src/Delivery/Notify.antt =====
-- `Record` and `Close` of notify/client.go: `Record` reads `closed` under the mutex and sends
-- without it, `Close` closes the channel behind the mutex. The dispatch loop and the workers of
-- that client are the ones of audit/client.go.
use csar_core.Prelude.{
  ◌≡◌, refl, ◌∙◌, inl, inr, true, false, List, [], ◌∷◌, ◌++◌, arith, if◌then◌else◌, Bool-cases,
}
use csar_core.Delivery.Reachable.{step_keeps_closed}
use csar_core.Delivery.Drain.{is_internal}
use csar_core.Delivery.Client.{Client, log_fallback, push, Action, step}

-- `pending` holds the notifications of the callers between the two parts of `Record`.
pub record Notifier (E : Type 0) : Type 0 where
  pub client : Client E
  pub pending : List E

pub data NotifyAction (E : Type 0) : Type 0 where
  check_closed : E → NotifyAction E
  push_pending : NotifyAction E
  mark_closed : NotifyAction E
  close_channel : NotifyAction E
  goroutine_step : Action E → NotifyAction E

module _ {E : Type 0} where
  unfoldable pub check : Notifier E → E → Notifier E
  check n e =
      let c = n.client in
      if c.closed
      then record n { client = record c { logged = log_fallback c (e ∷ []) } }
      else record n { pending = n.pending ++ e ∷ [] }

  unfoldable pub push_first : Notifier E → Notifier E
  push_first n = elim n.pending [
    | [] ↦ n
    | e ∷ rest ↦ record { client = push n.client e; pending = rest }
  ]

  -- The locked part of `Close`.
  unfoldable pub mark : Notifier E → Notifier E
  mark n =
      let c = n.client in
      if c.closed
      then record n { client = record c { transport_closed = true } }
      else record n { client = record c { closed = true } }

  -- The call that has marked the client goes on to close the channel.
  unfoldable pub close_queue : Notifier E → Notifier E
  close_queue n =
      let c = n.client in
      if c.closed then record n { client = record c { events_closed = true } } else n

  unfoldable pub notify_step : Notifier E → NotifyAction E → Notifier E
  notify_step n (check_closed e) = check n e
  notify_step n push_pending = push_first n
  notify_step n mark_closed = mark n
  notify_step n close_channel = close_queue n
  notify_step n (goroutine_step a) =
      if is_internal a then record n { client = step n.client a } else n

  unfoldable pub notify_run : Notifier E → List (NotifyAction E) → Notifier E
  notify_run n [] = n
  notify_run n (a ∷ rest) = notify_run (notify_step n a) rest

  -- The dispatch loop and the workers run.
  abbrev pub goroutine_steps : List (Action E) → List (NotifyAction E)
  goroutine_steps [] = []
  goroutine_steps (a ∷ rest) = goroutine_step a ∷ goroutine_steps rest

  goroutine-pending :
      (n : Notifier E) (a : Action E)
      → n.client.events_closed ≡ true
      → ((notify_step n (goroutine_step a)).pending ≡ n.pending)
        × ((notify_step n (goroutine_step a)).client.events_closed ≡ true)
  unfolding notify_step
  goroutine-pending n a h =
      let kept = step_keeps_closed n.client a h in
      elim (Bool-cases (is_internal a)) [
        | inl e ↦ (ground arith, ground (arith, kept))
        | inr e ↦ (ground arith, ground arith)
      ]

  still_pending :
      (n : Notifier E) (actions : List (Action E))
      → n.client.events_closed ≡ true
      → ((notify_run n (goroutine_steps actions)).pending ≡ n.pending)
        × ((notify_run n (goroutine_steps actions)).client.events_closed ≡ true)
  unfolding notify_run
  still_pending n [] h = (refl, h)
  still_pending n (a ∷ rest) h =
      let (same, over) = goroutine-pending n a h in
      let (later_same, later_over) = still_pending (notify_step n (goroutine_step a)) rest over in
      (later_same ∙ same, later_over)

  notify_run-append :
      (n : Notifier E) (xs ys : List (NotifyAction E))
      → notify_run n (xs ++ ys) ≡ notify_run (notify_run n xs) ys
  unfolding notify_run
  notify_run-append n [] ys = refl
  notify_run-append n (x ∷ xs) ys = notify_run-append (notify_step n x) xs ys

  -- A caller that has read that the client is open, and is overtaken by `Close`, sends on the
  -- closed channel and panics, whatever the dispatch loop and the workers do in between.
  pub overtaken_panics :
      (n : Notifier E) (e : E) (rest : List E) (actions : List (Action E))
      → n.client.closed ≡ false
      → n.pending ≡ e ∷ rest
      → (notify_run n (
          mark_closed ∷ close_channel ∷ goroutine_steps actions
          ++ push_pending ∷ [])).client.panicked
        ≡ true
  unfolding notify_run notify_step push_first push mark close_queue
  overtaken_panics n e rest actions live waits =
      let m = close_queue (mark n) in
      let (same, over) = still_pending m actions (ground arith) in
      rw (notify_run-append m (goroutine_steps actions) (push_pending ∷ []))
        (ground (arith, same, over, waits))
