-- ===== src/ReadCache/Group/Tickets.antt =====
-- What the callers of a group rely on: one leader for a key, and one outcome for a call.
use csar_core.Prelude.{
  ℕ, ◌<◌, String, ◌≡◌, refl, inl, inr, Bool, true, false, Option, none, some, List, [], arith,
  string_eq, nat_eq, Bool-cases, Option-cases, get_elem?, All-get_elem?, ok,
}
use csar_core.Prelude.Dict.{lookup, lookup-delete_self}
use csar_core.ReadCache.Group.{
  Error, Limits, Group, Ticket, new_group, release, finish, wait, Outcome, do_begin, System, Action,
  in_flight, enter_step, step, run, enter, leave, complete,
}
use csar_core.ReadCache.Group.Results.{
  close_call, outcome_value, outcome_error, finish_current, finish_stale, end_load_current,
  begin_cases,
}
use csar_core.ReadCache.Group.Reachable.{run-Inv, new_group-Inv}
use csar_core.ReadCache.Group.Invariant.{Inv}

module _ {T : Type 0} (z : T) where
  -- Whatever callers enter, leave and complete, in whatever order, on a group that `NewGroup`
  -- accepted: the map has at most `MaxKeys` keys, a call has at most `MaxFollowers` followers,
  -- its counter is the number of followers that have not released, each key of the map has
  -- exactly one leader at work and no other key has one, and no call of the map is done.
  pub run-new_group-Inv :
      (l : Limits) (g : Group T) (actions : List (Action T))
      → new_group z l ≡ ok g
      → Inv (run z (record { group = g; tickets = [] }) actions)
  run-new_group-Inv l g actions h = run-Inv z _ actions (new_group-Inv z l g h)

  -- Once the channel of a call is closed no action changes what its waiters read, and no action
  -- opens it again.
  pub step-done_stable :
      (s : System T) (a : Action T) (p : ℕ)
      → Inv s
      → p < s.group.next
      → (s.group.heap p).done ≡ true
      → let c = (step z s a).group.heap p in
        (c.done ≡ true) × (c.value ≡ (s.group.heap p).value) × (c.err ≡ (s.group.heap p).err)
  unfolding step enter_step do_begin release
  step-done_stable s (enter (some e) key) p v lt d = (d, refl, refl)
  step-done_stable s (enter none key) p v lt d = elim (begin_cases z s.group key) [
    | inl (q, found, room, e) ↦
        rw (e, do_begin, enter_step, step) (ground (arith, v.live key q found))
    | inr (inl (missing, room, e)) ↦ rw (e, do_begin, enter_step, step) (ground arith)
    | inr (inr (inl (e, why))) ↦ rw (e, do_begin, enter_step, step) (d, refl, refl)
    | inr (inr (inr (e, why))) ↦ rw (e, do_begin, enter_step, step) (d, refl, refl)
  ]
  step-done_stable s (leave i) p v lt d = ground arith
  step-done_stable s (complete i o) p v lt d = elim (Option-cases (get_elem? s.tickets i)) [
    | inl e ↦ rw (e, step) (d, refl, refl)
    | inr (t, e) ↦ elim (Bool-cases (in_flight t)) [
      | inl flying ↦
          let now = All-get_elem? _ s.tickets i t v.current e flying in
          rw (e, step)
            (rw flying
              (rw (end_load_current z s.group t o now) (ground (arith, v.live t.key t.call now))))
      | inr ended ↦ rw (e, step) (rw ended (d, refl, refl))
    ]
  ]

  -- When a leader at work ends its load, by a return or by a panic, the call leaves the map, and
  -- every waiter whose context stays alive reads the leader's value and error, or `ErrAborted`
  -- after a panic.
  pub complete-wait :
      (s : System T) (i : ℕ) (t : Ticket) (o : Outcome T) (pick : Bool)
      → Inv s
      → get_elem? s.tickets i ≡ some t
      → in_flight t ≡ true
      → let s' = step z s (complete i o) in
        (lookup t.key s'.group.calls ≡ none)
        × (wait z none none pick (s'.group.heap t.call) ≡ some (outcome_value z o, outcome_error o))
  unfolding step wait
  complete-wait s i t o pick v at flying =
      let now = All-get_elem? _ s.tickets i t v.current at flying in
      rw (at, step)
        (rw flying (
          rw (end_load_current z s.group t o now)
            (lookup-delete_self t.key s.group.calls, ground arith)))

module _ {T : Type 0} where
  -- `Finish` closes the call that the map holds for the key, and a second `Finish` with the same
  -- ticket, such as the deferred one, is refused and changes nothing.
  pub finish_twice :
      (g : Group T) (key : String) (p : ℕ) (v w : T) (e f : Option Error)
      → lookup key g.calls ≡ some p
      → (finish g key (some p) v e ≡ (close_call g key p v e, true))
        × (finish (finish g key (some p) v e).0 key (some p) w f ≡ (close_call g key p v e, false))
  finish_twice g key p v w e f h = (
    finish_current g key p v e h,
    rw (finish_current g key p v e h)
        (finish_stale _ key p w f (λ q. ground (arith, lookup-delete_self key g.calls))),
  )
