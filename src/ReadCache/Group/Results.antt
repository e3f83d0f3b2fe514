-- ===== src/ReadCache/Group/Results.antt =====
-- What `Finish` and the end of a leader's `Do` do to a group.
use csar_core.Prelude.{
  ℕ, suc, ◌+◌, ◌≤◌, ◌<◌, String, ◌≡◌, ap, ◌≢◌, ◌⊎◌, inl, inr, true, false, ◌||◌, Option, none, some,
  arith, ltb, leb, ◌==◌, nat_eq, string_eq, Bool-cases, Option-cases, length, Result, ok, err,
}
use csar_core.Prelude.Dict
use csar_core.Prelude.Dict.{lookup, insert, delete, lookup-delete_self}
use Prim.Native.String.{len}
use csar_core.ReadCache.Group.{
  Error, Group, Ticket, update, begin, finish, Outcome, end_load, capacity, key_length, aborted,
  returned, panicked,
}

abbrev pub follower_ticket : String → ℕ → Ticket
follower_ticket key p = record { key = key; call = p; leader = false; released = false }

module _ {T : Type 0} where
  -- The group once the call at `p` is closed with a value and an error.
  abbrev pub close_call : Group T → String → ℕ → T → Option Error → Group T
  close_call g key p v e = record g {
    calls = delete key g.calls;
    heap = update g.heap p (record (g.heap p) { done = true; value = v; err = e });
  }

  -- What the followers of a leader read.
  abbrev pub outcome_value : T → Outcome T → T
  outcome_value z (returned v e) = v
  outcome_value z panicked = z

  abbrev pub outcome_error : Outcome T → Option Error
  outcome_error (returned v e) = e
  outcome_error panicked = some aborted

  pub finish_current :
      (g : Group T) (key : String) (p : ℕ) (v : T) (e : Option Error)
      → lookup key g.calls ≡ some p
      → finish g key (some p) v e ≡ (close_call g key p v e, true)
  unfolding finish
  finish_current g key p v e h = ground arith

  pub finish_stale :
      (g : Group T) (key : String) (p : ℕ) (v : T) (e : Option Error)
      → lookup key g.calls ≢ some p
      → finish g key (some p) v e ≡ (g, false)
  unfolding finish
  finish_stale g key p v e h = ground arith

  pub end_load_current :
      (z : T) (g : Group T) (t : Ticket) (o : Outcome T)
      → lookup t.key g.calls ≡ some t.call
      → end_load z g t o ≡ close_call g t.key t.call (outcome_value z o) (outcome_error o)
  unfolding end_load
  end_load_current z g t (returned v e) h =
      rw (finish_current g t.key t.call v e h, end_load)
        (ap (λ r. r.0)
          (finish_stale (close_call g t.key t.call v e) t.key t.call z (some aborted)
            (λ q. ground (arith, Dict.lookup-delete_self t.key g.calls))))
  end_load_current z g t panicked h = ap (λ r. r.0) (finish_current g t.key t.call z _ h)

  abbrev pub leader_ticket : Group T → String → Ticket
  leader_ticket g key = record { key = key; call = g.next; leader = true; released = false }

  -- The group with one more follower of the call at `p`.
  abbrev pub join_call : Group T → ℕ → Group T
  join_call g p = record g {
    heap = update g.heap p (record (g.heap p) { followers = (g.heap p).followers + 1 });
  }

  -- The group with a new call for the key.
  abbrev pub open_call : T → Group T → String → Group T
  open_call z g key = record g {
    calls = insert key g.next g.calls;
    heap = update g.heap g.next (record { done = false; value = z; err = none; followers = 0 });
    next = suc g.next;
  }

  abbrev pub Joins : Group T → String → Result Error (Ticket × Group T) → Type 0
  Joins g key r =
      (p : ℕ) × (lookup key g.calls ≡ some p)
      × ((g.heap p).followers < g.limits.max_followers)
      × (r ≡ ok (follower_ticket key p, join_call g p))

  abbrev pub Leads : T → Group T → String → Result Error (Ticket × Group T) → Type 0
  Leads z g key r =
      (lookup key g.calls ≡ none)
      × (length g.calls < g.limits.max_keys)
      × (r ≡ ok (leader_ticket g key, open_call z g key))

  abbrev pub Refuses : Group T → String → Result Error (Ticket × Group T) → Type 0
  Refuses g key r =
      ((r ≡ err key_length) × ((len key ≡ 0) ⊎ (g.limits.max_key_bytes < len key)))
      ⊎ (r ≡ err capacity)
        × (((p : ℕ) × (lookup key g.calls ≡ some p)
              × (g.limits.max_followers ≤ (g.heap p).followers))
            ⊎ ((lookup key g.calls ≡ none) × (g.limits.max_keys ≤ length g.calls)))

  -- `Begin` in all cases: with a key of admitted length it joins the key's call when that has
  -- fewer than `MaxFollowers` followers, leads a new call when there is none and fewer than
  -- `MaxKeys` keys are at work, and is refused otherwise.
  pub begin_cases :
      (z : T) (g : Group T) (key : String)
      → Joins g key (begin z g key) ⊎ Leads z g key (begin z g key) ⊎ Refuses g key (begin z g key)
  unfolding begin
  begin_cases z g key = elim (Bool-cases ((len key == 0) || ltb g.limits.max_key_bytes (len key))) [
    | inl bad ↦ inr (inr (inl (ground arith, ground arith)))
    | inr good ↦ elim (Option-cases (lookup key g.calls)) [
      | inr (p, found) ↦ elim (Bool-cases (leb g.limits.max_followers (g.heap p).followers)) [
        | inl full ↦ inr (inr (inr (ground arith, inl (p, found, ground arith))))
        | inr room ↦ inl (p, found, ground arith, ground arith)
      ]
      | inl missing ↦ elim (Bool-cases (leb g.limits.max_keys (length g.calls))) [
        | inl full ↦ inr (inr (inr (ground arith, inr (missing, ground arith))))
        | inr room ↦ inr (inl (missing, ground arith, ground arith))
      ]
    ]
  ]
