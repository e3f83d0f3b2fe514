-- ===== src/ReadCache/Group.antt =====
-- readcache/group.go. A `*Call` is an address of the heap, and a map entry holds such an address.
-- The mutex makes each method one atomic step, so a concurrent history is a list of actions.
pub mod Invariant
pub mod Preserve
pub mod Reachable
pub mod Tickets
pub mod Results
use Prim.Native.String.{len}
use csar_core.Prelude.{
  ℕ, suc, ◌+◌, ◌-◌, String, Bool, true, false, not, ◌&&◌, ◌||◌, Option, none, some, List, [], ◌∷◌,
  ◌++◌, ltb, leb, if◌then◌else◌, ◌==◌, nat_eq, string_eq, length, get_elem?, set, Result, ok, err,
}
use csar_core.Prelude.Dict.{lookup, insert, delete}

-- `from_context` is a context's own error, `from_load` the error that a loader returned.
pub data Error : Type 0 where
  limits_not_positive capacity key_length aborted from_context : Error
  from_load : String → Error

-- A limit that is not positive is refused by `new_group`, so 0 stands for all of those.
pub record Limits : Type 0 where
  pub max_keys : ℕ
  pub max_followers : ℕ
  pub max_key_bytes : ℕ

-- `done` says that the channel is closed.
pub record Call (T : Type 0) : Type 0 where
  pub done : Bool
  pub value : T
  pub err : Option Error
  pub followers : ℕ

pub record Group (T : Type 0) : Type 0 where
  pub limits : Limits
  pub calls : List (String × ℕ)
  pub heap : ℕ → Call T
  pub next : ℕ

-- What `Begin` returns. `released` is the state of the release closure's `sync.Once`; of a
-- leader, whose closure does nothing, it says that the leader's `Do` has ended.
pub record Ticket : Type 0 where
  pub key : String
  pub call : ℕ
  pub leader : Bool
  pub released : Bool

abbrev pub update : {A : Type 0} → (ℕ → A) → ℕ → A → ℕ → A
update f p v q = if p == q then v else f q

module _ {T : Type 0} where
  unfoldable pub new_group : T → Limits → Result Error (Group T)
  new_group z l =
      if leb l.max_keys 0 || leb l.max_followers 0 || leb l.max_key_bytes 0
      then err limits_not_positive
      else ok (record {
        limits = l;
        calls = [];
        heap = λ _. record { done = false; value = z; err = none; followers = 0 };
        next = 0;
      })

  attach : Group T → String → ℕ → Result Error (Ticket × Group T)
  attach g key p =
      let call = g.heap p in
      if leb g.limits.max_followers call.followers
      then err capacity
      else ok (
        record { key = key; call = p; leader = false; released = false },
        record g { heap = update g.heap p (record call { followers = call.followers + 1 }) },
      )

  lead : T → Group T → String → Result Error (Ticket × Group T)
  lead z g key =
      if leb g.limits.max_keys (length g.calls)
      then err capacity
      else ok (
        record { key = key; call = g.next; leader = true; released = false },
        record g {
          calls = insert key g.next g.calls;
          heap =
              update g.heap g.next (record { done = false; value = z; err = none; followers = 0 });
          next = suc g.next;
        },
      )

  unfoldable pub begin : T → Group T → String → Result Error (Ticket × Group T)
  unfolding attach lead
  begin z g key =
      if (len key == 0) || ltb g.limits.max_key_bytes (len key)
      then err key_length
      else (elim (lookup key g.calls) [ some p ↦ attach g key p | none ↦ lead z g key ])

  -- The closure that `Begin` returns.
  unfoldable pub release : Group T → Ticket → Ticket × Group T
  release g t =
      let call = g.heap t.call in
      if t.leader || t.released then (t, g) else (
        record t { released = true },
        record g { heap = update g.heap t.call (record call { followers = call.followers - 1 }) },
      )

  -- `g.calls[key] == call`.
  abbrev pub is_current : Group T → String → ℕ → Bool
  is_current g key p = elim (lookup key g.calls) [ some q ↦ q == p | none ↦ false ]

  unfoldable pub finish : Group T → String → Option ℕ → T → Option Error → Group T × Bool
  finish g key none v e = (g, false)
  finish g key (some p) v e =
      let call = g.heap p in
      if is_current g key p
      then (
        record g {
          calls = delete key g.calls;
          heap = update g.heap p (record call { done = true; value = v; err = e });
        },
        true,
      )
      else (g, false)

  -- The two reads of the context are that at entry and that when the `select` is ready; with
  -- both of its cases ready Go picks either, by `pick`. `none`: the caller blocks.
  unfoldable pub wait : T → Option Error → Option Error → Bool → Call T → Option (T × Option Error)
  wait z (some e) later pick c = some (z, some e)
  wait z none (some e) pick c = if c.done && pick then some (c.value, c.err) else some (z, some e)
  wait z none none pick c = if c.done then some (c.value, c.err) else none

-- How a leader's load ends.
pub data Outcome (T : Type 0) : Type 0 where
  returned : T → Option Error → Outcome T
  panicked : Outcome T

module _ {T : Type 0} where
  -- The rest of `Do` behind `load`: `Finish`, then the deferred `Finish` with `ErrAborted`.
  unfoldable pub end_load : T → Group T → Ticket → Outcome T → Group T
  end_load z g t (returned v e) =
      (finish (finish g t.key (some t.call) v e).0 t.key (some t.call) z (some aborted)).0
  end_load z g t panicked = (finish g t.key (some t.call) z (some aborted)).0

  -- `Do` up to the load or the wait.
  unfoldable pub do_begin : T → Group T → Option Error → String → Result Error (Ticket × Group T)
  do_begin z g (some e) key = err e
  do_begin z g none key = begin z g key

-- A group with the tickets that it gave out.
pub record System (T : Type 0) : Type 0 where
  pub group : Group T
  pub tickets : List Ticket

-- `enter` is a call of `Do`, `leave` the return of a follower, `complete` that of a leader.
pub data Action (T : Type 0) : Type 0 where
  enter : Option Error → String → Action T
  leave : ℕ → Action T
  complete : ℕ → Outcome T → Action T

abbrev pub in_flight : Ticket → Bool
in_flight t = t.leader && not t.released

module _ {T : Type 0} where
  pub enter_step : T → System T → Option Error → String → System T
  enter_step z s ctx key = elim (do_begin z s.group ctx key) [
    | ok (t, g) ↦ record { group = g; tickets = s.tickets ++ t ∷ [] }
    | err e ↦ s
  ]

  leave_step : System T → ℕ → Ticket → System T
  leave_step s i t =
      let (t', g) = release s.group t in record { group = g; tickets = set s.tickets i t' }

  complete_step : T → System T → ℕ → Ticket → Outcome T → System T
  complete_step z s i t o =
      if in_flight t
      then record {
        group = end_load z s.group t o;
        tickets = set s.tickets i (record t { released = true });
      }
      else s

  unfoldable pub step : T → System T → Action T → System T
  unfolding enter_step leave_step complete_step
  step z s (enter ctx key) = enter_step z s ctx key
  step z s (leave i) = elim (get_elem? s.tickets i) [ none ↦ s | some t ↦ leave_step s i t ]
  step z s (complete i o) = elim (get_elem? s.tickets i) [
    | none ↦ s
    | some t ↦ complete_step z s i t o
  ]

  unfoldable pub run : T → System T → List (Action T) → System T
  run z s [] = s
  run z s (a ∷ rest) = run z (step z s a) rest
