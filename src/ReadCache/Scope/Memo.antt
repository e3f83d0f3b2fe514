-- ===== src/ReadCache/Scope/Memo.antt =====
-- A loaded value is used again.
use Prim.Native.String.{len}
use csar_core.Prelude.{
  ◌≤◌, ◌<◌, String, ◌≡◌, refl, inl, inr, Option, none, some, [], arith, eq_iff, string_eq, nat_eq,
  Option-cases, Result, Result-cases, ok,
}
use csar_core.Prelude.Dict
use csar_core.Prelude.Dict.{lookup, insert, delete, lookup-insert_self}
use csar_core.ReadCache.Group.Results.{
  close_call, end_load_current, leader_ticket, open_call, begin_cases,
}
use csar_core.ReadCache.Group.{Error, Group, Ticket, begin, end_load, do_begin, returned}
use csar_core.ReadCache.Scope.{
  Bytes, Scope, reserve, Load, settle, produce, result_value, result_error, resolve,
}
use csar_core.ReadCache.Scope.Cases.{reserve_cases, settle_cases}

settle_kept :
    (s s' : Scope) (ctx : Option Error) (key : String) (load : Load) (w : Bytes)
    → settle s ctx key load ≡ (ok w, s')
    → s.expired ≡ none
    → (lookup key s'.entries ≡ some (some w)) × (s'.expired ≡ none) × (s'.group ≡ s.group)
settle_kept s s' ctx key load w h alive = elim (settle_cases s ctx key load) [
  | inl (e, q) ↦ absurd (ground arith)
  | inr (x, _, _, _, _, q) ↦ ground (arith, Dict.lookup-insert_self key (some x) s.entries)
]

-- A value that the closure hands out is kept, and the closure leaves the group alone.
produce_kept :
    (s s' : Scope) (ctx : Option Error) (key : String) (load : Load) (w : Bytes)
    → produce s ctx key load ≡ (ok w, s')
    → s.expired ≡ none
    → (lookup key s'.entries ≡ some (some w)) × (s'.expired ≡ none) × (s'.group ≡ s.group)
unfolding produce
produce_kept s s' ctx key load w h alive = elim (reserve_cases s key) [
  | inl (x, found, e) ↦ ground arith
  | inr (inl (_, e)) ↦ absurd (ground arith)
  | inr (inr (inl (free, room, e))) ↦
      settle_kept (record s { entries = insert key none s.entries }) s' ctx key load w
        (ground arith) alive
  | inr (inr (inr (old, room, e))) ↦
      settle_kept (record s { entries = insert key none s.entries }) s' ctx key load w
        (ground arith) alive
]

-- A caller that finds no other caller at work becomes the leader of a new call, or is refused.
idle_begin :
    (z : Bytes) (g g' : Group Bytes) (t : Ticket) (key : String)
    → g.calls ≡ []
    → begin z g key ≡ ok (t, g')
    → (t ≡ leader_ticket g key) × (g' ≡ open_call z g key)
unfolding lookup
idle_begin z g g' t key idle h = elim (begin_cases z g key) [
  | inl (p, found, room, e) ↦ absurd (ground arith)
  | inr (inl (missing, room, e)) ↦ ground arith
  | inr (inr (inl (e, why))) ↦ absurd (cc)
  | inr (inr (inr (e, why))) ↦ absurd (cc)
]

key_fits :
    (z : Bytes) (g : Group Bytes) (key : String) {x : Ticket × Group Bytes}
    → begin z g key ≡ ok x
    → (0 < len key) × (len key ≤ g.limits.max_key_bytes)
unfolding begin
key_fits z g key h = ground arith

-- A key that an idle group admits is admitted by any idle group with the same limits.
begin_again :
    (z : Bytes) (g g' h : Group Bytes) (t : Ticket) (key : String)
    → g.calls ≡ []
    → h.calls ≡ []
    → h.limits ≡ g.limits
    → begin z g key ≡ ok (t, g')
    → begin z h key ≡ ok (leader_ticket h key, open_call z h key)
unfolding lookup
begin_again z g g' h t key idle idle' same e = elim (begin_cases z g key) [
  | inl (p, found, room, q) ↦ absurd (ground arith)
  | inr (inr (inl (q, why))) ↦ absurd (cc)
  | inr (inr (inr (q, why))) ↦ absurd (cc)
  | inr (inl (missing, room, q)) ↦ elim (begin_cases z h key) [
    | inl (p, found, room', r) ↦ absurd (ground arith)
    | inr (inl (missing', room', r)) ↦ r
    | inr (inr (inl (r, why))) ↦ absurd (ground (arith, key_fits z g key e))
    | inr (inr (inr (r, inl (p, found, _)))) ↦ absurd (ground arith)
    | inr (inr (inr (r, inr (_, full')))) ↦ absurd (ground arith)
  ]
]

-- The group behind a whole `Do` of a lone caller.
abbrev after_do : Group Bytes → String → Result Error Bytes → Group Bytes
after_do g key r = close_call (open_call [] g key) key g.next (result_value r) (result_error r)

after_do_idle :
    (g : Group Bytes) (key : String) (r : Result Error Bytes)
    → g.calls ≡ []
    → (after_do g key r).calls ≡ []
unfolding insert delete
after_do_idle g key r idle = rw idle (ground (arith, eq_iff key key))

resolve_idle :
    (s : Scope) (t : Ticket) (g : Group Bytes) (key : String) (load : Load)
    → s.expired ≡ none
    → s.group.calls ≡ []
    → begin [] s.group key ≡ ok (t, g)
    → let (r, s') = produce (record s { group = open_call [] s.group key }) none key load in
      (resolve s none key load
        ≡ some (
          r,
          record s' {
            group =
                end_load [] s'.group
                  (leader_ticket s.group key)
                  (returned (result_value r) (result_error r));
          },
        ))
unfolding resolve do_begin
resolve_idle s t g key load alive idle e =
    let (et, eg) = idle_begin [] s.group g t key idle e in ground (arith)

-- What a successful `Resolve` of a lone caller leaves behind.
resolve_kept :
    (s s' : Scope) (key : String) (load : Load) (w : Bytes)
    → s.group.calls ≡ []
    → resolve s none key load ≡ some (ok w, s')
    → (lookup key s'.entries ≡ some (some w))
      × (s'.expired ≡ none)
      × (s'.group.calls ≡ [])
      × (s'.group.limits ≡ s.group.limits)
      × (begin [] s.group key ≡ ok (leader_ticket s.group key, open_call [] s.group key))
unfolding resolve do_begin
resolve_kept s s' key load w idle h = elim (Option-cases s.expired) [
  | inr (e, over) ↦ absurd (ground arith)
  | inl alive ↦ elim (Result-cases (begin [] s.group key)) [
    | inr (e, refused) ↦ absurd (ground arith)
    | inl ((t, g), b) ↦
        let e = resolve_idle s t g key load alive idle b in
        let r : Result Error Bytes =
          (produce (record s { group = open_call [] s.group key }) none key load).0 in
        let s1 : Scope =
          (produce (record s { group = open_call [] s.group key }) none key load).1 in
        let kept =
          produce_kept (record s { group = open_call [] s.group key }) s1 none key load w
            (ground (arith, e)) alive in
        let done =
          end_load_current [] (open_call [] s.group key) (leader_ticket s.group key)
            (returned (result_value r) (result_error r))
            (Dict.lookup-insert_self key s.group.next s.group.calls) in
        let gone = after_do_idle s.group key r idle in
        let leads = begin_again [] s.group g s.group t key idle idle refl b in
        (
          ground (arith, kept),
          ground (arith, kept),
          ground (arith, kept, gone),
          ground (arith, kept),
          leads,
        )
  ]
]

produce_hit :
    (s : Scope) (ctx : Option Error) (key : String) (load : Load) (w : Bytes)
    → lookup key s.entries ≡ some (some w)
    → produce s ctx key load ≡ (ok w, s)
unfolding produce reserve
produce_hit s ctx key load w found = ground arith

-- On a group with no call at work: when `Resolve` of a key has succeeded, the next `Resolve` of
-- that key succeeds with the same value, whatever its own loader would give, and stores nothing.
pub resolve_memo :
    (s s' : Scope) (key : String) (first second : Load) (w : Bytes)
    → s.group.calls ≡ []
    → resolve s none key first ≡ some (ok w, s')
    → (t : Scope) × (resolve s' none key second ≡ some (ok w, t))
      × (t.entries ≡ s'.entries)
      × (t.bytes ≡ s'.bytes)
resolve_memo s s' key first second w idle h =
    let (found, alive, calm, same, leads) = resolve_kept s s' key first w idle h in
    let again = begin_again [] s.group _ s'.group _ key idle calm same leads in
    let e = resolve_idle s' _ _ key second alive calm again in
    let led : Group Bytes = open_call [] s'.group key in
    let t : Scope = record s' {
      group = end_load [] led (leader_ticket s'.group key) (returned w none);
    } in
    (t, rw (produce_hit (record s' { group = led }) none key second w found) at e, refl, refl)
