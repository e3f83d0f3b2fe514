-- ===== src/ReadCache/Scope.antt =====
-- readcache/scope.go. `entries` maps a key to `some data` when a value is kept, and to `none`
-- (Go's nil slice) when a load has reserved the key. The closure that `Resolve` gives to the
-- group is two atomic parts with the unlocked load between them: `reserve` and `settle`.
pub mod Entries
pub mod Cases
pub mod Invariant
pub mod Closing
pub mod Memo
use csar_core.Prelude.{
  ℕ, ◌+◌, ◌-◌, String, Bool, true, false, ◌||◌, Option, none, some, List, [], ◌∷◌, ltb, leb,
  if◌then◌else◌, string_eq, ◌==◌, nat_eq, is_some, length, Result, ◌>>=◌, ok, err,
}
use csar_core.Prelude.Dict.{lookup, insert, delete}
use csar_core.ReadCache.Group
use csar_core.ReadCache.Group.{
  Error, Limits, Group, Ticket, new_group, wait, end_load, do_begin, limits_not_positive, capacity,
  aborted, returned,
}

abbrev pub Bytes : Type 0
Bytes = List ℕ

-- A value that is not positive is refused by `new_scope`, so 0 stands for all of those.
pub record ScopeLimits : Type 0 where
  pub flights : Limits
  pub max_entries : ℕ
  pub max_bytes : ℕ
  pub max_value_bytes : ℕ
  pub max_age : ℕ

-- `expired` is `ctx.Err()` of the scope's own context.
pub record Scope : Type 0 where
  pub expired : Option Error
  pub limits : ScopeLimits
  pub entries : List (String × Option Bytes)
  pub bytes : ℕ
  pub group : Group Bytes

unfoldable pub new_scope : ScopeLimits → Result Error Scope
new_scope l =
    if leb l.max_entries 0
      || leb l.max_bytes 0
      || leb l.max_value_bytes 0
      || ltb l.max_bytes l.max_value_bytes
      || leb l.max_age 0
    then err limits_not_positive
    else (new_group [] l.flights >>= λ g.
        ok (record { expired = none; limits = l; entries = []; bytes = 0; group = g }))

-- The context ends: `s.cancel()`, or `MaxAge` has passed. The first error stays.
unfoldable pub cancel : Scope → Error → Scope
cancel s e = elim s.expired [ none ↦ record s { expired = some e } | some _ ↦ s ]

-- The locked part of `Close`.
unfoldable pub clear : Scope → Scope
clear s = record s { entries = []; bytes = 0 }

unfoldable pub close : Scope → Error → Scope
unfolding cancel clear
close s e = clear (cancel s e)

pub data Reserved : Type 0 where
  hit : Bytes → Reserved
  full : Reserved
  must_load : Scope → Reserved

-- `if len(s.entries) >= s.limits.MaxEntries`, then the reservation.
reserve_new : Scope → String → Reserved
reserve_new s key =
    if leb s.limits.max_entries (length s.entries)
    then full
    else must_load (record s { entries = insert key none s.entries })

unfoldable pub reserve : Scope → String → Reserved
unfolding reserve_new
reserve s key = elim (lookup key s.entries) [
  | none ↦ reserve_new s key
  | some none ↦ reserve_new s key
  | some (some value) ↦ hit value
]

-- How a load ends. A panic goes on to the leader's caller; the waiters get `ErrAborted`, and so it
-- is an error of the leader here.
pub data Load : Type 0 where
  loaded : Bytes → Load
  load_failed : Error → Load
  load_panicked : Load

-- The deferred `delete(s.entries, key)` of a load that did not commit.
abandon : Scope → String → Error → Result Error Bytes × Scope
abandon s key e = (err e, record s { entries = delete key s.entries })

commit : Scope → String → Bytes → Result Error Bytes × Scope
unfolding abandon
commit s key value =
    if ltb (s.limits.max_bytes - s.bytes) (length value) then abandon s key capacity else (
      ok value,
      record s { entries = insert key (some value) s.entries; bytes = s.bytes + length value },
    )

-- The part behind the load; the second argument is `ctx.Err()` of the call's context then.
unfoldable pub settle : Scope → Option Error → String → Load → Result Error Bytes × Scope
unfolding abandon commit
settle s ctx key (load_failed e) = abandon s key e
settle s ctx key load_panicked = abandon s key aborted
settle s (some e) key (loaded value) = abandon s key e
settle s none key (loaded value) =
    if ltb s.limits.max_value_bytes (length value)
    then abandon s key capacity
    else (elim s.expired [ some e ↦ abandon s key e | none ↦ commit s key value ])

-- The closure as a whole, with nothing between its parts.
unfoldable pub produce : Scope → Option Error → String → Load → Result Error Bytes × Scope
produce s ctx key load = elim (reserve s key) [
  | hit value ↦ (ok value, s)
  | full ↦ (err capacity, s)
  | must_load s' ↦ settle s' ctx key load
]

abbrev pub result_value : Result Error Bytes → Bytes
result_value (ok value) = value
result_value (err e) = []

abbrev pub result_error : Result Error Bytes → Option Error
result_error (ok value) = none
result_error (err e) = some e

-- The leader's side of `Resolve`, from the closure to the end of `Do`.
lead_resolve : Scope → Ticket → Option Error → String → Load → Result Error Bytes × Scope
lead_resolve s t ctx key load =
    let (r, s') = produce s ctx key load in
    (r, record s' { group = end_load [] s'.group t (returned (result_value r) (result_error r)) })

-- The follower's side, by what `Wait` gave.
follow_resolve : Scope → Option (Bytes × Option Error) → Option (Result Error Bytes × Scope)
follow_resolve s none = none
follow_resolve s (some (value, none)) = some (ok value, s)
follow_resolve s (some (value, some e)) = some (err e, s)

-- `Resolve` of a caller with no other caller between its parts. `none`: it blocks.
unfoldable pub resolve : Scope → Option Error → String → Load → Option (Result Error Bytes × Scope)
unfolding lead_resolve follow_resolve
resolve s ctx key load = elim s.expired [
  | some e ↦ some (err e, s)
  | none ↦ elim (do_begin [] s.group ctx key) [
    | err e ↦ some (err e, s)
    | ok (t, g) ↦
        if t.leader
        then some (lead_resolve (record s { group = g }) t ctx key load)
        else follow_resolve (record s { group = g }) (wait [] ctx none true (g.heap t.call))
  ]
]

-- A scope with the keys whose load is between its two parts.
pub record System : Type 0 where
  pub scope : Scope
  pub loads : List String

unfoldable pub mem : String → List String → Bool
mem k [] = false
mem k (x ∷ xs) = x == k || mem k xs

unfoldable pub drop_key : String → List String → List String
drop_key k [] = []
drop_key k (x ∷ xs) = if x == k then drop_key k xs else x ∷ drop_key k xs

pub data Action : Type 0 where
  start : String → Action
  finish_load : Option Error → String → Load → Action
  expire : Error → Action
  clear_entries : Action

pub start_step : System → String → System
start_step s key = elim (reserve s.scope key) [
  | hit value ↦ s
  | full ↦ s
  | must_load s' ↦ record { scope = s'; loads = key ∷ s.loads }
]

-- The group lets one leader at work on a key, so a key that is loading is not started again (the
-- group's invariant). `Close` clears behind its cancellation.
unfoldable pub step : System → Action → System
unfolding start_step
step s (start key) = if mem key s.loads then s else start_step s key
step s (finish_load ctx key load) =
    if mem key s.loads
    then record { scope = (settle s.scope ctx key load).1; loads = drop_key key s.loads }
    else s
step s (expire e) = record s { scope = cancel s.scope e }
step s clear_entries = if is_some s.scope.expired then record s { scope = clear s.scope } else s

unfoldable pub run : System → List Action → System
run s [] = s
run s (a ∷ rest) = run (step s a) rest
