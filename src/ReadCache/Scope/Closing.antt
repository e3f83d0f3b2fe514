-- ===== src/ReadCache/Scope/Closing.antt =====
-- A scope that has been closed keeps nothing.
use csar_core.Prelude.{
  String, ◌≡◌, refl, ◌≢◌, inl, inr, true, Option, none, some, List, [], ◌∷◌, arith, string_eq,
  nat_eq, Bool-cases, is_some,
}
use csar_core.Prelude.Dict
use csar_core.Prelude.Dict.{lookup, insert, lookup-insert, lookup-delete}
use csar_core.ReadCache.Group.{Error}
use csar_core.ReadCache.Scope.{
  Bytes, Scope, cancel, clear, close, Load, settle, System, mem, Action, start_step, step, run,
  start, finish_load, expire, clear_entries,
}
use csar_core.ReadCache.Scope.Cases.{reserve_cases, settle_cases}

-- A scope that has ended and keeps no value.
pub record IsClosed (s : Scope) : Type 0 where
  pub over : is_some s.expired ≡ true
  pub no_bytes : s.bytes ≡ 0
  pub no_value : (k : String) (w : Bytes) → lookup k s.entries ≢ some (some w)

pub close-IsClosed : (s : Scope) (e : Error) → IsClosed (close s e)
unfolding close lookup
close-IsClosed s e = record {
  over = ground arith;
  no_bytes = ground arith;
  no_value = λ k w h. ground arith;
}

settle-IsClosed :
    (s : Scope) (ctx : Option Error) (key : String) (load : Load)
    → IsClosed s
    → IsClosed (settle s ctx key load).1
settle-IsClosed s ctx key load c = elim (settle_cases s ctx key load) [
  | inl (e, q) ↦ rw q (record {
    over = c.over;
    no_bytes = c.no_bytes;
    no_value = λ k w h. ground (arith, c.no_value k w, Dict.lookup-delete key k s.entries);
  })
  | inr (w, _, alive, _, _, _) ↦ absurd (ground (arith, c.over))
]

reserved-IsClosed :
    (s : Scope) (key : String)
    → IsClosed s
    → IsClosed (record s { entries = insert key none s.entries })
reserved-IsClosed s key c = record {
  over = c.over;
  no_bytes = c.no_bytes;
  no_value = λ k w h. ground (arith, c.no_value k w, Dict.lookup-insert key k none s.entries);
}

start-IsClosed :
    (s : System) (key : String) → IsClosed s.scope → IsClosed (step s (start key)).scope
unfolding step start_step
start-IsClosed s key c = elim (Bool-cases (mem key s.loads)) [
  | inl busy ↦ rw busy c
  | inr idle ↦ rw idle (elim (reserve_cases s.scope key) [
    | inl (w, found, e) ↦ rw (e, start_step) c
    | inr (inl (_, e)) ↦ rw (e, start_step) c
    | inr (inr (inl (free, room, e))) ↦ rw (e, start_step) (reserved-IsClosed s.scope key c)
    | inr (inr (inr (old, room, e))) ↦ rw (e, start_step) (reserved-IsClosed s.scope key c)
  ])
]

step-IsClosed : (s : System) (a : Action) → IsClosed s.scope → IsClosed (step s a).scope
unfolding step cancel clear lookup
step-IsClosed s (start key) c = start-IsClosed s key c
step-IsClosed s (finish_load ctx key load) c = elim (Bool-cases (mem key s.loads)) [
  | inl busy ↦ rw busy (settle-IsClosed s.scope ctx key load c)
  | inr idle ↦ rw idle c
]
step-IsClosed s (expire e) c = record {
  over = ground (arith, c.over);
  no_bytes = ground (arith, c.no_bytes);
  no_value = λ k w h. ground (arith, c.no_value k w);
}
step-IsClosed s clear_entries c =
    rw (c.over) (record { over = c.over; no_bytes = refl; no_value = λ k w h. ground arith })

run-IsClosed :
    (s : System) (actions : List Action) → IsClosed s.scope → IsClosed (run s actions).scope
unfolding run
run-IsClosed s [] c = c
run-IsClosed s (a ∷ rest) c = run-IsClosed (step s a) rest (step-IsClosed s a c)

-- Behind `Close` the scope stays ended and never again keeps a value, whatever loads that were
-- under way then return, and whatever is started afterwards.
pub run-close-IsClosed :
    (s : System) (e : Error) (actions : List Action)
    → IsClosed (run (record s { scope = close s.scope e }) actions).scope
run-close-IsClosed s e actions = run-IsClosed _ actions (close-IsClosed s.scope e)
