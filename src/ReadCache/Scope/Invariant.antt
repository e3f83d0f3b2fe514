-- ===== src/ReadCache/Scope/Invariant.antt =====
-- What holds of a scope between two atomic parts, whatever their order.
use csar_core.Prelude.{
  ◌≤◌, String, ◌≡◌, refl, ◌⊎◌, inl, inr, true, Option, none, some, List, [], ◌∷◌, arith, eq_iff,
  string_eq, nat_eq, Bool-cases, is_some, length, ok,
}
use csar_core.Prelude.Dict
use csar_core.Prelude.Dict.{
  lookup, lookup-insert, lookup-delete, length-insert-new, length-insert-old, length-delete-le,
  Unique, insert-Unique, delete-Unique, delete-absent,
}
use csar_core.ReadCache.Group.{Error}
use csar_core.ReadCache.Scope.{
  ScopeLimits, Scope, new_scope, cancel, clear, Load, System, mem, Action, start_step, step, run,
  start, finish_load, expire, clear_entries,
}
use csar_core.ReadCache.Scope.Entries.{
  total, ValuesFit, total-insert-reserved, total-insert-new, total-delete-reserved,
  ValuesFit-insert, ValuesFit-delete, mem-drop_key,
}
use csar_core.ReadCache.Scope.Cases.{reserve_cases, settle_cases}

-- A key that is loading keeps its reservation until the scope has ended.
abbrev pub IsPending : Scope → String → Type 0
IsPending s k =
    (lookup k s.entries ≡ some none) ⊎ ((lookup k s.entries ≡ none) × (is_some s.expired ≡ true))

pub record Inv (s : System) : Type 0 where
  pub unique : Unique s.scope.entries
  pub entries_bounded : length s.scope.entries ≤ s.scope.limits.max_entries
  pub bytes_exact : s.scope.bytes ≡ total s.scope.entries
  pub bytes_bounded : s.scope.bytes ≤ s.scope.limits.max_bytes
  pub values_fit : ValuesFit s.scope.limits.max_value_bytes s.scope.entries
  pub pending : (k : String) → mem k s.loads ≡ true → IsPending s.scope k

start-Inv : (s : System) (key : String) → Inv s → Inv (step s (start key))
unfolding step start_step mem
start-Inv s key v = elim (Bool-cases (mem key s.loads)) [
  | inl busy ↦ rw busy v
  | inr idle ↦ rw idle (elim (reserve_cases s.scope key) [
    | inl (w, found, e) ↦ rw (e, start_step) v
    | inr (inl (_, e)) ↦ rw (e, start_step) v
    | inr (inr (inl (free, room, e))) ↦
        rw (e, start_step)
          (record {
            unique = Dict.insert-Unique key none _ v.unique;
            entries_bounded = omega (arith, Dict.length-insert-new key none _ free);
            bytes_exact = omega (arith, total-insert-new key none _ free);
            bytes_bounded = v.bytes_bounded;
            values_fit = ValuesFit-insert _ key none _ (omega arith) v.values_fit;
            pending = λ k h.
                ground
                  (arith, eq_iff key k, v.pending k, Dict.lookup-insert key k none s.scope.entries);
          })
    | inr (inr (inr (old, room, e))) ↦
        rw (e, start_step)
          (record {
            unique = Dict.insert-Unique key none _ v.unique;
            entries_bounded = omega (arith, Dict.length-insert-old key none none _ old);
            bytes_exact = omega (arith, total-insert-reserved key none _ old);
            bytes_bounded = v.bytes_bounded;
            values_fit = ValuesFit-insert _ key none _ (omega arith) v.values_fit;
            pending = λ k h.
                ground
                  (arith, eq_iff key k, v.pending k, Dict.lookup-insert key k none s.scope.entries);
          })
  ])
]

finish-Inv :
    (s : System) (ctx : Option Error) (key : String) (load : Load)
    → Inv s
    → Inv (step s (finish_load ctx key load))
unfolding step
finish-Inv s ctx key load v = elim (Bool-cases (mem key s.loads)) [
  | inr idle ↦ rw idle v
  | inl busy ↦ rw busy (elim (settle_cases s.scope ctx key load) [
    | inl (e, q) ↦ rw q (record {
      unique = Dict.delete-Unique key _ v.unique;
      entries_bounded = omega (arith, v.entries_bounded, Dict.length-delete-le key s.scope.entries);
      bytes_exact = elim (v.pending key busy) [
        | inl kept ↦ omega (arith, total-delete-reserved key _ v.unique kept)
        | inr (gone, _) ↦ rw (Dict.delete-absent key _ gone) v.bytes_exact
      ];
      bytes_bounded = v.bytes_bounded;
      values_fit = ValuesFit-delete _ key _ v.values_fit;
      pending = λ k h. ground (
        arith,
        eq_iff key k,
        mem-drop_key key k s.loads h,
        v.pending k,
        Dict.lookup-delete key k s.scope.entries,
      );
    })
    | inr (w, _, alive, small, room, q) ↦ rw q (elim (v.pending key busy) [
      | inr (_, over) ↦ absurd (ground arith)
      | inl kept ↦ record {
        unique = Dict.insert-Unique key (some w) _ v.unique;
        entries_bounded =
            omega (arith, v.entries_bounded, Dict.length-insert-old key (some w) none _ kept);
        bytes_exact = omega (arith, total-insert-reserved key (some w) _ kept);
        bytes_bounded = omega arith;
        values_fit = ValuesFit-insert _ key (some w) _ small v.values_fit;
        pending = λ k h. ground (
          arith,
          eq_iff key k,
          mem-drop_key key k s.loads h,
          v.pending k,
          Dict.lookup-insert key k (some w) s.scope.entries,
        );
      }
    ])
  ])
]

end-Inv : (s : System) (e : Error) → Inv s → Inv (step s (expire e))
unfolding step cancel
end-Inv s e v = record {
  unique = ground (arith, v.unique);
  entries_bounded = ground (arith, v.entries_bounded);
  bytes_exact = ground (arith, v.bytes_exact);
  bytes_bounded = ground (arith, v.bytes_bounded);
  values_fit = ground (arith, v.values_fit);
  pending = λ k h. ground (arith, v.pending k h);
}

clear-Inv : (s : System) → Inv s → Inv (step s clear_entries)
unfolding step clear lookup
clear-Inv s v = elim (Bool-cases (is_some s.scope.expired)) [
  | inl over ↦ rw over (record {
    unique = tt;
    entries_bounded = omega arith;
    bytes_exact = refl;
    bytes_bounded = omega arith;
    values_fit = tt;
    pending = λ k h. inr (refl, over);
  })
  | inr alive ↦ rw alive v
]

-- Every atomic part keeps the invariant.
pub step-Inv : (s : System) (a : Action) → Inv s → Inv (step s a)
step-Inv s (start key) v = start-Inv s key v
step-Inv s (finish_load ctx key load) v = finish-Inv s ctx key load v
step-Inv s (expire e) v = end-Inv s e v
step-Inv s clear_entries v = clear-Inv s v

pub run-Inv : (s : System) (actions : List Action) → Inv s → Inv (run s actions)
unfolding run
run-Inv s [] v = v
run-Inv s (a ∷ rest) v = run-Inv (step s a) rest (step-Inv s a v)

-- A scope that `NewScope` accepts is empty and alive.
pub new_scope_ok :
    (l : ScopeLimits) (s : Scope)
    → new_scope l ≡ ok s
    → (s.expired ≡ none) × (s.entries ≡ []) × (s.bytes ≡ 0) × (s.limits ≡ l)
unfolding new_scope
new_scope_ok l s h = ground arith

pub new_scope-Inv :
    (l : ScopeLimits) (s : Scope) → new_scope l ≡ ok s → Inv (record { scope = s; loads = [] })
unfolding mem
new_scope-Inv l s h =
    let (alive, empty, no_bytes, limits) = new_scope_ok l s h in
    record {
      unique = rw empty tt;
      entries_bounded = rw empty (omega arith);
      bytes_exact = rw empty no_bytes;
      bytes_bounded = omega arith;
      values_fit = rw empty tt;
      pending = λ k m. absurd (cc);
    }

-- On a scope that `NewScope` accepted, any interleaving of starts, ends of loads, expiry and
-- `Close` keeps at most `MaxEntries` entries, reservations among them, one for a key, and keeps
-- the byte count equal to the size of the kept values, at most `MaxBytes`, with no value
-- longer than `MaxValueBytes`.
pub run-new_scope-bounds :
    (l : ScopeLimits) (s : Scope) (actions : List Action)
    → new_scope l ≡ ok s
    → let t = (run (record { scope = s; loads = [] }) actions).scope in
      Unique t.entries
      × (length t.entries ≤ t.limits.max_entries)
      × (t.bytes ≡ total t.entries)
      × (t.bytes ≤ t.limits.max_bytes)
      × ValuesFit t.limits.max_value_bytes t.entries
run-new_scope-bounds l s actions h =
    let v = run-Inv (record { scope = s; loads = [] }) actions (new_scope-Inv l s h) in
    (v.unique, v.entries_bounded, v.bytes_exact, v.bytes_bounded, v.values_fit)
