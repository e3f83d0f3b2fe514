-- ===== src/ReadCache/Scope/Cases.antt =====
-- What the two locked parts of a `Resolve` do, in all cases.
use csar_core.Prelude.{
  ◌+◌, ◌-◌, ◌≤◌, ◌<◌, String, ◌≡◌, refl, ◌⊎◌, inl, inr, Option, none, some, arith, ltb, leb,
  string_eq, nat_eq, Bool-cases, Option-cases, length, ok, err,
}
use csar_core.Prelude.Dict.{lookup, insert, delete}
use csar_core.ReadCache.Group.{Error, capacity, aborted}
use csar_core.ReadCache.Scope.{
  Bytes, Scope, reserve, Load, settle, hit, full, must_load, loaded, load_failed, load_panicked,
}

-- What the locked part before the load does, in all cases.
pub reserve_cases :
    (s : Scope) (key : String)
    → ((v : Bytes) × (lookup key s.entries ≡ some (some v)) × (reserve s key ≡ hit v))
      ⊎ ((s.limits.max_entries ≤ length s.entries) × (reserve s key ≡ full))
      ⊎ ((lookup key s.entries ≡ none)
          × (length s.entries < s.limits.max_entries)
          × (reserve s key ≡ must_load (record s { entries = insert key none s.entries })))
      ⊎ ((lookup key s.entries ≡ some none)
          × (length s.entries < s.limits.max_entries)
          × (reserve s key ≡ must_load (record s { entries = insert key none s.entries })))
unfolding reserve
reserve_cases s key = elim (Option-cases (lookup key s.entries)) [
  | inl e ↦ elim (Bool-cases (leb s.limits.max_entries (length s.entries))) [
    | inl full' ↦ inr (inl (ground arith, ground arith))
    | inr room ↦ inr (inr (inl (e, ground arith, ground arith)))
  ]
  | inr (none, e) ↦ elim (Bool-cases (leb s.limits.max_entries (length s.entries))) [
    | inl full' ↦ inr (inl (ground arith, ground arith))
    | inr room ↦ inr (inr (inr (e, ground arith, ground arith)))
  ]
  | inr (some w, e) ↦ inl (w, e, ground arith)
]

-- What the locked part behind the load does, in all cases: it takes the reservation back, or it
-- keeps the value, which then fits and was loaded within the life of both contexts.
pub settle_cases :
    (s : Scope) (ctx : Option Error) (key : String) (load : Load)
    → ((e : Error) × (settle s ctx key load ≡ (err e, record s { entries = delete key s.entries })))
      ⊎ ((w : Bytes) × (load ≡ loaded w)
          × (s.expired ≡ none)
          × (length w ≤ s.limits.max_value_bytes)
          × (length w ≤ s.limits.max_bytes - s.bytes)
          × (settle s ctx key load ≡ (
            ok w,
            record s { entries = insert key (some w) s.entries; bytes = s.bytes + length w },
          )))
unfolding settle
settle_cases s ctx key (load_failed e) = inl (e, refl)
settle_cases s ctx key load_panicked = inl (aborted, refl)
settle_cases s (some e) key (loaded w) = inl (e, refl)
settle_cases s none key (loaded w) = elim (Bool-cases (ltb s.limits.max_value_bytes (length w))) [
  | inl big ↦ inl (capacity, ground arith)
  | inr fits ↦ elim (Option-cases s.expired) [
    | inr (e, over) ↦ inl (e, ground arith)
    | inl alive ↦ elim (Bool-cases (ltb (s.limits.max_bytes - s.bytes) (length w))) [
      | inl big ↦ inl (capacity, ground arith)
      | inr room ↦ inr (w, refl, alive, ground arith, ground arith, ground arith)
    ]
  ]
]
