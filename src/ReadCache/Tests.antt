-- ===== src/ReadCache/Tests.antt =====
-- The theorems on groups and scopes at concrete histories.
use csar_core.Prelude.{
  ℕ, ◌≤◌, ◌≡◌, refl, true, false, none, some, List, [], ◌∷◌, ◌++◌, string_eq, nat_eq, length, ok,
}
use csar_core.Prelude.Dict.{lookup, insert, delete, Unique}
use csar_core.ReadCache.Group
use csar_core.ReadCache.Group.{
  Limits, Group, new_group, begin, finish, wait, end_load, do_begin, System, Action, step, run,
  aborted, returned, enter, complete,
}
use csar_core.ReadCache.Scope
use csar_core.ReadCache.Scope.Invariant as ScopeInvariant

abbrev flights : Limits
flights = record { max_keys = 2; max_followers = 1; max_key_bytes = 8 }

abbrev empty : Group ℕ
empty = record {
  limits = flights;
  calls = [];
  heap = λ _. record { done = false; value = 0; err = none; followers = 0 };
  next = 0;
}

new_empty : new_group 0 flights ≡ ok empty
unfolding new_group
new_empty = refl

-- A leader and a follower of "a", a second follower refused, a leader of "b", a third key refused.
abbrev history : List (Action ℕ)
history = enter none "a" ∷ enter none "a" ∷ enter none "a" ∷ enter none "b" ∷ enter none "c" ∷ []

abbrev busy : System ℕ
unfolding run
busy = run 0 (record { group = empty; tickets = [] }) history

three_tickets : length busy.tickets ≡ 3
unfolding run step begin lookup insert do_begin
three_tickets = refl

run-new_group-Inv_example :
    Group.Invariant.Inv (run 0 (record { group = empty; tickets = [] }) history)
run-new_group-Inv_example = Group.Tickets.run-new_group-Inv 0 flights empty history new_empty

complete-wait_example :
    (lookup "a" (step 0 busy (complete 0 (returned 7 none))).group.calls ≡ none)
    × (wait 0 none none true ((step 0 busy (complete 0 (returned 7 none))).group.heap 0)
        ≡ some (7, none))
unfolding run step begin lookup insert do_begin
complete-wait_example =
    Group.Tickets.complete-wait 0 busy 0
      (record { key = "a"; call = 0; leader = true; released = false }) (returned 7 none) true
      (Group.Tickets.run-new_group-Inv 0 flights empty history new_empty) refl refl

-- The leader of "a" has returned 7.
abbrev answered : List (Action ℕ)
answered = history ++ complete 0 (returned 7 none) ∷ []

abbrev limits : Scope.ScopeLimits
limits = record {
  flights = flights;
  max_entries = 2;
  max_bytes = 5;
  max_value_bytes = 4;
  max_age = 9;
}

abbrev fresh : Scope.Scope
fresh = record {
  expired = none;
  limits = limits;
  entries = [];
  bytes = 0;
  group = record {
    limits = flights;
    calls = [];
    heap = λ _. record { done = false; value = []; err = none; followers = 0 };
    next = 0;
  };
}

new_fresh : Scope.new_scope limits ≡ ok fresh
unfolding Scope.new_scope new_group
new_fresh = refl

abbrev loads : List Scope.Action
loads =
    Scope.start "a"
    ∷ Scope.start "b"
    ∷ Scope.finish_load none "a" (Scope.loaded (1 ∷ 2 ∷ 3 ∷ []))
    ∷ Scope.finish_load none "b" (Scope.loaded (4 ∷ 5 ∷ 6 ∷ []))
    ∷ []

run-new_scope-bounds_example :
    let t = (Scope.run (record { scope = fresh; loads = [] }) loads).scope in
    Unique t.entries
    × (length t.entries ≤ t.limits.max_entries)
    × (t.bytes ≡ Scope.Entries.total t.entries)
    × (t.bytes ≤ t.limits.max_bytes)
    × Scope.Entries.ValuesFit t.limits.max_value_bytes t.entries
run-new_scope-bounds_example = ScopeInvariant.run-new_scope-bounds limits fresh loads new_fresh

-- The second value no longer fits into the bytes that are left.
loads_keep_one : (Scope.run (record { scope = fresh; loads = [] }) loads).scope.bytes ≡ 3
unfolding Scope.run Scope.step Scope.reserve Scope.settle Scope.mem Scope.drop_key lookup insert
    delete
loads_keep_one = refl

run-close-IsClosed_example :
    Scope.Closing.IsClosed
      (Scope.run
        (record (record { scope = fresh; loads = "a" ∷ [] }) { scope = Scope.close fresh aborted })
        (Scope.finish_load none "a" (Scope.loaded []) ∷ [])).scope
run-close-IsClosed_example =
    Scope.Closing.run-close-IsClosed (record { scope = fresh; loads = "a" ∷ [] }) aborted
      (Scope.finish_load none "a" (Scope.loaded []) ∷ [])

abbrev resolved : Scope.Scope
resolved = elim (Scope.resolve fresh none "a" (Scope.loaded (7 ∷ []))) [
  | some (r, t) ↦ t
  | none ↦ fresh
]

resolve_memo_example :
    (t : Scope.Scope) × (Scope.resolve resolved none "a" (Scope.load_failed aborted)
      ≡ some (ok (7 ∷ []), t))
    × (t.entries ≡ resolved.entries)
    × (t.bytes ≡ resolved.bytes)
unfolding Scope.resolve Scope.produce Scope.reserve Scope.settle do_begin begin lookup insert delete
    end_load finish
resolve_memo_example =
    Scope.Memo.resolve_memo fresh resolved "a" (Scope.loaded (7 ∷ [])) (Scope.load_failed aborted)
      (7 ∷ []) refl refl
