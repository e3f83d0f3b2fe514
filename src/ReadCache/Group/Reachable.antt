-- ===== src/ReadCache/Group/Reachable.antt =====
-- The invariant along every history.
use csar_core.Prelude.{
  ℕ, String, ◌≡◌, inl, inr, ◌||◌, Option, none, some, List, [], ◌∷◌, arith, string_eq, nat_eq,
  Bool-cases, Option-cases, get_elem?, set_same, All-get_elem?, ok,
}
use csar_core.Prelude.Dict
use csar_core.Prelude.Dict.{lookup}
use csar_core.ReadCache.Group.Results.{end_load_current, begin_cases}
use csar_core.ReadCache.Group.{
  Error, Limits, Group, new_group, release, Outcome, do_begin, System, Action, in_flight,
  enter_step, step, run, enter, leave, complete,
}
use csar_core.ReadCache.Group.Invariant.{Inv}
use csar_core.ReadCache.Group.Preserve.{joined-Inv, led-Inv, left-Inv, closed-Inv}

module _ {T : Type 0} where
  enter-Inv :
      (z : T) (s : System T) (ctx : Option Error) (key : String)
      → Inv s
      → Inv (step z s (enter ctx key))
  unfolding step enter_step do_begin
  enter-Inv z s (some e) key v = v
  enter-Inv z s none key v = elim (begin_cases z s.group key) [
    | inl (p, found, room, e) ↦
        rw (e, do_begin, enter_step, step) (joined-Inv z s.group s.tickets key p found room v)
    | inr (inl (missing, room, e)) ↦
        rw (e, do_begin, enter_step, step) (led-Inv z s.group s.tickets key missing room v)
    | inr (inr (inl (e, why))) ↦ rw (e, do_begin, enter_step, step) v
    | inr (inr (inr (e, why))) ↦ rw (e, do_begin, enter_step, step) v
  ]

  leave-Inv : (z : T) (s : System T) (i : ℕ) → Inv s → Inv (step z s (leave i))
  unfolding step release
  leave-Inv z s i v = elim (Option-cases (get_elem? s.tickets i)) [
    | inl e ↦ rw (e, step) v
    | inr (t, e) ↦ elim (Bool-cases (t.leader || t.released)) [
      | inl kept ↦ rw (e, step) (rw (kept, release) (rw (set_same s.tickets i t e) v))
      | inr held ↦
          rw (e, step)
            (rw (held, release)
              (left-Inv z s.group s.tickets i t e (ground arith) (ground arith) v))
    ]
  ]

  complete-Inv :
      (z : T) (s : System T) (i : ℕ) (o : Outcome T) → Inv s → Inv (step z s (complete i o))
  unfolding step
  complete-Inv z s i o v = elim (Option-cases (get_elem? s.tickets i)) [
    | inl e ↦ rw (e, step) v
    | inr (t, e) ↦ elim (Bool-cases (in_flight t)) [
      | inl flying ↦
          let now = All-get_elem? _ s.tickets i t v.current e flying in
          rw (e, step)
            (rw flying (
              rw (end_load_current z s.group t o now)
                (closed-Inv z s.group s.tickets i t _ _ e (ground arith) (ground arith) now v)))
      | inr ended ↦ rw (e, step) (rw ended v)
    ]
  ]

  -- Every action keeps the invariant.
  pub step-Inv : (z : T) (s : System T) (a : Action T) → Inv s → Inv (step z s a)
  step-Inv z s (enter ctx key) v = enter-Inv z s ctx key v
  step-Inv z s (leave i) v = leave-Inv z s i v
  step-Inv z s (complete i o) v = complete-Inv z s i o v

  pub run-Inv : (z : T) (s : System T) (actions : List (Action T)) → Inv s → Inv (run z s actions)
  unfolding run
  run-Inv z s [] v = v
  run-Inv z s (a ∷ rest) v = run-Inv z (step z s a) rest (step-Inv z s a v)

  pub new_group-Inv :
      (z : T) (l : Limits) (g : Group T)
      → new_group z l ≡ ok g
      → Inv (record { group = g; tickets = [] })
  unfolding new_group Dict.lookup
  new_group-Inv z l g h = ground arith
