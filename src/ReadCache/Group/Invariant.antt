-- ===== src/ReadCache/Group/Invariant.antt =====
-- What holds of a group and its tickets between two actions, whatever the schedule.
use csar_core.Prelude.{
  ℕ, ◌≤◌, ◌<◌, String, ◌≡◌, true, false, not, ◌&&◌, some, List, string_eq, ◌==◌, nat_eq, is_some,
  length, All,
}
use csar_core.Prelude.Counts.{bit, count}
use csar_core.Prelude.Dict.{lookup, Unique}
use csar_core.ReadCache.Group.{Ticket, System, in_flight}

-- The followers of a call that have not released their ticket.
abbrev pub attached : ℕ → List Ticket → ℕ
attached p = count (λ t. not t.leader && not t.released && t.call == p)

-- The leaders of a key whose `Do` has not ended.
abbrev pub leading : String → List Ticket → ℕ
leading k = count (λ t. in_flight t && t.key == k)

abbrev pub IsCurrent : List (String × ℕ) → Ticket → Type 0
IsCurrent calls t = in_flight t ≡ true → lookup t.key calls ≡ some t.call

pub record Inv {T : Type 0} (s : System T) : Type 0 where
  pub unique : Unique s.group.calls
  pub live :
      (k : String) (p : ℕ)
      → lookup k s.group.calls ≡ some p
      → (p < s.group.next) × ((s.group.heap p).done ≡ false)
  pub apart :
      (k j : String) (p : ℕ)
      → lookup k s.group.calls ≡ some p
      → lookup j s.group.calls ≡ some p
      → k ≡ j
  pub keys_bounded : length s.group.calls ≤ s.group.limits.max_keys
  pub followers_exact : (p : ℕ) → (s.group.heap p).followers ≡ attached p s.tickets
  pub followers_bounded : (p : ℕ) → (s.group.heap p).followers ≤ s.group.limits.max_followers
  pub one_leader : (k : String) → leading k s.tickets ≡ bit (is_some (lookup k s.group.calls))
  pub current : All (IsCurrent s.group.calls) s.tickets
  pub allocated : All (λ t. t.call < s.group.next) s.tickets
