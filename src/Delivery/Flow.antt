-- ===== src/Delivery/Flow.antt =====
-- Where the accepted events are, at every moment.
use csar_core.Prelude.{ℕ, ◌+◌, ◌≤◌, ◌<◌, ◌≡◌, ◌⊎◌, Bool, true, false, [], length, All}
use csar_core.Prelude.Counts.{count}
use csar_core.Delivery.Client.{max_batch, Client, count_all}

-- The events that pass the test and are on the way or at their end.
abbrev pub whereabouts : {E : Type 0} → (E → Bool) → Client E → ℕ
whereabouts p c =
    count p c.events
    + count p c.batch
    + count_all p c.batches
    + count_all p c.working
    + count p c.sent
    + count p c.failed
    + count p c.lost

pub record Inv {E : Type 0} (c : Client E) : Type 0 where
  pub closing : c.events_closed ≡ c.closed
  pub safe : c.panicked ≡ false
  pub queue : length c.events ≤ c.buffer_size
  pub gathered : length c.batch < max_batch
  pub waiting : length c.batches ≤ c.out_cap
  pub busy : length c.working ≤ c.workers
  pub small : All (λ b. length b ≤ max_batch) c.batches
  pub stopped : (c.dispatching ≡ true) ⊎ ((c.events ≡ []) × (c.batch ≡ []) × (c.closed ≡ true))
  pub conserved : (p : E → Bool) → count p c.accepted ≡ whereabouts p c
