-- ===== src/ConfigSource/Watcher.antt =====
-- configsource/watcher.go. A cycle gets what the source returned and the caller's function.
-- The mutex makes a cycle atomic; logging is left out.
pub mod Laws
use csar_core.Prelude.{
  String, Bool, false, not, ◌&&◌, Option, none, some, List, [], ◌∷◌, if◌then◌else◌, ◌==◌, nat_eq,
  string_eq, Result, ok, err,
}
use csar_core.ConfigSource.Types.{
  Data, FetchedConfig, Error, fetching, hash_validation, applying, apply_failed,
}
use csar_core.ConfigSource.Hash.{HashPolicy, validate_hash, tofu}

pub record Watcher : Type 0 where
  pub last_etag : String
  pub last_hash : String
  pub hash_policy : HashPolicy
  pub pinned_hash : String

pub data WatcherOption : Type 0 where
  with_hash_policy : HashPolicy → WatcherOption
  with_pinned_hash : String → WatcherOption

set_option : Watcher → WatcherOption → Watcher
set_option w (with_hash_policy p) = record w { hash_policy = p }
set_option w (with_pinned_hash h) = record w { pinned_hash = h }

set_options : Watcher → List WatcherOption → Watcher
set_options w [] = w
set_options w (o ∷ rest) = set_options (set_option w o) rest

unfoldable pub new_watcher : List WatcherOption → Watcher
unfolding set_options set_option
new_watcher =
    set_options (record { last_etag = ""; last_hash = ""; hash_policy = tofu; pinned_hash = "" })

-- `applied` is the argument with which the caller's function was called, if it was.
pub record Cycle : Type 0 where
  pub outcome : Result Error Bool
  pub watcher : Watcher
  pub applied : Option Data

module _ (digest : Data → String) where
  -- The call of `applyFn` and what follows it.
  apply_new : Watcher → (Data → Result String Bool) → Data → String → Cycle
  apply_new w apply_fn payload etag = elim (apply_fn payload) [
    | err e ↦ record {
      outcome = err (applying (apply_failed e));
      watcher = record w { last_etag = "" };
      applied = some payload;
    }
    | ok changed ↦ record {
      outcome = ok changed;
      watcher = record w { last_etag = etag; last_hash = digest payload };
      applied = some payload;
    }
  ]

  apply_payload : Watcher → (Data → Result String Bool) → Data → String → Cycle
  apply_payload w apply_fn payload etag =
      let hash = digest payload in
      let next = apply_new w apply_fn payload etag in
      elim (validate_hash w.hash_policy w.pinned_hash hash w.last_hash etag w.last_etag) [
        | err e ↦ record { outcome = err (hash_validation e); watcher = w; applied = none }
        | ok _ ↦
            if not (etag == "") && (etag == w.last_etag) && (hash == w.last_hash)
            then record { outcome = ok false; watcher = w; applied = none }
            else next
      ]

  unfoldable pub apply : Watcher → Result Error FetchedConfig → (Data → Result String Bool) → Cycle
  unfolding apply_payload apply_new
  apply w (err e) apply_fn = record { outcome = err (fetching e); watcher = w; applied = none }
  apply w (ok fetched) apply_fn = elim fetched.payload [
    | none ↦ record { outcome = ok false; watcher = w; applied = none }
    | some payload ↦ apply_payload w apply_fn payload fetched.etag
  ]

  -- The loop of `RunPeriodicWatch` over what its `select` receives: `none` is the end of the
  -- context, and a failed cycle is logged and passed over. The result has the cycles, in order.
  unfoldable pub run_periodic_watch :
      Watcher
      → List (Option (Result Error FetchedConfig × (Data → Result String Bool)))
      → List Cycle
  run_periodic_watch w [] = []
  run_periodic_watch w (none ∷ rest) = []
  run_periodic_watch w (some (fetched, apply_fn) ∷ rest) =
      let cycle = apply w fetched apply_fn in cycle ∷ run_periodic_watch cycle.watcher rest
