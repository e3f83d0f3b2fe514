-- ===== src/ConfigSource/Watcher/Laws.antt =====
-- What the watcher lets through to the caller's function, and what it remembers.
use csar_core.Prelude.{
  String, ◌≡◌, refl, sym, ◌≢◌, ◌↔◌, ◌⊎◌, inl, inr, Bool, Option, none, some, List, [], ◌∷◌, arith,
  eq_iff, All, Result, Result-cases, ok, err,
}
use csar_core.ConfigSource.Types.{
  Data, FetchedConfig, Error, integrity_violation, hash_validation, applying, apply_failed,
}
use csar_core.ConfigSource.Hash.{HashPolicy, validate_hash, disabled, tofu, pinned, other}
use csar_core.ConfigSource.Watcher.{Watcher, Cycle, apply, run_periodic_watch}

-- What the hash policy demands of a payload's digest before the payload may be applied.
abbrev pub Admits : HashPolicy → Watcher → String → String → Type 0
Admits disabled w etag hash = Unit
Admits tofu w etag hash = (w.last_hash ≡ "") ⊎ (etag ≢ w.last_etag) ⊎ (hash ≡ w.last_hash)
Admits pinned w etag hash = hash ≡ w.pinned_hash
Admits (other n) w etag hash = ⊥

validate_hash-Admits :
    (p : HashPolicy) (w : Watcher) (etag hash : String)
    → (validate_hash p w.pinned_hash hash w.last_hash etag w.last_etag ≡ ok tt)
      ↔ Admits p w etag hash
unfolding validate_hash
validate_hash-Admits disabled w etag hash = ((λ _. tt), (λ _. refl))
validate_hash-Admits tofu w etag hash =
    ground (arith, eq_iff w.last_hash "", eq_iff etag w.last_etag, eq_iff hash w.last_hash)
validate_hash-Admits pinned w etag hash = ground (arith, eq_iff hash w.pinned_hash)
validate_hash-Admits (other n) w etag hash = ((λ e. absurd (cc)), (λ e. absurd e))

module _ (digest : Data → String) (w : Watcher) (f : Data → Result String Bool) where
  -- Whatever the policy, the caller's function is called with nothing but the payload that was
  -- fetched in this cycle, and only if the policy admits the payload's digest: with a pinned
  -- hash only that digest, on trust of the first use no digest that changed under one ETag.
  pub applied-Admits :
      (etag : String) (fetched payload : Data)
      → (apply digest w (ok (record { payload = some fetched; etag = etag })) f).applied
        ≡ some payload
      → (payload ≡ fetched) × Admits w.hash_policy w etag (digest payload)
  unfolding apply
  applied-Admits etag fetched payload h =
      elim (Result-cases
        (validate_hash w.hash_policy w.pinned_hash (digest fetched) w.last_hash etag w.last_etag)) [
          | inl (u, e) ↦
              let e' : payload ≡ fetched = ground arith in
              (e', rw e' ((validate_hash-Admits w.hash_policy w etag (digest fetched)).0 e))
          | inr (x, e) ↦ absurd (ground arith)
        ]

-- What a source returned.
abbrev pub news : Data → String → Result Error FetchedConfig
news payload etag = ok (record { payload = some payload; etag = etag })

-- The watcher behind a payload that was applied.
abbrev pub remember : Watcher → String → String → Watcher
remember w etag hash = record w { last_etag = etag; last_hash = hash }

-- What a policy admitted once it admits again, under any ETag that the watcher then remembers
-- together with the same digest, or under a forgotten ETag.
Admits-remember :
    (p : HashPolicy) (w : Watcher) (etag hash : String)
    → Admits p w etag hash
    → Admits p (remember w etag hash) etag hash
Admits-remember disabled w etag hash a = tt
Admits-remember tofu w etag hash a = inr (inr refl)
Admits-remember pinned w etag hash a = a
Admits-remember (other n) w etag hash a = a

Admits-forget :
    (p : HashPolicy) (w : Watcher) (etag hash : String)
    → etag ≢ ""
    → Admits p w etag hash
    → Admits p (record w { last_etag = "" }) etag hash
Admits-forget disabled w etag hash tag a = tt
Admits-forget tofu w etag hash tag a = inr (inl tag)
Admits-forget pinned w etag hash tag a = a
Admits-forget (other n) w etag hash tag a = a

module _ (digest : Data → String) (w : Watcher) (f g : Data → Result String Bool) where
  applied_ok :
      (etag : String) (payload : Data) (changed : Bool)
      → (apply digest w (news payload etag) f).applied ≡ some payload
      → f payload ≡ ok changed
      → apply digest w (news payload etag) f ≡ record {
        outcome = ok changed;
        watcher = remember w etag (digest payload);
        applied = some payload;
      }
  unfolding apply
  applied_ok etag payload changed h e = ground arith

  applied_err :
      (etag : String) (payload : Data) (x : String)
      → (apply digest w (news payload etag) f).applied ≡ some payload
      → f payload ≡ err x
      → apply digest w (news payload etag) f ≡ record {
        outcome = err (applying (apply_failed x));
        watcher = record w { last_etag = "" };
        applied = some payload;
      }
  unfolding apply
  applied_err etag payload x h e = ground arith

  -- When the caller's function fails on a payload with an ETag, the cycle reports the failure,
  -- and a cycle that fetches the same again is not taken for unchanged: it calls the function
  -- with that payload again.
  pub failed_retries :
      (etag : String) (payload : Data) (x : String)
      → etag ≢ ""
      → (apply digest w (news payload etag) f).applied ≡ some payload
      → f payload ≡ err x
      → ((apply digest w (news payload etag) f).outcome ≡ err (applying (apply_failed x)))
        × ((apply digest
              (apply digest w (news payload etag) f).watcher
              (news payload etag)
              g).applied
            ≡ some payload)
  unfolding apply
  failed_retries etag payload x tag h e = rw (applied_err etag payload x h e) (
    refl,
    ground (
      arith,
      eq_iff etag "",
      (validate_hash-Admits w.hash_policy (record w { last_etag = "" }) etag (digest payload)).1 (
          Admits-forget w.hash_policy w etag (digest payload) tag
            (applied-Admits digest w f etag payload payload h).1),
    ),
  )

-- The fetches of a source that has no ETags.
abbrev pub untagged :
    List (Data × (Data → Result String Bool))
    → List (Option (Result Error FetchedConfig × (Data → Result String Bool)))
untagged [] = []
untagged ((payload, f) ∷ rest) = some (news payload "", f) ∷ untagged rest

-- A cycle that fails as a violation of integrity under an empty ETag, with a digest that is not
-- the remembered one, calls nothing and leaves the watcher as it was.
abbrev pub IsRefused : Watcher → Cycle → Type 0
IsRefused w c =
    ((hash : String) × (hash ≢ w.last_hash)
      × (c.outcome ≡ err (hash_validation (integrity_violation "" w.last_hash hash))))
    × (c.applied ≡ none)
    × (c.watcher ≡ w)

module _ (digest : Data → String) where
  apply-IsRefused :
      (w : Watcher) (payload : Data) (f : Data → Result String Bool)
      → w.hash_policy ≡ tofu
      → w.last_etag ≡ ""
      → w.last_hash ≢ ""
      → digest payload ≢ w.last_hash
      → IsRefused w (apply digest w (news payload "") f)
  unfolding apply validate_hash
  apply-IsRefused w payload f p t h moved =
      let held = eq_iff w.last_hash "" in
      let current = eq_iff (digest payload) w.last_hash in
      let tag = eq_iff "" w.last_etag in
      ((digest payload, moved, ground (arith, sym t)), ground (arith, sym t), ground (arith, sym t))

  -- Under trust of the first use a source without ETags can never bring a new configuration: once
  -- the watcher has applied a payload that came with an empty ETag, every later payload with an
  -- empty ETag and another digest fails as a violation of integrity, the caller's function is not
  -- called and the watcher stays as it was, in all cycles, however many.
  pub untagged_stuck :
      (w : Watcher) (fetches : List (Data × (Data → Result String Bool)))
      → w.hash_policy ≡ tofu
      → w.last_etag ≡ ""
      → w.last_hash ≢ ""
      → All (λ p. digest p.0 ≢ w.last_hash) fetches
      → All (IsRefused w) (run_periodic_watch digest w (untagged fetches))
  unfolding run_periodic_watch
  untagged_stuck w [] p t h others = tt
  untagged_stuck w ((payload, f) ∷ rest) p t h others =
      let refused = apply-IsRefused w payload f p t h others.0 in
      (refused, rw refused.2 (untagged_stuck w rest p t h others.1))
