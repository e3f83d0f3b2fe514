-- ===== src/ConfigSource/Retry.antt =====
-- The watcher over sources that make conditional fetches of their own. The watcher forgets its
-- ETag when the caller's function fails, so that the configuration is applied again; the source
-- underneath has already marked the version as delivered.
use csar_core.Prelude.{
  ◌≤◌, String, ◌≡◌, refl, ◌≢◌, Bool, false, Option, none, some, List, [], ◌∷◌, arith, eq_iff,
  length, All, Result, ok, err,
}
use csar_core.ConfigSource.Types.{Data, FetchedConfig, Error}
use csar_core.ConfigSource.Watcher.{Watcher, Cycle, apply}
use csar_core.ConfigSource.Http
use csar_core.ConfigSource.Http.{
  max_config_size, HttpSource, Conditional, Response, conditional, fetch, if_none_match, status_304,
  complete,
}
use csar_core.ConfigSource.Manifest.{ServiceManifest, Manifest, lookup_service}
use csar_core.ConfigSource.Resolver.{S3Config, Source, ManifestSource}
use csar_core.ConfigSource.Resolver.Checked

module _ (digest : Data → String) (new_client : S3Config → Option Error)
    (contact : Source → Result Error FetchedConfig × Source) where
  -- Cycles of a watcher over a manifest source, with the manifest that the bootstrap source gives
  -- in each, its ETag, and the caller's function.
  pub cycles :
      Watcher → ManifestSource → List (String × Manifest × (Data → Result String Bool)) → List Cycle
  cycles w ms [] = []
  cycles w ms ((etag, m, f) ∷ rest) =
      let fetched = Checked.fetch_with digest new_client contact etag m ms in
      let cycle = apply digest w fetched.outcome f in
      cycle ∷ cycles cycle.watcher fetched.source rest

  abbrev pub same_manifest :
      Manifest
      → List (String × (Data → Result String Bool))
      → List (String × Manifest × (Data → Result String Bool))
  same_manifest m [] = []
  same_manifest m ((etag, f) ∷ rest) = (etag, m, f) ∷ same_manifest m rest

  abbrev pub AppliesNothing : Cycle → Type 0
  AppliesNothing c = (c.outcome ≡ ok false) × (c.applied ≡ none)

  -- Once the manifest source has handed a payload on, every later cycle with the same manifest
  -- reports success and applies nothing, whatever the state of the watcher. A payload on which
  -- the caller's function has failed is thus not tried again until the manifest's entry changes.
  pub cycles-AppliesNothing :
      (w : Watcher) (ms : ManifestSource) (etag : String) (m : Manifest) (svc : ServiceManifest)
      (payload : Data) (later : List (String × (Data → Result String Bool)))
      → lookup_service m ms.service_name ≡ ok svc
      → Checked.Delivers digest new_client contact
          (Checked.fetch_with digest new_client contact etag m ms)
          payload
      → All AppliesNothing (
          cycles w
            (Checked.fetch_with digest new_client contact etag m ms).source
            (same_manifest m later))
  unfolding cycles apply
  cycles-AppliesNothing w ms etag m svc payload [] found d = tt
  cycles-AppliesNothing w ms etag m svc payload ((tag, f) ∷ rest) found d =
      rw (Checked.delivered_quiet digest new_client contact etag tag m ms svc payload found d)
        ((refl, refl), cycles-AppliesNothing w ms etag m svc payload rest found d)

module _ (digest : Data → String) where
  -- The same over HTTP: when a response with an ETag has been read, and the server answers that
  -- ETag with 304 as long as the document stays, the next cycle applies nothing, also when the
  -- caller's function has just failed on the document.
  pub http_failed_not_retried :
      (w : Watcher) (s : HttpSource) (first second : Http.Conditional → Response) (body : Data)
      (etag modified : String) (f g : Data → Result String Bool) (x : String)
      → first (conditional s) ≡ complete body etag modified
      → etag ≢ ""
      → length body ≤ max_config_size
      → second (if_none_match etag) ≡ status_304
      → f body ≡ err x
      → let (one, s') = Http.fetch first s in
        let failed = apply digest w one f in
        let again = apply digest failed.watcher (Http.fetch second s').0 g in
        (one ≡ ok (record { payload = some body; etag = etag }))
        × (again.outcome ≡ ok false)
        × (again.applied ≡ none)
  unfolding Http.fetch conditional apply
  http_failed_not_retried w s first second body etag modified f g x answer tag small again e =
      ground (arith, eq_iff etag "")
