-- ===== src/ConfigSource/Resolver/Checked.antt =====
-- What a manifest source hands on, and when it is silent.
use csar_core.Prelude.{
  String, ◌≡◌, ap, ◌∙◌, ◌≢◌, inl, inr, false, Option, none, some, List, [], ◌∷◌, arith, eq_iff,
  string_eq, ◌==◌, nat_eq, Bool-cases, Option-cases, Result, Result-cases, ok, err,
}
use csar_core.ConfigSource.Types.{Data, FetchedConfig, Error}
use csar_core.ConfigSource.Manifest.{
  ChecksumInfo, ConfigResource, ServiceManifest, Manifest, check_manifest, lookup_service,
}
use csar_core.ConfigSource.Manifest.Validity.{
  IsWellFormed, AllWellFormed, check_manifest-WellFormed,
}
use csar_core.Prelude.Dict.{lookup}
use csar_core.ConfigSource.Resolver.{
  S3Config, Source, ManifestSource, config_resource_equal, checksum_text, synthetic_etag, Fetch,
  resolve_source, keep_source, verify, use_answer, fetch_service, is_unchanged, fetch_found,
  fetch_manifest, fetch_resolved,
}

module _ (digest : Data → String) (new_client : S3Config → Option Error)
    (contact : Source → Result Error FetchedConfig × Source) where
  -- What `Fetch` returns when the bootstrap source gave a manifest.
  abbrev pub fetch_with : String → Manifest → ManifestSource → Fetch
  fetch_with etag m = fetch_resolved digest new_client contact (ok (some (ok m), etag))

  -- The payload that a fetch handed on.
  abbrev pub Delivers : Fetch → Data → Type 0
  Delivers r payload =
      (tag : String) × (r.outcome ≡ ok (record { payload = some payload; etag = tag }))

  -- The payload has the digest that the checksum names, if there is one.
  abbrev pub Matches : Option ChecksumInfo → Data → Type 0
  Matches none payload = Unit
  Matches (some c) payload = digest payload ≡ c.digest_value

  abbrev pub Verified : ManifestSource → ServiceManifest → Data → Fetch → Type 0
  Verified ms svc payload r =
      (r.source.last_version ≡ svc.version)
      × (r.source.last_cksum ≡ checksum_text svc)
      × (r.source.service_name ≡ ms.service_name)
      × Matches svc.config.checksum payload

  verify-Verified :
      (ms : ManifestSource) (svc : ServiceManifest) (etag : String) (got payload : Data)
      → Delivers (verify digest new_client contact ms svc etag got) payload
      → Verified ms svc payload (verify digest new_client contact ms svc etag got)
  unfolding verify
  verify-Verified ms svc etag got payload (tag, e) = elim (Option-cases svc.config.checksum) [
    | inl bare ↦ (ground arith, ground arith, ground arith, rw bare tt)
    | inr (c, has) ↦
        let good : digest got ≡ c.digest_value =
          ground (arith, eq_iff (digest got) c.digest_value) in
        let same : got ≡ payload = ground (arith, good) in
        (
          ground (arith, good),
          ground (arith, good),
          ground (arith, good),
          rw has (rw (← same) good),
        )
  ]

  answer-Verified :
      (ms : ManifestSource) (svc : ServiceManifest) (etag : String)
      (answer : Result Error FetchedConfig) (payload : Data)
      → Delivers (use_answer digest new_client contact ms svc etag answer) payload
      → Verified ms svc payload (use_answer digest new_client contact ms svc etag answer)
  unfolding use_answer
  answer-Verified ms svc etag (err e) payload (tag, d) = absurd (cc)
  answer-Verified ms svc etag (ok fetched) payload (tag, d) = elim (Option-cases fetched.payload) [
    | inl e ↦ absurd (ground arith)
    | inr (got, e) ↦
        rw (e, use_answer) (verify-Verified ms svc etag got payload (tag, ground (arith, d)))
  ]

  resolve_name :
      (ms ms' : ManifestSource) (cr : ConfigResource) (src : Source)
      → resolve_source digest new_client contact ms cr ≡ ok (src, ms')
      → ms'.service_name ≡ ms.service_name
  unfolding resolve_source
  resolve_name ms ms' cr src h = ground arith

  keep_name :
      (ms : ManifestSource) (src : Source)
      → (keep_source digest new_client contact ms src).service_name ≡ ms.service_name
  keep_name ms src = ground arith

  service-Verified :
      (ms : ManifestSource) (svc : ServiceManifest) (etag : String) (payload : Data)
      → Delivers (fetch_service digest new_client contact ms svc etag) payload
      → Verified ms svc payload (fetch_service digest new_client contact ms svc etag)
  unfolding fetch_service
  service-Verified ms svc etag payload (tag, d) =
      elim (Result-cases (resolve_source digest new_client contact ms svc.config)) [
        | inr (x, e) ↦ absurd (ground arith)
        | inl ((src, ms'), e) ↦
            let kept = keep_source digest new_client contact ms' (contact src).1 in
            let v =
              answer-Verified kept svc etag (contact src).0 payload
                (tag, rw (e, fetch_service) at d) in
            rw (e, fetch_service)
              (
                v.0,
                v.1,
                v.2 ∙ keep_name ms' (contact src).1 ∙ resolve_name ms ms' svc.config src e,
                v.3,
              )
      ]

  check_manifest_same : (m n : Manifest) → check_manifest m ≡ ok n → n ≡ m
  unfolding check_manifest
  check_manifest_same m n h = ground arith

  -- When `Fetch` hands on a payload for a manifest that lists the service, the manifest is one
  -- that `ParseManifest` accepts, the payload's digest is the one that the service's checksum
  -- names, if it names one, and the version and the checksum are the ones remembered.
  pub Delivers-Verified :
      (etag : String) (m : Manifest) (ms : ManifestSource) (svc : ServiceManifest) (payload : Data)
      → lookup_service m ms.service_name ≡ ok svc
      → Delivers (fetch_with etag m ms) payload
      → (check_manifest m ≡ ok m) × Verified ms svc payload (fetch_with etag m ms)
  unfolding fetch_resolved fetch_manifest fetch_found
  Delivers-Verified etag m ms svc payload found (tag, d) = elim (Result-cases (check_manifest m)) [
    | inr (x, e) ↦ absurd (ground arith)
    | inl (n, e) ↦
        let e' : check_manifest m ≡ ok m = e ∙ ap (λ x. ok x) (check_manifest_same m n e) in
        elim (Bool-cases (is_unchanged digest new_client contact ms svc)) [
          | inl same ↦ absurd (ground arith)
          | inr changed ↦
              let q : fetch_with etag m ms
                  ≡ fetch_service digest new_client contact ms svc (synthetic_etag etag svc) =
                ground arith in
              (
                e',
                rw q (service-Verified ms svc (synthetic_etag etag svc) payload (tag, rw q at d)),
              )
        ]
  ]

  lookup-IsWellFormed :
      (name : String) (services : List (String × ServiceManifest)) (svc : ServiceManifest)
      → AllWellFormed services
      → lookup name services ≡ some svc
      → IsWellFormed svc
  unfolding lookup
  lookup-IsWellFormed name [] svc h e = absurd (cc)
  lookup-IsWellFormed name ((n, s) ∷ rest) svc h e = elim (Bool-cases (n == name)) [
    | inl hit ↦ let q : s ≡ svc = ground arith in rw (← q) h.0
    | inr miss ↦ lookup-IsWellFormed name rest svc h.1 (ground arith)
  ]

  found_version :
      (m : Manifest) (name : String) (svc : ServiceManifest)
      → AllWellFormed m.services
      → lookup_service m name ≡ ok svc
      → svc.version ≢ ""
  unfolding lookup_service
  found_version m name svc h e = (lookup-IsWellFormed name m.services svc h (ground arith)).0

  remembered_quiet :
      (later : String) (m : Manifest) (ms : ManifestSource) (svc : ServiceManifest)
      → check_manifest m ≡ ok m
      → lookup_service m ms.service_name ≡ ok svc
      → svc.version ≢ ""
      → ms.last_version ≡ svc.version
      → ms.last_cksum ≡ checksum_text svc
      → fetch_with later m ms ≡ record {
        outcome = ok (record { payload = none; etag = synthetic_etag later svc });
        source = ms;
        contacted = false;
      }
  unfolding fetch_resolved fetch_manifest fetch_found
  remembered_quiet later m ms svc good found tag v c = ground (
    arith,
    eq_iff svc.version ms.last_version,
    eq_iff (checksum_text svc) ms.last_cksum,
    eq_iff ms.last_version "",
  )

  -- Once a payload has been handed on, the same manifest is no news, under any ETag of the
  -- manifest: `Fetch` returns no payload, keeps its state and does not ask the resolved source.
  pub delivered_quiet :
      (etag later : String) (m : Manifest) (ms : ManifestSource) (svc : ServiceManifest)
      (payload : Data)
      → lookup_service m ms.service_name ≡ ok svc
      → Delivers (fetch_with etag m ms) payload
      → fetch_with later m (fetch_with etag m ms).source ≡ record {
        outcome = ok (record { payload = none; etag = synthetic_etag later svc });
        source = (fetch_with etag m ms).source;
        contacted = false;
      }
  delivered_quiet etag later m ms svc payload found d =
      let (good, v) = Delivers-Verified etag m ms svc payload found d in
      let wf = ((check_manifest-WellFormed m).0 good).2 in
      remembered_quiet later m (fetch_with etag m ms).source svc good (rw v.2 found)
        (found_version m ms.service_name svc wf found) v.0 v.1

  -- The resource is taken for the resolved one as soon as provider, path, bucket, region and
  -- endpoint agree: then the resolved source, with the headers that it was built with, serves
  -- also a resource whose headers, checksum or metadata are others.
  pub resolve_keeps_headers :
      (ms : ManifestSource) (src : Source) (old : ConfigResource)
      (headers meta : List (String × String)) (checksum : Option ChecksumInfo)
      → ms.resolved ≡ some (src, old)
      → resolve_source digest new_client contact ms
          (record old { headers = headers; meta = meta; checksum = checksum })
        ≡ ok (src, ms)
  unfolding resolve_source config_resource_equal
  resolve_keeps_headers ms src old headers meta checksum h = ground (
    arith,
    eq_iff old.provider old.provider,
    eq_iff old.path old.path,
    eq_iff old.bucket old.bucket,
    eq_iff old.region old.region,
    eq_iff old.endpoint old.endpoint,
  )
