-- ===== src/ConfigSource/Tests.antt =====
-- The theorems on the configuration sources at concrete inputs. The digest of a payload is taken
-- to be "one" of the payload 1 and "two" of all others.
use csar_core.Prelude.{
  String, ◌≡◌, refl, ◌≢◌, ◌↔◌, ◌⊎◌, Bool, true, Option, none, some, [], ◌∷◌, if◌then◌else◌,
  string_eq, ◌==◌, nat_eq, text_ne, All, Result, ok, err,
}
use csar_core.ConfigSource.Types.{Data, FetchedConfig, Error}
use csar_core.ConfigSource.Hash.{validate_hash, tofu}
use csar_core.ConfigSource.Watcher.Laws
use csar_core.ConfigSource.Watcher.Laws.{
  Admits, applied-Admits, remember, untagged, IsRefused, untagged_stuck,
}
use csar_core.ConfigSource.Watcher.{Watcher, apply, run_periodic_watch}
use csar_core.ConfigSource.Http
use csar_core.ConfigSource.Http.{
  new_http_source, Conditional, Response, if_none_match, status_304, complete,
}
use csar_core.Prelude.Dict.{lookup}
use csar_core.ConfigSource.Manifest.{
  ConfigResource, ServiceManifest, Manifest, is_active, supported_version, validate_provider,
  validate_checksum, validate_resource, validate_service, validate_services, check_manifest,
  lookup_service,
}
use csar_core.ConfigSource.Resolver.{
  AuthConfig, S3Config, Source, ManifestSource, synthetic_etag, build_source_from_resource,
  resolve_source, fetch_resolved,
}
use csar_core.ConfigSource.Manifest.Validity
use csar_core.ConfigSource.Resolver.Checked
use csar_core.ConfigSource.Retry
use csar_core.ConfigSource.Builder

abbrev digest : Data → String
digest payload = elim payload [ [] ↦ "two" | x ∷ rest ↦ if x == 1 then "one" else "two" ]

abbrev accept : Data → Result String Bool
accept payload = ok true

abbrev reject : Data → Result String Bool
reject payload = err "bad yaml"

abbrev one : Data
one = 1 ∷ []

abbrev two : Data
two = 2 ∷ []

abbrev start : Watcher
start = record { last_etag = "a"; last_hash = "one"; hash_policy = tofu; pinned_hash = "" }

applied-Admits_example : (◌≡◌ {A = Data} two two) × Admits start.hash_policy start "b" "two"
unfolding apply validate_hash
applied-Admits_example = Laws.applied-Admits digest start accept "b" two two refl

untagged_stuck_example : All (IsRefused (remember start "" "one")) (
    run_periodic_watch digest
      (remember start "" "one")
      (untagged ((two, accept) ∷ (two, accept) ∷ [])))
untagged_stuck_example =
    Laws.untagged_stuck digest (remember start "" "one") ((two, accept) ∷ (two, accept) ∷ []) refl
      refl (text_ne "one" "" refl) (text_ne "two" "one" refl, (text_ne "two" "one" refl, tt))

abbrev resource : ConfigResource
resource = record {
  provider = "http";
  path = "https://cfg/a.yaml";
  bucket = "";
  region = "";
  endpoint = "";
  checksum = some (record { algorithm = "sha256"; digest_value = "one" });
  headers = [];
  meta = [];
}

abbrev service : ServiceManifest
service = record { version = "7"; active = none; config = resource }

abbrev manifest : Manifest
manifest = record {
  manifest_version = "1.1";
  environment = "";
  updated_at = "";
  trace_id = "";
  services = ("authn", service) ∷ [];
}

check_manifest-WellFormed_example : (check_manifest manifest ≡ ok manifest) ↔ (
    ((manifest.manifest_version ≡ "1")
      ⊎ (manifest.manifest_version ≡ "1.0")
      ⊎ (manifest.manifest_version ≡ "1.1"))
    × (manifest.services ≢ [])
    × Validity.AllWellFormed manifest.services)
check_manifest-WellFormed_example = Validity.check_manifest-WellFormed manifest

manifest_accepted : check_manifest manifest ≡ ok manifest
unfolding check_manifest supported_version validate_services validate_service validate_resource
    validate_provider validate_checksum
manifest_accepted = refl

abbrev no_error : S3Config → Option Error
no_error cfg = none

abbrev serve : Source → Result Error FetchedConfig × Source
serve src = (ok (record { payload = some one; etag = "e" }), src)

abbrev auth : AuthConfig
auth = record {
  auth_mode = "";
  iam_token = "";
  oauth_token = "";
  sa_key_file = "";
  access_key_id = "";
  secret_access_key = "";
}

abbrev authn : ManifestSource
authn = record {
  service_name = "authn";
  auth = auth;
  last_version = "";
  last_cksum = "";
  resolved = none;
}

delivered :
    Checked.Delivers digest no_error serve
      (Checked.fetch_with digest no_error serve "m" manifest authn)
      one
unfolding fetch_resolved check_manifest supported_version validate_services validate_service
    validate_resource validate_provider validate_checksum lookup_service is_active lookup
    resolve_source build_source_from_resource new_http_source synthetic_etag
delivered = (_, refl)

found : lookup_service manifest authn.service_name ≡ ok service
unfolding lookup_service is_active lookup
found = refl

Delivers-Verified_example :
    (check_manifest manifest ≡ ok manifest)
    × Checked.Verified digest no_error serve authn service one
        (Checked.fetch_with digest no_error serve "m" manifest authn)
Delivers-Verified_example =
    Checked.Delivers-Verified digest no_error serve "m" manifest authn service one found delivered

cycles-AppliesNothing_example : All (Retry.AppliesNothing digest no_error serve) (
    Retry.cycles digest no_error serve
      (record start { last_etag = "" })
      (Checked.fetch_with digest no_error serve "m" manifest authn).source
      (Retry.same_manifest digest no_error serve manifest (("m", accept) ∷ ("m", accept) ∷ [])))
cycles-AppliesNothing_example =
    Retry.cycles-AppliesNothing digest no_error serve (record start { last_etag = "" }) authn "m"
      manifest service one (("m", accept) ∷ ("m", accept) ∷ []) found delivered

abbrev page : Http.Conditional → Http.Response
page c = Http.complete one "v1" ""

abbrev same_page : Http.Conditional → Http.Response
same_page c = elim c [ Http.if_none_match e ↦ Http.status_304 | _ ↦ Http.complete one "v1" "" ]

abbrev params : Builder.SourceParams
params = record (Builder.only_source "manifest") {
  manifest_service_name = "authn";
  manifest_bootstrap = "file";
  manifest_file = "m.json";
}
