-- ===== src/ConfigSource/Resolver.antt =====
-- configsource/source_manifest.go. What the resolved sources return is an argument, `contact`,
-- which also gives the source as it is afterwards; so is the failure of `s3store.NewClient`.
pub mod Checked
use Prim.Native.String.{◌++◌ as concat}
use csar_core.Prelude.{
  String, Bool, true, false, not, ◌&&◌, ◌||◌, Option, none, some, if◌then◌else◌, ◌==◌, nat_eq,
  string_eq, Result, ◌>>=◌, ◌>>◌, ok, err,
}
use csar_core.ConfigSource.Types.{
  Data, FetchedConfig, Error, fetching, unsupported_provider, checksum_mismatch, manifest_fetch,
  manifest_parse, manifest_lookup, resolving, client_failed,
}
use csar_core.ConfigSource.Http.{HttpSource, new_http_source}
use csar_core.ConfigSource.Manifest.{
  ConfigResource, ServiceManifest, Manifest, check_manifest, lookup_service,
}

-- ycloud.AuthConfig.
pub record AuthConfig : Type 0 where
  pub auth_mode : String
  pub iam_token : String
  pub oauth_token : String
  pub sa_key_file : String
  pub access_key_id : String
  pub secret_access_key : String

pub record S3Config : Type 0 where
  pub bucket : String
  pub endpoint : String
  pub region : String
  pub auth : AuthConfig

-- The implementations of `ConfigSource` but the manifest's.
pub data Source : Type 0 where
  file_source : String → Source
  s3_source : S3Config → String → Source
  http_source : HttpSource → Source

pub record ManifestSource : Type 0 where
  pub service_name : String
  pub auth : AuthConfig
  pub last_version : String
  pub last_cksum : String
  pub resolved : Option (Source × ConfigResource)

unfoldable pub new_manifest_source : String → AuthConfig → ManifestSource
new_manifest_source name auth = record {
  service_name = name;
  auth = auth;
  last_version = "";
  last_cksum = "";
  resolved = none;
}

abbrev pub or_default : String → String → String
or_default s d = if s == "" then d else s

unfoldable pub config_resource_equal : ConfigResource → ConfigResource → Bool
config_resource_equal a b =
    if not (a.provider == b.provider) || not (a.path == b.path)
    then false
    else not
        (not (a.bucket == b.bucket) || not (a.region == b.region) || not (a.endpoint == b.endpoint))

abbrev pub checksum_text : ServiceManifest → String
checksum_text svc = elim svc.config.checksum [ none ↦ "" | some c ↦ c.digest_value ]

unfoldable pub synthetic_etag : String → ServiceManifest → String
synthetic_etag etag svc =
    concat "manifest:"
      (concat etag (concat ":svc:" (concat svc.version (concat ":cksum:" (checksum_text svc)))))

-- What `Fetch` returns, the source afterwards, and whether the resolved source was asked.
pub record Fetch : Type 0 where
  pub outcome : Result Error FetchedConfig
  pub source : ManifestSource
  pub contacted : Bool

module _ (digest : Data → String) (new_client : S3Config → Option Error)
    (contact : Source → Result Error FetchedConfig × Source) where
  pub build_s3 : S3Config → String → Result Error Source
  build_s3 cfg key = elim (new_client cfg) [
    | some e ↦ err (client_failed e)
    | none ↦ ok (s3_source cfg key)
  ]

  unfoldable pub build_source_from_resource : ConfigResource → AuthConfig → Result Error Source
  unfolding build_s3
  build_source_from_resource cr auth =
      if cr.provider == "file"
      then ok (file_source cr.path)
      else if cr.provider == "s3"
      then build_s3
          (record {
            bucket = cr.bucket;
            endpoint = or_default cr.endpoint "https://storage.yandexcloud.net";
            region = or_default cr.region "ru-central1";
            auth = auth;
          })
          cr.path
      else if cr.provider == "http"
      then ok (
          http_source (
            new_http_source (if cr.endpoint == "" then cr.path else concat cr.endpoint cr.path)
              cr.headers))
      else err (unsupported_provider cr.provider)

  pub build_new : ManifestSource → ConfigResource → Result Error (Source × ManifestSource)
  build_new ms cr = do
    src ← build_source_from_resource cr ms.auth
    ok (src, record ms { resolved = some (src, cr) })

  -- The cached source is a pointer: `keep_source` writes its state back.
  unfoldable pub resolve_source :
      ManifestSource → ConfigResource → Result Error (Source × ManifestSource)
  unfolding build_new
  resolve_source ms cr = elim ms.resolved [
    | none ↦ build_new ms cr
    | some (src, old) ↦ if config_resource_equal old cr then ok (src, ms) else build_new ms cr
  ]

  abbrev pub keep_source : ManifestSource → Source → ManifestSource
  keep_source ms src = elim ms.resolved [
    | none ↦ ms
    | some (_, cr) ↦ record ms { resolved = some (src, cr) }
  ]

  abbrev pub failed : Error → ManifestSource → Bool → Fetch
  failed e ms c = record { outcome = err e; source = ms; contacted = c }

  abbrev pub nothing_new : String → ManifestSource → Bool → Fetch
  nothing_new etag ms c = record {
    outcome = ok (record { payload = none; etag = etag });
    source = ms;
    contacted = c;
  }

  -- The payload's checksum, and the end of `Fetch`.
  pub verify : ManifestSource → ServiceManifest → String → Data → Fetch
  verify ms svc etag payload =
      let done : Fetch = record {
        outcome = ok (record { payload = some payload; etag = etag });
        source = record ms { last_version = svc.version; last_cksum = checksum_text svc };
        contacted = true;
      } in
      elim svc.config.checksum [
        | none ↦ done
        | some c ↦
            if not (digest payload == c.digest_value)
            then failed (checksum_mismatch c.digest_value (digest payload)) ms true
            else done
      ]

  pub use_answer : ManifestSource → ServiceManifest → String → Result Error FetchedConfig → Fetch
  unfolding verify
  use_answer ms svc etag (err e) = failed (fetching e) ms true
  use_answer ms svc etag (ok fetched) = elim fetched.payload [
    | none ↦ nothing_new etag ms true
    | some payload ↦ verify ms svc etag payload
  ]

  pub fetch_service : ManifestSource → ServiceManifest → String → Fetch
  unfolding use_answer
  fetch_service ms svc etag = elim (resolve_source ms svc.config) [
    | err e ↦ failed (resolving e) ms false
    | ok (src, ms') ↦ use_answer (keep_source ms' (contact src).1) svc etag (contact src).0
  ]

  abbrev pub is_unchanged : ManifestSource → ServiceManifest → Bool
  is_unchanged ms svc =
      (svc.version == ms.last_version)
      && (checksum_text svc == ms.last_cksum)
      && not (ms.last_version == "")

  pub fetch_found : ManifestSource → ServiceManifest → String → Fetch
  unfolding fetch_service
  fetch_found ms svc etag =
      if is_unchanged ms svc then nothing_new etag ms false else fetch_service ms svc etag

  pub fetch_manifest : ManifestSource → String → Result Error Manifest → Fetch
  unfolding fetch_found
  fetch_manifest ms etag (err e) = failed (manifest_parse e) ms false
  fetch_manifest ms etag (ok m) = elim (lookup_service m ms.service_name) [
    | err e ↦ failed (manifest_lookup e) ms false
    | ok svc ↦ fetch_found ms svc (synthetic_etag etag svc)
  ]

  -- The first argument is what the bootstrap source returned, the payload decoded by
  -- `ParseManifest`: `none` for Go's nil.
  unfoldable pub fetch_resolved :
      Result Error (Option (Result Error Manifest) × String) → ManifestSource → Fetch
  unfolding fetch_manifest
  fetch_resolved (err e) ms = failed (manifest_fetch e) ms false
  fetch_resolved (ok (none, etag)) ms = nothing_new etag ms false
  fetch_resolved (ok (some parsed, etag)) ms = fetch_manifest ms etag (parsed >>= check_manifest)
