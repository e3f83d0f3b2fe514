-- ===== src/ConfigSource/Manifest.antt =====
-- configsource/manifest.go. The decoder of encoding/json gives the fields; a Go map is a list of
-- entries in the order in which the range loop of the run visits them.
pub mod Validity
use csar_core.Prelude.{
  String, Bool, true, not, ◌||◌, Option, none, some, List, [], ◌∷◌, if◌then◌else◌, ◌==◌, nat_eq,
  string_eq, length, Result, ◌>>=◌, ◌>>◌, fail_if, wrap, ok, err,
}
use csar_core.Prelude.Dict.{lookup}
use csar_core.ConfigSource.Types.{
  Error, unsupported_version, no_services, version_required, in_service, bucket_required,
  path_required, provider_required, unsupported_provider, algorithm_required, value_required,
  unsupported_algorithm, service_missing, service_inactive,
}

pub record ChecksumInfo : Type 0 where
  pub algorithm : String
  pub digest_value : String

pub record ConfigResource : Type 0 where
  pub provider : String
  pub path : String
  pub bucket : String
  pub region : String
  pub endpoint : String
  pub checksum : Option ChecksumInfo
  pub headers : List (String × String)
  pub meta : List (String × String)

pub record ServiceManifest : Type 0 where
  pub version : String
  pub active : Option Bool
  pub config : ConfigResource

pub record Manifest : Type 0 where
  pub manifest_version : String
  pub environment : String
  pub updated_at : String
  pub trace_id : String
  pub services : List (String × ServiceManifest)

unfoldable pub is_active : ServiceManifest → Bool
is_active sm = elim sm.active [ none ↦ true | some b ↦ b ]

unfoldable pub supported_version : String → Bool
supported_version v = (v == "1") || (v == "1.0") || (v == "1.1")

-- The switch on the provider.
unfoldable pub validate_provider : ConfigResource → Result Error (Unit {0})
validate_provider cr =
    if cr.provider == "s3"
    then (if cr.bucket == ""
        then err (bucket_required cr.provider)
        else fail_if (cr.path == "") (path_required cr.provider))
    else if (cr.provider == "file") || (cr.provider == "http")
    then fail_if (cr.path == "") (path_required cr.provider)
    else if cr.provider == ""
    then err provider_required
    else err (unsupported_provider cr.provider)

unfoldable pub validate_checksum : Option ChecksumInfo → Result Error (Unit {0})
validate_checksum none = ok tt
validate_checksum (some c) =
    if c.algorithm == ""
    then err algorithm_required
    else if c.digest_value == ""
    then err value_required
    else fail_if (not (c.algorithm == "sha256")) (unsupported_algorithm c.algorithm)

unfoldable pub validate_resource : ConfigResource → Result Error (Unit {0})
validate_resource cr = do validate_provider cr; validate_checksum cr.checksum

unfoldable pub validate_service : String → ServiceManifest → Result Error (Unit {0})
validate_service name svc =
    if svc.version == ""
    then err (version_required name)
    else wrap (in_service name) (validate_resource svc.config)

unfoldable pub validate_services : List (String × ServiceManifest) → Result Error (Unit {0})
validate_services [] = ok tt
validate_services ((name, svc) ∷ rest) = do validate_service name svc; validate_services rest

-- `ParseManifest` behind the decoding.
unfoldable pub check_manifest : Manifest → Result Error Manifest
check_manifest m =
    if not (supported_version m.manifest_version)
    then err (unsupported_version m.manifest_version)
    else if length m.services == 0
    then err no_services
    else (do validate_services m.services; ok m)

unfoldable pub lookup_service : Manifest → String → Result Error ServiceManifest
lookup_service m name = elim (lookup name m.services) [
  | none ↦ err (service_missing name)
  | some svc ↦ if is_active svc then ok svc else err (service_inactive name svc.version)
]
