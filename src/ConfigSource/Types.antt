-- ===== src/ConfigSource/Types.antt =====
-- configsource/source.go, and the errors of the package.
use csar_core.Prelude.{ℕ, String, Option, List}

abbrev pub Data : Type 0
Data = List ℕ

-- `etag` is an opaque version; `payload` is `none` for Go's nil, a conditional fetch with no news.
pub record FetchedConfig : Type 0 where
  pub payload : Option Data
  pub etag : String

-- The constructors stand for the formatted errors; the texts inside are the values they quote.
pub data Error : Type 0 where
  integrity_violation : String → String → String → Error
  pinned_mismatch : String → String → Error
  unknown_policy : ℕ → Error
  fetching hash_validation applying : Error → Error
  source_failed apply_failed : String → Error
  unsupported_version : String → Error
  no_services : Error
  version_required : String → Error
  in_service : String → Error → Error
  bucket_required path_required : String → Error
  provider_required : Error
  unsupported_provider : String → Error
  algorithm_required value_required : Error
  unsupported_algorithm : String → Error
  service_missing : String → Error
  service_inactive : String → String → Error
  checksum_mismatch : String → String → Error
  manifest_fetch manifest_parse manifest_lookup resolving client_failed : Error → Error
  too_large : Error
  unexpected_status : ℕ → Error
  file_path_required s3_bucket_required url_required service_name_required : Error
  bootstrap_required manifest_file_required : Error
  unsupported_bootstrap unknown_source : String → Error
  building_bootstrap : Error → Error
