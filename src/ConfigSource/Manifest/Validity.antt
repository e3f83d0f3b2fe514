-- ===== src/ConfigSource/Manifest/Validity.antt =====
-- Which manifests `ParseManifest` accepts, stated without its order of tests.
use csar_core.Prelude.{
  String, ◌≡◌, refl, ◌≢◌, ◌↔◌, ◌⊎◌, Option, none, some, List, [], ◌∷◌, arith, eq_iff, differs, ok,
}
use csar_core.ConfigSource.Manifest.{
  ChecksumInfo, ConfigResource, ServiceManifest, Manifest, supported_version, validate_provider,
  validate_checksum, validate_resource, validate_service, validate_services, check_manifest,
}

abbrev pub HasLocation : ConfigResource → Type 0
HasLocation cr =
    ((cr.provider ≡ "s3") × (cr.bucket ≢ "") × (cr.path ≢ ""))
    ⊎ ((cr.provider ≡ "file") × (cr.path ≢ ""))
    ⊎ ((cr.provider ≡ "http") × (cr.path ≢ ""))

abbrev pub HasChecksum : Option ChecksumInfo → Type 0
HasChecksum none = Unit
HasChecksum (some c) = (c.algorithm ≡ "sha256") × (c.digest_value ≢ "")

abbrev pub IsWellFormed : ServiceManifest → Type 0
IsWellFormed svc = (svc.version ≢ "") × HasLocation svc.config × HasChecksum svc.config.checksum

provider_ok : (cr : ConfigResource) → (validate_provider cr ≡ ok tt) ↔ HasLocation cr
unfolding validate_provider
provider_ok cr = ground (
  arith,
  eq_iff cr.provider "s3",
  eq_iff cr.provider "file",
  eq_iff cr.provider "http",
  eq_iff cr.provider "",
  eq_iff cr.bucket "",
  eq_iff cr.path "",
  differs cr.provider "s3" "file" refl,
  differs cr.provider "s3" "http" refl,
  differs cr.provider "s3" "" refl,
  differs cr.provider "file" "http" refl,
)

checksum_ok : (c : Option ChecksumInfo) → (validate_checksum c ≡ ok tt) ↔ HasChecksum c
unfolding validate_checksum
checksum_ok none = ((λ _. tt), (λ _. refl))
checksum_ok (some c) = ground (
  arith,
  eq_iff c.algorithm "",
  eq_iff c.algorithm "sha256",
  eq_iff c.digest_value "",
  differs c.algorithm "" "sha256" refl,
)

service_ok :
    (name : String) (svc : ServiceManifest) → (validate_service name svc ≡ ok tt) ↔ IsWellFormed svc
unfolding validate_service validate_resource
service_ok name svc =
    ground (arith, eq_iff svc.version "", provider_ok svc.config, checksum_ok svc.config.checksum)

abbrev pub AllWellFormed : List (String × ServiceManifest) → Type 0
AllWellFormed [] = Unit
AllWellFormed ((name, svc) ∷ rest) = IsWellFormed svc × AllWellFormed rest

services_ok :
    (services : List (String × ServiceManifest))
    → (validate_services services ≡ ok tt) ↔ AllWellFormed services
unfolding validate_services
services_ok [] = ((λ _. tt), (λ _. refl))
services_ok ((name, svc) ∷ rest) = ground (arith, service_ok name svc, services_ok rest)

-- `ParseManifest` accepts a decoded manifest exactly when its version is one of the three, it
-- has a service, and each service has a version, a location that its provider can use, and a
-- checksum, if any, that is a SHA-256 with a value; it returns the manifest unchanged. So the
-- order in which Go visits the map does not matter to whether it is accepted.
pub check_manifest-WellFormed :
    (m : Manifest)
    → (check_manifest m ≡ ok m) ↔ (
        ((m.manifest_version ≡ "1") ⊎ (m.manifest_version ≡ "1.0") ⊎ (m.manifest_version ≡ "1.1"))
        × (m.services ≢ [])
        × AllWellFormed m.services)
unfolding check_manifest supported_version
check_manifest-WellFormed m = ground (
  arith,
  eq_iff m.manifest_version "1",
  eq_iff m.manifest_version "1.0",
  eq_iff m.manifest_version "1.1",
  services_ok m.services,
)
