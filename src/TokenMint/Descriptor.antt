-- ===== src/TokenMint/Descriptor.antt =====
-- tokenmint/descriptor.go.
use csar_core.Prelude.{
  String, ◌≡◌, refl, ◌≢◌, ◌↔◌, Bool, not, Option, none, some, arith, eq_iff, if◌then◌else◌,
  string_eq, ◌==◌, nat_eq, Result, fail_if, ok, err,
}
use csar_core.TokenMint.Types.{Texts}

pub record Descriptor : Type 0 where
  pub kind : String
  pub grant_profile : String
  pub client_id_ref : String
  pub client_secret_ref : String

pub data DescriptorError : Type 0 where
  descriptor_nil : DescriptorError
  unknown_kind : String → DescriptorError
  profile_empty id_ref_empty secret_ref_empty refs_equal : DescriptorError

abbrev pub supported_kind : String
supported_kind = "oauth2_client_credentials"

module _ (texts : Texts) where
  abbrev pub is_blank : String → Bool
  is_blank s = texts.trim_space s == ""

  unfoldable pub validate_fields : Descriptor → Result DescriptorError (Unit {0})
  validate_fields d =
      if not (d.kind == supported_kind)
      then err (unknown_kind d.kind)
      else if is_blank d.grant_profile
      then err profile_empty
      else if is_blank d.client_id_ref
      then err id_ref_empty
      else if is_blank d.client_secret_ref
      then err secret_ref_empty
      else fail_if (d.client_id_ref == d.client_secret_ref) refs_equal

  -- The receiver may be nil.
  unfoldable pub validate : Option Descriptor → Result DescriptorError (Unit {0})
  unfolding validate_fields
  validate none = err descriptor_nil
  validate (some d) = validate_fields d

  -- A descriptor is accepted exactly if it is there, is of the supported kind, names a profile
  -- and two refs that are not blank, and the refs differ.
  pub validate-accepts :
      (o : Option Descriptor)
      → (validate o ≡ ok tt) ↔ (
          (d : Descriptor) × (o ≡ some d)
          × (d.kind ≡ supported_kind)
          × (texts.trim_space d.grant_profile ≢ "")
          × (texts.trim_space d.client_id_ref ≢ "")
          × (texts.trim_space d.client_secret_ref ≢ "")
          × (d.client_id_ref ≢ d.client_secret_ref))
  unfolding validate
  validate-accepts none = (λ h. absurd (cc), λ w. absurd (let e = w.1 in cc))
  validate-accepts (some d) =
      let kind = eq_iff d.kind supported_kind in
      let profile = eq_iff (texts.trim_space d.grant_profile) "" in
      let id_ref = eq_iff (texts.trim_space d.client_id_ref) "" in
      let secret_ref = eq_iff (texts.trim_space d.client_secret_ref) "" in
      let refs = eq_iff d.client_id_ref d.client_secret_ref in
      (
        λ h. (
          d,
          refl,
          ground (arith, kind),
          ground (arith, profile),
          ground (arith, id_ref),
          ground (arith, secret_ref),
          ground (arith, refs),
        ),
        λ (d', e, k, a, b, c, r). ground (arith, kind, profile, id_ref, secret_ref, refs),
      )
