-- ===== src/ConfigSource/Builder.antt =====
-- configsource/builder.go. The failure of `s3store.NewClient` is an argument.
use csar_core.Prelude.{
  String, ◌≡◌, refl, ◌≢◌, inl, inr, Option, none, some, List, [], arith, eq_iff, if◌then◌else◌,
  ◌==◌, nat_eq, string_eq, differs, Result, ◌>>=◌, wrap, Result-cases, ok, err,
}
use csar_core.ConfigSource.Types.{
  Error, client_failed, file_path_required, s3_bucket_required, url_required, service_name_required,
  bootstrap_required, manifest_file_required, unsupported_bootstrap, unknown_source,
  building_bootstrap,
}
use csar_core.ConfigSource.Http.{new_http_source}
use csar_core.ConfigSource.Resolver.{
  AuthConfig, S3Config, Source, ManifestSource, new_manifest_source, file_source, s3_source,
  http_source,
}

pub record SourceParams : Type 0 where
  pub source : String
  pub file : String
  pub s3_bucket : String
  pub s3_key : String
  pub s3_endpoint : String
  pub s3_region : String
  pub s3_auth_mode : String
  pub s3_access_key_id : String
  pub s3_secret_key : String
  pub s3_iam_token : String
  pub s3_oauth_token : String
  pub s3_sa_key_file : String
  pub http_url : String
  pub http_headers : List (String × String)
  pub manifest_service_name : String
  pub manifest_bootstrap : String
  pub manifest_file : String

unfoldable pub s3_auth_from_params : SourceParams → AuthConfig
s3_auth_from_params p = record {
  auth_mode = p.s3_auth_mode;
  iam_token = p.s3_iam_token;
  oauth_token = p.s3_oauth_token;
  sa_key_file = p.s3_sa_key_file;
  access_key_id = p.s3_access_key_id;
  secret_access_key = p.s3_secret_key;
}

-- `&SourceParams{Source: bootstrapSource}`.
abbrev pub only_source : String → SourceParams
only_source source = record {
  source = source;
  file = "";
  s3_bucket = "";
  s3_key = "";
  s3_endpoint = "";
  s3_region = "";
  s3_auth_mode = "";
  s3_access_key_id = "";
  s3_secret_key = "";
  s3_iam_token = "";
  s3_oauth_token = "";
  s3_sa_key_file = "";
  http_url = "";
  http_headers = [];
  manifest_service_name = "";
  manifest_bootstrap = "";
  manifest_file = "";
}

-- The source that is built: a plain one, or a manifest source over its bootstrap source.
pub data Built : Type 0 where
  plain : Source → Built
  over_manifest : Source → ManifestSource → Built

module _ (new_client : S3Config → Option Error) where
  build_s3_params : SourceParams → Result Error Source
  build_s3_params p =
      let cfg : S3Config = record {
        bucket = p.s3_bucket;
        endpoint = p.s3_endpoint;
        region = p.s3_region;
        auth = s3_auth_from_params p;
      } in
      elim (new_client cfg) [ some e ↦ err (client_failed e) | none ↦ ok (s3_source cfg p.s3_key) ]

  -- The cases "file", "s3" and "http" of the switch.
  unfoldable pub build_plain : SourceParams → Result Error Source
  unfolding build_s3_params s3_auth_from_params
  build_plain p =
      if p.source == "file"
      then (if p.file == "" then err file_path_required else ok (file_source p.file))
      else if p.source == "s3"
      then (if p.s3_bucket == "" then err s3_bucket_required else build_s3_params p)
      else if p.source == "http"
      then (if p.http_url == ""
          then err url_required
          else ok (http_source (new_http_source p.http_url p.http_headers)))
      else err (unknown_source p.source)

  unfoldable pub bootstrap_params : SourceParams → Result Error SourceParams
  bootstrap_params p =
      let boot = only_source p.manifest_bootstrap in
      if p.manifest_bootstrap == "file"
      then (if p.manifest_file == ""
          then err manifest_file_required
          else ok (record boot { file = p.manifest_file }))
      else if p.manifest_bootstrap == "s3"
      then ok (record boot {
        s3_bucket = p.s3_bucket;
        s3_key = p.s3_key;
        s3_endpoint = p.s3_endpoint;
        s3_region = p.s3_region;
        s3_auth_mode = p.s3_auth_mode;
        s3_access_key_id = p.s3_access_key_id;
        s3_secret_key = p.s3_secret_key;
        s3_iam_token = p.s3_iam_token;
        s3_oauth_token = p.s3_oauth_token;
        s3_sa_key_file = p.s3_sa_key_file;
      })
      else if p.manifest_bootstrap == "http"
      then ok (record boot { http_url = p.http_url; http_headers = p.http_headers })
      else err (unsupported_bootstrap p.manifest_bootstrap)

  -- The recursive call of `BuildSource` is on one of the three plain kinds.
  unfoldable pub build_manifest : SourceParams → Result Error Built
  build_manifest p =
      if p.manifest_service_name == ""
      then err service_name_required
      else if p.manifest_bootstrap == ""
      then err bootstrap_required
      else (do
        boot ← bootstrap_params p
        source ← wrap building_bootstrap (build_plain boot)
        ok (
            over_manifest source
              (new_manifest_source p.manifest_service_name (s3_auth_from_params p))))

  unfoldable pub build_source : SourceParams → Result Error Built
  build_source p =
      if p.source == "manifest"
      then build_manifest p
      else (build_plain p >>= λ source. ok (plain source))

  bootstrap_same :
      (p q : SourceParams)
      → bootstrap_params p ≡ ok q
      → (build_plain q
          ≡ build_plain (record p { source = p.manifest_bootstrap; file = p.manifest_file }))
        × (p.manifest_bootstrap ≢ "manifest")
  unfolding bootstrap_params build_plain
  bootstrap_same p q h = ground (
    arith,
    eq_iff p.manifest_bootstrap "manifest",
    differs p.manifest_bootstrap "manifest" "file" refl,
    differs p.manifest_bootstrap "manifest" "s3" refl,
    differs p.manifest_bootstrap "manifest" "http" refl,
  )

  -- A manifest source is built over the source that `BuildSource` builds for the bootstrap kind
  -- alone: with the same credentials, the same S3 object or URL, and the manifest's own file in
  -- place of the configuration file.
  pub build_source-bootstrap :
      (p : SourceParams) (source : Source) (ms : ManifestSource)
      → build_source p ≡ ok (over_manifest source ms)
      → (build_plain (record p { source = p.manifest_bootstrap; file = p.manifest_file })
          ≡ ok source)
        × (p.manifest_bootstrap ≢ "manifest")
        × (ms ≡ new_manifest_source p.manifest_service_name (s3_auth_from_params p))
        × (p.manifest_service_name ≢ "")
  unfolding build_source build_manifest
  build_source-bootstrap p source ms h = elim (Result-cases (bootstrap_params p)) [
    | inr (x, e) ↦ absurd (ground arith)
    | inl (q, e) ↦
        let (same, kind) = bootstrap_same p q e in
        elim (Result-cases (build_plain q)) [
          | inr (x, e') ↦ absurd (ground arith)
          | inl (src, e') ↦ (
            rw (← same) (ground arith),
            kind,
            ground arith,
            ground (arith, eq_iff p.manifest_service_name ""),
          )
        ]
  ]
