-- ===== src/Redaction/Document.antt =====
-- `ParseAndRedactJSON` of jsonredact/redact.go; the decoder and the encoder are arguments.
use csar_core.Prelude.{
  ℕ, String, ◌≡◌, ap, ◌∙◌, ◌⊎◌, inl, inr, Bool, false, Option, none, some, List, [], ◌∷◌, arith,
  ltb, leb, if◌then◌else◌, string_eq, ◌==◌, nat_eq, Bool-cases, length, All, All-mono, Result,
  ◌>>=◌, Result-cases, ok,
}
use csar_core.Redaction.Keys.{Strings, is_sensitive_key, in_keys}
use csar_core.Redaction.Json.{Json, redact_path, redact_walk}
use csar_core.Redaction.Json.Hiding.{is_named, Masked, Hides, walk-Hides, redact_path-Hides}
use csar_core.Redaction.Json.Walk.{Clean, redact_walk-Clean}
use csar_core.Redaction.Json.Path.{Hides-Masked, redact-Masked}
use csar_core.Redaction.Json.Compose.{Hides-trans, Hides-refl}

abbrev pub default_mask : String
default_mask = "[REDACTED]"

pub record Config : Type 0 where
  pub path_fields : List String
  pub sensitive_keys : List String
  pub mask : String

pub record Codec : Type 0 where
  pub unmarshal : List ℕ → Result String Json
  pub marshal : Json → Result String (List ℕ)

module _ (strings : Strings) where
  -- `RedactKeys`.
  unfoldable pub redact_keys : String → List String → Json → Json × Bool
  redact_keys mask keys d =
      if leb (length keys) 0 then (d, false) else redact_walk mask (in_keys strings keys) d

  -- `RedactSensitiveKeys`.
  unfoldable pub redact_sensitive_keys : String → Json → Json × Bool
  redact_sensitive_keys mask d = redact_walk mask (is_sensitive_key strings) d

  unfoldable pub redact_paths : String → List String → Json → Json
  redact_paths mask [] d = d
  redact_paths mask (f ∷ rest) d =
      redact_paths mask rest (redact_path mask d (strings.split_dots f)).0

  abbrev pub mask_of : Config → String
  mask_of cfg = if cfg.mask == "" then default_mask else cfg.mask

  unfoldable pub redact_document : Config → Json → Json
  redact_document cfg d =
      let mask = mask_of cfg in
      let d' = redact_paths mask cfg.path_fields d in
      if ltb 0 (length cfg.sensitive_keys)
      then (redact_keys mask cfg.sensitive_keys d').0
      else (redact_sensitive_keys mask d').0

  -- `ok none` is the result nil for an empty text.
  unfoldable pub parse_and_redact_json : Codec → Config → List ℕ → Result String (Option (List ℕ))
  parse_and_redact_json codec cfg raw =
      if leb (length raw) 0
      then ok none
      else codec.unmarshal raw >>= λ d.
          codec.marshal (redact_document cfg d) >>= λ out. ok (some out)

  -- The keys that are redacted at any depth.
  abbrev pub test_of : Config → String → Bool
  test_of cfg =
      if ltb 0 (length cfg.sensitive_keys)
      then in_keys strings cfg.sensitive_keys
      else is_sensitive_key strings

  document-walk :
      (cfg : Config) (d : Json)
      → redact_document cfg d
        ≡ (redact_walk (mask_of cfg) (test_of cfg) (redact_paths (mask_of cfg) cfg.path_fields d)).0
  unfolding redact_document redact_keys redact_sensitive_keys
  document-walk cfg d = ground arith

  Hides-redact_paths :
      (mask : String) (names : List String) (d : Json) → Hides mask d (redact_paths mask names d)
  unfolding redact_paths
  Hides-redact_paths mask [] d = Hides-refl mask d
  Hides-redact_paths mask (f ∷ rest) d =
      let next = (redact_path mask d (strings.split_dots f)).0 in
      Hides-trans mask d next (redact_paths mask rest next)
        (redact_path-Hides mask d (strings.split_dots f)) (Hides-redact_paths mask rest next)

  -- The values under each of the paths are masked, unless the path is empty or ends with "*".
  abbrev pub PathsMasked : String → List String → Json → Type 0
  PathsMasked mask names d =
      All (λ f. (is_named (strings.split_dots f) ≡ false) ⊎ Masked mask d (strings.split_dots f))
        names

  PathsMasked-redact_paths :
      (mask : String) (names : List String) (d : Json)
      → PathsMasked mask names (redact_paths mask names d)
  unfolding redact_paths
  PathsMasked-redact_paths mask [] d = tt
  PathsMasked-redact_paths mask (f ∷ rest) d =
      let path = strings.split_dots f in
      let next = (redact_path mask d path).0 in
      (
        elim (Bool-cases (is_named path)) [
          | inr e ↦ inl e
          | inl e ↦ inr (
              Hides-Masked mask next (redact_paths mask rest next) path
                (Hides-redact_paths mask rest next) (redact-Masked mask d path e))
        ],
        PathsMasked-redact_paths mask rest next,
      )

  -- What a document is turned into: the same but for values that are replaced by the mask, with
  -- the values under the paths masked and each value under a sensitive key.
  pub redact_document-Safe :
      (cfg : Config) (d : Json)
      → Hides (mask_of cfg) d (redact_document cfg d)
        × PathsMasked (mask_of cfg) cfg.path_fields (redact_document cfg d)
        × Clean (mask_of cfg) (test_of cfg) (redact_document cfg d)
  redact_document-Safe cfg d =
      let mask = mask_of cfg in
      let e = redact_paths mask cfg.path_fields d in
      let walked = walk-Hides mask (test_of cfg) e in
      rw (document-walk cfg d) (
        Hides-trans mask d e (redact_walk mask (test_of cfg) e).0
            (Hides-redact_paths mask cfg.path_fields d) walked,
        All-mono
            (λ f. (is_named (strings.split_dots f) ≡ false) ⊎ Masked mask e (strings.split_dots f))
            (λ f.
              (is_named (strings.split_dots f) ≡ false)
              ⊎ Masked mask (redact_walk mask (test_of cfg) e).0 (strings.split_dots f))
            cfg.path_fields
            (λ f hidden. elim hidden [
              | inl h ↦ inl h
              | inr m ↦ inr (Hides-Masked mask e _ (strings.split_dots f) walked m)
            ])
            (PathsMasked-redact_paths mask cfg.path_fields d),
        (redact_walk-Clean mask (test_of cfg) e).0,
      )

  -- What is returned is the encoding of a document that was decoded and redacted in this way.
  pub parse_and_redact_json-Safe :
      (codec : Codec) (cfg : Config) (raw out : List ℕ)
      → parse_and_redact_json codec cfg raw ≡ ok (some out)
      → (d d' : Json) × (codec.unmarshal raw ≡ ok d)
        × (codec.marshal d' ≡ ok out)
        × Hides (mask_of cfg) d d'
        × PathsMasked (mask_of cfg) cfg.path_fields d'
        × Clean (mask_of cfg) (test_of cfg) d'
  unfolding parse_and_redact_json
  parse_and_redact_json-Safe codec cfg raw out h = elim (Result-cases (codec.unmarshal raw)) [
    | inr (e, bad) ↦ absurd (ground arith)
    | inl (d, good) ↦ elim (Result-cases (codec.marshal (redact_document cfg d))) [
      | inr (e, bad) ↦ absurd (ground arith)
      | inl (bytes, done) ↦
          let same : bytes ≡ out = ground arith in
          let (hides, paths, clean) = redact_document-Safe cfg d in
          (d, redact_document cfg d, good, done ∙ ap ok same, hides, paths, clean)
    ]
  ]
