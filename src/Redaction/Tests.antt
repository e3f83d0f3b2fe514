-- ===== src/Redaction/Tests.antt =====
-- The theorems on redaction at a concrete document and a concrete record. Lower case and
-- substrings are the identity and equality here, and a path is one key.
use csar_core.Prelude.{
  String, ◌≡◌, refl, ◌↔◌, Bool, some, map_option, [], ◌∷◌, map, string_eq, ◌==◌, nat_eq, any, ok,
}
use csar_core.Redaction.Keys.{Strings, is_sensitive_key}
use csar_core.Redaction.Json.{
  Json, mask_field, redact_path, redact_walk, text, literal, object, no_field, field,
}
use csar_core.Redaction.Json.Hiding.{Hides}
use csar_core.Redaction.Json.Walk.{
  get, is_hidden, Clean, has_key, redact_walk-Clean, get-redact_walk, at_key,
}
use csar_core.Redaction.Json.Walk
use csar_core.Redaction.Document.{
  default_mask, Config, Codec, redact_sensitive_keys, redact_paths, redact_document,
  parse_and_redact_json, PathsMasked, parse_and_redact_json-Safe,
}
use csar_core.Redaction.Document
use csar_core.Redaction.Log.{
  Attr, redact_attr, leaves, redact_leaf, leaves-redact_attr, plain, group, no_attr, attr,
}
use csar_core.Redaction.Log

abbrev strings : Strings
strings = record { to_lower = λ s. s; contains = λ s part. s == part; split_dots = λ s. s ∷ [] }

abbrev config : Config
config = record { path_fields = "mail" ∷ []; sensitive_keys = []; mask = "" }

abbrev account : Json
account = object (
    field "mail" (text "a@b.c") (
      field "login" (object (field "token" (literal 5) (field "id" (literal 7) no_field)))
        no_field))

abbrev account_redacted : Json
account_redacted = object (
    field "mail" (text default_mask) (
      field "login" (object (field "token" (text default_mask) (field "id" (literal 7) no_field)))
        no_field))

redact_account : redact_document strings config account ≡ account_redacted
unfolding redact_document redact_paths redact_path mask_field redact_sensitive_keys redact_walk
    is_sensitive_key any
redact_account = refl

abbrev codec : Codec
codec = record { unmarshal = λ raw. ok account; marshal = λ d. ok (1 ∷ []) }

parse_account : parse_and_redact_json strings codec config (2 ∷ []) ≡ ok (some (1 ∷ []))
unfolding parse_and_redact_json
parse_account = refl

parse_and_redact_json-Safe_example :
    (d d' : Json) × (codec.unmarshal (2 ∷ []) ≡ ok d)
    × (codec.marshal d' ≡ ok (1 ∷ []))
    × Hides default_mask d d'
    × PathsMasked strings default_mask ("mail" ∷ []) d'
    × Clean default_mask (is_sensitive_key strings) d'
parse_and_redact_json-Safe_example =
    Document.parse_and_redact_json-Safe strings codec config (2 ∷ []) (1 ∷ []) parse_account

abbrev test : String → Bool
test k = k == "token"

redact_walk-Clean_example :
    Clean "x" test (redact_walk "x" test account).0
    × (Clean "x" test account ↔ ((redact_walk "x" test account).0 ≡ account))
    × ((redact_walk "x" test account).1 ≡ has_key "x" test account)
redact_walk-Clean_example = Walk.redact_walk-Clean "x" test account

get-redact_walk_example :
    get (redact_walk "x" test account).0 (at_key "login" ∷ at_key "id" ∷ [])
    ≡ map_option (λ v. (redact_walk "x" test v).0) (get account (at_key "login" ∷ at_key "id" ∷ []))
unfolding is_hidden
get-redact_walk_example =
    Walk.get-redact_walk "x" test account (at_key "login" ∷ at_key "id" ∷ []) refl

abbrev credentials : Attr
credentials = group "token" (attr (plain "secret" "s") (attr (plain "name" "n") no_attr))

leaves-redact_attr_example :
    leaves strings [] (redact_attr strings credentials)
    ≡ map (redact_leaf strings) (leaves strings [] credentials)
leaves-redact_attr_example = Log.leaves-redact_attr strings [] credentials
