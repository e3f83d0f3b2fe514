-- ===== src/Redaction/Log.antt =====
-- `redactAttr` of logutil/redact.go. An attribute holds a value, or the attributes of a group.
use mathlib.Core.List.{map-append}
use csar_core.Prelude.{
  String, ◌≡◌, refl, sym, inl, inr, List, [], ◌∷◌, ◌++◌, map, if◌then◌else◌, Bool-cases,
}
use csar_core.Redaction.Keys.{Strings, redacted_value, is_sensitive_key}

mutual
  pub data Attr : Type 0 where
    plain : String → String → Attr
    group : String → Attrs → Attr

  pub data Attrs : Type 0 where
    no_attr : Attrs
    attr : Attr → Attrs → Attrs

-- A value with its key and the keys of the groups around it, from the inside.
pub record Leaf : Type 0 where
  pub groups : List String
  pub key : String
  pub value : String

module _ (strings : Strings) where
  unfoldable mutual
    pub redact_attr : Attr → Attr
    redact_attr (group key attrs) = group key (redact_attrs attrs)
    redact_attr (plain key value) =
        if is_sensitive_key strings key then plain key redacted_value else plain key value

    pub redact_attrs : Attrs → Attrs
    redact_attrs no_attr = no_attr
    redact_attrs (attr a rest) = attr (redact_attr a) (redact_attrs rest)

  -- The values of an attribute from left to right, each with its place.
  unfoldable mutual
    pub leaves : List String → Attr → List Leaf
    leaves groups (plain key value) = record { groups = groups; key = key; value = value } ∷ []
    leaves groups (group key attrs) = leaves_all (key ∷ groups) attrs

    pub leaves_all : List String → Attrs → List Leaf
    leaves_all groups no_attr = []
    leaves_all groups (attr a rest) = leaves groups a ++ leaves_all groups rest

  -- The value is redacted if its own key is sensitive.
  abbrev pub redact_leaf : Leaf → Leaf
  redact_leaf l = if is_sensitive_key strings l.key then record l { value = redacted_value } else l

  mutual
    unfolding redact_attr leaves

    leaves-redact :
        (groups : List String) (a : Attr)
        → leaves groups (redact_attr a) ≡ map redact_leaf (leaves groups a)
    leaves-redact groups (group key attrs) = leaves_all-redact_attrs (key ∷ groups) attrs
    leaves-redact groups (plain key value) = elim (Bool-cases (is_sensitive_key strings key)) [
      | inl e ↦ rw e refl
      | inr e ↦ rw e refl
    ]

    leaves_all-redact_attrs :
        (groups : List String) (attrs : Attrs)
        → leaves_all groups (redact_attrs attrs) ≡ map redact_leaf (leaves_all groups attrs)
    leaves_all-redact_attrs groups no_attr = refl
    leaves_all-redact_attrs groups (attr a rest) =
        rw (leaves-redact groups a, leaves_all-redact_attrs groups rest)
          (sym (map-append redact_leaf (leaves groups a) (leaves_all groups rest)))

  -- The values of a redacted attribute stand in the same places, under the same keys and in the
  -- same groups; each is redacted if its own key is sensitive and is kept otherwise, also when a
  -- group around it has a sensitive key.
  pub leaves-redact_attr :
      (groups : List String) (a : Attr)
      → leaves groups (redact_attr a) ≡ map redact_leaf (leaves groups a)
  leaves-redact_attr = leaves-redact
