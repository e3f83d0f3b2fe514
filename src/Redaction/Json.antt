-- ===== src/Redaction/Json.antt =====
-- The walks of jsonredact/redact.go. A Go map has one entry for a key, and each entry is treated
-- on its own, so the order of the entries does not matter. The code changes the document in
-- place; here the changed document and the flag that something matched are returned.
pub mod Walk
pub mod Hiding
pub mod Compose
pub mod Path
use csar_core.Prelude.{
  ℕ, String, Bool, true, false, ◌||◌, List, [], ◌∷◌, if◌then◌else◌, string_eq, ◌==◌, nat_eq,
}

-- A decoded document; `literal` stands for a number, a Boolean or null.
mutual
  pub data Json : Type 0 where
    text : String → Json
    literal : ℕ → Json
    array : Items → Json
    object : Fields → Json

  pub data Items : Type 0 where
    no_item : Items
    item : Json → Items → Items

  pub data Fields : Type 0 where
    no_field : Fields
    field : String → Json → Fields → Fields

module _ (mask : String) where
  -- The terminal field of a path.
  unfoldable pub mask_field : String → Fields → Fields × Bool
  mask_field key no_field = (no_field, false)
  mask_field key (field k v rest) =
      let (others, matched) = mask_field key rest in
      if k == key then (field k (text mask) others, true) else (field k v others, matched)

  -- `RedactPath`.
  unfoldable mutual
    pub redact_path : Json → List String → Json × Bool
    redact_path (text s) path = (text s, false)
    redact_path (literal n) path = (literal n, false)
    redact_path (object fields) [] = (object fields, false)
    redact_path (object fields) (key ∷ []) =
        let (fields', matched) = mask_field key fields in (object fields', matched)
    redact_path (object fields) (key ∷ next ∷ rest) =
        let (fields', matched) = redact_fields fields key (next ∷ rest) in (object fields', matched)
    redact_path (array items) [] = (array items, false)
    redact_path (array items) (key ∷ rest) =
        let (items', matched) = redact_items items (if key == "*" then rest else key ∷ rest) in
        (array items', matched)

    -- Each field for "*", or the field with the key.
    pub redact_fields : Fields → String → List String → Fields × Bool
    redact_fields no_field key path = (no_field, false)
    redact_fields (field k v rest) key path =
        let (v', matched) = redact_path v path in
        let (others, more) = redact_fields rest key path in
        if (key == "*") || (k == key)
        then (field k v' others, matched || more)
        else (field k v others, more)

    pub redact_items : Items → List String → Items × Bool
    redact_items no_item path = (no_item, false)
    redact_items (item v rest) path =
        let (v', matched) = redact_path v path in
        let (others, more) = redact_items rest path in (item v' others, matched || more)

  -- `redactKeysWalk` and `RedactSensitiveKeys` differ in the test of a key.
  unfoldable mutual
    pub redact_walk : (String → Bool) → Json → Json × Bool
    redact_walk test (text s) = (text s, false)
    redact_walk test (literal n) = (literal n, false)
    redact_walk test (object fields) =
        let (fields', matched) = walk_fields test fields in (object fields', matched)
    redact_walk test (array items) =
        let (items', matched) = walk_items test items in (array items', matched)

    pub walk_fields : (String → Bool) → Fields → Fields × Bool
    walk_fields test no_field = (no_field, false)
    walk_fields test (field k v rest) =
        let (v', matched) = redact_walk test v in
        let (others, more) = walk_fields test rest in
        if test k then (field k (text mask) others, true) else (field k v' others, matched || more)

    pub walk_items : (String → Bool) → Items → Items × Bool
    walk_items test no_item = (no_item, false)
    walk_items test (item v rest) =
        let (v', matched) = redact_walk test v in
        let (others, more) = walk_items test rest in (item v' others, matched || more)
