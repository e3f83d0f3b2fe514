-- ===== src/Redaction/Json/Hiding.antt =====
-- What redaction may do to a document, and the values that a path names.
use csar_core.Prelude.{
  String, ◌≡◌, refl, ◌⊎◌, inl, inr, Bool, false, not, ◌||◌, List, [], ◌∷◌, ◌++◌, if◌then◌else◌,
  string_eq, ◌==◌, nat_eq, Bool-cases, All,
}
use csar_core.Redaction.Json.{
  Json, Items, Fields, mask_field, redact_path, redact_fields, redact_items, redact_walk,
  walk_fields, walk_items, text, literal, array, object, no_item, item, no_field, field,
}

-- The values that the path names: "*" stands for each field or item, and a key that meets an
-- array is looked up in each of its items.
unfoldable mutual
  pub values_at : Json → List String → List Json
  values_at d [] = d ∷ []
  values_at (text s) (key ∷ rest) = []
  values_at (literal n) (key ∷ rest) = []
  values_at (object fields) (key ∷ rest) = field_values fields key rest
  values_at (array items) (key ∷ rest) = item_values items (if key == "*" then rest else key ∷ rest)

  pub field_values : Fields → String → List String → List Json
  field_values no_field key path = []
  field_values (field k v rest) key path =
      let others = field_values rest key path in
      if (key == "*") || (k == key) then values_at v path ++ others else others

  pub item_values : Items → List String → List Json
  item_values no_item path = []
  item_values (item v rest) path = values_at v path ++ item_values rest path

-- The path ends with the name of a field.
unfoldable pub is_named : List String → Bool
is_named [] = false
is_named (key ∷ []) = not (key == "*")
is_named (key ∷ next ∷ rest) = is_named (next ∷ rest)

module _ (mask : String) where
  -- Each value that the path names is the mask.
  abbrev pub Masked : Json → List String → Type 0
  Masked d path = All (λ v. v ≡ text mask) (values_at d path)

  -- The second document is the first with the values of some fields replaced by the mask.
  unfoldable mutual
    pub Hides : Json → Json → Type 0
    Hides (text s) d = d ≡ text s
    Hides (literal n) d = d ≡ literal n
    Hides (object fields) (object others) = HidesFields fields others
    Hides (object fields) _ = ⊥
    Hides (array items) (array others) = HidesItems items others
    Hides (array items) _ = ⊥

    pub HidesFields : Fields → Fields → Type 0
    HidesFields no_field no_field = Unit
    HidesFields no_field (field k v rest) = ⊥
    HidesFields (field k v rest) no_field = ⊥
    HidesFields (field k v rest) (field k' v' rest') =
        (k' ≡ k) × ((v' ≡ text mask) ⊎ Hides v v') × HidesFields rest rest'

    pub HidesItems : Items → Items → Type 0
    HidesItems no_item no_item = Unit
    HidesItems no_item (item v rest) = ⊥
    HidesItems (item v rest) no_item = ⊥
    HidesItems (item v rest) (item v' rest') = Hides v v' × HidesItems rest rest'

  mutual
    unfolding Hides redact_walk

    pub walk-Hides : (test : String → Bool) (d : Json) → Hides d (redact_walk mask test d).0
    walk-Hides test (text s) = refl
    walk-Hides test (literal n) = refl
    walk-Hides test (object fields) = walk_fields-HidesFields test fields
    walk-Hides test (array items) = walk_items-HidesItems test items

    walk_fields-HidesFields :
        (test : String → Bool) (fields : Fields)
        → HidesFields fields (walk_fields mask test fields).0
    walk_fields-HidesFields test no_field = tt
    walk_fields-HidesFields test (field k v rest) = elim (Bool-cases (test k)) [
      | inl e ↦ rw e (refl, inl refl, walk_fields-HidesFields test rest)
      | inr e ↦ rw e (refl, inr (walk-Hides test v), walk_fields-HidesFields test rest)
    ]

    walk_items-HidesItems :
        (test : String → Bool) (items : Items) → HidesItems items (walk_items mask test items).0
    walk_items-HidesItems test no_item = tt
    walk_items-HidesItems test (item v rest) = (walk-Hides test v, walk_items-HidesItems test rest)

  mutual
    unfolding Hides

    pub same_document : (d : Json) → Hides d d
    same_document (text s) = refl
    same_document (literal n) = refl
    same_document (object fields) = same_fields fields
    same_document (array items) = same_items items

    same_fields : (fields : Fields) → HidesFields fields fields
    same_fields no_field = tt
    same_fields (field k v rest) = (refl, inr (same_document v), same_fields rest)

    same_items : (items : Items) → HidesItems items items
    same_items no_item = tt
    same_items (item v rest) = (same_document v, same_items rest)

  mask_field-HidesFields :
      (key : String) (fields : Fields) → HidesFields fields (mask_field mask key fields).0
  unfolding Hides mask_field
  mask_field-HidesFields key no_field = tt
  mask_field-HidesFields key (field k v rest) = elim (Bool-cases (k == key)) [
    | inl e ↦ rw e (refl, inl refl, mask_field-HidesFields key rest)
    | inr e ↦ rw e (refl, inr (same_document v), mask_field-HidesFields key rest)
  ]

  mutual
    unfolding Hides redact_path

    pub redact_path-Hides : (d : Json) (path : List String) → Hides d (redact_path mask d path).0
    redact_path-Hides (text s) path = refl
    redact_path-Hides (literal n) path = refl
    redact_path-Hides (object fields) [] = same_fields fields
    redact_path-Hides (object fields) (key ∷ []) = mask_field-HidesFields key fields
    redact_path-Hides (object fields) (key ∷ next ∷ rest) =
        redact_fields-HidesFields fields key (next ∷ rest)
    redact_path-Hides (array items) [] = same_items items
    redact_path-Hides (array items) (key ∷ rest) =
        redact_items-HidesItems items (if key == "*" then rest else key ∷ rest)

    redact_fields-HidesFields :
        (fields : Fields) (key : String) (path : List String)
        → HidesFields fields (redact_fields mask fields key path).0
    redact_fields-HidesFields no_field key path = tt
    redact_fields-HidesFields (field k v rest) key path =
        elim (Bool-cases ((key == "*") || (k == key))) [
          | inl e ↦
              rw e (refl, inr (redact_path-Hides v path), redact_fields-HidesFields rest key path)
          | inr e ↦ rw e (refl, inr (same_document v), redact_fields-HidesFields rest key path)
        ]

    redact_items-HidesItems :
        (items : Items) (path : List String) → HidesItems items (redact_items mask items path).0
    redact_items-HidesItems no_item path = tt
    redact_items-HidesItems (item v rest) path =
        (redact_path-Hides v path, redact_items-HidesItems rest path)
