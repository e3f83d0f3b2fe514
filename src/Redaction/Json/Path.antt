-- ===== src/Redaction/Json/Path.antt =====
-- What a path names stays masked.
use csar_core.Prelude.{
  String, ◌≡◌, refl, sym, subst, ◌∙◌, inl, inr, Bool, true, false, ◌||◌, List, [], ◌∷◌, ◌++◌, arith,
  if◌then◌else◌, string_eq, ◌==◌, nat_eq, Bool-cases, All, All-append,
}
use csar_core.Redaction.Json.{
  Json, Items, Fields, mask_field, redact_path, redact_fields, redact_items, text, literal, array,
  object, no_item, item, no_field, field,
}
use csar_core.Redaction.Json.Hiding.{
  values_at, field_values, item_values, is_named, Masked, Hides, HidesFields, HidesItems,
}

module _ (mask : String) where
  Masked-text : (path : List String) → Masked mask (text mask) path
  unfolding values_at
  Masked-text [] = (refl, tt)
  Masked-text (key ∷ rest) = tt

  AllMasked : List Json → Type 0
  AllMasked values = All (λ v. v ≡ text mask) values

  split_all : (xs ys : List Json) → AllMasked (xs ++ ys) → AllMasked xs × AllMasked ys
  unfolding AllMasked
  split_all [] ys h = (tt, h)
  split_all (x ∷ xs) ys h = let (front, back) = split_all xs ys h.1 in ((h.0, front), back)

  join_all : (xs ys : List Json) → AllMasked xs → AllMasked ys → AllMasked (xs ++ ys)
  unfolding AllMasked
  join_all xs ys front back = All-append _ xs ys front back

  is_named_by : String → String → Bool
  is_named_by key k = (key == "*") || (k == key)

  field_values_skip :
      (k key : String) (v : Json) (rest : Fields) (path : List String)
      → is_named_by key k ≡ false
      → field_values (field k v rest) key path ≡ field_values rest key path
  unfolding values_at is_named_by
  field_values_skip k key v rest path e = ground arith

  field_values_take :
      (k key : String) (v : Json) (rest : Fields) (path : List String)
      → is_named_by key k ≡ true
      → field_values (field k v rest) key path ≡ values_at v path ++ field_values rest key path
  unfolding values_at is_named_by
  field_values_take k key v rest path e = ground arith

  mutual
    unfolding Hides values_at AllMasked

    pub Hides-Masked :
        (d d' : Json) (path : List String)
        → Hides mask d d'
        → Masked mask d path
        → Masked mask d' path
    Hides-Masked (text s) d' path h m = subst (λ e. Masked mask e path) (sym h) m
    Hides-Masked (literal n) d' path h m = subst (λ e. Masked mask e path) (sym h) m
    Hides-Masked (object fields) (object others) [] h m = absurd (let e = m.0 in cc)
    Hides-Masked (array items) (array others) [] h m = absurd (let e = m.0 in cc)
    Hides-Masked (object fields) (object others) (key ∷ rest) h m =
        HidesFields-Masked fields others key rest h m
    Hides-Masked (array items) (array others) (key ∷ rest) h m =
        HidesItems-Masked items others (if key == "*" then rest else key ∷ rest) h m
    Hides-Masked (object fields) (text s) path h m = absurd h
    Hides-Masked (object fields) (literal n) path h m = absurd h
    Hides-Masked (object fields) (array items) path h m = absurd h
    Hides-Masked (array items) (text s) path h m = absurd h
    Hides-Masked (array items) (literal n) path h m = absurd h
    Hides-Masked (array items) (object fields) path h m = absurd h

    HidesFields-Masked :
        (fields others : Fields) (key : String) (path : List String)
        → HidesFields mask fields others
        → AllMasked (field_values fields key path)
        → AllMasked (field_values others key path)
    HidesFields-Masked no_field no_field key path h m = tt
    HidesFields-Masked no_field (field k v rest) key path h m = absurd h
    HidesFields-Masked (field k v rest) no_field key path h m = absurd h
    HidesFields-Masked (field k v rest) (field k' v' rest') key path (same, value, others) m =
        rw same (elim (Bool-cases (is_named_by key k)) [
          | inr e ↦ subst AllMasked (sym (field_values_skip k key v' rest' path e)) (
              HidesFields-Masked rest rest' key path others
                (subst AllMasked (field_values_skip k key v rest path e) m))
          | inl e ↦
              let (front, back) =
                split_all (values_at v path) (field_values rest key path)
                  (subst AllMasked (field_values_take k key v rest path e) m) in
              subst AllMasked (sym (field_values_take k key v' rest' path e)) (
                join_all (values_at v' path) (field_values rest' key path)
                  (elim value [
                    | inl masked ↦ subst (λ w. Masked mask w path) (sym masked) (Masked-text path)
                    | inr below ↦ Hides-Masked v v' path below front
                  ])
                  (HidesFields-Masked rest rest' key path others back))
        ])

    HidesItems-Masked :
        (items others : Items) (path : List String)
        → HidesItems mask items others
        → AllMasked (item_values items path)
        → AllMasked (item_values others path)
    HidesItems-Masked no_item no_item path h m = tt
    HidesItems-Masked no_item (item v rest) path h m = absurd h
    HidesItems-Masked (item v rest) no_item path h m = absurd h
    HidesItems-Masked (item v rest) (item v' rest') path (value, others) m =
        let (front, back) = split_all (values_at v path) (item_values rest path) m in
        join_all (values_at v' path) (item_values rest' path) (Hides-Masked v v' path value front)
          (HidesItems-Masked rest rest' path others back)

  is_named-nil : is_named [] ≡ true → ⊥
  unfolding is_named
  is_named-nil h = cc

  is_named-single : (key : String) → is_named (key ∷ []) ≡ true → (key == "*") ≡ false
  unfolding is_named
  is_named-single key h = ground arith

  is_named-cons :
      (key next : String) (rest : List String)
      → is_named (key ∷ next ∷ rest) ≡ is_named (next ∷ rest)
  unfolding is_named
  is_named-cons key next rest = refl

  is_named-items :
      (key : String) (rest : List String)
      → is_named (key ∷ rest) ≡ true
      → is_named (if key == "*" then rest else key ∷ rest) ≡ true
  unfolding is_named
  is_named-items key [] h = ground arith
  is_named-items key (next ∷ rest) h = ground arith

  mask_field-Masked :
      (key : String) (fields : Fields)
      → (key == "*") ≡ false
      → AllMasked (field_values (mask_field mask key fields).0 key [])
  unfolding mask_field values_at AllMasked
  mask_field-Masked key no_field h = tt
  mask_field-Masked key (field k v rest) h = elim (Bool-cases (k == key)) [
    | inl e ↦ rw (e, h, e) ((refl, mask_field-Masked key rest h))
    | inr e ↦ rw (e, h, e) (mask_field-Masked key rest h)
  ]

  redact_fields_take :
      (k key : String) (v : Json) (rest : Fields) (path : List String)
      → is_named_by key k ≡ true
      → (redact_fields mask (field k v rest) key path).0
        ≡ field k (redact_path mask v path).0 (redact_fields mask rest key path).0
  unfolding redact_path is_named_by
  redact_fields_take k key v rest path e = ground arith

  redact_fields_skip :
      (k key : String) (v : Json) (rest : Fields) (path : List String)
      → is_named_by key k ≡ false
      → (redact_fields mask (field k v rest) key path).0
        ≡ field k v (redact_fields mask rest key path).0
  unfolding redact_path is_named_by
  redact_fields_skip k key v rest path e = ground arith

  mutual
    unfolding redact_path values_at AllMasked

    pub redact-Masked :
        (d : Json) (path : List String)
        → is_named path ≡ true
        → Masked mask (redact_path mask d path).0 path
    redact-Masked d [] h = absurd (is_named-nil h)
    redact-Masked (text s) (key ∷ rest) h = tt
    redact-Masked (literal n) (key ∷ rest) h = tt
    redact-Masked (object fields) (key ∷ []) h =
        mask_field-Masked key fields (is_named-single key h)
    redact-Masked (object fields) (key ∷ next ∷ rest) h =
        redact_fields-Masked fields key (next ∷ rest) (sym (is_named-cons key next rest) ∙ h)
    redact-Masked (array items) (key ∷ rest) h =
        redact_items-Masked items (if key == "*" then rest else key ∷ rest)
          (is_named-items key rest h)

    redact_fields-Masked :
        (fields : Fields) (key : String) (path : List String)
        → is_named path ≡ true
        → AllMasked (field_values (redact_fields mask fields key path).0 key path)
    redact_fields-Masked no_field key path h = tt
    redact_fields-Masked (field k v rest) key path h = elim (Bool-cases (is_named_by key k)) [
      | inl e ↦
          rw
            (
              redact_fields_take k key v rest path e,
              field_values_take k key (redact_path mask v path).0
                  (redact_fields mask rest key path).0 path e,
            )
            (join_all _ _ (redact-Masked v path h) (redact_fields-Masked rest key path h))
      | inr e ↦
          rw
            (
              redact_fields_skip k key v rest path e,
              field_values_skip k key v (redact_fields mask rest key path).0 path e,
            )
            (redact_fields-Masked rest key path h)
    ]

    redact_items-Masked :
        (items : Items) (path : List String)
        → is_named path ≡ true
        → AllMasked (item_values (redact_items mask items path).0 path)
    redact_items-Masked no_item path h = tt
    redact_items-Masked (item v rest) path h =
        join_all _ _ (redact-Masked v path h) (redact_items-Masked rest path h)
