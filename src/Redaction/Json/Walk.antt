-- ===== src/Redaction/Json/Walk.antt =====
-- The walk over all keys against an independent description of a clean document.
use csar_core.Prelude.{
  ℕ, zero, suc, String, ◌≡◌, refl, ap, subst, ◌↔◌, ◌⊎◌, inl, inr, Bool, false, ◌||◌, Option, none,
  some, map_option, List, [], ◌∷◌, arith, eq_iff, if◌then◌else◌, string_eq, ◌==◌, nat_eq,
  Bool-cases, Option-cases,
}
use csar_core.Redaction.Json.{
  Json, Items, Fields, redact_walk, walk_fields, walk_items, text, literal, array, object, no_item,
  item, no_field, field,
}

-- One step into a document.
pub data Step : Type 0 where
  at_key : String → Step
  at_index : ℕ → Step

unfoldable pub find_field : String → Fields → Option Json
find_field key no_field = none
find_field key (field k v rest) = if k == key then some v else find_field key rest

unfoldable pub nth_item : Items → ℕ → Option Json
nth_item no_item i = none
nth_item (item v rest) zero = some v
nth_item (item v rest) (suc i) = nth_item rest i

unfoldable pub child : Json → Step → Option Json
child (object fields) (at_key k) = find_field k fields
child (array items) (at_index i) = nth_item items i
child _ _ = none

-- What stands at an address.
unfoldable pub get : Json → List Step → Option Json
get d [] = some d
get d (s ∷ rest) = elim (child d s) [ none ↦ none | some v ↦ get v rest ]

-- The address passes through a key of the test.
unfoldable pub is_hidden : (String → Bool) → List Step → Bool
is_hidden test [] = false
is_hidden test (at_key k ∷ rest) = test k || is_hidden test rest
is_hidden test (at_index i ∷ rest) = is_hidden test rest

module _ (mask : String) (test : String → Bool) where
  -- Each field with a key of the test holds the mask, at any depth.
  unfoldable mutual
    pub Clean : Json → Type 0
    Clean (text s) = Unit
    Clean (literal n) = Unit
    Clean (object fields) = CleanFields fields
    Clean (array items) = CleanItems items

    pub CleanFields : Fields → Type 0
    CleanFields no_field = Unit
    CleanFields (field k v rest) = ((test k ≡ false) ⊎ (v ≡ text mask)) × Clean v × CleanFields rest

    pub CleanItems : Items → Type 0
    CleanItems no_item = Unit
    CleanItems (item v rest) = Clean v × CleanItems rest

  -- Whether a key of the test stands anywhere in the part that the walk enters.
  unfoldable mutual
    pub has_key : Json → Bool
    has_key (text s) = false
    has_key (literal n) = false
    has_key (object fields) = fields_have_key fields
    has_key (array items) = items_have_key items

    pub fields_have_key : Fields → Bool
    fields_have_key no_field = false
    fields_have_key (field k v rest) = test k || has_key v || fields_have_key rest

    pub items_have_key : Items → Bool
    items_have_key no_item = false
    items_have_key (item v rest) = has_key v || items_have_key rest

  mutual
    unfolding redact_walk Clean

    walk-Clean : (d : Json) → Clean (redact_walk mask test d).0
    walk-Clean (text s) = tt
    walk-Clean (literal n) = tt
    walk-Clean (object fields) = walk_fields-CleanFields fields
    walk-Clean (array items) = walk_items-CleanItems items

    walk_fields-CleanFields : (fields : Fields) → CleanFields (walk_fields mask test fields).0
    walk_fields-CleanFields no_field = tt
    walk_fields-CleanFields (field k v rest) = elim (Bool-cases (test k)) [
      | inl e ↦ rw e ((inr refl, tt, walk_fields-CleanFields rest))
      | inr e ↦ rw e ((inl e, walk-Clean v, walk_fields-CleanFields rest))
    ]

    walk_items-CleanItems : (items : Items) → CleanItems (walk_items mask test items).0
    walk_items-CleanItems no_item = tt
    walk_items-CleanItems (item v rest) = (walk-Clean v, walk_items-CleanItems rest)

  mutual
    unfolding redact_walk Clean

    Clean-walk : (d : Json) → Clean d → (redact_walk mask test d).0 ≡ d
    Clean-walk (text s) c = refl
    Clean-walk (literal n) c = refl
    Clean-walk (object fields) c = ap object (CleanFields-walk_fields fields c)
    Clean-walk (array items) c = ap array (CleanItems-walk_items items c)

    CleanFields-walk_fields :
        (fields : Fields) → CleanFields fields → (walk_fields mask test fields).0 ≡ fields
    CleanFields-walk_fields no_field c = refl
    CleanFields-walk_fields (field k v rest) (masked, below, others) = elim (Bool-cases (test k)) [
      | inr e ↦ ground (arith, Clean-walk v below, CleanFields-walk_fields rest others)
      | inl e ↦ elim masked [
        | inl no_key ↦ absurd (cc)
        | inr same ↦ ground (arith, CleanFields-walk_fields rest others)
      ]
    ]

    CleanItems-walk_items :
        (items : Items) → CleanItems items → (walk_items mask test items).0 ≡ items
    CleanItems-walk_items no_item c = refl
    CleanItems-walk_items (item v rest) (below, others) =
        ground (arith, Clean-walk v below, CleanItems-walk_items rest others)

  mutual
    unfolding redact_walk has_key

    walk-flag : (d : Json) → (redact_walk mask test d).1 ≡ has_key d
    walk-flag (text s) = refl
    walk-flag (literal n) = refl
    walk-flag (object fields) = walk_fields-flag fields
    walk-flag (array items) = walk_items-flag items

    walk_fields-flag : (fields : Fields) → (walk_fields mask test fields).1 ≡ fields_have_key fields
    walk_fields-flag no_field = refl
    walk_fields-flag (field k v rest) = ground (arith, walk-flag v, walk_fields-flag rest)

    walk_items-flag : (items : Items) → (walk_items mask test items).1 ≡ items_have_key items
    walk_items-flag no_item = refl
    walk_items-flag (item v rest) = ground (arith, walk-flag v, walk_items-flag rest)

  -- The walk leaves no field with a key of the test unmasked, a clean document is one that it
  -- leaves as it is, and it tells whether there was such a key.
  pub redact_walk-Clean :
      (d : Json)
      → Clean (redact_walk mask test d).0
        × (Clean d ↔ ((redact_walk mask test d).0 ≡ d))
        × ((redact_walk mask test d).1 ≡ has_key d)
  redact_walk-Clean d =
      (walk-Clean d, (Clean-walk d, λ same. subst Clean same (walk-Clean d)), walk-flag d)

  find-walk :
      (k : String) (fields : Fields)
      → test k ≡ false
      → find_field k (walk_fields mask test fields).0
        ≡ map_option (λ v. (redact_walk mask test v).0) (find_field k fields)
  unfolding redact_walk find_field
  find-walk k no_field h = refl
  find-walk k (field key v rest) h = ground (arith, find-walk k rest h, eq_iff key k)

  nth-walk :
      (items : Items) (i : ℕ)
      → nth_item (walk_items mask test items).0 i
        ≡ map_option (λ v. (redact_walk mask test v).0) (nth_item items i)
  unfolding redact_walk nth_item
  nth-walk no_item i = refl
  nth-walk (item v rest) zero = refl
  nth-walk (item v rest) (suc i) = nth-walk rest i

  child-walk :
      (d : Json) (s : Step)
      → is_hidden test (s ∷ []) ≡ false
      → child (redact_walk mask test d).0 s
        ≡ map_option (λ v. (redact_walk mask test v).0) (child d s)
  unfolding redact_walk child is_hidden
  child-walk (text t) s h = refl
  child-walk (literal n) s h = refl
  child-walk (array items) (at_key k) h = refl
  child-walk (array items) (at_index i) h = nth-walk items i
  child-walk (object fields) (at_key k) h = find-walk k fields (ground arith)
  child-walk (object fields) (at_index i) h = refl

  is_hidden-cons :
      (s : Step) (rest : List Step)
      → is_hidden test (s ∷ rest) ≡ false
      → (is_hidden test (s ∷ []) ≡ false) × (is_hidden test rest ≡ false)
  unfolding is_hidden
  is_hidden-cons (at_key k) rest h = (ground arith, ground arith)
  is_hidden-cons (at_index i) rest h = (refl, h)

  -- What stands at an address that passes no key of the test is walked and nothing else, so
  -- that its texts and literals stay as they are.
  pub get-redact_walk :
      (d : Json) (addr : List Step)
      → is_hidden test addr ≡ false
      → get (redact_walk mask test d).0 addr
        ≡ map_option (λ v. (redact_walk mask test v).0) (get d addr)
  unfolding get
  get-redact_walk d [] h = refl
  get-redact_walk d (s ∷ rest) h =
      let (first, later) = is_hidden-cons s rest h in
      let below = child-walk d s first in
      elim (Option-cases (child d s)) [
        | inl e ↦ ground arith
        | inr (v, e) ↦ ground (arith, get-redact_walk v rest later)
      ]
