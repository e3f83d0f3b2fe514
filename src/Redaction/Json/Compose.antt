-- ===== src/Redaction/Json/Compose.antt =====
-- Redactions one after the other.
use csar_core.Prelude.{String, subst, ◌∙◌, inl, inr}
use csar_core.Redaction.Json.{
  Json, Items, Fields, text, literal, array, object, no_item, item, no_field, field,
}
use csar_core.Redaction.Json.Hiding.{Hides, HidesFields, HidesItems, same_document}

module _ (mask : String) where
  mutual
    unfolding Hides

    twice_document : (a b c : Json) → Hides mask a b → Hides mask b c → Hides mask a c
    twice_document (text s) b c h k = subst (λ e. Hides mask e c) h k
    twice_document (literal n) b c h k = subst (λ e. Hides mask e c) h k
    twice_document (object fields) (object others) (object last) h k =
        twice_fields fields others last h k
    twice_document (array items) (array others) (array last) h k = twice_items items others last h k
    twice_document (object fields) (object others) (text s) h k = absurd k
    twice_document (object fields) (object others) (literal n) h k = absurd k
    twice_document (object fields) (object others) (array items) h k = absurd k
    twice_document (array items) (array others) (text s) h k = absurd k
    twice_document (array items) (array others) (literal n) h k = absurd k
    twice_document (array items) (array others) (object fields) h k = absurd k
    twice_document (object fields) (text s) c h k = absurd h
    twice_document (object fields) (literal n) c h k = absurd h
    twice_document (object fields) (array items) c h k = absurd h
    twice_document (array items) (text s) c h k = absurd h
    twice_document (array items) (literal n) c h k = absurd h
    twice_document (array items) (object fields) c h k = absurd h

    twice_fields :
        (a b c : Fields) → HidesFields mask a b → HidesFields mask b c → HidesFields mask a c
    twice_fields no_field no_field c h k = k
    twice_fields no_field (field l w more) c h k = absurd h
    twice_fields (field l w more) no_field c h k = absurd h
    twice_fields (field l w more) (field l' w' more') no_field h k = absurd k
    twice_fields (field l w more) (field l' w' more') (field l2 w2 more2) h k =
        let (same, value, others) = h in
        let (same', value', others') = k in
        (
          same' ∙ same,
          elim value' [
            | inl masked ↦ inl masked
            | inr below' ↦ elim value [
              | inl masked ↦ inl (subst (λ e. Hides mask e w2) masked below')
              | inr below ↦ inr (twice_document w w' w2 below below')
            ]
          ],
          twice_fields more more' more2 others others',
        )

    twice_items : (a b c : Items) → HidesItems mask a b → HidesItems mask b c → HidesItems mask a c
    twice_items no_item no_item c h k = k
    twice_items no_item (item w more) c h k = absurd h
    twice_items (item w more) no_item c h k = absurd h
    twice_items (item w more) (item w' more') no_item h k = absurd k
    twice_items (item w more) (item w' more') (item w2 more2) h k =
        (twice_document w w' w2 h.0 k.0, twice_items more more' more2 h.1 k.1)

  pub Hides-trans : (a b c : Json) → Hides mask a b → Hides mask b c → Hides mask a c
  Hides-trans a b c h k = twice_document a b c h k

  pub Hides-refl : (d : Json) → Hides mask d d
  Hides-refl d = same_document mask d
