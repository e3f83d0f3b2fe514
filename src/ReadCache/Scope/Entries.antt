-- ===== src/ReadCache/Scope/Entries.antt =====
-- The sizes of the entries of a scope.
use csar_core.Prelude.{
  ℕ, ◌+◌, ◌≤◌, String, ◌≡◌, refl, ◌≢◌, true, Option, none, some, List, [], ◌∷◌, arith, eq_iff,
  string_eq, nat_eq, length,
}
use csar_core.Prelude.Dict
use csar_core.Prelude.Dict.{lookup, insert, delete, Unique, delete-absent}
use csar_core.ReadCache.Scope.{Bytes, mem, drop_key}

abbrev pub size : Option Bytes → ℕ
size none = 0
size (some value) = length value

-- The bytes that the entries keep.
abbrev pub total : List (String × Option Bytes) → ℕ
total [] = 0
total ((k, v) ∷ m) = size v + total m

abbrev pub ValuesFit : ℕ → List (String × Option Bytes) → Type 0
ValuesFit n [] = Unit
ValuesFit n ((k, v) ∷ m) = (size v ≤ n) × ValuesFit n m

pub total-insert-reserved :
    (k : String) (v : Option Bytes) (m : List (String × Option Bytes))
    → lookup k m ≡ some none
    → total (insert k v m) ≡ size v + total m
unfolding lookup insert
total-insert-reserved k v [] h = absurd (cc)
total-insert-reserved k v ((j, w) ∷ m) h = ground (arith, total-insert-reserved k v m)

pub total-insert-new :
    (k : String) (v : Option Bytes) (m : List (String × Option Bytes))
    → lookup k m ≡ none
    → total (insert k v m) ≡ size v + total m
unfolding lookup insert
total-insert-new k v [] h = refl
total-insert-new k v ((j, w) ∷ m) h = ground (arith, total-insert-new k v m)

pub total-delete-reserved :
    (k : String) (m : List (String × Option Bytes))
    → Unique m
    → lookup k m ≡ some none
    → total (delete k m) ≡ total m
unfolding lookup delete
total-delete-reserved k [] u h = absurd (cc)
total-delete-reserved k ((j, w) ∷ m) (fresh, rest) h =
    ground (arith, eq_iff j k, total-delete-reserved k m rest, Dict.delete-absent k m)

pub ValuesFit-insert :
    (n : ℕ) (k : String) (v : Option Bytes) (m : List (String × Option Bytes))
    → size v ≤ n
    → ValuesFit n m
    → ValuesFit n (insert k v m)
unfolding insert
ValuesFit-insert n k v [] h f = (h, tt)
ValuesFit-insert n k v ((j, w) ∷ m) h f = ground (arith, ValuesFit-insert n k v m h)

pub ValuesFit-delete :
    (n : ℕ) (k : String) (m : List (String × Option Bytes))
    → ValuesFit n m
    → ValuesFit n (delete k m)
unfolding delete
ValuesFit-delete n k [] f = tt
ValuesFit-delete n k ((j, w) ∷ m) f = ground (arith, ValuesFit-delete n k m)

pub mem-drop_key :
    (k j : String) (xs : List String) → mem j (drop_key k xs) ≡ true → (mem j xs ≡ true) × (k ≢ j)
unfolding mem drop_key
mem-drop_key k j [] h = absurd (cc)
mem-drop_key k j (x ∷ xs) h = ground (arith, eq_iff x k, eq_iff x j, mem-drop_key k j xs)
