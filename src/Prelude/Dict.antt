-- ===== src/Prelude/Dict.antt =====
-- A Go map as an association list: `insert` keeps one entry for a key.
use Prim.Native.Nat.{◌+◌, ◌≤◌}
use mathlib.Core.Path.{◌≡◌, refl}
use mathlib.Core.Option.{Option, none, some}
use mathlib.Core.List.{List, [], ◌∷◌}
use native.Mathlib.Omega.{arith}
use csar_core.Prelude.Tests.{if◌then◌else◌, Comparable, ◌==◌, nat_eq, string_eq}
use csar_core.Prelude.Lists.{length}

module _ {K V : Type 0} ⦃e : Comparable K⦄ where
  unfoldable pub lookup : K → List (K × V) → Option V
  lookup k [] = none
  lookup k ((j, value) ∷ entries) = if j == k then some value else lookup k entries

  unfoldable pub insert : K → V → List (K × V) → List (K × V)
  insert k value [] = (k, value) ∷ []
  insert k value ((j, w) ∷ entries) =
      if j == k then (k, value) ∷ entries else (j, w) ∷ insert k value entries

  unfoldable pub delete : K → List (K × V) → List (K × V)
  delete k [] = []
  delete k ((j, w) ∷ entries) = if j == k then delete k entries else (j, w) ∷ delete k entries

  pub lookup-insert :
      (k j : K) (value : V) (entries : List (K × V))
      → lookup j (insert k value entries) ≡ (if k == j then some value else lookup j entries)
  unfolding lookup insert
  lookup-insert k j value [] = refl
  lookup-insert k j value ((i, w) ∷ entries) =
      ground (arith, e.decides k j, e.decides i k, e.decides i j, lookup-insert k j value entries)

  pub lookup-delete :
      (k j : K) (entries : List (K × V))
      → lookup j (delete k entries) ≡ (if k == j then none else lookup j entries)
  unfolding lookup delete
  lookup-delete k j [] = ground arith
  lookup-delete k j ((i, w) ∷ entries) =
      ground (arith, e.decides k j, e.decides i k, e.decides i j, lookup-delete k j entries)

  pub lookup-insert_self :
      (k : K) (value : V) (entries : List (K × V)) → lookup k (insert k value entries) ≡ some value
  lookup-insert_self k value entries =
      ground (arith, e.decides k k, lookup-insert k k value entries)

  pub lookup-delete_self : (k : K) (entries : List (K × V)) → lookup k (delete k entries) ≡ none
  lookup-delete_self k entries = ground (arith, e.decides k k, lookup-delete k k entries)

  pub length-insert-new :
      (k : K) (value : V) (entries : List (K × V))
      → lookup k entries ≡ none
      → length (insert k value entries) ≡ length entries + 1
  unfolding lookup insert
  length-insert-new k value [] h = omega arith
  length-insert-new k value ((i, w) ∷ entries) h = ground (arith, length-insert-new k value entries)

  pub length-insert-old :
      (k : K) (value w : V) (entries : List (K × V))
      → lookup k entries ≡ some w
      → length (insert k value entries) ≡ length entries
  unfolding lookup insert
  length-insert-old k value w [] h = absurd (cc)
  length-insert-old k value w ((i, x) ∷ entries) h =
      ground (arith, length-insert-old k value w entries)

  pub length-delete-le :
      (k : K) (entries : List (K × V)) → length (delete k entries) ≤ length entries
  unfolding delete
  length-delete-le k [] = omega arith
  length-delete-le k ((i, x) ∷ entries) = ground (arith, length-delete-le k entries)

  -- Each key has one entry.
  abbrev pub Unique : List (K × V) → Type 0
  Unique [] = Unit
  Unique ((k, value) ∷ entries) = (lookup k entries ≡ none) × Unique entries

  pub insert-Unique :
      (k : K) (value : V) (entries : List (K × V))
      → Unique entries
      → Unique (insert k value entries)
  unfolding lookup insert
  insert-Unique k value [] h = (refl, tt)
  insert-Unique k value ((i, x) ∷ entries) (fresh, rest) = ground (
    arith,
    e.decides i k,
    e.decides k i,
    insert-Unique k value entries rest,
    lookup-insert k i value entries,
  )

  pub delete-Unique : (k : K) (entries : List (K × V)) → Unique entries → Unique (delete k entries)
  unfolding delete
  delete-Unique k [] h = tt
  delete-Unique k ((i, x) ∷ entries) (fresh, rest) =
      ground (arith, delete-Unique k entries rest, lookup-delete k i entries)

  pub delete-absent :
      (k : K) (entries : List (K × V)) → lookup k entries ≡ none → delete k entries ≡ entries
  unfolding lookup delete
  delete-absent k [] h = refl
  delete-absent k ((i, x) ∷ entries) h = ground (arith, delete-absent k entries)
