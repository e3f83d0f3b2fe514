-- ===== src/Prelude/Counts.antt =====
-- Counting the entries of a list that pass a test, and sums over a list.
use Prim.Native.Nat.{ℕ, zero, suc, ◌+◌, ◌≤◌}
use mathlib.Core.Path.{◌≡◌, refl, ap}
use mathlib.Core.Logic.{◌≢◌}
use mathlib.Core.Bool.{Bool, true, false}
use mathlib.Core.Option.{some}
use mathlib.Core.List.{List, [], ◌∷◌, ◌++◌}
use native.Mathlib.Omega.{arith}
use csar_core.Prelude.Lists.{get_elem?, set, All}

abbrev pub bit : Bool → ℕ
bit true = 1
bit false = 0

module _ {A : Type 0} (p : A → Bool) where
  abbrev pub count : List A → ℕ
  count [] = 0
  count (x ∷ xs) = bit (p x) + count xs

  pub count-append : (xs : List A) (y : A) → count (xs ++ y ∷ []) ≡ count xs + bit (p y)
  count-append [] y = omega arith
  count-append (x ∷ xs) y = omega (arith, count-append xs y)

  pub count-append_all : (xs ys : List A) → count (xs ++ ys) ≡ count xs + count ys
  count-append_all [] ys = omega arith
  count-append_all (x ∷ xs) ys = omega (arith, count-append_all xs ys)

  -- A write moves the count by what it takes out and puts in.
  pub count-set :
      (xs : List A) (i : ℕ) (old v : A)
      → get_elem? xs i ≡ some old
      → count (set xs i v) + bit (p old) ≡ count xs + bit (p v)
  count-set [] i old v h = absurd (cc)
  count-set (x ∷ xs) zero old v h = ground arith
  count-set (x ∷ xs) (suc i) old v h = omega (arith, count-set xs i old v h)

  pub count-pos :
      (xs : List A) (i : ℕ) (x : A) → get_elem? xs i ≡ some x → p x ≡ true → 1 ≤ count xs
  count-pos [] i x h e = absurd (cc)
  count-pos (y ∷ xs) zero x h e = ground arith
  count-pos (y ∷ xs) (suc i) x h e = omega (arith, count-pos xs i x h e)

  pub All-count : (xs : List A) → count xs ≡ 0 → All (λ x. p x ≡ false) xs
  All-count [] h = tt
  All-count (x ∷ xs) h = (ground arith, All-count xs (omega arith))

  -- Two places that pass the test make the count at least two.
  pub count_two :
      (xs : List A) (i j : ℕ) (x y : A)
      → get_elem? xs i ≡ some x
      → get_elem? xs j ≡ some y
      → p x ≡ true
      → p y ≡ true
      → i ≢ j
      → 2 ≤ count xs
  count_two [] i j x y hx hy px py ne = absurd (cc)
  count_two (z ∷ xs) zero zero x y hx hy px py ne = absurd (ne refl)
  count_two (z ∷ xs) zero (suc j) x y hx hy px py ne = ground (arith, count-pos xs j y hy py)
  count_two (z ∷ xs) (suc i) zero x y hx hy px py ne = ground (arith, count-pos xs i x hx px)
  count_two (z ∷ xs) (suc i) (suc j) x y hx hy px py ne =
      omega (arith, count_two xs i j x y hx hy px py (λ e. ne (ap suc e)))
