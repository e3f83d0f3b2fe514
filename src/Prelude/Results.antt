-- ===== src/Prelude/Results.antt =====
-- A Go result `(v, err)` whose value is read only if `err` is nil.
use mathlib.Core.Path.{◌≡◌, refl}
use native.Mathlib.Omega.{arith}
use mathlib.Core.Logic.{◌↔◌, ◌⊎◌, inl, inr}
use mathlib.Core.Bool.{Bool, true, false}

pub data Result (E A : Type 0) : Type 0 where
  ok : A → Result E A
  err : E → Result E A

-- `fmt.Errorf("...: %w", err)`.
abbrev pub wrap : {E F A : Type 0} → (E → F) → Result E A → Result F A
wrap f (ok a) = ok a
wrap f (err e) = err (f e)

-- `v, err := m; if err != nil { return err }`, and what follows.
infixl 5 ◌>>=◌
abbrev pub ◌>>=◌ : {E A B : Type 0} → Result E A → (A → Result E B) → Result E B
(err e) >>= next = err e
(ok a) >>= next = next a

-- `if c { return e }`.
abbrev pub fail_if : {E : Type 0} → Bool → E → Result E (Unit {0})
fail_if true e = err e
fail_if false e = ok tt

infixl 5 ◌>>◌
abbrev pub ◌>>◌ : {E B : Type 0} → Result E (Unit {0}) → Result E B → Result E B
check >> next = check >>= λ _. next

pub Result-cases :
    {E A : Type 0} (m : Result E A) → ((a : A) × (m ≡ ok a)) ⊎ ((e : E) × (m ≡ err e))
Result-cases (ok a) = inl (a, refl)
Result-cases (err e) = inr (e, refl)

-- A chain of checks passes if each of them does.
pub >>-ok :
    {E B : Type 0} (m : Result E (Unit {0})) (n : Result E B) (b : B)
    → ((m >> n) ≡ ok b) ↔ ((m ≡ ok tt) × (n ≡ ok b))
>>-ok (ok u) n b = (λ h. (refl, h), λ w. w.1)
>>-ok (err x) n b = (λ h. absurd (cc), λ w. absurd (let f = w.0 in cc))

pub wrap-ok : {E F A : Type 0} (f : E → F) (m : Result E A) (a : A) → (wrap f m ≡ ok a) ↔ (m ≡ ok a)
wrap-ok f (ok b) a = (λ h. ground arith, λ h. ground arith)
wrap-ok f (err x) a = (λ h. absurd (cc), λ h. absurd (cc))
