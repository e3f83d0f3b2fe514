-- ===== src/Jwt/Verify/Times.antt =====
-- The tests of the times of a token against the claims as numbers.
use csar_core.Prelude.{
  ℕ, suc, ◌+◌, ◌-◌, ◌*◌, ◌^◌, ◌≤◌, ◌<◌, ◌≡◌, ◌↔◌, ◌⊎◌, inl, inr, false, Option, none, some, arith,
  ltb, Bool-cases,
}
use csar_core.Prelude.Int.{ℤ, pos, negsuc}
use csar_core.Jwt.Verify.{second, unix_to_internal, time_unix, reading, is_expired, is_early}

-- The first number of seconds since 1970 that is no time of Go: `time.Unix` wraps from here on.
abbrev pub unix_limit : ℕ
unix_limit = 2 ^ 63 - 62135596800

-- The instant, with the tolerance, has not passed, and is one that Go can represent.
abbrev pub Unexpired : ℕ → ℕ → ℤ → Type 0
Unexpired now skew (pos e) = (e < unix_limit) × (now ≤ e * second + skew)
Unexpired now skew (negsuc e) = now + suc e * second ≤ skew

-- The instant, with the tolerance, has come, or is one that Go cannot represent.
abbrev pub Begun : ℕ → ℕ → ℤ → Type 0
Begun now skew (pos n) = (unix_limit ≤ n) ⊎ (n * second ≤ now + skew)
Begun now skew (negsuc n) = Unit

abbrev pub IsInt64 : ℤ → Type 0
IsInt64 (pos n) = n < 2 ^ 63
IsInt64 (negsuc n) = n < 2 ^ 63

-- The number is an int64; and the tolerance is that of a Go duration, or the number is a time.
abbrev pub InRange : ℕ → ℤ → Type 0
InRange skew (pos n) = (n < 2 ^ 63) × ((skew < 2 ^ 63) ⊎ (n < unix_limit))
InRange skew (negsuc n) = n < 2 ^ 63

IsInt64-InRange : (skew : ℕ) (n : ℤ) → skew < 2 ^ 63 → IsInt64 n → InRange skew n
IsInt64-InRange skew (pos n) h le = (le, inl h)
IsInt64-InRange skew (negsuc n) h le = le

less_or_not : (a b : ℕ) → (a < b) ⊎ (b ≤ a)
less_or_not a b = elim (Bool-cases (ltb a b)) [
  | inl e ↦ inl (ground arith)
  | inr e ↦ inr (ground arith)
]

time_unix-time :
    (n : ℕ) → n < unix_limit → time_unix (pos n) ≡ n * second + (unix_to_internal + 2 ^ 63) * second
unfolding time_unix
time_unix-time n h = omega (arith, h)

time_unix-wraps :
    (n : ℕ) → unix_limit ≤ n → n < 2 ^ 63 → time_unix (pos n) < unix_to_internal * second
unfolding time_unix
time_unix-wraps n h le = omega (arith, h, le)

time_unix-before :
    (n : ℕ)
    → n < 2 ^ 63
    → time_unix (negsuc n) + suc n * second ≡ (unix_to_internal + 2 ^ 63) * second
unfolding time_unix
time_unix-before n h = omega (arith, h)

pub is_expired-Unexpired :
    (now skew : ℕ) (exp : ℤ)
    → InRange skew exp
    → (is_expired now skew exp ≡ false) ↔ Unexpired now skew exp
unfolding is_expired reading
is_expired-Unexpired now skew (negsuc e) le =
    let at = time_unix-before e le in (λ h. ground (arith, at), λ w. ground (arith, at))
is_expired-Unexpired now skew (pos e) (le, range) = elim (less_or_not e unix_limit) [
  | inl small ↦
      let at = time_unix-time e small in
      (λ h. (small, ground (arith, at)), λ w. let le' = w.1 in ground (arith, at, le'))
  | inr large ↦
      let at = time_unix-wraps e large le in
      (
        λ h. absurd (elim range [
          | inl few ↦ ground (arith, at, few)
          | inr small ↦ omega (arith, small, large)
        ]),
        λ w. absurd (omega (arith, w.0, large)),
      )
]

pub is_early-Begun :
    (now skew : ℕ) (nbf : ℤ) → IsInt64 nbf → (is_early now skew nbf ≡ false) ↔ Begun now skew nbf
unfolding is_early reading
is_early-Begun now skew (negsuc n) le =
    let at = time_unix-before n le in (λ h. tt, λ w. ground (arith, at))
is_early-Begun now skew (pos n) le = elim (less_or_not n unix_limit) [
  | inl small ↦
      let at = time_unix-time n small in
      (
        λ h. inr (ground (arith, at)),
        λ w. elim w [
          | inl large ↦ absurd (omega (arith, small, large))
          | inr come ↦ ground (arith, at, come)
        ],
      )
  | inr large ↦ let at = time_unix-wraps n large le in (λ h. inl large, λ w. ground (arith, at))
]

-- The same of a claim, which may be missing.
abbrev pub HasInRange : ℕ → Option ℤ → Type 0
HasInRange skew none = Unit
HasInRange skew (some n) = InRange skew n

abbrev pub HasInt64 : Option ℤ → Type 0
HasInt64 none = Unit
HasInt64 (some n) = IsInt64 n

pub HasInt64-HasInRange : (skew : ℕ) (n : Option ℤ) → skew < 2 ^ 63 → HasInt64 n → HasInRange skew n
HasInt64-HasInRange skew none h fits = tt
HasInt64-HasInRange skew (some n) h fits = IsInt64-InRange skew n h fits
