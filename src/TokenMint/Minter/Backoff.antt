-- ===== src/TokenMint/Minter/Backoff.antt =====
-- The lengths of a backoff and of a token's life.
use csar_core.Prelude.{
  ℕ, zero, suc, ◌+◌, ◌-◌, ◌*◌, ◌/◌, ◌^◌, ◌≤◌, ◌<◌, String, ◌≡◌, refl, ◌⊎◌, inl, inr, true, arith,
  ltb, leb, Bool-cases,
}
use csar_core.TokenMint.Types.{Floats, AreSound, Profile, GrantResponse, invalid_client, upstream}
use csar_core.TokenMint.Minter.{clamp_duration, double_until, backoff_for, result_from}

double_until-stop : (n max d : ℕ) → max ≤ d → double_until n max d ≡ d
unfolding double_until
double_until-stop zero max d h = refl
double_until-stop (suc n) max d h = ground arith

double_until-bounds :
    (n max d : ℕ) → d ≤ max → (d ≤ double_until n max d) × (double_until n max d ≤ 2 * max)
unfolding double_until
double_until-bounds zero max d h = (omega arith, omega arith)
double_until-bounds (suc n) max d h = elim (Bool-cases (ltb d max)) [
  | inr stop ↦ ground arith
  | inl go ↦ elim (Bool-cases (leb (d * 2) max)) [
    | inl below ↦ ground (arith, double_until-bounds n max (d * 2) (ground arith))
    | inr above ↦ ground (arith, double_until-stop n max (d * 2))
  ]
]

clamp_duration-bounds :
    (d lo hi : ℕ) → 0 < hi → lo ≤ hi → (lo ≤ clamp_duration d lo hi) × (clamp_duration d lo hi ≤ hi)
unfolding clamp_duration
clamp_duration-bounds d lo hi pos h = ground arith

-- For a profile whose base is at most its maximum, and with any jitter that `rand.Int64N` can
-- give, a failure of the endpoint backs off between half the base and the
-- maximum, at least the base when the endpoint gave a hint; one of the credentials backs off
-- for `AuthErrorBackoff`. The doubling never goes beyond twice the maximum.
pub backoff_for-bounds :
    {F : Type 0} (p : Profile F) (status wait fails : ℕ) (code : String) (jitter : ℕ → ℕ)
    → 0 < p.error_backoff_max
    → p.error_backoff_base ≤ p.error_backoff_max
    → ((h : ℕ) → jitter h ≤ h)
    → let b = backoff_for p (upstream status wait code) fails jitter in
      (p.error_backoff_base / 2 ≤ b)
      × (b ≤ p.error_backoff_max)
      × ((wait ≡ 0) ⊎ (p.error_backoff_base ≤ b))
      × (double_until (fails - 1) p.error_backoff_max p.error_backoff_base
          ≤ 2 * p.error_backoff_max)
      × (backoff_for p (invalid_client status code) fails jitter ≡ p.auth_error_backoff)
unfolding backoff_for
backoff_for-bounds p status wait fails code jitter pos le fair =
    let base = p.error_backoff_base in
    let max = p.error_backoff_max in
    let doubled = double_until (fails - 1) max base in
    let within = clamp_duration-bounds doubled base max pos le in
    let hinted = clamp_duration-bounds wait base max pos le in
    let small = fair (clamp_duration doubled base max / 2) in
    elim (Bool-cases (ltb 0 wait)) [
      | inl hint ↦ (
        ground (arith, hinted.0),
        ground (arith, hinted.1),
        inr (ground (arith, hinted.0)),
        (double_until-bounds (fails - 1) max base le).1,
        refl,
      )
      | inr none_given ↦ (
        ground (arith, within.0, small),
        ground (arith, within.1, small),
        inl (ground arith),
        (double_until-bounds (fails - 1) max base le).1,
        refl,
      )
    ]

module _ {F : Type 0} (ops : Floats F) where
  pub result_from-live :
      (now : ℕ) (p : Profile F) (resp : GrantResponse)
      → 0 < resp.expires_in
      → (now < (result_from ops now p resp).refresh_after)
        × ((result_from ops now p resp).refresh_after ≤ (result_from ops now p resp).hard_expiry)
  unfolding result_from
  result_from-live now p resp pos = (ground arith, ground arith)

  -- A token that the endpoint gives a positive life is fresh when it is minted, is due for
  -- replacement no later than it expires, and, with a haircut of at most 1, expires no later
  -- than the endpoint said.
  pub result_from-bounds :
      (now : ℕ) (p : Profile F) (resp : GrantResponse)
      → AreSound ops
      → ops.at_most_one p.expires_in_haircut ≡ true
      → resp.expires_in < 2 ^ 53
      → 0 < resp.expires_in
      → (now < (result_from ops now p resp).refresh_after)
        × ((result_from ops now p resp).refresh_after ≤ (result_from ops now p resp).hard_expiry)
        × ((result_from ops now p resp).hard_expiry ≤ now + resp.expires_in)
  unfolding result_from
  result_from-bounds now p resp sound fits small pos =
      let shrunk = sound.shrinks resp.expires_in p.expires_in_haircut small fits in
      let live = result_from-live now p resp pos in (live.0, live.1, ground (arith, shrunk))
