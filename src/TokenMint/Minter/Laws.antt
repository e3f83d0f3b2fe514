-- ===== src/TokenMint/Minter/Laws.antt =====
-- One call of `mintOne` on an entry, and `Sweep`.
use csar_core.Prelude.{
  ℕ, ◌+◌, ◌≤◌, ◌<◌, String, ◌≡◌, ◌⊎◌, inl, inr, Bool, true, false, Option, none, some, arith,
  Bool-cases, Option-cases, Result, Result-cases, ok, err,
}
use csar_core.TokenMint.Types.{Floats, Profile, GrantError, GrantResponse}
use csar_core.TokenMint.Minter.Backoff.{result_from-live}
use csar_core.TokenMint.Minter.{
  Token, is_fresh, is_usable, MintState, MintError, result_from, Minted, cached_or, Call,
  gate_interval, gate, use_grant, mint_stale, mint_one, rate_exceeded, grant_failed,
}

-- At `now` the duration has passed since the instant, if there is one.
abbrev pub Elapsed : Option ℕ → ℕ → ℕ → Type 0
Elapsed none d now = Unit
Elapsed (some t) d now = t + d ≤ now

abbrev pub NotFresh : Option Token → ℕ → Type 0
NotFresh none now = Unit
NotFresh (some t) now = t.refresh_after ≤ now

-- A kept token is due for replacement no later than it expires.
abbrev pub IsOrdered : MintState → Type 0
IsOrdered st = elim st.result [ none ↦ Unit | some t ↦ t.refresh_after ≤ t.hard_expiry ]

-- A grant that succeeds gives a positive life.
abbrev pub HasLife : Result GrantError GrantResponse → Type 0
HasLife (err e) = Unit
HasLife (ok resp) = 0 < resp.expires_in

-- Whoever gets a token gets one that has not expired.
abbrev pub Serves : ℕ → Minted → Type 0
Serves now m = elim m.outcome [ err e ↦ Unit | ok t ↦ now < t.hard_expiry ]

module _ {F : Type 0} (ops : Floats F) (p : Profile F) (name : String) where
  gate_interval-Elapsed :
      (now : ℕ) (last : Option ℕ)
      → gate_interval ops p now last ≡ none
      → Elapsed last p.min_refresh_interval now
  unfolding gate_interval
  gate_interval-Elapsed now none h = tt
  gate_interval-Elapsed now (some t) h = ground arith

  pub gate-Elapsed :
      (now : ℕ) (st : MintState)
      → gate ops p now st ≡ none
      → Elapsed st.next_attempt_at 0 now × Elapsed st.last_mint_at p.min_refresh_interval now
  unfolding gate
  gate-Elapsed now st h = elim (Option-cases st.next_attempt_at) [
    | inl e ↦ rw e (tt, gate_interval-Elapsed now st.last_mint_at (ground arith))
    | inr (t, e) ↦ rw e (ground arith, gate_interval-Elapsed now st.last_mint_at (ground arith))
  ]

  -- A call in all cases: it serves a fresh token, or it is held back and serves what `cached_or`
  -- finds, or it asks the endpoint.
  pub mint_one_cases :
      (st : MintState) (c : Call)
      → ((t : Token) × (st.result ≡ some t)
          × (c.now < t.refresh_after)
          × (mint_one ops p name st c ≡ record { outcome = ok t; entry = st; contacted = false }))
        ⊎ ((e : MintError) × (mint_one ops p name st c
              ≡ record { outcome = cached_or c.now st e; entry = st; contacted = false }))
        ⊎ (NotFresh st.result c.now
            × (gate ops p c.now st ≡ none)
            × (c.allowed ≡ true)
            × (mint_one ops p name st c ≡ use_grant ops p c.now st c.granted c.jitter))
  unfolding mint_one mint_stale
  mint_one_cases st c = elim (Option-cases st.result) [
    | inl e ↦ elim (Option-cases (gate ops p c.now st)) [
      | inr (x, g) ↦ inr (inl (x, ground arith))
      | inl g ↦ elim (Bool-cases c.allowed) [
        | inl a ↦ inr (inr (rw e tt, g, a, ground arith))
        | inr a ↦ inr (inl (rate_exceeded name, ground arith))
      ]
    ]
    | inr (t, e) ↦ elim (Bool-cases (is_fresh c.now t)) [
      | inl f ↦ inl (t, e, ground arith, ground arith)
      | inr f ↦ elim (Option-cases (gate ops p c.now st)) [
        | inr (x, g) ↦ inr (inl (x, ground arith))
        | inl g ↦ elim (Bool-cases c.allowed) [
          | inl a ↦ inr (inr (rw e (ground arith), g, a, ground arith))
          | inr a ↦ inr (inl (rate_exceeded name, ground arith))
        ]
      ]
    ]
  ]

  -- The token endpoint is asked only if no kept token is fresh, the backoff of the last failure
  -- has passed, the minimum interval since the last mint has passed, whether that succeeded or
  -- failed, and the rate limiter lets the call through.
  pub mint_one-Elapsed :
      (st : MintState) (c : Call)
      → (mint_one ops p name st c).contacted ≡ true
      → NotFresh st.result c.now
        × Elapsed st.next_attempt_at 0 c.now
        × Elapsed st.last_mint_at p.min_refresh_interval c.now
        × (c.allowed ≡ true)
  mint_one-Elapsed st c h = elim (mint_one_cases st c) [
    | inl (t, at, f, e) ↦ absurd (ground (arith, e))
    | inr (inl (x, e)) ↦ absurd (ground (arith, e))
    | inr (inr (n, g, a, e)) ↦ let both = gate-Elapsed c.now st g in (n, both.0, both.1, a)
  ]

  cached_or-Serves :
      (now : ℕ) (st : MintState) (e : MintError) (b : Bool) (st' : MintState)
      → Serves now (record { outcome = cached_or now st e; entry = st'; contacted = b })
  unfolding cached_or
  cached_or-Serves now st e b st' = elim (Option-cases st.result) [
    | inl q ↦ rw q tt
    | inr (t, q) ↦ elim (Bool-cases (is_usable now t)) [
      | inl good ↦ rw (q, good) (ground arith)
      | inr bad ↦ rw (q, bad) tt
    ]
  ]

  use_grant-Serves :
      (st : MintState) (now : ℕ) (granted : Result GrantError GrantResponse) (jitter : ℕ → ℕ)
      → IsOrdered st
      → HasLife granted
      → Serves now (use_grant ops p now st granted jitter)
        × IsOrdered (use_grant ops p now st granted jitter).entry
  unfolding use_grant
  use_grant-Serves st now (err e) jitter v life =
      (cached_or-Serves now st (grant_failed e) true st, v)
  use_grant-Serves st now (ok resp) jitter v life =
      let live = result_from-live ops now p resp life in (omega arith, live.1)

  pub mint_one-Serves :
      (st : MintState) (c : Call)
      → IsOrdered st
      → HasLife c.granted
      → Serves c.now (mint_one ops p name st c) × IsOrdered (mint_one ops p name st c).entry
  mint_one-Serves st c v life = elim (mint_one_cases st c) [
    | inl (t, kept, f, e) ↦
        let o : t.refresh_after ≤ t.hard_expiry = rw kept at v in rw e (omega arith, v)
    | inr (inl (x, e)) ↦ rw e (cached_or-Serves c.now st x false st, v)
    | inr (inr (n, g, a, e)) ↦ rw e (use_grant-Serves st c.now c.granted c.jitter v life)
  ]

  -- While the kept token has not expired no call fails, whatever holds it back and however the
  -- endpoint fails: it gets that token, or the one that was minted for it.
  pub mint_one-usable :
      (st : MintState) (c : Call) (t : Token)
      → st.result ≡ some t
      → c.now < t.hard_expiry
      → ((mint_one ops p name st c).outcome ≡ ok t)
        ⊎ ((resp : GrantResponse) × (c.granted ≡ ok resp)
            × ((mint_one ops p name st c).outcome ≡ ok (result_from ops c.now p resp)))
  unfolding use_grant cached_or
  mint_one-usable st c t at live = elim (mint_one_cases st c) [
    | inl (t', at', f, e) ↦ inl (ground arith)
    | inr (inl (x, e)) ↦ inl (ground arith)
    | inr (inr (n, g, a, e)) ↦ elim (Result-cases c.granted) [
      | inl (resp, q) ↦ inr (resp, q, ground arith)
      | inr (x, q) ↦ inl (ground arith)
    ]
  ]
