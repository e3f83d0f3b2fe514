-- ===== src/TokenMint/Minter/Sweeps.antt =====
-- All that happens to one credential: its calls, and the sweeps of the table between them and during
-- their grants.
use csar_core.Prelude.{
  ℕ, ◌+◌, ◌≤◌, String, ◌≡◌, refl, ap, ◌∙◌, ◌⊎◌, inl, inr, Bool, true, false, Option, none, some,
  List, [], ◌∷◌, arith, if◌then◌else◌, string_eq, nat_eq, Bool-cases, Option-cases, Result, ok, err,
}
use csar_core.Prelude.Dict.{lookup}
use csar_core.TokenMint.Types.{Floats, Profile, Config, GrantError, GrantResponse}
use csar_core.TokenMint.Minter.{
  MintState, Minted, Call, use_grant, mint_one, new_state, is_idle, is_dropped,
}
use csar_core.TokenMint.Minter.Laws.{Elapsed, gate-Elapsed, mint_one_cases}

-- A call, a call during whose grant `Sweep` runs at an instant, and a `Sweep` at an instant.
pub data Event : Type 0 where
  call : Call → Event
  call_swept : Call → ℕ → Event
  sweep_at : ℕ → Event

abbrev pub instant : Event → ℕ
instant (call c) = c.now
instant (call_swept c at) = c.now
instant (sweep_at now) = now

-- Each instant is at least `d` behind the one before it, the first behind `last`.
abbrev pub SpacedFrom : Option ℕ → ℕ → List ℕ → Type 0
SpacedFrom last d [] = Unit
SpacedFrom last d (t ∷ ts) = Elapsed last d t × SpacedFrom (some t) d ts

-- The clock does not run backwards.
abbrev pub Ordered : ℕ → List Event → Type 0
Ordered from [] = Unit
Ordered from (e ∷ rest) = (from ≤ instant e) × Ordered (instant e) rest

-- No `Sweep` runs while a call waits for the endpoint.
abbrev pub Undisturbed : List Event → Type 0
Undisturbed [] = Unit
Undisturbed (call c ∷ rest) = Undisturbed rest
Undisturbed (call_swept c at ∷ rest) = ⊥
Undisturbed (sweep_at now ∷ rest) = Undisturbed rest

module _ {F : Type 0} (ops : Floats F) (cfg : Config F) (p : Profile F) (name : String) where
  -- The entry that the next call finds behind a `Sweep`.
  unfoldable pub swept : ℕ → MintState → MintState
  swept now st = if is_dropped ops cfg now st then new_state name else st

  -- What a call writes behind its grant is lost when the entry was dropped meanwhile: the call
  -- still writes to the entry that it has, and the table has none.
  unfoldable pub after : MintState → Event → MintState
  unfolding swept
  after st (call c) = (mint_one ops p name st c).entry
  after st (call_swept c at) =
      if is_dropped ops cfg at st then new_state name else (mint_one ops p name st c).entry
  after st (sweep_at now) = swept now st

  -- Whether the event asks the endpoint.
  unfoldable pub asks : MintState → Event → Bool
  asks st (call c) = (mint_one ops p name st c).contacted
  asks st (call_swept c at) = (mint_one ops p name st c).contacted
  asks st (sweep_at now) = false

  -- The instants of the calls that ask the endpoint.
  unfoldable pub grant_times : MintState → List Event → List ℕ
  grant_times st [] = []
  grant_times st (e ∷ rest) =
      let later = grant_times (after st e) rest in if asks st e then instant e ∷ later else later

  grant_times-call :
      (st : MintState) (c : Call) (rest : List Event) (m : Minted)
      → mint_one ops p name st c ≡ m
      → grant_times st (call c ∷ rest)
        ≡ (if m.contacted then c.now ∷ grant_times m.entry rest else grant_times m.entry rest)
  unfolding grant_times after asks
  grant_times-call st c rest m e =
      ap
        (λ (x : Minted).
          if x.contacted then c.now ∷ grant_times x.entry rest else grant_times x.entry rest)
        e

  use_grant-entry :
      (now : ℕ) (st : MintState) (granted : Result GrantError GrantResponse) (jitter : ℕ → ℕ)
      → ((use_grant ops p now st granted jitter).contacted ≡ true)
        × ((use_grant ops p now st granted jitter).entry.last_mint_at ≡ some now)
        × ((use_grant ops p now st granted jitter).entry.profile_name ≡ st.profile_name)
  unfolding use_grant
  use_grant-entry now st (ok resp) jitter = (refl, refl, refl)
  use_grant-entry now st (err e) jitter = (refl, refl, refl)

  -- The entry has the instant of the last mint, or it is one that was dropped when the interval
  -- behind that instant had passed.
  abbrev Remembers : Option ℕ → MintState → ℕ → Type 0
  Remembers g st from =
      (st.last_mint_at ≡ g) ⊎ ((st.last_mint_at ≡ none) × Elapsed g p.min_refresh_interval from)

  Elapsed-mono :
      (g : Option ℕ) (d now later : ℕ) → now ≤ later → Elapsed g d now → Elapsed g d later
  Elapsed-mono none d now later le h = tt
  Elapsed-mono (some t) d now later le h = omega (arith, h)

  Remembers-mono :
      (g : Option ℕ) (st : MintState) (from now : ℕ)
      → from ≤ now
      → Remembers g st from
      → Remembers g st now
  Remembers-mono g st from now le (inl e) = inl e
  Remembers-mono g st from now le (inr (e, h)) =
      inr (e, Elapsed-mono g p.min_refresh_interval from now le h)

  is_dropped-last :
      (now : ℕ) (st : MintState)
      → lookup st.profile_name cfg.profiles ≡ some p
      → is_dropped ops cfg now st ≡ true
      → (t : ℕ) × (st.last_mint_at ≡ some t) × (t + p.idle_ttl ≤ now)
  unfolding is_dropped is_idle
  is_dropped-last now st known h = elim (Option-cases st.last_mint_at) [
    | inl e ↦ absurd (ground (arith, known))
    | inr (t, e) ↦ (t, e, ground (arith, known))
  ]

  spaced :
      (g : Option ℕ) (st : MintState) (from : ℕ) (events : List Event)
      → lookup name cfg.profiles ≡ some p
      → p.min_refresh_interval ≤ p.idle_ttl
      → st.profile_name ≡ name
      → Remembers g st from
      → Ordered from events
      → Undisturbed events
      → SpacedFrom g p.min_refresh_interval (grant_times st events)
  unfolding grant_times after asks
  spaced g st from [] known idle named kept o u = tt
  spaced g st from (call_swept c at ∷ rest) known idle named kept o u = absurd u
  spaced g st from (sweep_at now ∷ rest) known idle named kept o u =
      let kept' = Remembers-mono g st from now o.0 kept in
      elim (Bool-cases (is_dropped ops cfg now st)) [
        | inr stays ↦ rw (stays, swept) (spaced g st now rest known idle named kept' o.1 u)
        | inl gone ↦
            let (t, e, past) = is_dropped-last now st (rw named known) gone in
            let over : Elapsed g p.min_refresh_interval now = elim kept' [
              | inl same ↦ rw (← same, e) (omega (arith, past, idle))
              | inr (empty, h) ↦ h
            ] in
            rw (gone, swept)
              (spaced g (new_state name) now rest known idle refl (inr (refl, over)) o.1 u)
      ]
  spaced g st from (call c ∷ rest) known idle named kept o u =
      let kept' = Remembers-mono g st from c.now o.0 kept in
      elim (mint_one_cases ops p name st c) [
        | inl (t, held, f, e) ↦
            rw (grant_times-call st c rest _ e)
              (spaced g st c.now rest known idle named kept' o.1 u)
        | inr (inl (x, e)) ↦
            rw (grant_times-call st c rest _ e)
              (spaced g st c.now rest known idle named kept' o.1 u)
        | inr (inr (n, passed, a, e)) ↦
            let (asked, last, same) = use_grant-entry c.now st c.granted c.jitter in
            let over : Elapsed g p.min_refresh_interval c.now = elim kept' [
              | inl is ↦ rw (← is) (gate-Elapsed ops p name c.now st passed).1
              | inr (empty, h) ↦ h
            ] in
            let later =
              spaced (some c.now) (use_grant ops p c.now st c.granted c.jitter).entry c.now rest
                known idle (same ∙ named) (inl last) o.1 u in
            rw (grant_times-call st c rest _ e, asked) (over, later)
      ]

  -- For a profile of the configuration whose `MinRefreshInterval` is at most its `IdleTTL`, however
  -- many calls and sweeps there are, and whether grants succeed or fail, two requests to the token
  -- endpoint for one credential are at least `MinRefreshInterval` apart, as long as the clock does
  -- not run backwards and no sweep runs while a call waits for the endpoint.
  pub grant_times-SpacedFrom :
      (st : MintState) (from : ℕ) (events : List Event)
      → lookup name cfg.profiles ≡ some p
      → p.min_refresh_interval ≤ p.idle_ttl
      → st.profile_name ≡ name
      → Ordered from events
      → Undisturbed events
      → SpacedFrom st.last_mint_at p.min_refresh_interval (grant_times st events)
  grant_times-SpacedFrom st from events known idle named o u =
      spaced st.last_mint_at st from events known idle named (inl refl) o u
