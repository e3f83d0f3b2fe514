-- ===== src/TokenMint/Minter/History.antt =====
-- All the calls for one credential, in order, and the sweeps of the table.
use csar_core.Prelude.{
  ℕ, ◌+◌, String, ◌≡◌, refl, ◌⊎◌, inl, inr, true, none, some, List, [], ◌∷◌, arith, eq_iff,
  if◌then◌else◌, string_eq, ◌==◌, nat_eq, Bool-cases, length, All,
}
use csar_core.Prelude.Dict.{lookup, Unique}
use csar_core.TokenMint.Types.{Floats, Profile, Config}
use csar_core.TokenMint.Minter.{MintState, Minted, Call, mint_one, is_dropped, sweep}
use csar_core.TokenMint.Minter.Laws.{IsOrdered, HasLife, Serves, mint_one-Serves}

-- What a call gave: the instant at which it read the clock and the one at which it returned.
pub record Served : Type 0 where
  pub started : ℕ
  pub returned : ℕ
  pub minted : Minted

-- A token that the call returned had not expired when the call read the clock, nor when it
-- returned, unless it asked the endpoint in between.
abbrev pub IsServed : Served → Type 0
IsServed s = Serves s.started s.minted × ((s.minted.contacted ≡ true) ⊎ Serves s.returned s.minted)

abbrev pub AllServe : List Served → Type 0
AllServe = All IsServed

module _ {F : Type 0} (ops : Floats F) (p : Profile F) (name : String) where
  -- A call returns when its grant has ended, if it asks for one.
  unfoldable pub serve : MintState → Call → Served
  serve st c =
      let m = mint_one ops p name st c in
      record {
        started = c.now;
        returned = if m.contacted then c.now + c.took else c.now;
        minted = m;
      }

  -- What the calls give.
  unfoldable pub mint_all : MintState → List Call → List Served
  mint_all st [] = []
  mint_all st (c ∷ rest) = let s = serve st c in s ∷ mint_all s.minted.entry rest

  serve-IsServed :
      (st : MintState) (c : Call)
      → IsOrdered st
      → HasLife c.granted
      → IsServed (serve st c) × IsOrdered (mint_one ops p name st c).entry
  unfolding serve
  serve-IsServed st c v life =
      let (served, v') = mint_one-Serves ops p name st c v life in
      elim (Bool-cases (mint_one ops p name st c).contacted) [
        | inl asked ↦ ((served, inl asked), v')
        | inr quiet ↦ ((served, inr (rw quiet served)), v')
      ]

  -- From an entry whose token is ordered, such as a new one, and with grants of positive life,
  -- every token that a call returns had not expired when the call read the clock, and a call that
  -- does not ask the endpoint returns a token that has not expired when it returns; however the
  -- clock moves between the calls, and however long the grants take.
  pub mint_all-AllServe :
      (st : MintState) (calls : List Call)
      → IsOrdered st
      → All (λ c. HasLife c.granted) calls
      → AllServe (mint_all st calls)
  unfolding mint_all serve
  mint_all-AllServe st [] v life = tt
  mint_all-AllServe st (c ∷ rest) v life =
      let (served, v') = serve-IsServed st c v life.0 in
      (served, mint_all-AllServe (mint_one ops p name st c).entry rest v' life.1)

module _ {F : Type 0} (ops : Floats F) (cfg : Config F) where
  -- `Sweep` drops exactly the entries whose profile is gone, and those whose last mint is
  -- `IdleTTL` ago and that have no token that can be served: every other entry stays as it is,
  -- and the count is that of the entries dropped.
  pub sweep-lookup :
      (now : ℕ) (key : String) (entries : List (String × MintState))
      → Unique entries
      → (lookup key (sweep ops cfg now entries).0 ≡ (elim (lookup key entries) [
        | none ↦ none
        | some st ↦ if is_dropped ops cfg now st then none else some st
      ]))
        × (length (sweep ops cfg now entries).0 + (sweep ops cfg now entries).1 ≡ length entries)
  unfolding sweep lookup
  sweep-lookup now key [] u = (refl, omega arith)
  sweep-lookup now key ((k, st) ∷ rest) u =
      let (same, count) = sweep-lookup now key rest u.1 in
      elim (Bool-cases (is_dropped ops cfg now st)) [
        | inl gone ↦ elim (Bool-cases (k == key)) [
          | inl hit ↦
              let none_left : lookup key rest ≡ none = rw (← (eq_iff k key).0 hit) u.0 in
              (ground (arith, same, none_left), ground arith)
          | inr miss ↦ (ground (arith, same), ground arith)
        ]
        | inr kept ↦ (ground (arith, same), ground arith)
      ]

  -- An entry whose grants were all held back, so that it was never minted, is kept by every
  -- `Sweep`, however long ago its last call was, as long as its profile is there.
  pub sweep-never_minted :
      (now : ℕ) (key : String) (entries : List (String × MintState)) (st : MintState)
      (p : Profile F)
      → Unique entries
      → lookup key entries ≡ some st
      → lookup st.profile_name cfg.profiles ≡ some p
      → st.last_mint_at ≡ none
      → lookup key (sweep ops cfg now entries).0 ≡ some st
  unfolding is_dropped
  sweep-never_minted now key entries st p u found known never =
      let same = (sweep-lookup now key entries u).0 in ground (arith, same)
