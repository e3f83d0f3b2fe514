-- ===== src/TokenMint/Minter.antt =====
-- tokenmint/minter.go. A zero `time.Time` is `none`. The clock, the rate limiter's answer, the
-- jitter, the outcome of `doGrant` and the time that it takes are arguments of a call;
-- `singleflight` lets one call of a credential run at a time, so a call is one step, except for a
-- `Sweep` that runs during its grant.
pub mod Backoff
pub mod Laws
pub mod History
pub mod Sweeps
use csar_core.Prelude.{
  ℕ, zero, suc, ◌+◌, ◌-◌, ◌*◌, ◌/◌, String, Bool, true, false, not, ◌&&◌, Option, none, some, List,
  [], ◌∷◌, ltb, leb, if◌then◌else◌, string_eq, nat_eq, Result, ok, err,
}
use csar_core.Prelude.Dict.{lookup, insert}
use csar_core.TokenMint.Types.{
  Floats, Profile, Config, GrantError, GrantResponse, invalid_client, upstream, other_failure,
}

-- `Result`.
pub record Token : Type 0 where
  pub access_token : String
  pub token_type : String
  pub refresh_after : ℕ
  pub hard_expiry : ℕ

abbrev pub is_fresh : ℕ → Token → Bool
is_fresh now t = ltb now t.refresh_after

abbrev pub is_usable : ℕ → Token → Bool
is_usable now t = ltb now t.hard_expiry

-- `result` is `some` when `hasResult` is set.
pub record MintState : Type 0 where
  pub profile_name : String
  pub result : Option Token
  pub last_mint_at : Option ℕ
  pub fail_count : ℕ
  pub last_err : Option GrantError
  pub next_attempt_at : Option ℕ

pub data MintError : Type 0 where
  unknown_profile : String → MintError
  in_backoff : Option ℕ → Option GrantError → MintError
  interval_not_elapsed : ℕ → MintError
  rate_exceeded : String → MintError
  grant_failed : GrantError → MintError

unfoldable pub clamp_duration : ℕ → ℕ → ℕ → ℕ
clamp_duration d lo hi = if ltb d lo then lo else if ltb 0 hi && ltb hi d then hi else d

-- `for i := 1; i < failCount && d < max; i++ { d *= 2 }`, with `failCount - 1` rounds to go.
unfoldable pub double_until : ℕ → ℕ → ℕ → ℕ
double_until zero max d = d
double_until (suc n) max d = let rest = double_until n max (d * 2) in if ltb d max then rest else d

abbrev pub retry_after : GrantError → ℕ
retry_after (upstream status wait code) = wait
retry_after (invalid_client status code) = 0
retry_after (other_failure e) = 0

-- `jitter half` is `rand.Int64N(half + 1)`.
half_jitter : (ℕ → ℕ) → ℕ → ℕ
half_jitter jitter d = let half = d / 2 in half + jitter half

backoff_hinted : {F : Type 0} → Profile F → ℕ → ℕ → (ℕ → ℕ) → ℕ
unfolding half_jitter
backoff_hinted p hint fail_count jitter =
    let base = p.error_backoff_base in
    let max = p.error_backoff_max in
    if ltb 0 hint
    then clamp_duration hint base max
    else half_jitter jitter (clamp_duration (double_until (fail_count - 1) max base) base max)

unfoldable pub backoff_for : {F : Type 0} → Profile F → GrantError → ℕ → (ℕ → ℕ) → ℕ
unfolding backoff_hinted half_jitter
backoff_for p (invalid_client status code) fail_count jitter = p.auth_error_backoff
backoff_for p (upstream status wait code) fail_count jitter =
    backoff_hinted p wait fail_count jitter
backoff_for p (other_failure e) fail_count jitter = backoff_hinted p 0 fail_count jitter

module _ {F : Type 0} (ops : Floats F) where
  abbrev pub lifetime_of : Profile F → GrantResponse → ℕ
  lifetime_of p resp =
      let scaled = ops.times resp.expires_in p.expires_in_haircut in
      if leb scaled 0 then resp.expires_in else scaled

  unfoldable pub result_from : ℕ → Profile F → GrantResponse → Token
  result_from now p resp =
      let lifetime = lifetime_of p resp in
      let margin = if leb lifetime p.refresh_margin then lifetime / 2 else p.refresh_margin in
      let hard = now + lifetime in
      record {
        access_token = resp.access_token;
        token_type = resp.token_type;
        refresh_after = hard - margin;
        hard_expiry = hard;
      }

-- What a call returns, the entry afterwards, and whether the token endpoint was asked.
pub record Minted : Type 0 where
  pub outcome : Result MintError Token
  pub entry : MintState
  pub contacted : Bool

-- `if fallback { return cached, nil }`, else the error.
pub cached_or : ℕ → MintState → MintError → Result MintError Token
cached_or now st e = elim st.result [
  | none ↦ err e
  | some t ↦ if is_usable now t then ok t else err e
]

-- What one call of `mintOne` gets from outside; `now` is its one reading of the clock, and the grant
-- takes the time `took`.
pub record Call : Type 0 where
  pub now : ℕ
  pub took : ℕ
  pub allowed : Bool
  pub granted : Result GrantError GrantResponse
  pub jitter : ℕ → ℕ

module _ {F : Type 0} (ops : Floats F) (p : Profile F) where
  unfoldable pub gate_interval : ℕ → Option ℕ → Option MintError
  gate_interval now last = elim last [
    | none ↦ none
    | some t ↦
        if ltb now (t + p.min_refresh_interval)
        then some (interval_not_elapsed p.min_refresh_interval)
        else none
  ]

  -- The gates behind the freshness test, in the order of the switch.
  unfoldable pub gate : ℕ → MintState → Option MintError
  unfolding gate_interval
  gate now st = elim st.next_attempt_at [
    | none ↦ gate_interval now st.last_mint_at
    | some t ↦
        if ltb now t
        then some (in_backoff (some t) st.last_err)
        else gate_interval now st.last_mint_at
  ]

  -- The part behind the grant.
  unfoldable pub use_grant : ℕ → MintState → Result GrantError GrantResponse → (ℕ → ℕ) → Minted
  unfolding cached_or
  use_grant now st (err e) jitter =
      let fails = st.fail_count + 1 in
      record {
        outcome = cached_or now st (grant_failed e);
        entry = record st {
          last_mint_at = some now;
          fail_count = fails;
          last_err = some e;
          next_attempt_at = some (now + backoff_for p e fails jitter);
        };
        contacted = true;
      }
  use_grant now st (ok resp) jitter = record {
    outcome = ok (result_from ops now p resp);
    entry = record st {
      last_mint_at = some now;
      fail_count = 0;
      last_err = none;
      next_attempt_at = none;
      result = some (result_from ops now p resp);
    };
    contacted = true;
  }

module _ {F : Type 0} (ops : Floats F) (p : Profile F) (name : String) where
  -- The part behind the freshness test.
  unfoldable pub mint_stale : MintState → Call → Minted
  unfolding cached_or
  mint_stale st c = elim (gate ops p c.now st) [
    | some e ↦ record { outcome = cached_or c.now st e; entry = st; contacted = false }
    | none ↦
        if not c.allowed
        then record {
          outcome = cached_or c.now st (rate_exceeded name);
          entry = st;
          contacted = false;
        }
        else use_grant ops p c.now st c.granted c.jitter
  ]

  unfoldable pub mint_one : MintState → Call → Minted
  mint_one st c = elim st.result [
    | none ↦ mint_stale st c
    | some t ↦
        if is_fresh c.now t
        then record { outcome = ok t; entry = st; contacted = false }
        else mint_stale st c
  ]

-- The entry of a credential that has none.
abbrev pub new_state : String → MintState
new_state name = record {
  profile_name = name;
  result = none;
  last_mint_at = none;
  fail_count = 0;
  last_err = none;
  next_attempt_at = none;
}

-- `Minter`: its entries. The limiters and the HTTP clients are outside the model.
module _ {F : Type 0} (ops : Floats F) (cfg : Config F) where
  unfoldable pub state_for : List (String × MintState) → String → String → MintState
  state_for entries key name = elim (lookup key entries) [ some st ↦ st | none ↦ new_state name ]

  -- `key` is the credential's key.
  unfoldable pub mint :
      List (String × MintState)
      → String
      → String
      → Call
      → Result MintError Token × List (String × MintState)
  mint entries name key c = elim (lookup name cfg.profiles) [
    | none ↦ (err (unknown_profile name), entries)
    | some p ↦
        let m = mint_one ops p name (state_for entries key name) c in
        (m.outcome, insert key m.entry entries)
  ]

  unfoldable pub is_idle : ℕ → Profile F → MintState → Bool
  is_idle now p st = elim st.last_mint_at [
    | none ↦ false
    | some t ↦
        not (ltb now (t + p.idle_ttl))
        && (elim st.result [ none ↦ true | some token ↦ not (is_usable now token) ])
  ]

  -- Whether `Sweep` drops the entry.
  unfoldable pub is_dropped : ℕ → MintState → Bool
  unfolding is_idle
  is_dropped now st = elim (lookup st.profile_name cfg.profiles) [
    | none ↦ true
    | some p ↦ is_idle now p st
  ]

  -- The entries that `Sweep` leaves, and how many it dropped.
  unfoldable pub sweep : ℕ → List (String × MintState) → List (String × MintState) × ℕ
  sweep now [] = ([], 0)
  sweep now ((key, st) ∷ rest) =
      let (kept, dropped) = sweep now rest in
      if is_dropped now st then (kept, dropped + 1) else ((key, st) ∷ kept, dropped)
