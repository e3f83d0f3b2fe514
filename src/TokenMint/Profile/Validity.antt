-- ===== src/TokenMint/Profile/Validity.antt =====
-- What a configuration that `Validate` accepts guarantees.
use csar_core.Prelude.{
  ℕ, zero, suc, ◌≤◌, ◌<◌, String, ◌≡◌, refl, ap, ◌≢◌, ◌↔◌, ◌⊎◌, inl, inr, true, some, List, [], ◌∷◌,
  arith, eq_iff, string_eq, ◌==◌, nat_eq, Bool-cases, Option-cases, length, get_elem?, All,
  Result-cases, ok,
}
use csar_core.TokenMint.Types.{Floats, Url, Texts, Profile, Config}
use csar_core.TokenMint.Profile.{
  with_defaults, default_all, apply_defaults, has_host, host_set, host_allowed, validate_url,
  validate_numbers, validate_profile, validate_profiles, validate,
}

module _ {F : Type 0} (ops : Floats F) (texts : Texts) where
  -- The token URL has a host from the closed list, and is https unless private addresses are
  -- admitted.
  abbrev pub GoesToAllowed : Config F → Profile F → Type 0
  GoesToAllowed c p =
      (u : Url) × (texts.parse_url p.token_url ≡ some u)
      × (u.host ≢ "")
      × ((u.scheme ≡ "https") ⊎ (c.allow_private ≡ true))
      × (host_allowed ops texts c u.hostname ≡ true)

  pub record IsSafe (c : Config F) (entry : String × Profile F) : Type 0 where
    pub named : texts.trim_space entry.0 ≢ ""
    pub allowed : GoesToAllowed c entry.1
    pub style : (entry.1.body_style ≡ "json") ⊎ (entry.1.body_style ≡ "form")
    pub haircut : ops.at_most_one entry.1.expires_in_haircut ≡ true
    pub timed : 0 < entry.1.timeout
    pub capped : 0 < entry.1.max_response_bytes
    pub scoped : 1 ≤ entry.1.secret_ref_scope_segments
    pub margin : entry.1.refresh_margin < entry.1.default_expires_in

  -- What the defaults alone give.
  pub record IsPaced (entry : String × Profile F) : Type 0 where
    pub spaced : 0 < entry.1.min_refresh_interval
    pub base : 0 < entry.1.error_backoff_base
    pub max : 0 < entry.1.error_backoff_max
    pub auth : 0 < entry.1.auth_error_backoff
    pub idle : 0 < entry.1.idle_ttl

  url-GoesToAllowed :
      (c : Config F) (p : Profile F) → validate_url ops texts c p ≡ ok tt → GoesToAllowed c p
  unfolding validate_url
  url-GoesToAllowed c p h = elim (Option-cases (texts.parse_url p.token_url)) [
    | inl e ↦ absurd (ground arith)
    | inr (u, e) ↦ (
      u,
      e,
      ground (arith, eq_iff u.host ""),
      (elim (Bool-cases (u.scheme == "https")) [
        | inl s ↦ inl ((eq_iff u.scheme "https").0 s)
        | inr s ↦ inr (ground arith)
      ]),
      ground arith,
    )
  ]

  validate_profile-IsSafe :
      (c : Config F) (name : String) (p : Profile F)
      → validate_profile ops texts c name p ≡ ok tt
      → IsSafe c (name, p)
  unfolding validate_profile validate_numbers
  validate_profile-IsSafe c name p h = elim (Result-cases (validate_url ops texts c p)) [
    | inr (x, e) ↦ absurd (ground arith)
    | inl (_, e) ↦ record {
      named = ground (arith, eq_iff (texts.trim_space name) "");
      allowed = url-GoesToAllowed c p e;
      style = ground (arith, eq_iff p.body_style "json", eq_iff p.body_style "form");
      haircut = ground arith;
      timed = ground arith;
      capped = ground arith;
      scoped = ground arith;
      margin = ground arith;
    }
  ]

  validate_profiles-All :
      (c : Config F) (ps : List (String × Profile F))
      → validate_profiles ops texts c ps ≡ ok tt
      → All (IsSafe c) ps
  unfolding validate_profiles
  validate_profiles-All c [] h = tt
  validate_profiles-All c ((name, p) ∷ rest) h =
      elim (Result-cases (validate_profile ops texts c name p)) [
        | inr (x, e) ↦ absurd (ground arith)
        | inl (_, e) ↦
            (validate_profile-IsSafe c name p e, validate_profiles-All c rest (ground arith))
      ]

  default_all-All : (ps : List (String × Profile F)) → All IsPaced (default_all ops ps)
  unfolding default_all with_defaults
  default_all-All [] = tt
  default_all-All ((name, p) ∷ rest) = (
    record {
      spaced = ground arith;
      base = ground arith;
      max = ground arith;
      auth = ground arith;
      idle = ground arith;
    },
    default_all-All rest,
  )

  length-default_all : (ps : List (String × Profile F)) → length (default_all ops ps) ≡ length ps
  unfolding default_all
  length-default_all [] = refl
  length-default_all ((name, p) ∷ rest) = ap suc (length-default_all rest)

  -- In a configuration that `Validate` accepts every profile has a name, sends the credential
  -- only to a host of the closed list, over https unless private addresses are admitted, has a
  -- known body style, a haircut of at most 1, a positive timeout, response cap and scope, a
  -- margin below the default life, and positive intervals; the closed list and the switch for
  -- private addresses are the operator's.
  pub validate-IsSafe :
      (c e : Config F)
      → validate ops texts c ≡ ok e
      → All (IsSafe e) e.profiles
        × All IsPaced e.profiles
        × (length e.profiles ≡ length c.profiles)
        × (e.allowed_hosts ≡ c.allowed_hosts)
        × (e.allow_private ≡ c.allow_private)
        × (e.allowed_set ≡ host_set ops texts c.allowed_hosts)
  unfolding validate apply_defaults
  validate-IsSafe c e h =
      let d : Config F = record c {
        profiles = default_all ops c.profiles;
        allowed_set = host_set ops texts c.allowed_hosts;
      } in
      elim (Result-cases (validate_profiles ops texts d d.profiles)) [
        | inr (x, q) ↦ absurd (ground arith)
        | inl (_, q) ↦
            let same : d ≡ e = ground arith in
            rw (← same) (
              validate_profiles-All d d.profiles q,
              default_all-All c.profiles,
              length-default_all c.profiles,
              refl,
              refl,
              refl,
            )
      ]

  abbrev Listed : String → List String → Type 0
  Listed x hosts =
      (i : ℕ) × (h : String) × (get_elem? hosts i ≡ some h)
      × (texts.to_lower (texts.trim_space h) ≡ x)

  cons-Listed : (x h : String) (hosts : List String) → Listed x hosts → Listed x (h ∷ hosts)
  cons-Listed x h hosts (i, g, at, e) = (suc i, g, at, e)

  has_host-Listed :
      (x : String) (hosts : List String)
      → has_host ops x (host_set ops texts hosts) ≡ true
      → (x ≢ "") × Listed x hosts
  unfolding has_host host_set
  has_host-Listed x [] h = absurd (cc)
  has_host-Listed x (g ∷ hosts) h =
      let key = texts.to_lower (texts.trim_space g) in
      elim (Bool-cases (key == "")) [
        | inl blank ↦
            let later = has_host-Listed x hosts (ground arith) in
            (later.0, cons-Listed x g hosts later.1)
        | inr name ↦ elim (Bool-cases (key == x)) [
          | inl here ↦ (
            ground (arith, eq_iff key x, eq_iff key "", eq_iff x ""),
            (zero, g, refl, (eq_iff key x).0 here),
          )
          | inr there ↦
              let later = has_host-Listed x hosts (ground arith) in
              (later.0, cons-Listed x g hosts later.1)
        ]
      ]

  listed-has_host :
      (x : String) (hosts : List String) (i : ℕ) (h : String)
      → x ≢ ""
      → get_elem? hosts i ≡ some h
      → texts.to_lower (texts.trim_space h) ≡ x
      → has_host ops x (host_set ops texts hosts) ≡ true
  unfolding has_host host_set
  listed-has_host x [] i h ne at e = absurd (cc)
  listed-has_host x (g ∷ hosts) zero h ne at e =
      let key = texts.to_lower (texts.trim_space g) in
      let same : key ≡ x = ground (arith, e) in ground (arith, eq_iff key "", eq_iff key x, same)
  listed-has_host x (g ∷ hosts) (suc i) h ne at e =
      let key = texts.to_lower (texts.trim_space g) in
      ground (arith, listed-has_host x hosts i h ne at e)

  -- Behind a `Validate` that succeeds `HostAllowed` holds of exactly the hosts that equal an
  -- entry of the operator's list, both without outer spaces and in lower case, and are not
  -- blank: a blank entry allows nothing.
  pub host_allowed-closed :
      (c e : Config F) (host : String)
      → validate ops texts c ≡ ok e
      → (host_allowed ops texts e host ≡ true) ↔ (
          (texts.to_lower (texts.trim_space host) ≢ "")
          × (i : ℕ) × (h : String) × (get_elem? c.allowed_hosts i ≡ some h)
          × (texts.to_lower (texts.trim_space h) ≡ texts.to_lower (texts.trim_space host)))
  unfolding host_allowed
  host_allowed-closed c e host v =
      let set_is = (validate-IsSafe c e v).5 in
      let x = texts.to_lower (texts.trim_space host) in
      rw set_is (
        λ h. let l = has_host-Listed x c.allowed_hosts h in (l.0, l.1.0, l.1.1, l.1.2, l.1.3),
        λ (ne, i, h, at, q). listed-has_host x c.allowed_hosts i h ne at q,
      )
