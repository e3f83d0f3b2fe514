-- ===== src/AuthnConfig/Sources.antt =====
-- The known sources of a claim and the order of the times of a profile, in words.
use csar_core.Prelude.{
  ℕ, zero, suc, ◌≤◌, ◌<◌, String, ◌≡◌, refl, ◌≢◌, ◌↔◌, ◌⊎◌, inl, inr, true, false, List, [], ◌∷◌,
  arith, eq_iff, string_eq, ◌==◌, nat_eq, Bool-cases, OneOf,
}
use csar_core.Prelude.Int.{ℤ, pos, negsuc}
use csar_core.AuthnConfig.{is_positive, is_negative, exceeds, is_known_source}

-- The path of a source is one of the list, or one of an OAuth provider that is named.
abbrev pub KnownSource : List String → Type 0
KnownSource path =
    OneOf path (
      ("user" ∷ "id" ∷ [])
      ∷ ("user" ∷ "email" ∷ [])
      ∷ ("user" ∷ "phone" ∷ [])
      ∷ ("user" ∷ "display_name" ∷ [])
      ∷ ("session" ∷ "id" ∷ [])
      ∷ [])
    ⊎ ((provider : String) × (provider ≢ "")
        × OneOf path (
            ("oauth" ∷ provider ∷ "provider_user_id" ∷ [])
            ∷ ("oauth" ∷ provider ∷ "email" ∷ [])
            ∷ []))
    ⊎ ((provider : String) × (key : String) × (provider ≢ "")
        × (key ≢ "")
        × (path ≡ "oauth" ∷ provider ∷ "metadata" ∷ key ∷ []))

pub KnownSource-is_known : (path : List String) → KnownSource path → is_known_source path ≡ true
unfolding is_known_source
KnownSource-is_known path (inl (inl e)) = rw e refl
KnownSource-is_known path (inl (inr (inl e))) = rw e refl
KnownSource-is_known path (inl (inr (inr (inl e)))) = rw e refl
KnownSource-is_known path (inl (inr (inr (inr (inl e))))) = rw e refl
KnownSource-is_known path (inl (inr (inr (inr (inr (inl e)))))) = rw e refl
KnownSource-is_known path (inl (inr (inr (inr (inr (inr e)))))) = absurd e
KnownSource-is_known path (inr (inl (p, named, inl e))) = rw e (ground (arith, eq_iff p ""))
KnownSource-is_known path (inr (inl (p, named, inr (inl e)))) = rw e (ground (arith, eq_iff p ""))
KnownSource-is_known path (inr (inl (p, named, inr (inr e)))) = absurd e
KnownSource-is_known path (inr (inr (p, k, named, keyed, e))) =
    rw e (ground (arith, eq_iff p "", eq_iff k ""))

two_parts : (a b : String) → is_known_source (a ∷ b ∷ []) ≡ true → KnownSource (a ∷ b ∷ [])
unfolding is_known_source
two_parts a b h = elim (Bool-cases (a == "user")) [
  | inl user ↦
      let u : a ≡ "user" = (eq_iff a "user").0 user in
      let words : (b ≡ "id") ⊎ (b ≡ "email") ⊎ (b ≡ "phone") ⊎ (b ≡ "display_name") =
        ground
          (arith, eq_iff b "id", eq_iff b "email", eq_iff b "phone", eq_iff b "display_name") in
      inl (elim words [
        | inl e ↦ inl (cc)
        | inr (inl e) ↦ inr (inl (cc))
        | inr (inr (inl e)) ↦ inr (inr (inl (cc)))
        | inr (inr (inr e)) ↦ inr (inr (inr (inl (cc))))
      ])
  | inr other ↦
      let s : a ≡ "session" = ground (arith, eq_iff a "session") in
      let i : b ≡ "id" = ground (arith, eq_iff b "id") in inl (inr (inr (inr (inr (inl (cc))))))
]

three_parts :
    (a b c : String) → is_known_source (a ∷ b ∷ c ∷ []) ≡ true → KnownSource (a ∷ b ∷ c ∷ [])
unfolding is_known_source
three_parts a b c h =
    let o : a ≡ "oauth" = ground (arith, eq_iff a "oauth") in
    let named : b ≢ "" = ground (arith, eq_iff b "") in
    let words : (c ≡ "provider_user_id") ⊎ (c ≡ "email") =
      ground (arith, eq_iff c "provider_user_id", eq_iff c "email") in
    inr (inl (b, named, (elim words [ inl e ↦ inl (cc) | inr e ↦ inr (inl (cc)) ])))

four_parts :
    (a b c d : String)
    → is_known_source (a ∷ b ∷ c ∷ d ∷ []) ≡ true
    → KnownSource (a ∷ b ∷ c ∷ d ∷ [])
unfolding is_known_source
four_parts a b c d h =
    let o : a ≡ "oauth" = ground (arith, eq_iff a "oauth") in
    let m : c ≡ "metadata" = ground (arith, eq_iff c "metadata") in
    inr (inr (b, d, ground (arith, eq_iff b ""), ground (arith, eq_iff d ""), cc))

pub is_known-KnownSource : (path : List String) → is_known_source path ≡ true → KnownSource path
unfolding is_known_source
is_known-KnownSource [] h = absurd (cc)
is_known-KnownSource (a ∷ []) h = absurd (cc)
is_known-KnownSource (a ∷ b ∷ []) h = two_parts a b h
is_known-KnownSource (a ∷ b ∷ c ∷ []) h = three_parts a b c h
is_known-KnownSource (a ∷ b ∷ c ∷ d ∷ []) h = four_parts a b c d h
is_known-KnownSource (a ∷ b ∷ c ∷ d ∷ e ∷ rest) h = absurd (cc)

-- The life is positive and within the maximum, the leeway is not negative.
abbrev pub GoodTimes : ℤ → ℤ → ℤ → Type 0
GoodTimes ttl max_ttl leeway =
    (t m l : ℕ) × (ttl ≡ pos t) × (max_ttl ≡ pos m) × (leeway ≡ pos l) × (0 < t) × (t ≤ m)

pub times-GoodTimes :
    (ttl max_ttl leeway : ℤ)
    → ((is_positive ttl ≡ true)
        × (is_positive max_ttl ≡ true)
        × (exceeds ttl max_ttl ≡ false)
        × (is_negative leeway ≡ false))
      ↔ GoodTimes ttl max_ttl leeway
times-GoodTimes ttl max_ttl leeway =
    (λ h. forth ttl max_ttl leeway h, λ w. back ttl max_ttl leeway w)
  where
    forth :
        (t m l : ℤ)
        → ((is_positive t ≡ true)
            × (is_positive m ≡ true)
            × (exceeds t m ≡ false)
            × (is_negative l ≡ false))
        → GoodTimes t m l
    forth (pos (suc t)) (pos (suc m)) (pos l) h =
        (suc t, suc m, l, refl, refl, refl, omega arith, ground arith)
    forth (pos zero) m l h = absurd (cc)
    forth (negsuc t) m l h = absurd (cc)
    forth (pos (suc t)) (pos zero) l h = absurd (cc)
    forth (pos (suc t)) (negsuc m) l h = absurd (cc)
    forth (pos (suc t)) (pos (suc m)) (negsuc l) h = absurd (cc)

    back :
        (t m l : ℤ)
        → GoodTimes t m l
        → ((is_positive t ≡ true)
            × (is_positive m ≡ true)
            × (exceeds t m ≡ false)
            × (is_negative l ≡ false))
    back t m l (zero, b, c, e, f, g, low, high) = absurd (omega (arith, low))
    back t m l (suc a, zero, c, e, f, g, low, high) = absurd (omega (arith, high))
    back t m l (suc a, suc b, c, e, f, g, low, high) = rw (e, f, g) (refl, refl, ground arith, refl)
