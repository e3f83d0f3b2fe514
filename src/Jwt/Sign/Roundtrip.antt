-- ===== src/Jwt/Sign/Roundtrip.antt =====
-- The compact form of a token, and what the claims of a configuration hold.
use csar_core.Prelude.{
  ℕ, ◌+◌, ◌/◌, ◌<◌, String, ◌≡◌, refl, ◌≢◌, false, some, List, [], ◌∷◌, ◌++◌, arith, eq_iff,
  string_eq, ◌==◌, nat_eq, length, any, All,
}
use csar_core.Jwt.Base64.{char_of, encode}
use csar_core.Jwt.Sign.{SigningConfig, texts_of, standard_claims}
use csar_core.Prelude.Dict.{lookup, insert}
use csar_core.Jwt.Verify.{second, dot, cut, split_token, some_text_is, text, number, array}
use csar_core.Prelude.Int.{pos}

abbrev NoDot : List ℕ → Type 0
NoDot s = All (λ c. (c == dot) ≡ false) s

char_of_no_dot : (s : ℕ) → (char_of s == dot) ≡ false
unfolding char_of
char_of_no_dot s = ground arith

encode-NoDot : (bytes : List ℕ) → NoDot (encode bytes)
unfolding encode
encode-NoDot [] = tt
encode-NoDot (a ∷ []) = (char_of_no_dot _, (char_of_no_dot _, tt))
encode-NoDot (a ∷ b ∷ []) = (char_of_no_dot _, (char_of_no_dot _, (char_of_no_dot _, tt)))
encode-NoDot (a ∷ b ∷ c ∷ rest) = (
  char_of_no_dot _,
  (char_of_no_dot _, (char_of_no_dot _, (char_of_no_dot _, encode-NoDot rest))),
)

cut-append : (xs ys : List ℕ) → NoDot xs → cut (xs ++ dot ∷ ys) ≡ some (xs, ys)
unfolding cut
cut-append [] ys h = refl
cut-append (x ∷ xs) ys (first, others) = ground (arith, cut-append xs ys others)

-- The compact form of RFC 7515.
abbrev pub compact : List ℕ → List ℕ → List ℕ → List ℕ
compact header payload sig = encode header ++ dot ∷ (encode payload ++ dot ∷ encode sig)

pub split_token-compact :
    (header payload sig : List ℕ)
    → split_token (compact header payload sig) ≡ some (encode header, encode payload, encode sig)
unfolding split_token
split_token-compact header payload sig =
    let first =
      cut-append (encode header) (encode payload ++ dot ∷ encode sig) (encode-NoDot header) in
    let next = cut-append (encode payload) (encode sig) (encode-NoDot payload) in
    ground (arith, first, next)

pub lookup-standard :
    (cfg : SigningConfig) (now : ℕ)
    → (lookup "nbf" (standard_claims cfg now) ≡ some (number (pos (now / second))))
      × (lookup "exp" (standard_claims cfg now) ≡ some (number (pos ((now + cfg.ttl) / second))))
unfolding standard_claims lookup insert
lookup-standard cfg now = (ground arith, ground arith)

pub lookup-issuer :
    (cfg : SigningConfig) (now : ℕ)
    → cfg.issuer ≢ ""
    → lookup "iss" (standard_claims cfg now) ≡ some (text cfg.issuer)
unfolding standard_claims lookup insert
lookup-issuer cfg now h = ground (arith, eq_iff cfg.issuer "")

pub lookup-audience :
    (cfg : SigningConfig) (now : ℕ)
    → 0 < length cfg.audience
    → lookup "aud" (standard_claims cfg now) ≡ some (array (texts_of cfg.audience))
unfolding standard_claims lookup insert
lookup-audience cfg now h = ground arith

pub some_text_is-texts_of :
    (target : String) (texts : List String)
    → some_text_is (texts_of texts) target ≡ any (λ s. s == target) texts
unfolding some_text_is any
some_text_is-texts_of target [] = refl
some_text_is-texts_of target (s ∷ rest) = ground (arith, some_text_is-texts_of target rest)
