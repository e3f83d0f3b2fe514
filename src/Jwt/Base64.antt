-- ===== src/Jwt/Base64.antt =====
-- `base64URLDecode` of jwtx/verify.go and the part of encoding/base64 that jwtx uses: the URL
-- alphabet, without padding for `EncodeToString` and with padding for `DecodeString`. Texts are
-- lists of bytes.
pub mod Roundtrip
use csar_core.Prelude.{
  ℕ, ◌+◌, ◌-◌, ◌*◌, ◌/◌, ◌%◌, ◌<◌, Bool, true, false, ◌&&◌, ◌||◌, Option, none, some, map_option,
  List, [], ◌∷◌, ◌++◌, ltb, leb, if◌then◌else◌, string_eq, ◌==◌, nat_eq, length, All,
}

abbrev pub pad_char : ℕ
pad_char = 61

unfoldable pub char_of : ℕ → ℕ
char_of s =
    if ltb s 26
    then 65 + s
    else if ltb s 52
    then 71 + s
    else if ltb s 62
    then s - 4
    else if s == 62
    then 45
    else 95

unfoldable pub sextet_of : ℕ → Option ℕ
sextet_of c =
    if leb 65 c && leb c 90
    then some (c - 65)
    else if leb 97 c && leb c 122
    then some (c - 71)
    else if leb 48 c && leb c 57
    then some (c + 4)
    else if c == 45
    then some 62
    else if c == 95
    then some 63
    else none

-- `RawURLEncoding.EncodeToString`.
unfoldable pub encode : List ℕ → List ℕ
encode [] = []
encode (a ∷ []) = char_of (a / 4) ∷ char_of (a % 4 * 16) ∷ []
encode (a ∷ b ∷ []) = char_of (a / 4) ∷ char_of (a % 4 * 16 + b / 16) ∷ char_of (b % 16 * 4) ∷ []
encode (a ∷ b ∷ c ∷ rest) =
    char_of (a / 4)
    ∷ char_of (a % 4 * 16 + b / 16)
    ∷ char_of (b % 16 * 4 + c / 64)
    ∷ char_of (c % 64)
    ∷ encode rest

-- A group of four characters, the last one or two of which may be padding; then nothing follows.
unfoldable pub decode_group : ℕ → ℕ → ℕ → ℕ → Bool → Option (List ℕ)
decode_group p q r s is_last = elim (sextet_of p) [
  | none ↦ none
  | some a ↦ elim (sextet_of q) [
    | none ↦ none
    | some b ↦ elim (sextet_of r) [
      | none ↦
          if is_last && (r == pad_char) && (s == pad_char)
          then some ((a * 4 + b / 16) ∷ [])
          else none
      | some c ↦ elim (sextet_of s) [
        | none ↦
            if is_last && (s == pad_char)
            then some ((a * 4 + b / 16) ∷ (b % 16 * 16 + c / 4) ∷ [])
            else none
        | some d ↦ some ((a * 4 + b / 16) ∷ (b % 16 * 16 + c / 4) ∷ (c % 4 * 64 + d) ∷ [])
      ]
    ]
  ]
]

unfoldable pub is_nil : List ℕ → Bool
is_nil [] = true
is_nil (c ∷ rest) = false

unfoldable pub decode_groups : List ℕ → Option (List ℕ)
decode_groups [] = some []
decode_groups (p ∷ q ∷ r ∷ s ∷ rest) =
    let later = decode_groups rest in
    elim (decode_group p q r s (is_nil rest)) [
      | none ↦ none
      | some first ↦ map_option (λ bytes. first ++ bytes) later
    ]
decode_groups _ = none

-- Line breaks are passed over.
unfoldable pub drop_breaks : List ℕ → List ℕ
drop_breaks [] = []
drop_breaks (c ∷ rest) =
    let later = drop_breaks rest in if (c == 13) || (c == 10) then later else c ∷ later

-- `URLEncoding.DecodeString`.
unfoldable pub decode : List ℕ → Option (List ℕ)
decode s = decode_groups (drop_breaks s)

unfoldable pub pad : List ℕ → List ℕ
pad s =
    let over = length s % 4 in
    if over == 2 then s ++ pad_char ∷ pad_char ∷ [] else if over == 3 then s ++ pad_char ∷ [] else s

-- `base64URLDecode`, which is tolerant of missing padding.
unfoldable pub base64url_decode : List ℕ → Option (List ℕ)
base64url_decode s = decode (pad s)

abbrev pub IsBytes : List ℕ → Type 0
IsBytes bytes = All (λ b. b < 256) bytes
