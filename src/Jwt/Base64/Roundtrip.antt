-- ===== src/Jwt/Base64/Roundtrip.antt =====
-- The round trip of base64.
use csar_core.Prelude.{
  ℕ, ◌+◌, ◌*◌, ◌/◌, ◌%◌, ◌<◌, ◌≡◌, refl, ap, ◌∙◌, Bool, true, false, ◌||◌, none, some, map_option,
  List, [], ◌∷◌, ◌++◌, arith, string_eq, ◌==◌, nat_eq, length,
}
use csar_core.Jwt.Base64.{
  pad_char, char_of, sextet_of, encode, decode_group, is_nil, decode_groups, drop_breaks, decode,
  pad, base64url_decode, IsBytes,
}

-- The alphabet.
sextet_of-char_of : (s : ℕ) → s < 64 → sextet_of (char_of s) ≡ some s
unfolding sextet_of char_of
sextet_of-char_of s h = ground arith

char_of_plain : (s : ℕ) → s < 64 → (((char_of s == 13) || (char_of s == 10)) ≡ false)
unfolding char_of
char_of_plain s h = ground arith

sextet_of-pad : sextet_of pad_char ≡ none
unfolding sextet_of
sextet_of-pad = refl

-- The encoding with padding.
abbrev padded : List ℕ → List ℕ
padded [] = []
padded (a ∷ []) = char_of (a / 4) ∷ char_of (a % 4 * 16) ∷ pad_char ∷ pad_char ∷ []
padded (a ∷ b ∷ []) =
    char_of (a / 4) ∷ char_of (a % 4 * 16 + b / 16) ∷ char_of (b % 16 * 4) ∷ pad_char ∷ []
padded (a ∷ b ∷ c ∷ rest) =
    char_of (a / 4)
    ∷ char_of (a % 4 * 16 + b / 16)
    ∷ char_of (b % 16 * 4 + c / 64)
    ∷ char_of (c % 64)
    ∷ padded rest

pad-group : (p q r s : ℕ) (rest : List ℕ) → pad (p ∷ q ∷ r ∷ s ∷ rest) ≡ p ∷ q ∷ r ∷ s ∷ pad rest
unfolding pad
pad-group p q r s rest =
    let same : length (p ∷ q ∷ r ∷ s ∷ rest) % 4 ≡ length rest % 4 = omega arith in ground arith

pad-encode : (bytes : List ℕ) → pad (encode bytes) ≡ padded bytes
unfolding encode pad
pad-encode [] = refl
pad-encode (a ∷ []) = refl
pad-encode (a ∷ b ∷ []) = refl
pad-encode (a ∷ b ∷ c ∷ rest) =
    pad-group _ _ _ _ (encode rest)
    ∙ ap
        (λ t.
          char_of (a / 4)
          ∷ char_of (a % 4 * 16 + b / 16)
          ∷ char_of (b % 16 * 4 + c / 64)
          ∷ char_of (c % 64)
          ∷ t)
        (pad-encode rest)

drop_breaks-char_of :
    (s : ℕ) (rest : List ℕ) → s < 64 → drop_breaks (char_of s ∷ rest) ≡ char_of s ∷ drop_breaks rest
unfolding drop_breaks
drop_breaks-char_of s rest h = ground (arith, char_of_plain s h)

decode_group-full :
    (p q r s a b c d : ℕ) (l : Bool)
    → sextet_of p ≡ some a
    → sextet_of q ≡ some b
    → sextet_of r ≡ some c
    → sextet_of s ≡ some d
    → decode_group p q r s l
      ≡ some ((a * 4 + b / 16) ∷ (b % 16 * 16 + c / 4) ∷ (c % 4 * 64 + d) ∷ [])
unfolding decode_group
decode_group-full p q r s a b c d l hp hq hr hs = ground arith

decode_group-two :
    (p q r a b c : ℕ)
    → sextet_of p ≡ some a
    → sextet_of q ≡ some b
    → sextet_of r ≡ some c
    → decode_group p q r pad_char true ≡ some ((a * 4 + b / 16) ∷ (b % 16 * 16 + c / 4) ∷ [])
unfolding decode_group
decode_group-two p q r a b c hp hq hr = ground (arith, sextet_of-pad)

decode_group-one :
    (p q a b : ℕ)
    → sextet_of p ≡ some a
    → sextet_of q ≡ some b
    → decode_group p q pad_char pad_char true ≡ some ((a * 4 + b / 16) ∷ [])
unfolding decode_group
decode_group-one p q a b hp hq = ground (arith, sextet_of-pad)

-- The three bytes of a group, from its sextets.
bytes_of_sextets :
    (a b c : ℕ)
    → a < 256
    → b < 256
    → c < 256
    → (a / 4 * 4 + (a % 4 * 16 + b / 16) / 16 ≡ a)
      × ((a % 4 * 16 + b / 16) % 16 * 16 + (b % 16 * 4 + c / 64) / 4 ≡ b)
      × ((b % 16 * 4 + c / 64) % 4 * 64 + c % 64 ≡ c)
bytes_of_sextets a b c ha hb hc = (omega arith, omega arith, omega arith)

decode_groups-group :
    (p q r s : ℕ) (rest first : List ℕ)
    → decode_group p q r s (is_nil rest) ≡ some first
    → decode_groups (p ∷ q ∷ r ∷ s ∷ rest)
      ≡ map_option (λ bytes. first ++ bytes) (decode_groups rest)
unfolding decode_groups
decode_groups-group p q r s rest first h = ground arith

decode_groups-full :
    (a b c : ℕ) (rest : List ℕ)
    → a < 256
    → b < 256
    → c < 256
    → decode_groups (
        char_of (a / 4)
        ∷ char_of (a % 4 * 16 + b / 16)
        ∷ char_of (b % 16 * 4 + c / 64)
        ∷ char_of (c % 64)
        ∷ rest)
      ≡ map_option (λ bytes. a ∷ b ∷ c ∷ bytes) (decode_groups rest)
decode_groups-full a b c rest ha hb hc =
    let (ea, eb, ec) = bytes_of_sextets a b c ha hb hc in
    let group =
      decode_group-full _ _ _ _ (a / 4) (a % 4 * 16 + b / 16) (b % 16 * 4 + c / 64) (c % 64)
        (is_nil rest) (sextet_of-char_of (a / 4) (omega arith))
        (sextet_of-char_of (a % 4 * 16 + b / 16) (omega arith))
        (sextet_of-char_of (b % 16 * 4 + c / 64) (omega arith))
        (sextet_of-char_of (c % 64) (omega arith)) in
    decode_groups-group _ _ _ _ rest (a ∷ b ∷ c ∷ []) (cc (group, ea, eb, ec))

decode_groups-padded : (bytes : List ℕ) → IsBytes bytes → decode_groups (padded bytes) ≡ some bytes
unfolding decode_groups is_nil
decode_groups-padded [] h = refl
decode_groups-padded (a ∷ []) (ha, _) =
    let (ea, _, _) = bytes_of_sextets a 0 0 ha (omega arith) (omega arith) in
    let group =
      decode_group-one _ _ (a / 4) (a % 4 * 16) (sextet_of-char_of (a / 4) (omega arith))
        (sextet_of-char_of (a % 4 * 16) (omega arith)) in
    let same : a / 4 * 4 + a % 4 * 16 / 16 ≡ a = omega arith in
    decode_groups-group _ _ _ _ [] (a ∷ []) (cc (group, same))
decode_groups-padded (a ∷ b ∷ []) (ha, (hb, _)) =
    let (ea, _, _) = bytes_of_sextets a b 0 ha hb (omega arith) in
    let group =
      decode_group-two _ _ _ (a / 4) (a % 4 * 16 + b / 16) (b % 16 * 4)
        (sextet_of-char_of (a / 4) (omega arith))
        (sextet_of-char_of (a % 4 * 16 + b / 16) (omega arith))
        (sextet_of-char_of (b % 16 * 4) (omega arith)) in
    let same : (a % 4 * 16 + b / 16) % 16 * 16 + b % 16 * 4 / 4 ≡ b = omega arith in
    decode_groups-group _ _ _ _ [] (a ∷ b ∷ []) (cc (group, ea, same))
decode_groups-padded (a ∷ b ∷ c ∷ rest) (ha, (hb, (hc, h))) =
    decode_groups-full a b c (padded rest) ha hb hc
    ∙ ap (map_option (λ bytes. a ∷ b ∷ c ∷ bytes)) (decode_groups-padded rest h)

drop_breaks-padded : (bytes : List ℕ) → IsBytes bytes → drop_breaks (padded bytes) ≡ padded bytes
unfolding drop_breaks
drop_breaks-padded [] h = refl
drop_breaks-padded (a ∷ []) (ha, _) =
    ground (arith, char_of_plain (a / 4) (omega arith), char_of_plain (a % 4 * 16) (omega arith))
drop_breaks-padded (a ∷ b ∷ []) (ha, (hb, _)) = ground (
  arith,
  char_of_plain (a / 4) (omega arith),
  char_of_plain (a % 4 * 16 + b / 16) (omega arith),
  char_of_plain (b % 16 * 4) (omega arith),
)
drop_breaks-padded (a ∷ b ∷ c ∷ rest) (ha, (hb, (hc, h))) = ground (
  arith,
  char_of_plain (a / 4) (omega arith),
  char_of_plain (a % 4 * 16 + b / 16) (omega arith),
  char_of_plain (b % 16 * 4 + c / 64) (omega arith),
  char_of_plain (c % 64) (omega arith),
  drop_breaks-padded rest h,
)

-- What is encoded without padding is decoded to the same bytes.
pub base64url_decode-encode :
    (bytes : List ℕ) → IsBytes bytes → base64url_decode (encode bytes) ≡ some bytes
unfolding base64url_decode decode
base64url_decode-encode bytes h =
    rw (pad-encode bytes, drop_breaks-padded bytes h) (decode_groups-padded bytes h)
