-- ===== src/Codec/Utf8.antt =====
-- UTF-8: `Buffer.from(s, 'utf8')`, `Buffer.byteLength(s, 'utf8')` and the test for unpaired
-- surrogates, over UTF-16 code units.
use nebula_token.Common.{
  ℕ, ◌+◌, ◌-◌, ◌*◌, ◌/◌, ◌%◌, ◌<◌, ◌≡◌, refl, Bool, true, false, ◌&&◌, ◌||◌, not, List, [], ◌∷◌,
  ◌++◌, arith, ltb, leb, if◌then◌else◌, length, length-append, All, Text, Bool-cases, inl, inr,
}

unfoldable pub is_high : ℕ → Bool
is_high c = leb 0xd800 c && leb c 0xdbff

unfoldable pub is_low : ℕ → Bool
is_low c = leb 0xdc00 c && leb c 0xdfff

-- The bytes of one code point.
unfoldable pub encode_point : ℕ → List ℕ
encode_point p =
    if ltb p 0x80
    then p ∷ []
    else if ltb p 0x800
    then (0xc0 + p / 64) ∷ (0x80 + p % 64) ∷ []
    else if ltb p 0x10000
    then (0xe0 + p / 4096) ∷ (0x80 + p / 64 % 64) ∷ (0x80 + p % 64) ∷ []
    else (0xf0 + p / 262144) ∷ (0x80 + p / 4096 % 64) ∷ (0x80 + p / 64 % 64) ∷ (0x80 + p % 64) ∷ []

unfoldable pub pair_point : ℕ → ℕ → ℕ
pair_point h l = 0x10000 + (h - 0xd800) * 1024 + (l - 0xdc00)

-- An unpaired surrogate is replaced by U+FFFD.
unfoldable pub unit_point : ℕ → ℕ
unit_point c = if is_high c then 0xfffd else if is_low c then 0xfffd else c

-- `Buffer.from(s, 'utf8')`
unfoldable pub utf8 : Text → List ℕ
utf8 [] = []
utf8 (c ∷ []) = encode_point (unit_point c)
utf8 (c ∷ d ∷ rest) =
    let paired = encode_point (pair_point c d) ++ utf8 rest in
    let single = encode_point (unit_point c) ++ utf8 (d ∷ rest) in
    if is_high c && is_low d then paired else single

-- `Buffer.byteLength(s, 'utf8')`, which builds no buffer.
unfoldable pub unit_length : ℕ → ℕ
unit_length c = if ltb c 0x80 then 1 else if ltb c 0x800 then 2 else 3

unfoldable pub byte_length : Text → ℕ
byte_length [] = 0
byte_length (c ∷ []) = unit_length c
byte_length (c ∷ d ∷ rest) =
    let paired = 4 + byte_length rest in
    let single = unit_length c + byte_length (d ∷ rest) in
    if is_high c && is_low d then paired else single

-- `isWellFormedUnicode`: no unpaired surrogate.
unfoldable pub is_well_formed_unicode : Text → Bool
is_well_formed_unicode [] = true
is_well_formed_unicode (c ∷ []) = not (is_high c || is_low c)
is_well_formed_unicode (c ∷ d ∷ rest) =
    let paired = is_well_formed_unicode rest in
    let single = not (is_high c || is_low c) && is_well_formed_unicode (d ∷ rest) in
    if is_high c && is_low d then paired else single

-- A JavaScript string has 16-bit code units.
abbrev pub IsUnit : ℕ → Type 0
IsUnit c = c < 0x10000

length-encode_point-unit : (c : ℕ) → IsUnit c → length (encode_point (unit_point c)) ≡ unit_length c
unfolding encode_point unit_point unit_length is_high is_low
length-encode_point-unit c h = ground arith

length-encode_point-pair :
    (c d : ℕ) → (is_high c && is_low d) ≡ true → length (encode_point (pair_point c d)) ≡ 4
unfolding encode_point pair_point is_high is_low
length-encode_point-pair c d h = ground arith

-- `byteLength` is the length of the buffer, for every string.
pub length-utf8 : (s : Text) → All IsUnit s → length (utf8 s) ≡ byte_length s
unfolding utf8 byte_length
length-utf8 [] h = refl
length-utf8 (c ∷ []) (h, _) = length-encode_point-unit c h
length-utf8 (c ∷ d ∷ rest) (h, (hd, hs)) = elim (Bool-cases (is_high c && is_low d)) [
  | inl pair ↦ rw pair (
      omega (
        arith,
        length-append (encode_point (pair_point c d)) (utf8 rest),
        length-encode_point-pair c d pair,
        length-utf8 rest hs,
      ))
  | inr single ↦ rw single (
      omega (
        arith,
        length-append (encode_point (unit_point c)) (utf8 (d ∷ rest)),
        length-encode_point-unit c h,
        length-utf8 (d ∷ rest) (hd, hs),
      ))
]

abbrev pub IsAscii : ℕ → Type 0
IsAscii c = c < 0x80

not_high : (c : ℕ) → IsAscii c → is_high c ≡ false
unfolding is_high
not_high c h = ground arith

not_low : (c : ℕ) → IsAscii c → is_low c ≡ false
unfolding is_low
not_low c h = ground arith

unit_length_ascii : (c : ℕ) → IsAscii c → unit_length c ≡ 1
unfolding unit_length
unit_length_ascii c h = ground arith

-- Text in the ASCII range has as many bytes as characters.
pub byte_length_ascii : (s : Text) → All IsAscii s → byte_length s ≡ length s
unfolding byte_length
byte_length_ascii [] h = refl
byte_length_ascii (c ∷ []) (h, _) = unit_length_ascii c h
byte_length_ascii (c ∷ d ∷ rest) (h, hs) =
    rw (not_high c h) (omega (arith, unit_length_ascii c h, byte_length_ascii (d ∷ rest) hs))

-- Text in the ASCII range has no surrogate at all.
pub is_well_formed_unicode_ascii : (s : Text) → All IsAscii s → is_well_formed_unicode s ≡ true
unfolding is_well_formed_unicode
is_well_formed_unicode_ascii [] h = refl
is_well_formed_unicode_ascii (c ∷ []) (h, _) = rw (not_high c h, not_low c h)
is_well_formed_unicode_ascii (c ∷ d ∷ rest) (h, hs) =
    rw (not_high c h, not_low c h) (is_well_formed_unicode_ascii (d ∷ rest) hs)
