-- ===== src/Codec/Base64Url.antt =====
-- `B64URL_CHAR`, and `Buffer.toString('base64url')` with its inverse `Buffer.from(s, 'base64url')`.
use nebula_token.Common.{
  ℕ, ◌+◌, ◌-◌, ◌*◌, ◌/◌, ◌%◌, ◌<◌, ◌≡◌, refl, ap, ap₂, inl, inr, Option-cases, Bool, true, ◌&&◌,
  ◌||◌, not, Option, none, some, List, [], ◌∷◌, arith, ltb, leb, ◌==◌, if◌then◌else◌, length, all,
  is_empty, All, Text,
}

-- One character of the class `[A-Za-z0-9_-]`.
unfoldable pub is_b64url_char : ℕ → Bool
is_b64url_char c =
    (leb b'A' c && leb c b'Z')
    || ((leb b'a' c && leb c b'z') || ((leb b'0' c && leb c b'9') || (c == b'_' || c == b'-')))

-- `B64URL_CHAR.test(s)`: one or more characters of the class, and nothing else.
unfoldable pub b64url_test : Text → Bool
unfolding is_b64url_char
b64url_test s = not (is_empty s) && all is_b64url_char s

abbrev pub IsByte : ℕ → Type 0
IsByte b = b < 256

sextet_char : ℕ → ℕ
sextet_char n =
    if ltb n 26
    then 65 + n
    else if ltb n 52
    then 71 + n
    else if ltb n 62
    then n - 4
    else if n == 62
    then b'-'
    else b'_'

char_sextet : ℕ → Option ℕ
char_sextet c =
    if leb b'A' c && leb c b'Z'
    then some (c - 65)
    else if leb b'a' c && leb c b'z'
    then some (c - 71)
    else if leb b'0' c && leb c b'9'
    then some (c + 4)
    else if c == b'-'
    then some 62
    else if c == b'_'
    then some 63
    else none

-- Three bytes give four characters; one or two bytes at the end give two or three, unpadded.
unfoldable pub encode : List ℕ → Text
unfolding sextet_char
encode [] = []
encode (a ∷ []) = sextet_char (a / 4) ∷ sextet_char (a % 4 * 16) ∷ []
encode (a ∷ b ∷ []) =
    sextet_char (a / 4) ∷ sextet_char (a % 4 * 16 + b / 16) ∷ sextet_char (b % 16 * 4) ∷ []
encode (a ∷ b ∷ c ∷ rest) =
    sextet_char (a / 4)
    ∷ sextet_char (a % 4 * 16 + b / 16)
    ∷ sextet_char (b % 16 * 4 + c / 64)
    ∷ sextet_char (c % 64)
    ∷ encode rest

-- Characters outside the alphabet are skipped.
keep_sextet : Option ℕ → List ℕ → List ℕ
keep_sextet none rest = rest
keep_sextet (some n) rest = n ∷ rest

sextets : Text → List ℕ
unfolding char_sextet keep_sextet
sextets [] = []
sextets (c ∷ cs) = keep_sextet (char_sextet c) (sextets cs)

bytes_of_sextets : List ℕ → List ℕ
bytes_of_sextets [] = []
bytes_of_sextets (p ∷ []) = []
bytes_of_sextets (p ∷ q ∷ []) = (p * 4 + q / 16) ∷ []
bytes_of_sextets (p ∷ q ∷ r ∷ []) = (p * 4 + q / 16) ∷ (q % 16 * 16 + r / 4) ∷ []
bytes_of_sextets (p ∷ q ∷ r ∷ s ∷ rest) =
    (p * 4 + q / 16) ∷ (q % 16 * 16 + r / 4) ∷ (r % 4 * 64 + s) ∷ bytes_of_sextets rest

unfoldable pub decode : Text → List ℕ
unfolding sextets bytes_of_sextets
decode s = bytes_of_sextets (sextets s)

char_sextet-sextet_char : (n : ℕ) → n < 64 → char_sextet (sextet_char n) ≡ some n
unfolding char_sextet sextet_char
char_sextet-sextet_char n h = ground arith

is_b64url_char-sextet_char : (n : ℕ) → n < 64 → is_b64url_char (sextet_char n) ≡ true
unfolding is_b64url_char sextet_char
is_b64url_char-sextet_char n h = ground arith

sextets-cons : (n : ℕ) (cs : Text) → n < 64 → sextets (sextet_char n ∷ cs) ≡ n ∷ sextets cs
unfolding keep_sextet
sextets-cons n cs h = unfold sextets in ground (arith, char_sextet-sextet_char n h)

bytes-sextets-encode : (bs : List ℕ) → All IsByte bs → bytes_of_sextets (sextets (encode bs)) ≡ bs
unfolding encode bytes_of_sextets
bytes-sextets-encode [] h = unfold sextets in refl
bytes-sextets-encode (a ∷ []) (ha, _) =
    rw (sextets-cons (a / 4) _ (omega arith), sextets-cons (a % 4 * 16) [] (omega arith))
      (unfold sextets in (ap (λ n. n ∷ []) (omega arith)))
bytes-sextets-encode (a ∷ b ∷ []) (ha, (hb, _)) =
    rw
      (
        sextets-cons (a / 4) _ (omega arith),
        sextets-cons (a % 4 * 16 + b / 16) _ (omega arith),
        sextets-cons (b % 16 * 4) [] (omega arith),
      )
      (unfold sextets in (ap₂ (λ m n. m ∷ n ∷ []) (omega arith) (omega arith)))
bytes-sextets-encode (a ∷ b ∷ c ∷ rest) (ha, (hb, (hc, h))) =
    rw
      (
        sextets-cons (a / 4) _ (omega arith),
        sextets-cons (a % 4 * 16 + b / 16) _ (omega arith),
        sextets-cons (b % 16 * 4 + c / 64) _ (omega arith),
        sextets-cons (c % 64) (encode rest) (omega arith),
      )
      (ground (arith, bytes-sextets-encode rest h))

-- Decoding undoes encoding, for every list of bytes.
pub decode-encode : (bs : List ℕ) → All IsByte bs → decode (encode bs) ≡ bs
unfolding decode
decode-encode bs h = bytes-sextets-encode bs h

-- What is encoded has characters of the alphabet only.
pub all-encode : (bs : List ℕ) → All IsByte bs → all is_b64url_char (encode bs) ≡ true
unfolding encode
all-encode [] h = refl
all-encode (a ∷ []) (ha, _) = rw (
  is_b64url_char-sextet_char (a / 4) (omega arith),
  is_b64url_char-sextet_char (a % 4 * 16) (omega arith),
)
all-encode (a ∷ b ∷ []) (ha, (hb, _)) = rw (
  is_b64url_char-sextet_char (a / 4) (omega arith),
  is_b64url_char-sextet_char (a % 4 * 16 + b / 16) (omega arith),
  is_b64url_char-sextet_char (b % 16 * 4) (omega arith),
)
all-encode (a ∷ b ∷ c ∷ rest) (ha, (hb, (hc, h))) =
    rw
      (
        is_b64url_char-sextet_char (a / 4) (omega arith),
        is_b64url_char-sextet_char (a % 4 * 16 + b / 16) (omega arith),
        is_b64url_char-sextet_char (b % 16 * 4 + c / 64) (omega arith),
        is_b64url_char-sextet_char (c % 64) (omega arith),
      )
      (all-encode rest h)

-- The length of the encoding, with no padding: four characters for three bytes, rounded up.
pub length-encode : (bs : List ℕ) → length (encode bs) ≡ (length bs * 4 + 2) / 3
unfolding encode
length-encode [] = omega arith
length-encode (a ∷ []) = omega arith
length-encode (a ∷ b ∷ []) = omega arith
length-encode (a ∷ b ∷ c ∷ rest) = omega (arith, length-encode rest)

-- Text that is not empty and passes `all` passes the test.
pub b64url_test-encode :
    (b : ℕ) (bs : List ℕ) → All IsByte (b ∷ bs) → b64url_test (encode (b ∷ bs)) ≡ true
unfolding b64url_test encode
b64url_test-encode b [] h = all-encode (b ∷ []) h
b64url_test-encode b (c ∷ []) h = all-encode (b ∷ c ∷ []) h
b64url_test-encode b (c ∷ d ∷ rest) h = all-encode (b ∷ c ∷ d ∷ rest) h

-- Decoding yields bytes.
char_sextet-lt : (c n : ℕ) → char_sextet c ≡ some n → n < 64
unfolding char_sextet
char_sextet-lt c n h = ground arith

abbrev IsSextet : ℕ → Type 0
IsSextet n = n < 64

sextets-IsSextet : (s : Text) → All IsSextet (sextets s)
unfolding sextets keep_sextet
sextets-IsSextet [] = tt
sextets-IsSextet (c ∷ cs) = elim (Option-cases (char_sextet c)) [
  | inl e ↦ rw (e, keep_sextet) (sextets-IsSextet cs)
  | inr (n, e) ↦ rw (e, keep_sextet) (char_sextet-lt c n e, sextets-IsSextet cs)
]

bytes_of_sextets-IsByte : (ns : List ℕ) → All IsSextet ns → All IsByte (bytes_of_sextets ns)
unfolding bytes_of_sextets
bytes_of_sextets-IsByte [] h = tt
bytes_of_sextets-IsByte (p ∷ []) h = tt
bytes_of_sextets-IsByte (p ∷ q ∷ []) h = omega arith
bytes_of_sextets-IsByte (p ∷ q ∷ r ∷ []) h = omega arith
bytes_of_sextets-IsByte (p ∷ q ∷ r ∷ s ∷ rest) (hp, (hq, (hr, (hs, h)))) =
    (omega arith, (omega arith, (omega arith, bytes_of_sextets-IsByte rest h)))

pub decode-IsByte : (s : Text) → All IsByte (decode s)
unfolding decode
decode-IsByte s = bytes_of_sextets-IsByte (sextets s) (sextets-IsSextet s)
