-- ===== src/Codec/Hex.antt =====
-- Lowercase hexadecimal: `digest('hex')`, `toString('hex')`, `Buffer.from(s, 'hex')` and the
-- pattern `LOWER_HEX_64`.
use nebula_token.Common.{
  ℕ, ◌+◌, ◌-◌, ◌*◌, ◌/◌, ◌%◌, ◌<◌, ◌≡◌, refl, ap, Bool, true, ◌&&◌, ◌||◌, Option, none, some, List,
  [], ◌∷◌, arith, ltb, leb, if◌then◌else◌, length, all, All, Text, ◌==◌,
}
use nebula_token.Codec.Base64Url.{IsByte}

-- One character of the class `[0-9a-f]`.
unfoldable pub is_lower_hex : ℕ → Bool
is_lower_hex c = (leb b'0' c && leb c b'9') || (leb b'a' c && leb c b'f')

unfoldable pub hex_digit : ℕ → ℕ
hex_digit n = if ltb n 10 then 48 + n else 87 + n

hex_value : ℕ → Option ℕ
hex_value c =
    if leb b'0' c && leb c b'9'
    then some (c - 48)
    else if leb b'a' c && leb c b'f'
    then some (c - 87)
    else if leb b'A' c && leb c b'F'
    then some (c - 55)
    else none

unfoldable pub encode : List ℕ → Text
unfolding hex_digit
encode [] = []
encode (b ∷ bs) = hex_digit (b / 16) ∷ hex_digit (b % 16) ∷ encode bs

-- One byte from two digits, and what follows it; decoding stops at the first pair that is none.
byte_then : Option ℕ → Option ℕ → List ℕ → List ℕ
byte_then (some h) (some l) rest = (h * 16 + l) ∷ rest
byte_then (some h) none rest = []
byte_then none l rest = []

unfoldable pub decode : Text → List ℕ
unfolding hex_value byte_then
decode [] = []
decode (c ∷ []) = []
decode (c ∷ d ∷ rest) = byte_then (hex_value c) (hex_value d) (decode rest)

-- `LOWER_HEX_64.test(s)`
unfoldable pub lower_hex_64_test : Text → Bool
unfolding is_lower_hex
lower_hex_64_test s = length s == 64 && all is_lower_hex s

lower_digit :
    (c : ℕ)
    → is_lower_hex c ≡ true
    → (n : ℕ) × (hex_value c ≡ some n) × (hex_digit n ≡ c) × (n < 16)
unfolding is_lower_hex hex_value hex_digit
lower_digit c h = (if leb c b'9' then c - 48 else c - 87, ground arith, ground arith, ground arith)

high_of_byte : (x y : ℕ) → y < 16 → hex_digit ((x * 16 + y) / 16) ≡ hex_digit x
high_of_byte x y h = ap hex_digit (omega arith)

low_of_byte : (x y : ℕ) → y < 16 → hex_digit ((x * 16 + y) % 16) ≡ hex_digit y
low_of_byte x y h = ap hex_digit (omega arith)

-- Lowercase digits of an even number are recovered from the bytes that they decode to.
pub encode-decode :
    (n : ℕ) (s : Text) → length s ≡ n * 2 → all is_lower_hex s ≡ true → encode (decode s) ≡ s
unfolding encode decode
encode-decode n [] e h = refl
encode-decode n (c ∷ []) e h = absurd (omega arith)
encode-decode n (c ∷ d ∷ rest) e h =
    let (x, ex, gx, lx) = lower_digit c (ground arith) in
    let (y, ey, gy, ly) = lower_digit d (ground arith) in
    let ih = encode-decode (n - 1) rest (omega arith) (ground arith) in
    rw (ex, ey, byte_then) (ground (arith, ih, gx, gy, high_of_byte x y ly, low_of_byte x y ly))

is_lower_hex-hex_digit : (n : ℕ) → n < 16 → is_lower_hex (hex_digit n) ≡ true
unfolding is_lower_hex hex_digit
is_lower_hex-hex_digit n h = ground arith

-- What is encoded is lowercase, two characters to a byte.
pub all-encode : (bs : List ℕ) → All IsByte bs → all is_lower_hex (encode bs) ≡ true
unfolding encode
all-encode [] h = refl
all-encode (b ∷ bs) (hb, h) =
    rw
      (is_lower_hex-hex_digit (b / 16) (omega arith), is_lower_hex-hex_digit (b % 16) (omega arith))
      (all-encode bs h)

pub length-encode : (bs : List ℕ) → length (encode bs) ≡ length bs * 2
unfolding encode
length-encode [] = refl
length-encode (b ∷ bs) = omega (arith, length-encode bs)

-- A digest of 32 bytes passes the test.
pub lower_hex_64_test-encode :
    (bs : List ℕ) → All IsByte bs → length bs ≡ 32 → lower_hex_64_test (encode bs) ≡ true
unfolding lower_hex_64_test
lower_hex_64_test-encode bs h e = ground (arith, all-encode bs h, length-encode bs)
