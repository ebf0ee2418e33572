-- ===== src/Token/RoundTrip.antt =====
-- Parsing and minting are inverse to one another, for the tokens that `parseToken` accepts.
use nebula_token.Common.{
  ℕ, ◌<◌, ◌≤◌, ◌≡◌, refl, sym, ap, ◌∙◌, ◌≢◌, ◌↔◌, true, false, is_empty, some, List, [], ◌∷◌, ◌++◌,
  arith, length, length-append, all, All, All-append, All-imp, Text, same_text_iff, same_text_refl,
}
use nebula_token.Codec.Base64Url.{
  is_b64url_char, b64url_test, IsByte, encode, decode, decode-encode, all-encode, length-encode,
  b64url_test-encode, decode-IsByte,
}
use nebula_token.Codec.Utf8.{byte_length, byte_length_ascii, IsAscii}
use nebula_token.Codec.Split.{split, join, Avoids, join-split, split-append_sep, split_of_Avoids}
use nebula_token.Token.{
  ParsedToken, str, check_parts, parse_parts, parse_token, token_text, dot, prefix,
}

-- What the specification asks of the three fields of a token.
pub record IsValid (p : ParsedToken) : Type 0 where
  pub kid_class : b64url_test p.kid ≡ true
  pub kid_length : length p.kid ≤ 64
  pub selector_class : b64url_test p.selector ≡ true
  pub selector_length : length p.selector ≡ 22
  pub verifier_length : length p.verifier ≡ 32
  pub verifier_bytes : All IsByte p.verifier

-- Everything that `check_parts` has established when it accepts.
record Accepts (a kid selector b64 : Text) (p : ParsedToken) : Type 0 where
  head : a ≡ prefix
  kid_class : b64url_test kid ≡ true
  kid_length : length kid ≤ 64
  selector_class : b64url_test selector ≡ true
  selector_length : length selector ≡ 22
  verifier_length : length (decode b64) ≡ 32
  canonical : encode (decode b64) ≡ b64
  result : p ≡ record { kid = kid; selector = selector; verifier = decode b64 }

check_parts-Accepts :
    (a kid selector b64 : Text) (p : ParsedToken)
    → check_parts a kid selector b64 ≡ some p
    → Accepts a kid selector b64 p
unfolding check_parts
check_parts-Accepts a kid selector b64 p h =
    ground (arith, same_text_iff a prefix, same_text_iff (encode (decode b64)) b64)

parse_parts-Accepts :
    (parts : List Text) (p : ParsedToken)
    → parse_parts parts ≡ some p
    → (kid selector b64 : Text) × (parts ≡ prefix ∷ kid ∷ selector ∷ b64 ∷ [])
      × Accepts prefix kid selector b64 p
unfolding parse_parts
parse_parts-Accepts (a ∷ kid ∷ selector ∷ b64 ∷ []) p h =
    let r = check_parts-Accepts a kid selector b64 p h in
    (kid, selector, b64, rw r.head, rw (← r.head) r)
parse_parts-Accepts parts p h = cc

parse_token-parts :
    (t : Text) (p : ParsedToken) → parse_token (str t) ≡ some p → parse_parts (split dot t) ≡ some p
unfolding parse_token
parse_token-parts t p h = ground arith

-- A token is accepted only if it is the text that `#mint` would build from what is parsed.
parse_token_sound :
    (t : Text) (p : ParsedToken)
    → parse_token (str t) ≡ some p
    → IsValid p × (t ≡ token_text p.kid p.selector p.verifier)
unfolding token_text
parse_token_sound t p h =
    let (kid, selector, b64, e, a) =
      parse_parts-Accepts (split dot t) p (parse_token-parts t p h) in
    let spelled = sym (join-split dot t) ∙ ap (join dot) e in
    rw (a.result, a.canonical)
      (
        record {
          kid_class = a.kid_class;
          kid_length = a.kid_length;
          selector_class = a.selector_class;
          selector_length = a.selector_length;
          verifier_length = a.verifier_length;
          verifier_bytes = decode-IsByte b64;
        },
        unfold join in spelled,
      )

class-IsAscii : (c : ℕ) → is_b64url_char c ≡ true → IsAscii c
unfolding is_b64url_char
class-IsAscii c h = ground arith

class_ne_dot : (c : ℕ) → is_b64url_char c ≡ true → c ≢ dot
unfolding is_b64url_char
class_ne_dot c h = ground arith

all-All : (s : Text) → all is_b64url_char s ≡ true → All (λ c. is_b64url_char c ≡ true) s
all-All [] h = tt
all-All (c ∷ cs) h = (ground arith, all-All cs (ground arith))

InClass : Text → Type 0
InClass s = All (λ c. is_b64url_char c ≡ true) s

b64url_test-InClass : (s : Text) → b64url_test s ≡ true → InClass s
unfolding b64url_test InClass
b64url_test-InClass s h = all-All s (ground arith)

InClass-Avoids : (s : Text) → InClass s → Avoids dot s
unfolding InClass
InClass-Avoids s h = All-imp class_ne_dot s h

InClass-IsAscii : (s : Text) → InClass s → All IsAscii s
unfolding InClass
InClass-IsAscii s h = All-imp class-IsAscii s h

-- Text of the class has as many bytes as characters.
pub byte_length_class : (s : Text) → b64url_test s ≡ true → byte_length s ≡ length s
byte_length_class s h = byte_length_ascii s (InClass-IsAscii s (b64url_test-InClass s h))

not_empty : (s : Text) → b64url_test s ≡ true → is_empty s ≡ false
unfolding b64url_test
not_empty [] h = cc
not_empty (c ∷ cs) h = refl

pub encoded_test : (bs : List ℕ) → 0 < length bs → All IsByte bs → b64url_test (encode bs) ≡ true
encoded_test [] e h = absurd (omega arith)
encoded_test (b ∷ bs) e h = b64url_test-encode b bs h

module _ (p : ParsedToken) (v : IsValid p) where
  encoded-InClass : InClass (encode p.verifier)
  unfolding InClass
  encoded-InClass = all-All (encode p.verifier) (all-encode p.verifier v.verifier_bytes)

  verifier_pos : 0 < length p.verifier
  verifier_pos = omega (arith, v.verifier_length)

  split-token_text :
      split dot (token_text p.kid p.selector p.verifier)
      ≡ prefix ∷ p.kid ∷ p.selector ∷ encode p.verifier ∷ []
  unfolding token_text
  split-token_text = rw (
    split-append_sep dot prefix _ (omega arith),
    split-append_sep dot p.kid _ (InClass-Avoids p.kid (b64url_test-InClass p.kid v.kid_class)),
    split-append_sep dot p.selector _
        (InClass-Avoids p.selector (b64url_test-InClass p.selector v.selector_class)),
    split_of_Avoids dot (encode p.verifier) (InClass-Avoids (encode p.verifier) encoded-InClass),
  )

  token_text-IsAscii : All IsAscii (token_text p.kid p.selector p.verifier)
  unfolding token_text
  token_text-IsAscii = (
    omega arith,
    (
      omega arith,
      (
        omega arith,
        (
          omega arith,
          All-append IsAscii p.kid _ (InClass-IsAscii p.kid (b64url_test-InClass p.kid v.kid_class))
              (
                omega arith,
                All-append IsAscii p.selector _
                    (InClass-IsAscii p.selector (b64url_test-InClass p.selector v.selector_class))
                    (omega arith, InClass-IsAscii (encode p.verifier) encoded-InClass),
              ),
        ),
      ),
    ),
  )

  token_text-ne-nil : is_empty (token_text p.kid p.selector p.verifier) ≡ false
  unfolding token_text
  token_text-ne-nil = refl

  -- At most 135 bytes: the byte limit of 512 never refuses a token of the right shape.
  token_text-length : byte_length (token_text p.kid p.selector p.verifier) ≤ 135
  unfolding token_text
  token_text-length = rw (byte_length_ascii _ token_text-IsAscii) (
      omega (
        arith,
        length-append p.kid (dot ∷ (p.selector ++ (dot ∷ encode p.verifier))),
        length-append p.selector (dot ∷ encode p.verifier),
        length-encode p.verifier,
        v.kid_length,
        v.selector_length,
        v.verifier_length,
      ))

  check_parts_complete : check_parts prefix p.kid p.selector (encode p.verifier) ≡ some p
  unfolding check_parts
  check_parts_complete = ground (
    arith,
    same_text_refl prefix,
    same_text_refl (encode p.verifier),
    decode-encode p.verifier v.verifier_bytes,
    length-encode p.verifier,
    v.kid_length,
    v.selector_length,
    v.verifier_length,
    v.kid_class,
    v.selector_class,
    not_empty p.kid v.kid_class,
    not_empty p.selector v.selector_class,
    encoded_test p.verifier verifier_pos v.verifier_bytes,
    not_empty (encode p.verifier) (encoded_test p.verifier verifier_pos v.verifier_bytes),
  )

  parse_token_complete : parse_token (str (token_text p.kid p.selector p.verifier)) ≡ some p
  unfolding parse_token parse_parts
  parse_token_complete =
      rw split-token_text
        (ground (arith, token_text-length, check_parts_complete, token_text-ne-nil))

pub parse_token_iff :
    (t : Text) (p : ParsedToken)
    → (parse_token (str t) ≡ some p) ↔ (IsValid p × (t ≡ token_text p.kid p.selector p.verifier))
parse_token_iff t p = (parse_token_sound t p, λ h. rw h.1 (parse_token_complete p h.0))
