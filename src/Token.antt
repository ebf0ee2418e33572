-- ===== src/Token.antt =====
-- The wire format of packages/typescript/src/index.ts: the constants of the specification, the
-- parsed token, `parseToken`, and the text that `#mint` builds.
pub mod RoundTrip
use nebula_token.Common.{
  ℕ, ◌+◌, ◌*◌, ◌≡◌, Bool, not, ◌||◌, Option, none, some, List, [], ◌∷◌, ◌++◌, leb, ◌==◌, length,
  is_empty, Text, same_text, ◌>>=◌, ◌>>◌, guard,
}
use nebula_token.Codec.Base64Url.{b64url_test, encode, decode}
use nebula_token.Codec.Utf8.{byte_length}
use nebula_token.Codec.Split.{split}

-- "nbl"
abbrev pub prefix : Text
prefix = b'n' ∷ b'b' ∷ b'l' ∷ []

abbrev pub dot : ℕ
dot = b'.'

abbrev pub selector_bytes : ℕ
selector_bytes = 16

abbrev pub verifier_bytes : ℕ
verifier_bytes = 32

abbrev pub selector_chars : ℕ
selector_chars = 22

abbrev pub verifier_chars : ℕ
verifier_chars = 43

abbrev pub max_kid_length : ℕ
max_kid_length = 64

abbrev pub max_token_length : ℕ
max_token_length = 512

abbrev pub min_pepper_length : ℕ
min_pepper_length = 32

abbrev pub default_absolute_ttl : ℕ
default_absolute_ttl = 60 * 60 * 24 * 30

abbrev pub default_idle_ttl : ℕ
default_idle_ttl = 60 * 60 * 24 * 7

abbrev pub default_reuse_grace : ℕ
default_reuse_grace = 0

pub record ParsedToken : Type 0 where
  pub kid : Text
  pub selector : Text
  pub verifier : List ℕ

-- A value of type `unknown`: a string, or anything else.
pub data Unknown : Type 0 where
  str : Text → Unknown
  other : Unknown

-- The checks of `parseToken` on the four parts, in the order of the source.
unfoldable pub check_parts : Text → Text → Text → Text → Option ParsedToken
check_parts prefix' kid selector verifier_b64 = do
  guard (same_text prefix' prefix)
  guard (not (is_empty kid || is_empty selector || is_empty verifier_b64))
  guard (leb (length kid) max_kid_length)
  guard (length selector == selector_chars)
  guard (length verifier_b64 == verifier_chars)
  guard (b64url_test kid)
  guard (b64url_test selector)
  guard (b64url_test verifier_b64)
  let verifier = decode verifier_b64
  guard (length verifier == verifier_bytes)
  guard (same_text (encode verifier) verifier_b64)
  some (record { kid = kid; selector = selector; verifier = verifier })

-- `parts.length !== 4` and the four indexed reads.
unfoldable pub parse_parts : List Text → Option ParsedToken
parse_parts (prefix' ∷ kid ∷ selector ∷ verifier_b64 ∷ []) =
    check_parts prefix' kid selector verifier_b64
parse_parts parts = none

unfoldable pub parse_token : Unknown → Option ParsedToken
parse_token other = none
parse_token (str token) = do
  guard (not (is_empty token))
  guard (leb (byte_length token) max_token_length)
  parse_parts (split dot token)

-- `${PREFIX}.${kid}.${selector}.${verifier.toString('base64url')}`, as `#mint` builds it.
unfoldable pub token_text : Text → Text → List ℕ → Text
token_text kid selector verifier =
    prefix ++ (dot ∷ (kid ++ (dot ∷ (selector ++ (dot ∷ encode verifier)))))
