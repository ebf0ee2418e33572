-- ===== src/Digest.antt =====
-- `hashVerifier`, `hashDeviceId` and `constantTimeEqualHex` of packages/typescript/src/index.ts.
-- HMAC-SHA-256 is a parameter: a function of the key's and the message's bytes.
use nebula_token.Common.{
  ℕ, ◌≡◌, refl, sym, Bool-cases, inl, inr, ap, ◌∙◌, ◌↔◌, Bool, true, false, not, ◌||◌, List, [],
  ◌∷◌, ◌++◌, arith, length, All, Text, ◌==◌, if◌then◌else◌, same_text, same_text_iff,
  same_text_refl,
}
use mathlib.Core.Path.{subst}
use nebula_token.Errors.{Result, ok, throws, device_id_not_unicode}
use nebula_token.Codec.Base64Url.{IsByte}
use nebula_token.Codec.Hex
use nebula_token.Codec.Hex.{
  lower_hex_64_test, is_lower_hex, encode-decode, lower_hex_64_test-encode,
}
use nebula_token.Codec.Utf8.{utf8, is_well_formed_unicode}

abbrev pub Hmac : Type 0
Hmac = List ℕ → List ℕ → List ℕ

-- What `createHmac('sha256', key)` documents of its result: 32 bytes.
abbrev pub IsSha256 : Hmac → Type 0
IsSha256 hmac =
    (key message : List ℕ) → (length (hmac key message) ≡ 32) × All IsByte (hmac key message)

-- "device:"
abbrev pub device_prefix : Text
device_prefix = b'd' ∷ b'e' ∷ b'v' ∷ b'i' ∷ b'c' ∷ b'e' ∷ b':' ∷ []

module _ (hmac : Hmac) where
  unfoldable pub hash_verifier : Text → List ℕ → Text
  hash_verifier pepper verifier = Hex.encode (hmac (utf8 pepper) verifier)

  unfoldable pub hash_device_id : Text → Text → Result Text
  hash_device_id pepper device_id =
      if not (is_well_formed_unicode device_id)
      then throws device_id_not_unicode
      else ok (Hex.encode (hmac (utf8 pepper) (utf8 (device_prefix ++ device_id))))

  -- A device identifier that is valid Unicode is hashed; any other is refused.
  pub hash_device_id-ok :
      (pepper device_id : Text)
      → is_well_formed_unicode device_id ≡ true
      → (h : Text) × (hash_device_id pepper device_id ≡ ok h)
  unfolding hash_device_id
  hash_device_id-ok pepper device_id w =
      (Hex.encode (hmac (utf8 pepper) (utf8 (device_prefix ++ device_id))), rw w)

-- `crypto.timingSafeEqual` on two buffers of one length.
abbrev timing_safe_equal : List ℕ → List ℕ → Bool
timing_safe_equal a b = same_text a b

unfoldable pub constant_time_equal_hex : Text → Text → Bool
constant_time_equal_hex a b =
    if not (length a == 64) || not (length b == 64)
    then false
    else if not (lower_hex_64_test a) || not (lower_hex_64_test b)
    then false
    else timing_safe_equal (Hex.decode a) (Hex.decode b)

decode-injective :
    (a b : Text)
    → lower_hex_64_test a ≡ true
    → lower_hex_64_test b ≡ true
    → Hex.decode a ≡ Hex.decode b
    → a ≡ b
unfolding lower_hex_64_test
decode-injective a b ha hb e =
    sym (encode-decode 32 a (ground arith) (ground arith))
    ∙ ap Hex.encode e
    ∙ encode-decode 32 b (ground arith) (ground arith)

lower_hex_64_test-length : (a : Text) → lower_hex_64_test a ≡ true → length a ≡ 64
unfolding lower_hex_64_test
lower_hex_64_test-length a h = ground arith

-- The comparison holds of two texts exactly when they are one text of 64 lowercase hex characters.
pub constant_time_equal_hex_iff :
    (a b : Text) → (constant_time_equal_hex a b ≡ true) ↔ ((lower_hex_64_test a ≡ true) × (a ≡ b))
unfolding constant_time_equal_hex
constant_time_equal_hex_iff a b = (
  λ h. ground (arith, same_text_iff (Hex.decode a) (Hex.decode b), decode-injective a b),
  λ h.
      rw (← h.1)
        (ground (arith, h.0, lower_hex_64_test-length a h.0, same_text_refl (Hex.decode a))),
)

ok_text : {a b : Text} → ◌≡◌ {A = Result Text} (ok a) (ok b) → a ≡ b
ok_text h = cc

-- A digest compares equal to itself.
module _ (hmac : Hmac) (sha : IsSha256 hmac) where
  pub hash_verifier_matches :
      (pepper : Text) (verifier : List ℕ)
      → constant_time_equal_hex
          (hash_verifier hmac pepper verifier)
          (hash_verifier hmac pepper verifier)
        ≡ true
  unfolding hash_verifier
  hash_verifier_matches pepper verifier =
      let (len, bytes) = sha (utf8 pepper) verifier in
      (constant_time_equal_hex_iff _ _).1 (lower_hex_64_test-encode _ bytes len, refl)

  pub hash_device_id_matches :
      (pepper device_id h : Text)
      → hash_device_id hmac pepper device_id ≡ ok h
      → constant_time_equal_hex h h ≡ true
  unfolding hash_device_id
  hash_device_id_matches pepper device_id h e =
      elim (Bool-cases (is_well_formed_unicode device_id)) [
        | inr bad ↦ ground (arith, bad, e)
        | inl good ↦
            let (len, bytes) = sha (utf8 pepper) (utf8 (device_prefix ++ device_id)) in
            subst (λ x. constant_time_equal_hex x x ≡ true) (ok_text (ground (arith, good, e)))
              ((constant_time_equal_hex_iff _ _).1 (
                lower_hex_64_test-encode (hmac (utf8 pepper) (utf8 (device_prefix ++ device_id)))
                    bytes len,
                refl,
              ))
      ]
