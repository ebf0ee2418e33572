-- ===== src/Engine/Login/Minted.antt =====
-- What `#mint` puts together for a session parses, and the device that it is bound to passes.
use nebula_token.Common.{
  ℕ, ◌<◌, ◌≡◌, refl, inl, inr, true, false, leb, Option-cases, Bool-cases, Option, none, some,
  some_injective, same_text, same_text_iff, arith, Text, List, [], ◌∷◌, All,
}
use mathlib.Core.Path.{subst, ap₂}
use nebula_token.Errors.{ok}
use nebula_token.Digest.{Hmac, IsSha256, hash_device_id, hash_device_id-ok, hash_device_id_matches}
use nebula_token.Codec.Utf8.{is_well_formed_unicode}
use nebula_token.Codec.Base64Url.{length-encode}
use nebula_token.Token.{ParsedToken, str, parse_token, token_text}
use nebula_token.Token.RoundTrip.{IsValid, parse_token_iff, encoded_test, byte_length_class}
use nebula_token.Config.{NebulaEngine}
use nebula_token.Config.Ready.{IsReady, IsPepper}
use nebula_token.Store.Rows.{active, TokenRecord, get, has}
use nebula_token.Engine.Mint.{Draw, IsDraw, selector_text, active_pepper}
use nebula_token.Engine.{first_binding, refresh_active, rotate, device_refused, device_matches}

-- The device that a session is bound to is valid Unicode.
abbrev pub IsDevice : Option Text → Type 0
IsDevice none = Unit
IsDevice (some d) = is_well_formed_unicode d ≡ true

not_yet : (deadline now : ℕ) → now < deadline → leb deadline now ≡ false
not_yet deadline now h = ground arith

get-All :
    (P : Text × Text → Type 0) (k v : Text) (rows : List (Text × Text))
    → All P rows
    → get k rows ≡ some v
    → P (k, v)
unfolding get
get-All P k v [] h e = cc
get-All P k v ((j, w) ∷ rows) (p, h) e = elim (Bool-cases (same_text j k)) [
  | inl hit ↦
      subst P
        (ap₂ (λ x y. (x, y)) ((same_text_iff j k).0 hit) (some_injective (ground (arith, hit, e))))
        p
  | inr miss ↦ get-All P k v rows h (ground (arith, miss, e))
]

has-get :
    (k : Text) (rows : List (Text × Text)) → has k rows ≡ true → (v : Text) × (get k rows ≡ some v)
has-get k rows h = elim (Option-cases (get k rows)) [
  | inl e ↦ ground (arith, e)
  | inr found ↦ found
]

module _ (e : NebulaEngine) (ready : IsReady e) where
  abbrev active_row : (v : Text) × (get e.active_kid e.peppers ≡ some v)
  active_row = has-get e.active_kid e.peppers ready.active_present

  pub active_pepper-eq : get e.active_kid e.peppers ≡ some (active_pepper e)
  unfolding active_pepper
  active_pepper-eq = ground (arith, active_row.1)

  active_pepper-IsPepper : IsPepper (e.active_kid, active_pepper e)
  active_pepper-IsPepper =
      get-All IsPepper e.active_kid (active_pepper e) e.peppers ready.peppers active_pepper-eq

module _ (e : NebulaEngine) (draw : Draw) where
  abbrev pub minted_token : ParsedToken
  minted_token = record {
    kid = e.active_kid;
    selector = selector_text draw;
    verifier = draw.verifier;
  }

module _ (e : NebulaEngine) (ready : IsReady e) (draw : Draw) (fair : IsDraw draw) where
  -- What `#mint` puts together is a token of the wire format.
  minted-IsValid : IsValid (minted_token e draw)
  unfolding selector_text
  minted-IsValid = record {
    kid_class = (active_pepper-IsPepper e ready).kid_class;
    kid_length = omega (
      arith,
      (active_pepper-IsPepper e ready).kid_bytes,
      byte_length_class e.active_kid (active_pepper-IsPepper e ready).kid_class,
    );
    selector_class =
        encoded_test draw.selector (omega (arith, fair.selector_length)) fair.selector_bytes;
    selector_length = omega (arith, length-encode draw.selector, fair.selector_length);
    verifier_length = fair.verifier_length;
    verifier_bytes = fair.verifier_bytes;
  }

  pub minted-parses :
      parse_token (str (token_text e.active_kid (selector_text draw) draw.verifier))
      ≡ some (minted_token e draw)
  minted-parses = (parse_token_iff _ (minted_token e draw)).1 (minted-IsValid, refl)

module _ (hmac : Hmac) (e : NebulaEngine) where
  -- The binding of a new family, and that its device passes.
  abbrev pub IsBinding : Option Text → Option Text → Type 0
  IsBinding none binding = binding ≡ none
  IsBinding (some d) binding =
      (h : Text) × (hash_device_id hmac (active_pepper e) d ≡ ok h) × (binding ≡ some h)

  pub first_binding-ok :
      (device : Option Text)
      → IsDevice device
      → (b : Option Text) × (first_binding hmac e device ≡ ok b) × IsBinding device b
  unfolding first_binding
  first_binding-ok none g = (none, refl, refl)
  first_binding-ok (some d) g =
      let (h, eh) = hash_device_id-ok hmac (active_pepper e) d g in
      (some h, rw (g, eh), (h, eh, refl))

  pub active_task :
      (draw' : Draw) (r : TokenRecord) (device : Option Text) (now : ℕ)
      → now < r.family_expires_at
      → now < r.idle_expires_at
      → device_refused hmac e r (active_pepper e) device ≡ ok false
      → refresh_active hmac e draw' r (active_pepper e) device now
        ≡ rotate hmac e draw' r device now active now
  unfolding refresh_active
  active_task draw' r device now a i d =
      rw (not_yet r.family_expires_at now a, not_yet r.idle_expires_at now i, d)

module _ (hmac : Hmac) (e : NebulaEngine) (sha : IsSha256 hmac) where
  pub device-passes :
      (r : TokenRecord) (device : Option Text)
      → IsDevice device
      → IsBinding hmac e device r.device_id_hash
      → device_refused hmac e r (active_pepper e) device ≡ ok false
  unfolding device_refused device_matches
  device-passes r none g b = ground (arith, b)
  device-passes r (some d) g (h, eh, b) =
      ground (arith, g, eh, b, hash_device_id_matches hmac sha (active_pepper e) d h eh)
