-- ===== src/Engine/Mint.antt =====
-- `#mint` and `#activePepper` of packages/typescript/src/index.ts.
use nebula_token.Common.{ℕ, ◌+◌, ◌≡◌, Option, none, some, List, [], Text, min, All, length}
use nebula_token.Digest.{Hmac, hash_verifier}
use nebula_token.Codec.Base64Url.{encode, IsByte}
use nebula_token.Codec.Hex
use nebula_token.Token.{token_text}
use nebula_token.Store.Rows.{active, TokenRecord, get}
use nebula_token.Config.{NebulaEngine}

-- The results of the two calls of `randomBytes` in `#mint`.
pub record Draw : Type 0 where
  pub selector : List ℕ
  pub verifier : List ℕ

-- `randomBytes` returns as many bytes as it is asked for.
pub record IsDraw (d : Draw) : Type 0 where
  pub selector_length : length d.selector ≡ 16
  pub selector_bytes : All IsByte d.selector
  pub verifier_length : length d.verifier ≡ 32
  pub verifier_bytes : All IsByte d.verifier

pub record MintArgs : Type 0 where
  pub user_id : Text
  pub family_id : Text
  pub generation : ℕ
  pub device_id_hash : Option Text
  pub family_expires_at : ℕ
  pub now : ℕ

-- `this.#peppers.get(this.#activeKid)!`: the constructor made sure that it is there.
unfoldable pub active_pepper : NebulaEngine → Text
active_pepper e = elim (get e.active_kid e.peppers) [ none ↦ [] | some pepper ↦ pepper ]

-- `crypto.randomBytes(16).toString('hex')`
abbrev pub family_text : List ℕ → Text
family_text bytes = Hex.encode bytes

-- `selector`, as the 22 characters that stand in the token.
unfoldable pub selector_text : Draw → Text
selector_text draw = encode draw.selector

unfoldable pub mint : Hmac → NebulaEngine → Draw → MintArgs → Text × TokenRecord
mint hmac e draw args = (
  token_text e.active_kid (selector_text draw) draw.verifier,
  record {
    selector = selector_text draw;
    verifier_hash = hash_verifier hmac (active_pepper e) draw.verifier;
    kid = e.active_kid;
    family_id = args.family_id;
    generation = args.generation;
    user_id = args.user_id;
    device_id_hash = args.device_id_hash;
    created_at = args.now;
    family_expires_at = args.family_expires_at;
    idle_expires_at = min (args.now + e.idle_ttl) args.family_expires_at;
    status = active;
    rotated_at = none;
    replaced_by_selector = none;
  },
)
