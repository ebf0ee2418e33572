-- ===== src/Engine/Login/Started.antt =====
-- What a login promises: the result of `issue` and the store that it leaves.
use nebula_token.Common.{ℕ, ◌+◌, ◌≡◌, ◌≢◌, Option, none, some, List, Text, min}
use nebula_token.Digest.{Hmac, hash_verifier}
use nebula_token.Codec.Hex
use nebula_token.Token.{token_text}
use nebula_token.Config.{NebulaEngine}
use nebula_token.Store.Rows.{active, TokenRecord, get}
use nebula_token.Store.{MemoryStore, find_by_selector}
use nebula_token.Engine.Mint.{Draw, selector_text}
use nebula_token.Engine.Results.{IssueResult}
use nebula_token.Engine.Login.Minted.{IsBinding}

-- A family of the user starts now, with the token of the drawn bytes and one active record for it.
pub record StartsFamily (hmac : Hmac) (e : NebulaEngine) (draw : Draw) (family_bytes : List ℕ)
    (user_id : Text) (device : Option Text) (now : ℕ) (s : MemoryStore) (l : IssueResult)
    (s' : MemoryStore) : Type 0 where
  pub token : l.token ≡ token_text e.active_kid (selector_text draw) draw.verifier
  pub user : l.user_id ≡ user_id
  pub family : l.family_id ≡ Hex.encode family_bytes
  pub generation : l.generation ≡ 0
  pub expires : l.expires_at ≡ now + e.absolute_ttl
  pub idle : l.idle_expires_at ≡ min (now + e.idle_ttl) (now + e.absolute_ttl)
  pub row : TokenRecord
  pub stored : find_by_selector (selector_text draw) s' ≡ some row
  pub others : (k : Text) → selector_text draw ≢ k → find_by_selector k s' ≡ find_by_selector k s
  pub row_selector : row.selector ≡ selector_text draw
  pub row_status : row.status ≡ active
  pub row_kid : row.kid ≡ e.active_kid
  pub pepper : Text
  pub has_pepper : get e.active_kid e.peppers ≡ some pepper
  pub row_hash : row.verifier_hash ≡ hash_verifier hmac pepper draw.verifier
  pub row_device : IsBinding hmac e device row.device_id_hash
  pub row_owner : (row.user_id ≡ user_id) × (row.family_id ≡ l.family_id) × (row.generation ≡ 0)
  pub row_created : row.created_at ≡ now
  pub row_deadlines :
      (row.family_expires_at ≡ l.expires_at) × (row.idle_expires_at ≡ l.idle_expires_at)
  pub row_unused : (row.rotated_at ≡ none) × (row.replaced_by_selector ≡ none)
