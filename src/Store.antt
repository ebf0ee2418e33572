-- ===== src/Store.antt =====
-- The records and `MemoryRefreshTokenStore` of packages/typescript/src/index.ts. The rows of the
-- JavaScript `Map` are an association list in insertion order. Each method runs without an `await`
-- inside, so it is one step: it takes the store and returns the new one with its result.
pub mod Rows
pub mod Laws
pub mod Contract
pub mod Family
pub mod Expiry
pub mod Invariant
pub mod Interface
use nebula_token.Common.{
  ℕ, ◌+◌, ◌≡◌, Bool, true, false, not, ◌&&◌, Option, none, some, List, [], ◌∷◌, ◌++◌, map, leb,
  if◌then◌else◌, Text, same_text,
}
use nebula_token.Errors.{Result, ok, throws, duplicate_selector}
use Rows.{TokenStatus, active, rotated, revoked, same_status, TokenRecord, get, put, has}

pub record MemoryStore : Type 0 where
  pub rows : List (Text × TokenRecord)

unfoldable pub find_by_selector : Text → MemoryStore → Option TokenRecord
find_by_selector selector s = get selector s.rows

unfoldable pub insert : TokenRecord → MemoryStore → Result (Unit {0}) × MemoryStore
insert r s =
    if has r.selector s.rows
    then (throws (duplicate_selector r.selector), s)
    else (ok tt, record { rows = s.rows ++ ((r.selector, r) ∷ []) })

-- The writes of `markRotated` and of the revoking methods to one row.
abbrev pub rotate_row : ℕ → Text → TokenRecord → TokenRecord
rotate_row rotated_at replaced_by r = record r {
  status = rotated;
  rotated_at = some rotated_at;
  replaced_by_selector = some replaced_by;
}

abbrev pub revoke_row : TokenRecord → TokenRecord
revoke_row r = record r { status = revoked }

-- `if (r?.status !== from) return false;`, then the write.
unfoldable pub compare_and_set :
    Text → TokenStatus → (TokenRecord → TokenRecord) → MemoryStore → Bool × MemoryStore
compare_and_set selector from_status write s = elim (get selector s.rows) [
  | none ↦ (false, s)
  | some r ↦
      if same_status r.status from_status
      then (true, record { rows = put selector (write r) s.rows })
      else (false, s)
]

unfoldable pub mark_rotated : Text → TokenStatus → ℕ → Text → MemoryStore → Bool × MemoryStore
mark_rotated selector from_status rotated_at replaced_by =
    compare_and_set selector from_status (rotate_row rotated_at replaced_by)

unfoldable pub revoke_if_active : Text → MemoryStore → Bool × MemoryStore
revoke_if_active selector = compare_and_set selector active revoke_row

-- The loop of `revokeFamily` and `revokeUser`: the rows after it, and `n`.
unfoldable pub sweep :
    (TokenRecord → Bool) → List (Text × TokenRecord) → List (Text × TokenRecord) × ℕ
sweep chosen [] = ([], 0)
sweep chosen ((k, r) ∷ rows) =
    let rest = sweep chosen rows in
    if chosen r && not (same_status r.status revoked)
    then ((k, revoke_row r) ∷ rest.0, rest.1 + 1)
    else ((k, r) ∷ rest.0, rest.1)

unfoldable pub revoke_family : Text → MemoryStore → ℕ × MemoryStore
revoke_family family_id s =
    let swept = sweep (λ r. same_text r.family_id family_id) s.rows in
    (swept.1, record { rows = swept.0 })

unfoldable pub revoke_user : Text → MemoryStore → ℕ × MemoryStore
revoke_user user_id s =
    let swept = sweep (λ r. same_text r.user_id user_id) s.rows in
    (swept.1, record { rows = swept.0 })

unfoldable pub all_records : MemoryStore → List TokenRecord
all_records s = map (λ row. row.1) s.rows

-- The loop of `deleteExpired`.
unfoldable pub drop_expired : ℕ → List (Text × TokenRecord) → List (Text × TokenRecord) × ℕ
drop_expired now [] = ([], 0)
drop_expired now ((k, r) ∷ rows) =
    let rest = drop_expired now rows in
    if leb r.family_expires_at now then (rest.0, rest.1 + 1) else ((k, r) ∷ rest.0, rest.1)

unfoldable pub delete_expired : ℕ → MemoryStore → ℕ × MemoryStore
delete_expired now s =
    let dropped = drop_expired now s.rows in (dropped.1, record { rows = dropped.0 })
