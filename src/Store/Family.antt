-- ===== src/Store/Family.antt =====
-- What the revoking methods of the memory store promise: which records are revoked, how many, and
-- that nothing else changes.
use mathlib.Core.Option
use nebula_token.Common.{
  ℕ, ◌+◌, ◌≡◌, refl, sym, ◌∙◌, Bool, not, ◌&&◌, Option, none, some, List, [], ◌∷◌, arith,
  if◌then◌else◌, Text, same_text, same_text_iff,
}
use nebula_token.Store.Rows.{revoked, same_status, TokenRecord}
use nebula_token.Store.{
  MemoryStore, find_by_selector, revoke_row, sweep, revoke_family, revoke_user,
}
use nebula_token.Store.Laws.{revoke_if, find-revoke_family, find-revoke_user}

-- How many of the chosen records are not revoked.
abbrev is_live : (TokenRecord → Bool) → TokenRecord → Bool
is_live chosen r = chosen r && not (same_status r.status revoked)

pub count_live : (TokenRecord → Bool) → List (Text × TokenRecord) → ℕ
count_live chosen [] = 0
count_live chosen ((k, r) ∷ rows) = count_live chosen rows + (if is_live chosen r then 1 else 0)

-- A choice by data that revoking does not change.
abbrev IsStable : (TokenRecord → Bool) → Type 0
IsStable chosen = (r : TokenRecord) → chosen (revoke_row r) ≡ chosen r

sweep-count_live :
    (chosen : TokenRecord → Bool) (rows : List (Text × TokenRecord))
    → (sweep chosen rows).1 ≡ count_live chosen rows
unfolding sweep count_live
sweep-count_live chosen [] = refl
sweep-count_live chosen ((k, r) ∷ rows) = ground (arith, sweep-count_live chosen rows)

count_live-sweep :
    (chosen : TokenRecord → Bool) (rows : List (Text × TokenRecord))
    → IsStable chosen
    → count_live chosen (sweep chosen rows).0 ≡ 0
unfolding sweep count_live
count_live-sweep chosen [] stable = refl
count_live-sweep chosen ((k, r) ∷ rows) stable =
    ground (arith, count_live-sweep chosen rows stable, stable r)

abbrev pub of_family : Text → TokenRecord → Bool
of_family id r = same_text r.family_id id

abbrev pub of_user : Text → TokenRecord → Bool
of_user id r = same_text r.user_id id

map-eq-some :
    (chosen : TokenRecord → Bool) {o : Option TokenRecord} {q : TokenRecord}
    → Option.map (revoke_if chosen) o ≡ some q
    → (r : TokenRecord) × (o ≡ some r) × (q ≡ revoke_if chosen r)
map-eq-some chosen {o = none} h = cc
map-eq-some chosen {o = some r} h = (r, refl, ground arith)

-- After a sweep every lookup answers as before, but that a chosen record is found revoked.
abbrev pub IsSwept : (TokenRecord → Bool) → MemoryStore → MemoryStore → Type 0
IsSwept chosen s s' =
    (k : Text)
    → find_by_selector k s'
      ≡ Option.map (λ r. if chosen r then revoke_row r else r) (find_by_selector k s)

-- What a revoking method answers and leaves, where it revokes the chosen records.
abbrev pub Revokes : (TokenRecord → Bool) → MemoryStore → ℕ × MemoryStore → Type 0
Revokes chosen s p =
    IsSwept chosen s p.1 × (p.0 ≡ count_live chosen s.rows) × (count_live chosen p.1.rows ≡ 0)

revoke_user-Revokes : (id : Text) (s : MemoryStore) → Revokes (of_user id) s (revoke_user id s)
unfolding revoke_user
revoke_user-Revokes id s = (
  λ k. find-revoke_user k id s,
  sweep-count_live (of_user id) s.rows,
  count_live-sweep (of_user id) s.rows (λ r. refl),
)

pub revoke_family-Revokes :
    (id : Text) (s : MemoryStore) → Revokes (of_family id) s (revoke_family id s)
unfolding revoke_family
revoke_family-Revokes id s = (
  λ k. find-revoke_family k id s,
  sweep-count_live (of_family id) s.rows,
  count_live-sweep (of_family id) s.rows (λ r. refl),
)

-- `revokeFamily` changes exactly the records of the family: every selector that found a record
-- still finds it, revoked if it is of the family and else as it was, and one that found none finds
-- none. Its answer is the number of records of the family that were not revoked yet, and no such
-- record is left. `revokeUser` does so for the records of the user.
pub revoke_all-Revokes :
    (id : Text) (s : MemoryStore)
    → Revokes (of_family id) s (revoke_family id s) × Revokes (of_user id) s (revoke_user id s)
revoke_all-Revokes id s = (revoke_family-Revokes id s, revoke_user-Revokes id s)

-- After `revokeFamily` every record of the family is revoked.
abbrev pub FamilyRevoked : Text → MemoryStore → Type 0
FamilyRevoked id s =
    (k : Text) (r : TokenRecord)
    → find_by_selector k s ≡ some r
    → r.family_id ≡ id
    → r.status ≡ revoked

pub revoke_family-FamilyRevoked :
    (id : Text) (s : MemoryStore) → FamilyRevoked id (revoke_family id s).1
revoke_family-FamilyRevoked id s k q h e =
    let (r, _, same) = map-eq-some (of_family id) (sym ((revoke_family-Revokes id s).0 k) ∙ h) in
    ground (arith, same_text_iff r.family_id id)
