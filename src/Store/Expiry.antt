-- ===== src/Store/Expiry.antt =====
-- `deleteExpired` of `MemoryRefreshTokenStore` in packages/typescript/src/index.ts.
use nebula_token.Common.{
  ℕ, ◌+◌, ◌<◌, ◌≡◌, refl, sym, true, false, Bool-cases, inl, inr, some, List, [], ◌∷◌, All, arith,
  Text, length, leb, same_text,
}
use mathlib.Core.Path.{subst}
use nebula_token.Store.Rows.{TokenRecord, get}
use nebula_token.Store.{MemoryStore, find_by_selector, drop_expired, delete_expired}

-- A row whose family may still refresh.
abbrev pub IsUnexpired : ℕ → Text × TokenRecord → Type 0
IsUnexpired now row = now < row.1.family_expires_at

unexpired : (deadline now : ℕ) → leb deadline now ≡ false → now < deadline
unexpired deadline now h = ground arith

drop_expired-old :
    (now : ℕ) (k : Text) (r : TokenRecord) (rows : List (Text × TokenRecord))
    → leb r.family_expires_at now ≡ true
    → (drop_expired now ((k, r) ∷ rows)).0 ≡ (drop_expired now rows).0
unfolding drop_expired
drop_expired-old now k r rows old = rw old refl

drop_expired-live :
    (now : ℕ) (k : Text) (r : TokenRecord) (rows : List (Text × TokenRecord))
    → leb r.family_expires_at now ≡ false
    → (drop_expired now ((k, r) ∷ rows)).0 ≡ (k, r) ∷ (drop_expired now rows).0
unfolding drop_expired
drop_expired-live now k r rows live = rw live refl

drop_expired-All :
    (now : ℕ) (rows : List (Text × TokenRecord)) → All (IsUnexpired now) (drop_expired now rows).0
unfolding drop_expired
drop_expired-All now [] = tt
drop_expired-All now ((k, r) ∷ rows) = elim (Bool-cases (leb r.family_expires_at now)) [
  | inl old ↦
      subst (All (IsUnexpired now)) (sym (drop_expired-old now k r rows old))
        (drop_expired-All now rows)
  | inr live ↦
      subst (All (IsUnexpired now)) (sym (drop_expired-live now k r rows live))
        (unexpired r.family_expires_at now live, drop_expired-All now rows)
]

drop_expired-length :
    (now : ℕ) (rows : List (Text × TokenRecord))
    → (drop_expired now rows).1 + length (drop_expired now rows).0 ≡ length rows
unfolding drop_expired
drop_expired-length now [] = refl
drop_expired-length now ((k, r) ∷ rows) = ground (arith, drop_expired-length now rows)

get-drop_expired :
    (now : ℕ) (k : Text) (r : TokenRecord) (rows : List (Text × TokenRecord))
    → get k rows ≡ some r
    → now < r.family_expires_at
    → get k (drop_expired now rows).0 ≡ some r
unfolding get drop_expired
get-drop_expired now k r [] h live = cc
get-drop_expired now k r ((j, q) ∷ rows) h live = elim (Bool-cases (same_text j k)) [
  | inl hit ↦ ground (arith, hit, h, live, get-drop_expired now k r rows)
  | inr miss ↦ ground (arith, miss, h, live, get-drop_expired now k r rows)
]

-- `deleteExpired` leaves no record whose family deadline has passed, and its answer is the number
-- of records by which the store shrinks.
pub delete_expired_lem :
    (now : ℕ) (s : MemoryStore)
    → All (IsUnexpired now) (delete_expired now s).1.rows
      × ((delete_expired now s).0 + length (delete_expired now s).1.rows ≡ length s.rows)
unfolding delete_expired
delete_expired_lem now s = (drop_expired-All now s.rows, drop_expired-length now s.rows)

-- A record whose family deadline has not passed is found after `deleteExpired` as it was before.
pub find-delete_expired :
    (now : ℕ) (k : Text) (r : TokenRecord) (s : MemoryStore)
    → find_by_selector k s ≡ some r
    → now < r.family_expires_at
    → find_by_selector k (delete_expired now s).1 ≡ some r
unfolding delete_expired find_by_selector
find-delete_expired now k r s h live = get-drop_expired now k r s.rows h live
