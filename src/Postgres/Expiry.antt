-- ===== src/Postgres/Expiry.antt =====
-- `deleteExpired` of packages/typescript/examples/postgres-store.ts against that of the memory store.
use nebula_token.Common.{
  ℕ, ◌+◌, ◌≡◌, refl, ap, inl, inr, Bool-cases, none, some, List, [], ◌∷◌, arith, leb, Bool, text,
  Text, same_text,
}
use nebula_token.Errors.{ok}
use nebula_token.Store.Rows.{TokenRecord, get}
use nebula_token.Store.{MemoryStore, drop_expired}
use nebula_token.Store
use nebula_token.Store.Interface.{Answers}
use nebula_token.Postgres.Sql.{
  Row, number, less, param, matches, deleted, column, execute, nth_value, new_row,
}
use nebula_token.Postgres.Law.{IsDatabase}
use nebula_token.Postgres.Mirrors.{row_of}
use nebula_token.Postgres.Tables.{rows_of, IsListed}
use nebula_token.Postgres.Conforming.{Stands, settled}
use nebula_token.Postgres.{SqlClient, delete_statement, count_rows, delete_expired}

-- `family_expires_at < $1`
abbrev expired : ℕ → Row → Bool
expired now = matches (less (text "family_expires_at") (param 1) ∷ []) (number now ∷ [])

expired-row_of :
    (now : ℕ) (r : TokenRecord) → expired (now + 1) (row_of r) ≡ leb r.family_expires_at now
unfolding row_of new_row nth_value column get same_text
expired-row_of now r = ground arith

deleted-drop_expired :
    (now : ℕ) (rows : List (Text × TokenRecord))
    → deleted (expired (now + 1)) (rows_of rows)
      ≡ (rows_of (drop_expired now rows).0, (drop_expired now rows).1)
unfolding deleted drop_expired
deleted-drop_expired now [] = refl
deleted-drop_expired now ((k, r) ∷ rows) = elim (Bool-cases (leb r.family_expires_at now)) [
  | inl b ↦ rw (expired-row_of now r, b, deleted-drop_expired now rows) refl
  | inr b ↦ rw (expired-row_of now r, b, deleted-drop_expired now rows) refl
]

get-drop_lacking :
    (now : ℕ) (k : Text) (rows : List (Text × TokenRecord))
    → get k rows ≡ none
    → get k (drop_expired now rows).0 ≡ none
unfolding get drop_expired
get-drop_lacking now k [] h = refl
get-drop_lacking now k ((j, r) ∷ rows) h = ground (arith, get-drop_lacking now k rows)

IsListed-drop_expired :
    (now : ℕ) (rows : List (Text × TokenRecord))
    → IsListed rows
    → IsListed (drop_expired now rows).0
unfolding drop_expired
IsListed-drop_expired now [] l = tt
IsListed-drop_expired now ((k, r) ∷ rows) (e, apart, l) =
    elim (Bool-cases (leb r.family_expires_at now)) [
      | inl b ↦ rw b (IsListed-drop_expired now rows l)
      | inr b ↦ rw b (e, get-drop_lacking now k rows apart, IsListed-drop_expired now rows l)
    ]

-- `deleteExpired` of the store over PostgreSQL, called one second later, answers and leaves what
-- that of the memory store does, or is rejected, with the rows deleted or not: a record whose
-- family deadline is the very second of the call stays.
pub delete_expired-Answers :
    {S : Type 0} (db : SqlClient S) (table : S → List Row)
    → IsDatabase db (text "selector") table
    → (now : ℕ) (s : S) (m : MemoryStore) → Stands table s m
    → Answers (Stands table) m (Store.delete_expired now m) (delete_expired db (now + 1) s)
unfolding delete_expired Store.delete_expired execute
delete_expired-Answers db table database now s m h =
    settled db table database count_rows delete_statement (number (now + 1) ∷ [])
      (record { rows = []; row_count = some (drop_expired now m.rows).1 }) s m
      ((drop_expired now m.rows).1, record { rows = (drop_expired now m.rows).0 }) _ h
      (IsListed-drop_expired now m.rows h.1)
      (ap (λ x. (ok (record { rows = []; row_count = some x.1 }), x.0))
        (deleted-drop_expired now m.rows))
      refl (database.answered delete_statement (number (now + 1) ∷ []) s)
