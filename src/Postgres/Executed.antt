-- ===== src/Postgres/Executed.antt =====
-- What each statement of the store does on a table that holds the records of a memory store.
use nebula_token.Common.{
  text, ℕ, ◌≡◌, refl, ap, ◌∙◌, inl, inr, Bool, true, false, not, ◌&&◌, Bool-cases, Option-cases,
  none, some, List, [], ◌∷◌, ◌++◌, arith, if◌then◌else◌, Text, same_text, same_text_iff, length,
}
use nebula_token.Errors.{ok, throws, store_error}
use nebula_token.Store.Rows.{TokenStatus, active, revoked, same_status, TokenRecord, get, has}
use nebula_token.Store.{MemoryStore, compare_and_set}
use nebula_token.Postgres.Sql.{
  Condition, equals, differs, param, quoted, matches, nth_value, Row, QueryResult, execute,
  selected, updated, text_value, Condition, equals, differs, param, quoted, matches, nth_value,
  number,
}
use nebula_token.Postgres.Mirrors.{
  row_of, selector-row_of, status-row_of, family-row_of, user-row_of, same_text-status,
}
use nebula_token.Postgres.Tables.{
  rows_of, IsListed, IsListed-put, key_taken-has, updated-none, updated-other, updated-applied,
}
use nebula_token.Postgres.{cols, status_text, record_values, insert_statement}

selector_of_listed :
    (k : Text) (rows : List (Text × TokenRecord)) (r : TokenRecord)
    → IsListed rows
    → get k rows ≡ some r
    → r.selector ≡ k
unfolding get
selector_of_listed k [] r l h = cc
selector_of_listed k ((j, q) ∷ rows) r (e, apart, l) h =
    ground (arith, same_text_iff j k, selector_of_listed k rows r l)

-- A compare-and-set, as an update of the table.
module _ (k : Text) (from_status : TokenStatus) (write : TokenRecord → TokenRecord)
    (chosen : Row → Bool) (sets : Row → Row)
    (choice : (r : TokenRecord)
      → chosen (row_of r) ≡ (same_text r.selector k && same_status r.status from_status))
    (change : (r : TokenRecord) → sets (row_of r) ≡ row_of (write r))
    (keeps : (r : TokenRecord) → (write r).selector ≡ r.selector) where
  pub updated-compare_and_set :
      (m : MemoryStore)
      → IsListed m.rows
      → (updated chosen sets (rows_of m.rows) ≡ (
        rows_of (compare_and_set k from_status write m).1.rows,
        if (compare_and_set k from_status write m).0 then 1 else 0,
      ))
        × IsListed (compare_and_set k from_status write m).1.rows
  unfolding compare_and_set
  updated-compare_and_set m l = elim (Option-cases (get k m.rows)) [
    | inl h ↦
        rw (compare_and_set, h)
          (updated-none k from_status write chosen sets choice change m.rows l h, l)
    | inr (r, h) ↦ elim (Bool-cases (same_status r.status from_status)) [
      | inl hit ↦
          rw (compare_and_set, h, hit)
            (
              updated-applied k from_status write chosen sets choice change m.rows r l h hit,
              IsListed-put k (write r) m.rows (keeps r ∙ selector_of_listed k m.rows r l h) l,
            )
      | inr miss ↦
          rw (compare_and_set, h, miss)
            (updated-other k from_status write chosen sets choice change m.rows r l h miss, l)
    ]
  ]

-- The rows that the conditions of the statements match.
abbrev pub find_conditions : List Condition
find_conditions = equals (text "selector") (param 1) ∷ []

pub choose_selector :
    (k : Text) (r : TokenRecord)
    → matches find_conditions (text_value k ∷ []) (row_of r) ≡ same_text r.selector k
unfolding nth_value
choose_selector k r = rw (selector-row_of r) (ground arith)

pub choose_status :
    (k : Text) (from_status : TokenStatus) (rotated_at : ℕ) (next : Text) (r : TokenRecord)
    → matches
        (equals (text "selector") (param 1) ∷ equals (text "status") (param 4) ∷ [])
        (text_value k
          ∷ number rotated_at
          ∷ text_value next
          ∷ text_value (status_text from_status)
          ∷ [])
        (row_of r)
      ≡ (same_text r.selector k && same_status r.status from_status)
unfolding nth_value
choose_status k from_status rotated_at next r =
    rw (selector-row_of r, status-row_of r, same_text-status r.status from_status) (ground arith)

pub choose_active :
    (k : Text) (r : TokenRecord)
    → matches
        (equals (text "selector") (param 1) ∷ equals (text "status") (quoted (text "active")) ∷ [])
        (text_value k ∷ [])
        (row_of r)
      ≡ (same_text r.selector k && same_status r.status active)
unfolding nth_value
choose_active k r =
    rw (selector-row_of r, status-row_of r, same_text-status r.status active) (ground arith)

pub choose_family :
    (id : Text) (r : TokenRecord)
    → matches
        (equals (text "family_id") (param 1)
          ∷ differs (text "status") (quoted (text "revoked"))
          ∷ [])
        (text_value id ∷ [])
        (row_of r)
      ≡ (same_text r.family_id id && not (same_status r.status revoked))
unfolding nth_value
choose_family id r =
    rw (family-row_of r, status-row_of r, same_text-status r.status revoked) (ground arith)

pub choose_user :
    (id : Text) (r : TokenRecord)
    → matches
        (equals (text "user_id") (param 1) ∷ differs (text "status") (quoted (text "revoked")) ∷ [])
        (text_value id ∷ [])
        (row_of r)
      ≡ (same_text r.user_id id && not (same_status r.status revoked))
unfolding nth_value
choose_user id r =
    rw (user-row_of r, status-row_of r, same_text-status r.status revoked) (ground arith)

pub rows_of-append :
    (rows : List (Text × TokenRecord)) (r : TokenRecord)
    → rows_of (rows ++ ((r.selector, r) ∷ [])) ≡ rows_of rows ++ (row_of r ∷ [])
rows_of-append [] r = refl
rows_of-append (row ∷ rows) r = ap (λ x. row_of row.1 ∷ x) (rows_of-append rows r)

pub has-free :
    (k : Text) (rows : List (Text × TokenRecord)) → get k rows ≡ none → has k rows ≡ false
has-free k rows h = ground arith

has-taken :
    (k : Text) (w : TokenRecord) (rows : List (Text × TokenRecord))
    → get k rows ≡ some w
    → has k rows ≡ true
has-taken k w rows h = ground arith

-- The rows that the selection finds.
abbrev pub found : Text → MemoryStore → QueryResult
found k m =
    let rows = selected cols (matches find_conditions (text_value k ∷ [])) (rows_of m.rows) in
    record { rows = rows; row_count = some (length rows) }

-- The insertion, where the selector is free and where it is taken.
pub insert-execute_free :
    (r : TokenRecord) (rows : List (Text × TokenRecord))
    → IsListed rows
    → get r.selector rows ≡ none
    → execute (text "selector") insert_statement (record_values r) (rows_of rows)
      ≡ (ok (record { rows = []; row_count = some 1 }), rows_of rows ++ (row_of r ∷ []))
unfolding execute row_of
insert-execute_free r rows l free =
    rw (selector-row_of r, key_taken-has r.selector rows l, has-free r.selector rows free) refl

pub insert-execute_taken :
    (r w : TokenRecord) (rows : List (Text × TokenRecord))
    → IsListed rows
    → get r.selector rows ≡ some w
    → execute (text "selector") insert_statement (record_values r) (rows_of rows)
      ≡ (throws (store_error []), rows_of rows)
unfolding execute row_of
insert-execute_taken r w rows l taken =
    rw (selector-row_of r, key_taken-has r.selector rows l, has-taken r.selector w rows taken) refl
