-- ===== src/Postgres.antt =====
-- packages/typescript/examples/postgres-store.ts: the store over a client of PostgreSQL, which is a
-- parameter. `pg` returns a column of type bigint as text, whose digits `Number` reads.
pub mod Sql
pub mod Law
pub mod Mirrors
pub mod Tables
pub mod Executed
pub mod Conforming
pub mod Expiry
use nebula_token.Common.{
  text, ℕ, ◌==◌, Bool, false, Option, none, some, List, [], ◌∷◌, if◌then◌else◌, Text, same_text,
}
use nebula_token.Errors.{Result, ok, throws}
use nebula_token.Store.Rows.{TokenStatus, active, rotated, revoked, TokenRecord}
use nebula_token.Store.Interface.{RefreshTokenStore}
use nebula_token.Scripts.Runtime.Compare.{digits_value}
use Sql.{
  Value, null, text_value, number, Row, Term, param, quoted, equals, differs, less, Statement,
  select_from, insert_into, update, delete_from, QueryResult, column,
}

-- `SqlClient`: `query`, which may be rejected.
pub record SqlClient (S : Type 0) : Type 0 where
  pub query : Statement → List Value → S → Result QueryResult × S

-- `COLS`
abbrev pub cols : List Text
cols =
    text "selector"
    ∷ text "verifier_hash"
    ∷ text "kid"
    ∷ text "family_id"
    ∷ text "generation"
    ∷ text "user_id"
    ∷ text "device_id_hash"
    ∷ text "created_at"
    ∷ text "family_expires_at"
    ∷ text "idle_expires_at"
    ∷ text "status"
    ∷ text "rotated_at"
    ∷ text "replaced_by_selector"
    ∷ []

-- The strings of the type `TokenStatus`.
abbrev pub status_text : TokenStatus → Text
status_text active = text "active"
status_text rotated = text "rotated"
status_text revoked = text "revoked"

-- `as string`, for a column that is not null.
abbrev pub as_text : Value → Text
as_text (text_value t) = t
as_text _ = []

-- `as TokenStatus`, for a column that holds one of its strings.
abbrev pub as_status : Value → TokenStatus
as_status v =
    if same_text (as_text v) (text "active")
    then active
    else if same_text (as_text v) (text "rotated")
    then rotated
    else revoked

-- `Number(…)`: a number as it is, a text of decimal digits by its value, and null as 0. Any other
-- text, of which JavaScript makes NaN, is outside a column of type bigint, and 0 here.
abbrev pub as_number : Value → ℕ
as_number (number n) = n
as_number (text_value t) = elim (digits_value 0 t) [ none ↦ 0 | some n ↦ n ]
as_number null = 0

-- `(… as string | null) ?? null`
abbrev pub as_optional_text : Value → Option Text
as_optional_text null = none
as_optional_text v = some (as_text v)

-- `r.rotated_at === null ? null : Number(r.rotated_at)`
abbrev pub as_optional_number : Value → Option ℕ
as_optional_number null = none
as_optional_number v = some (as_number v)

unfoldable pub row_to_record : Row → TokenRecord
row_to_record r = record {
  selector = as_text (column (text "selector") r);
  verifier_hash = as_text (column (text "verifier_hash") r);
  kid = as_text (column (text "kid") r);
  family_id = as_text (column (text "family_id") r);
  generation = as_number (column (text "generation") r);
  user_id = as_text (column (text "user_id") r);
  device_id_hash = as_optional_text (column (text "device_id_hash") r);
  created_at = as_number (column (text "created_at") r);
  family_expires_at = as_number (column (text "family_expires_at") r);
  idle_expires_at = as_number (column (text "idle_expires_at") r);
  status = as_status (column (text "status") r);
  rotated_at = as_optional_number (column (text "rotated_at") r);
  replaced_by_selector = as_optional_text (column (text "replaced_by_selector") r);
}

-- A nullable parameter.
abbrev pub optional_text : Option Text → Value
optional_text none = null
optional_text (some t) = text_value t

abbrev pub optional_number : Option ℕ → Value
optional_number none = null
optional_number (some n) = number n

-- The parameters of the insertion.
abbrev pub record_values : TokenRecord → List Value
record_values r =
    text_value r.selector
    ∷ text_value r.verifier_hash
    ∷ text_value r.kid
    ∷ text_value r.family_id
    ∷ number r.generation
    ∷ text_value r.user_id
    ∷ optional_text r.device_id_hash
    ∷ number r.created_at
    ∷ number r.family_expires_at
    ∷ number r.idle_expires_at
    ∷ text_value (status_text r.status)
    ∷ optional_number r.rotated_at
    ∷ optional_text r.replaced_by_selector
    ∷ []

-- `rows[0] ? rowToRecord(rows[0]) : null`
abbrev pub first_record : QueryResult → Option TokenRecord
first_record res = elim res.rows [ [] ↦ none | row ∷ rows ↦ some (row_to_record row) ]

-- `rowCount === 1`
abbrev pub counts_one : QueryResult → Bool
counts_one res = elim res.row_count [ none ↦ false | some n ↦ n == 1 ]

-- `rowCount ?? 0`
abbrev pub count_rows : QueryResult → ℕ
count_rows res = elim res.row_count [ none ↦ 0 | some n ↦ n ]

-- What a method does with the result of its query; a rejection is not caught.
abbrev pub answer_of : {S A : Type 0} → (QueryResult → A) → Result QueryResult × S → Result A × S
answer_of f (ok res, s) = (ok (f res), s)
answer_of f (throws e, s) = (throws e, s)

-- The statements.
abbrev pub find_statement : Statement
find_statement = select_from cols (equals (text "selector") (param 1) ∷ [])

abbrev pub insert_statement : Statement
insert_statement = insert_into cols (
    param 1
    ∷ param 2
    ∷ param 3
    ∷ param 4
    ∷ param 5
    ∷ param 6
    ∷ param 7
    ∷ param 8
    ∷ param 9
    ∷ param 10
    ∷ param 11
    ∷ param 12
    ∷ param 13
    ∷ [])

abbrev pub mark_statement : Statement
mark_statement =
    update
      ((text "status", quoted (text "rotated"))
        ∷ (text "rotated_at", param 2)
        ∷ (text "replaced_by_selector", param 3)
        ∷ [])
      (equals (text "selector") (param 1) ∷ equals (text "status") (param 4) ∷ [])

abbrev pub revoke_statement : Statement
revoke_statement =
    update ((text "status", quoted (text "revoked")) ∷ [])
      (equals (text "selector") (param 1) ∷ equals (text "status") (quoted (text "active")) ∷ [])

-- `family_id` or `user_id`
abbrev pub revoke_all_statement : Text → Statement
revoke_all_statement name =
    update ((text "status", quoted (text "revoked")) ∷ [])
      (equals name (param 1) ∷ differs (text "status") (quoted (text "revoked")) ∷ [])

abbrev pub delete_statement : Statement
delete_statement = delete_from (less (text "family_expires_at") (param 1) ∷ [])

-- `PostgresRefreshTokenStore`
module _ {S : Type 0} (db : SqlClient S) where
  abbrev pub postgres_store : RefreshTokenStore S
  postgres_store = record {
    find_by_selector =
        λ selector s. answer_of first_record (db.query find_statement (text_value selector ∷ []) s);
    insert = λ r s. answer_of (λ _. tt) (db.query insert_statement (record_values r) s);
    mark_rotated = λ selector from_status rotated_at next s. answer_of counts_one (
        db.query mark_statement
          (text_value selector
            ∷ number rotated_at
            ∷ text_value next
            ∷ text_value (status_text from_status)
            ∷ [])
          s);
    revoke_if_active =
        λ selector s. answer_of counts_one (db.query revoke_statement (text_value selector ∷ []) s);
    revoke_family = λ family_id s.
        answer_of count_rows
          (db.query (revoke_all_statement (text "family_id")) (text_value family_id ∷ []) s);
    revoke_user = λ user_id s.
        answer_of count_rows
          (db.query (revoke_all_statement (text "user_id")) (text_value user_id ∷ []) s);
  }

  -- `deleteExpired`, which is not in the interface.
  unfoldable pub delete_expired : ℕ → S → Result ℕ × S
  delete_expired now s = answer_of count_rows (db.query delete_statement (number now ∷ []) s)
