-- ===== src/Postgres/Law.antt =====
-- What a client of a database documents, and that the rows of a record keep what it says.
use nebula_token.Common.{
  text, ℕ, ◌≡◌, ◌⊎◌, ◌||◌, Bool, some, List, Text, map, same_text, if◌then◌else◌,
}
use nebula_token.Errors.{Result, ok, throws}
use nebula_token.Postgres.Sql.{Value, text_value, number, Row, Statement, QueryResult, execute}
use nebula_token.Postgres.{SqlClient}
use nebula_token.Scripts.Runtime.Compare.{digits_value}

-- The columns of type bigint in spec/schema/postgres.sql.
abbrev is_bigint : Text → Bool
is_bigint name =
    same_text name (text "created_at")
    || same_text name (text "family_expires_at")
    || same_text name (text "idle_expires_at")
    || same_text name (text "rotated_at")

-- A value as the client returns it: a bigint is printed.
abbrev pub printed : (ℕ → Text) → Value → Value
printed shown (number n) = text_value (shown n)
printed shown v = v

abbrev pub received_row : (ℕ → Text) → Row → Row
received_row shown row = map (λ c. (c.0, if is_bigint c.0 then printed shown c.1 else c.1)) row

abbrev pub received : (ℕ → Text) → QueryResult → QueryResult
received shown res = record { rows = map (received_row shown) res.rows; row_count = res.row_count }

module _ {S : Type 0} where
  -- A query answers as its statement does on the rows of the table, the bigints printed, and leaves
  -- those rows, or it is rejected, and the statement is carried out or not. The rows are listed as
  -- they were inserted.
  abbrev pub Answered :
      (ℕ → Text)
      → Text
      → (S → List Row)
      → Statement
      → List Value
      → S
      → Result QueryResult × S
      → Type 0
  Answered shown key table st params s (ok res, s') =
      (plain : QueryResult) × (execute key st params (table s) ≡ (ok plain, table s'))
      × (res ≡ received shown plain)
  Answered shown key table st params s (throws e, s') =
      (table s' ≡ table s) ⊎ (table s' ≡ (execute key st params (table s)).1)

  pub record IsDatabase (db : SqlClient S) (key : Text) (table : S → List Row) : Type 0 where
    -- How a bigint is printed: in decimal digits that have its value.
    pub shown : ℕ → Text
    pub digits : (n : ℕ) → digits_value 0 (shown n) ≡ some n
    pub answered :
        (st : Statement) (params : List Value) (s : S)
        → Answered shown key table st params s (db.query st params s)
