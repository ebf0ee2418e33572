-- ===== src/Postgres/Sql.antt =====
-- The statements of SQL that packages/typescript/examples/postgres-store.ts sends, and what a
-- database documents of them: which rows they match, write, count and return.
use nebula_token.Common.{
  ℕ, ◌+◌, ◌-◌, Bool, true, false, not, all, Option, none, some, List, [], ◌∷◌, ◌++◌, map, ltb, ◌==◌,
  if◌then◌else◌, Text, same_text, length,
}
use nebula_token.Errors.{Result, ok, throws, store_error}
use nebula_token.Store.Rows.{get, put}

-- A value of a column or a parameter; `number` is one of type integer or bigint.
pub data Value : Type 0 where
  null : Value
  text_value : Text → Value
  number : ℕ → Value

-- A row, by the names of its columns.
abbrev pub Row : Type 0
Row = List (Text × Value)

-- `$1`, `$2`, …, and a quoted literal.
pub data Term : Type 0 where
  param : ℕ → Term
  quoted : Text → Term

-- `column = term`, `column <> term` and `column < term`.
pub data Condition : Type 0 where
  equals : Text → Term → Condition
  differs : Text → Term → Condition
  less : Text → Term → Condition

-- The statements on one table, their conditions joined by AND.
pub data Statement : Type 0 where
  select_from : List Text → List Condition → Statement
  insert_into : List Text → List Term → Statement
  update : List (Text × Term) → List Condition → Statement
  delete_from : List Condition → Statement

-- What `query` resolves to.
pub record QueryResult : Type 0 where
  pub rows : List Row
  pub row_count : Option ℕ

-- A column that a row does not have is read as null.
unfoldable pub column : Text → Row → Value
column name row = elim (get name row) [ none ↦ null | some v ↦ v ]

unfoldable pub nth_value : ℕ → List Value → Value
nth_value n [] = null
nth_value n (v ∷ vs) = if n == 1 then v else nth_value (n - 1) vs

abbrev pub value_of : List Value → Term → Value
value_of params (param n) = nth_value n params
value_of params (quoted t) = text_value t

-- A comparison with null is not true.
abbrev pub same_value : Value → Value → Bool
same_value (text_value a) (text_value b) = same_text a b
same_value (number a) (number b) = a == b
same_value _ _ = false

abbrev pub other_value : Value → Value → Bool
other_value (text_value a) (text_value b) = not (same_text a b)
other_value (number a) (number b) = not (a == b)
other_value _ _ = false

abbrev pub less_value : Value → Value → Bool
less_value (number a) (number b) = ltb a b
less_value _ _ = false

abbrev pub holds : List Value → Row → Condition → Bool
holds params row (equals name t) = same_value (column name row) (value_of params t)
holds params row (differs name t) = other_value (column name row) (value_of params t)
holds params row (less name t) = less_value (column name row) (value_of params t)

abbrev pub matches : List Condition → List Value → Row → Bool
matches conditions params row = all (holds params row) conditions

-- The writes of SET, each to a column that the row has.
unfoldable pub assign : List (Text × Term) → List Value → Row → Row
assign [] params row = row
assign ((name, t) ∷ sets) params row = assign sets params (put name (value_of params t) row)

unfoldable pub selected : List Text → (Row → Bool) → List Row → List Row
selected names chosen [] = []
selected names chosen (row ∷ rows) =
    let rest = selected names chosen rows in
    if chosen row then map (λ name. (name, column name row)) names ∷ rest else rest

unfoldable pub updated : (Row → Bool) → (Row → Row) → List Row → List Row × ℕ
updated chosen write [] = ([], 0)
updated chosen write (row ∷ rows) =
    let rest = updated chosen write rows in
    if chosen row then (write row ∷ rest.0, rest.1 + 1) else (row ∷ rest.0, rest.1)

unfoldable pub deleted : (Row → Bool) → List Row → List Row × ℕ
deleted chosen [] = ([], 0)
deleted chosen (row ∷ rows) =
    let rest = deleted chosen rows in
    if chosen row then (rest.0, rest.1 + 1) else (row ∷ rest.0, rest.1)

unfoldable pub new_row : List Text → List Term → List Value → Row
new_row (name ∷ names) (t ∷ ts) params = (name, value_of params t) ∷ new_row names ts params
new_row _ _ params = []

-- Whether the primary key of a row is taken.
unfoldable pub key_taken : Text → Value → List Row → Bool
key_taken key v [] = false
key_taken key v (row ∷ rows) = if same_value (column key row) v then true else key_taken key v rows

-- The answer of a statement and the rows of the table after it, for a table with this primary key.
unfoldable pub execute : Text → Statement → List Value → List Row → Result QueryResult × List Row
execute key (select_from names conditions) params table =
    let found = selected names (matches conditions params) table in
    (ok (record { rows = found; row_count = some (length found) }), table)
execute key (insert_into names terms) params table =
    let row = new_row names terms params in
    if key_taken key (column key row) table
    then (throws (store_error []), table)
    else (ok (record { rows = []; row_count = some 1 }), table ++ (row ∷ []))
execute key (update sets conditions) params table =
    let (table', n) = updated (matches conditions params) (assign sets params) table in
    (ok (record { rows = []; row_count = some n }), table')
execute key (delete_from conditions) params table =
    let (table', n) = deleted (matches conditions params) table in
    (ok (record { rows = []; row_count = some n }), table')
