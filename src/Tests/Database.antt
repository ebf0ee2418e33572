-- ===== src/Tests/Database.antt =====
-- Witnesses of the theorems on the PostgreSQL store: a client that carries the statements out on a
-- list of rows.
use nebula_token.Common.{text, ◌≡◌, refl, same_text, sym, ap, inr, List}
use nebula_token.Errors.{Result, ok, throws}
use nebula_token.Store.Interface.{Answers, IsConforming}
use nebula_token.Postgres.Sql.{Row, Value, Statement, QueryResult, execute}
use nebula_token.Postgres.Law.{Answered, IsDatabase, received}
use nebula_token.Postgres.Conforming.{Stands, postgres-IsConforming}
use nebula_token.Postgres.Tables.{rows_of}
use nebula_token.Postgres.Expiry.{delete_expired-Answers}
use nebula_token.Postgres.{SqlClient, postgres_store, delete_expired}
use nebula_token.Store.Rows.{get}
use nebula_token.Store
use nebula_token.Tests.Parts.{aged}
use nebula_token.Tests.Decimal.{shown, digits_value-shown}

-- A client prints the bigints of the rows that it returns.
abbrev delivered : Result QueryResult × List Row → Result QueryResult × List Row
delivered (ok res, rows) = (ok (received shown res), rows)
delivered (throws e, rows) = (throws e, rows)

abbrev rows_client : SqlClient (List Row)
rows_client = record {
  query = λ st params rows. delivered (execute (text "selector") st params rows);
}

abbrev all_rows : List Row → List Row
all_rows rows = rows

executed-Answered :
    (st : Statement) (params : List Value) (rows : List Row) (q : Result QueryResult × List Row)
    → execute (text "selector") st params rows ≡ q
    → Answered shown (text "selector") all_rows st params rows (delivered q)
executed-Answered st params rows (ok res, rows') h = (res, h, refl)
executed-Answered st params rows (throws e, rows') h = inr (ap (λ x. x.1) (sym h))

rows_client-IsDatabase : IsDatabase rows_client (text "selector") all_rows
rows_client-IsDatabase = record {
  shown = shown;
  digits = digits_value-shown;
  answered = λ st params rows. executed-Answered st params rows _ refl;
}

postgres-IsConforming_example : IsConforming (Stands all_rows) (postgres_store rows_client)
postgres-IsConforming_example = postgres-IsConforming rows_client all_rows rows_client-IsDatabase

-- The table that holds the two records.
aged-Stands : Stands all_rows (rows_of aged.rows) aged
unfolding get same_text
aged-Stands = (refl, (refl, refl, (refl, refl, tt)))

delete_expired-Answers_example :
    Answers
      (Stands all_rows)
      aged
      (Store.delete_expired 6000 aged)
      (delete_expired rows_client 6001 (rows_of aged.rows))
delete_expired-Answers_example =
    delete_expired-Answers rows_client all_rows rows_client-IsDatabase 6000 (rows_of aged.rows) aged
      aged-Stands
