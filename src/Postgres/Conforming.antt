-- ===== src/Postgres/Conforming.antt =====
-- That the store over PostgreSQL keeps the contract of `RefreshTokenStore`.
use nebula_token.Common.{
  text, ◌≡◌, refl, sym, ap, ◌∙◌, inl, inr, Bool, true, false, not, ◌&&◌, Option-cases, none, some,
  List, [], ◌∷◌, ◌++◌, if◌then◌else◌, Text, same_text, ◌==◌,
}
use nebula_token.Errors.{Error, Result, ok, throws}
use nebula_token.Store.Rows.{TokenStatus, active, revoked, same_status, TokenRecord, get}
use nebula_token.Store.{
  MemoryStore, find_by_selector, insert, mark_rotated, revoke_if_active, revoke_family, revoke_user,
  revoke_row, rotate_row, sweep, compare_and_set,
}
use nebula_token.Store.Interface.{Answers, Inserts, IsConforming}
use nebula_token.Postgres.Sql.{
  matches, Value, Row, Statement, QueryResult, execute, updated, text_value, matches,
}
use nebula_token.Postgres.Law.{Answered, IsDatabase, received}
use nebula_token.Postgres.Mirrors.{row_of, assign-rotate, assign-revoke}
use nebula_token.Postgres.Tables.{
  rows_of, IsListed, IsListed-append, IsListed-sweep, selected-get, updated-sweep,
}
use nebula_token.Postgres.{
  SqlClient, postgres_store, answer_of, first_record, counts_one, count_rows, status_text,
  record_values, find_statement, insert_statement, mark_statement, revoke_statement,
  revoke_all_statement,
}
use nebula_token.Postgres.Executed.{
  updated-compare_and_set, find_conditions, found, choose_selector, choose_status, choose_active,
  choose_family, choose_user, rows_of-append, insert-execute_free, insert-execute_taken, has-free,
}

not_ok : {e : Error} {a : QueryResult} → throws e ≡ ok a → ⊥
not_ok h = cc

ok_injective : {a b : QueryResult} → ◌≡◌ {A = Result QueryResult} (ok a) (ok b) → a ≡ b
ok_injective h = cc

-- The table lists the records of the memory store, in the same order.
abbrev pub Stands : {S : Type 0} → (S → List Row) → S → MemoryStore → Type 0
Stands table s m = (table s ≡ rows_of m.rows) × IsListed m.rows

module _ {S : Type 0} (db : SqlClient S) (table : S → List Row)
    (database : IsDatabase db (text "selector") table) where
  -- A statement whose answer and table are those of the memory store's method.
  pub settled :
      {A : Type 0} (f : QueryResult → A) (st : Statement) (params : List Value) (res : QueryResult)
      (s : S) (m : MemoryStore) (p : A × MemoryStore) (q : Result QueryResult × S)
      → Stands table s m
      → IsListed p.1.rows
      → execute (text "selector") st params (rows_of m.rows) ≡ (ok res, rows_of p.1.rows)
      → f (received database.shown res) ≡ p.0
      → Answered database.shown (text "selector") table st params s q
      → Answers (Stands table) m p (answer_of f q)
  settled f st params res s m p (ok r, s') (same, l) l' run answer (plain, law, got) =
      let both : (ok plain, table s') ≡ (ok res, rows_of p.1.rows) =
        sym law ∙ ap (execute (text "selector") st params) same ∙ run in
      (
        ap f got
            ∙ ap (λ x. f (received database.shown x)) (ok_injective (ap (λ x. x.0) both))
            ∙ answer,
        (ap (λ x. x.1) both, l'),
      )
  settled f st params res s m p (throws e, s') (same, l) l' run answer (inl kept) =
      inl (kept ∙ same, l)
  settled f st params res s m p (throws e, s') (same, l) l' run answer (inr done) =
      inr (done ∙ ap (λ x. (execute (text "selector") st params x).1) same ∙ ap (λ x. x.1) run, l')

  counts_one-if : (b : Bool) → ((if b then 1 else 0) == 1) ≡ b
  counts_one-if true = refl
  counts_one-if false = refl

  -- An update that compares and sets, and one that sweeps.
  compared :
      (k : Text) (from_status : TokenStatus) (write : TokenRecord → TokenRecord)
      (chosen : Row → Bool) (sets : Row → Row)
      → ((r : TokenRecord)
          → chosen (row_of r) ≡ (same_text r.selector k && same_status r.status from_status))
      → ((r : TokenRecord) → sets (row_of r) ≡ row_of (write r))
      → ((r : TokenRecord) → (write r).selector ≡ r.selector)
      → (m : MemoryStore) → IsListed m.rows
      → (st : Statement) (params : List Value) (s : S)
      → ((rows : List Row)
          → execute (text "selector") st params rows ≡ (
            ok (record { rows = []; row_count = some (updated chosen sets rows).1 }),
            (updated chosen sets rows).0,
          ))
      → table s ≡ rows_of m.rows
      → Answers
          (Stands table)
          m
          (compare_and_set k from_status write m)
          (answer_of counts_one (db.query st params s))
  compared k from_status write chosen sets choice change keeps m l st params s does same =
      let (u, l') =
        updated-compare_and_set k from_status write chosen sets choice change keeps m l in
      settled counts_one st params
        (record {
          rows = [];
          row_count = some (if (compare_and_set k from_status write m).0 then 1 else 0);
        })
        s m (compare_and_set k from_status write m) (db.query st params s) (same, l) l'
        (does (rows_of m.rows) ∙ ap (λ x. (ok (record { rows = []; row_count = some x.1 }), x.0)) u)
        (counts_one-if (compare_and_set k from_status write m).0) (database.answered st params s)

  swept :
      (picks : TokenRecord → Bool) (chosen : Row → Bool) (sets : Row → Row)
      → ((r : TokenRecord) → chosen (row_of r) ≡ (picks r && not (same_status r.status revoked)))
      → ((r : TokenRecord) → sets (row_of r) ≡ row_of (revoke_row r))
      → (m : MemoryStore) → IsListed m.rows
      → (st : Statement) (params : List Value) (s : S)
      → ((rows : List Row)
          → execute (text "selector") st params rows ≡ (
            ok (record { rows = []; row_count = some (updated chosen sets rows).1 }),
            (updated chosen sets rows).0,
          ))
      → table s ≡ rows_of m.rows
      → Answers
          (Stands table)
          m
          ((sweep picks m.rows).1, record { rows = (sweep picks m.rows).0 })
          (answer_of count_rows (db.query st params s))
  swept picks chosen sets choice change m l st params s does same =
      settled count_rows st params (record { rows = []; row_count = some (sweep picks m.rows).1 }) s
        m ((sweep picks m.rows).1, record { rows = (sweep picks m.rows).0 }) (db.query st params s)
        (same, l) (IsListed-sweep picks m.rows l)
        (does (rows_of m.rows)
          ∙ ap (λ x. (ok (record { rows = []; row_count = some x.1 }), x.0))
              (updated-sweep picks chosen sets m.rows choice change))
        refl (database.answered st params s)

  insertion-free :
      (r : TokenRecord) (m : MemoryStore) (s' : S)
      → IsListed m.rows
      → get r.selector m.rows ≡ none
      → table s' ≡ rows_of m.rows ++ (row_of r ∷ [])
      → ((insert r m).0 ≡ ok tt) × Stands table s' (insert r m).1
  unfolding insert
  insertion-free r m s' l free t =
      rw (insert, has-free r.selector m.rows free)
        (refl, (t ∙ sym (rows_of-append m.rows r), IsListed-append m.rows r l free))

  insertion :
      (r : TokenRecord) (m : MemoryStore) (s : S) (q : Result QueryResult × S)
      → Stands table s m
      → Answered database.shown (text "selector") table insert_statement (record_values r) s q
      → Inserts (Stands table) m r (answer_of (λ _. tt) q)
  insertion r m s (ok res, s') (same, l) (plain, law, got) =
      let run =
        sym (ap (execute (text "selector") insert_statement (record_values r)) same) ∙ law in
      elim (Option-cases (get r.selector m.rows)) [
        | inl free ↦
            insertion-free r m s' l free
              (sym (ap (λ x. x.1) run) ∙ ap (λ x. x.1) (insert-execute_free r m.rows l free))
        | inr (w, taken) ↦
            absurd (not_ok (ap (λ x. x.0) (sym (insert-execute_taken r w m.rows l taken) ∙ run)))
      ]
  insertion r m s (throws e, s') (same, l) (inl kept) = inl (kept ∙ same, l)
  insertion r m s (throws e, s') (same, l) (inr done) =
      let left =
        done ∙ ap (λ x. (execute (text "selector") insert_statement (record_values r) x).1) same in
      elim (Option-cases (get r.selector m.rows)) [
        | inl free ↦
            inr
              (insertion-free r m s' l free
                (left ∙ ap (λ x. x.1) (insert-execute_free r m.rows l free))).1
        | inr (w, taken) ↦ inl (left ∙ ap (λ x. x.1) (insert-execute_taken r w m.rows l taken), l)
      ]

  -- The store over a client of PostgreSQL keeps the contract of the interface, if the client
  -- carries out each statement as SQL has it on a table whose primary key is the selector, or
  -- rejects, with the statement carried out or not.
  pub postgres-IsConforming : IsConforming (Stands table) (postgres_store db)
  unfolding find_by_selector mark_rotated revoke_if_active revoke_family revoke_user execute
  postgres-IsConforming = record {
    finds = λ k {s} {m} (same, l).
        settled first_record find_statement (text_value k ∷ []) (found k m) s m (get k m.rows, m) _
          (same, l) l refl
          (selected-get database.shown database.digits k
            (matches find_conditions (text_value k ∷ [])) m.rows (choose_selector k) l
            (found k m).row_count)
          (database.answered find_statement (text_value k ∷ []) s);
    inserts =
        λ r {s} {m} h. insertion r m s _ h (database.answered insert_statement (record_values r) s);
    marks = λ k from_status rotated_at next {s} {m} (same, l).
        compared k from_status (rotate_row rotated_at next) _ _
          (choose_status k from_status rotated_at next)
          (λ r. assign-rotate r k next (status_text from_status) rotated_at) (λ r. refl) m l
          mark_statement _ s (λ rows. refl) same;
    revokes = λ k {s} {m} (same, l).
        compared k active revoke_row _ _ (choose_active k)
          (λ r. assign-revoke r (text_value k ∷ [])) (λ r. refl) m l revoke_statement _ s
          (λ rows. refl) same;
    revokes_family = λ id {s} {m} (same, l).
        swept (λ r. same_text r.family_id id) _ _ (choose_family id)
          (λ r. assign-revoke r (text_value id ∷ [])) m l (revoke_all_statement (text "family_id"))
          _ s (λ rows. refl) same;
    revokes_user = λ id {s} {m} (same, l).
        swept (λ r. same_text r.user_id id) _ _ (choose_user id)
          (λ r. assign-revoke r (text_value id ∷ [])) m l (revoke_all_statement (text "user_id")) _
          s (λ rows. refl) same;
  }
