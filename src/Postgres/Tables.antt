-- ===== src/Postgres/Tables.antt =====
-- A table whose rows hold the records of a memory store: what selections and updates of it do, by
-- induction on the rows.
use nebula_token.Common.{
  text, ℕ, ◌≡◌, refl, sym, ap, ◌∙◌, inl, inr, Bool, true, false, not, ◌&&◌, Bool-cases, Option,
  none, some, List, [], ◌∷◌, ◌++◌, map, arith, Text, same_text, same_text_iff,
}
use mathlib.Core.Path.{subst}
use nebula_token.Store.Rows.{
  TokenStatus, revoked, same_status, TokenRecord, get, put, has, get-append_new,
}
use nebula_token.Store.{revoke_row, sweep}
use nebula_token.Postgres.Sql.{Row, selected, updated, key_taken, text_value}
use nebula_token.Postgres.{cols, first_record}
use nebula_token.Postgres.Law.{received}
use nebula_token.Scripts.Runtime.Compare.{digits_value}
use nebula_token.Postgres.Mirrors.{row_of, row_to_record-row_of, selector-row_of}

abbrev pub rows_of : List (Text × TokenRecord) → List Row
rows_of rows = map (λ row. row_of row.1) rows

-- Each record stands under its selector, and under no other key.
abbrev pub IsListed : List (Text × TokenRecord) → Type 0
IsListed [] = Unit
IsListed ((k, r) ∷ rows) = (k ≡ r.selector) × (get k rows ≡ none) × IsListed rows

pub IsListed-append :
    (rows : List (Text × TokenRecord)) (r : TokenRecord)
    → IsListed rows
    → get r.selector rows ≡ none
    → IsListed (rows ++ ((r.selector, r) ∷ []))
unfolding get
IsListed-append [] r l free = (refl, refl, tt)
IsListed-append ((k, q) ∷ rows) r (e, apart, l) free = (
  e,
  ground (
    arith,
    get-append_new r.selector k r rows,
    same_text_iff r.selector k,
    same_text_iff k r.selector,
  ),
  IsListed-append rows r l (ground arith),
)

get-put_lacking :
    (k j : Text) (v : TokenRecord) (rows : List (Text × TokenRecord))
    → get k rows ≡ none
    → get k (put j v rows) ≡ none
unfolding get put
get-put_lacking k j v [] h = refl
get-put_lacking k j v ((i, w) ∷ rows) h = ground (arith, get-put_lacking k j v rows)

pub IsListed-put :
    (k : Text) (r : TokenRecord) (rows : List (Text × TokenRecord))
    → r.selector ≡ k
    → IsListed rows
    → IsListed (put k r rows)
unfolding put
IsListed-put k r [] e l = tt
IsListed-put k r ((j, q) ∷ rows) e (d, apart, l) = elim (Bool-cases (same_text j k)) [
  | inl here ↦ rw here ((same_text_iff j k).0 here ∙ sym e, apart, l)
  | inr miss ↦ rw miss (d, get-put_lacking j k r rows apart, IsListed-put k r rows e l)
]

get-sweep_lacking :
    (chosen : TokenRecord → Bool) (k : Text) (rows : List (Text × TokenRecord))
    → get k rows ≡ none
    → get k (sweep chosen rows).0 ≡ none
unfolding get sweep
get-sweep_lacking chosen k [] h = refl
get-sweep_lacking chosen k ((j, r) ∷ rows) h = ground (arith, get-sweep_lacking chosen k rows)

pub IsListed-sweep :
    (chosen : TokenRecord → Bool) (rows : List (Text × TokenRecord))
    → IsListed rows
    → IsListed (sweep chosen rows).0
unfolding sweep
IsListed-sweep chosen [] l = tt
IsListed-sweep chosen ((k, r) ∷ rows) (e, apart, l) =
    elim (Bool-cases (chosen r && not (same_status r.status revoked))) [
      | inl b ↦ rw b (e, get-sweep_lacking chosen k rows apart, IsListed-sweep chosen rows l)
      | inr b ↦ rw b (e, get-sweep_lacking chosen k rows apart, IsListed-sweep chosen rows l)
    ]

-- `SELECT … WHERE selector = $1`: its first row is the record, if there is one.
pub selected-get :
    (shown : ℕ → Text)
    → ((n : ℕ) → digits_value 0 (shown n) ≡ some n)
    → (k : Text) (chosen : Row → Bool) (rows : List (Text × TokenRecord))
    → ((r : TokenRecord) → chosen (row_of r) ≡ same_text r.selector k)
    → IsListed rows
    → (n : Option ℕ)
    → first_record
        (received shown (record { rows = selected cols chosen (rows_of rows); row_count = n }))
      ≡ get k rows
unfolding selected get
selected-get shown digits k chosen [] h l n = refl
selected-get shown digits k chosen ((j, r) ∷ rows) h (e, apart, l) n =
    elim (Bool-cases (same_text r.selector k)) [
      | inl b ↦ rw (h r, e, b) (ap some (row_to_record-row_of shown digits r))
      | inr b ↦ rw (h r, e, b) (selected-get shown digits k chosen rows h l n)
    ]

-- The primary key of a new row is taken just where the record's selector is.
pub key_taken-has :
    (k : Text) (rows : List (Text × TokenRecord))
    → IsListed rows
    → key_taken (text "selector") (text_value k) (rows_of rows) ≡ has k rows
unfolding key_taken get
key_taken-has k [] l = refl
key_taken-has k ((j, r) ∷ rows) (e, apart, l) =
    rw (selector-row_of r, sym e) (ground (arith, key_taken-has k rows l))

-- An update of the record at a key, if it has the status: there is at most one such row.
module _ (k : Text) (from_status : TokenStatus) (write : TokenRecord → TokenRecord)
    (chosen : Row → Bool) (sets : Row → Row)
    (choice : (r : TokenRecord)
      → chosen (row_of r) ≡ (same_text r.selector k && same_status r.status from_status))
    (change : (r : TokenRecord) → sets (row_of r) ≡ row_of (write r)) where
  pub updated-none :
      (rows : List (Text × TokenRecord))
      → IsListed rows
      → get k rows ≡ none
      → updated chosen sets (rows_of rows) ≡ (rows_of rows, 0)
  unfolding updated get
  updated-none [] l h = refl
  updated-none ((j, r) ∷ rows) (e, apart, l) h = elim (Bool-cases (same_text r.selector k)) [
    | inl b ↦ ground (arith, e, b)
    | inr b ↦ rw (choice r, b, updated-none rows l (ground (arith, e, b))) refl
  ]

  -- What stands under the key, and that no later row does.
  head-here :
      (j : Text) (r q : TokenRecord) (rows : List (Text × TokenRecord))
      → j ≡ r.selector
      → get j rows ≡ none
      → same_text r.selector k ≡ true
      → get k ((j, r) ∷ rows) ≡ some q
      → (r ≡ q) × (get k rows ≡ none)
  unfolding get
  head-here j r q rows e apart here h =
      let same : j ≡ k = e ∙ (same_text_iff r.selector k).0 here in
      (ground (arith, e, here, h), subst (λ x. get x rows ≡ none) same apart)

  pub updated-other :
      (rows : List (Text × TokenRecord)) (q : TokenRecord)
      → IsListed rows
      → get k rows ≡ some q
      → same_status q.status from_status ≡ false
      → updated chosen sets (rows_of rows) ≡ (rows_of rows, 0)
  unfolding updated get
  updated-other [] q l h miss = cc
  updated-other ((j, r) ∷ rows) q (e, apart, l) h miss =
      elim (Bool-cases (same_text r.selector k)) [
        | inl b ↦
            let (same, free) = head-here j r q rows e apart b h in
            rw (choice r, b, same, miss, updated-none rows l free) refl
        | inr b ↦ rw (choice r, b, updated-other rows q l (ground (arith, e, b)) miss) refl
      ]

  pub updated-applied :
      (rows : List (Text × TokenRecord)) (q : TokenRecord)
      → IsListed rows
      → get k rows ≡ some q
      → same_status q.status from_status ≡ true
      → updated chosen sets (rows_of rows) ≡ (rows_of (put k (write q) rows), 1)
  unfolding updated get put
  updated-applied [] q l h hit = cc
  updated-applied ((j, r) ∷ rows) q (e, apart, l) h hit =
      elim (Bool-cases (same_text r.selector k)) [
        | inl b ↦
            let (same, free) = head-here j r q rows e apart b h in
            rw (choice r, e, b, same, hit, change q, updated-none rows l free) refl
        | inr b ↦ rw (choice r, e, b, updated-applied rows q l (ground (arith, e, b)) hit) refl
      ]

-- An update of all the records that a sweep revokes.
pub updated-sweep :
    (picks : TokenRecord → Bool) (chosen : Row → Bool) (sets : Row → Row)
    (rows : List (Text × TokenRecord))
    → ((r : TokenRecord) → chosen (row_of r) ≡ (picks r && not (same_status r.status revoked)))
    → ((r : TokenRecord) → sets (row_of r) ≡ row_of (revoke_row r))
    → updated chosen sets (rows_of rows) ≡ (rows_of (sweep picks rows).0, (sweep picks rows).1)
unfolding updated sweep
updated-sweep picks chosen sets [] h w = refl
updated-sweep picks chosen sets ((k, r) ∷ rows) h w =
    elim (Bool-cases (picks r && not (same_status r.status revoked))) [
      | inl b ↦ rw (h r, b, w r, updated-sweep picks chosen sets rows h w) refl
      | inr b ↦ rw (h r, b, updated-sweep picks chosen sets rows h w) refl
    ]
