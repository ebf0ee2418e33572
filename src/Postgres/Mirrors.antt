-- ===== src/Postgres/Mirrors.antt =====
-- The rows of a table that hold the records of a memory store, and what each statement of the
-- store does to them.
use nebula_token.Common.{
  text, ℕ, ◌≡◌, refl, ap, Option, none, some, List, [], ◌∷◌, map, Text, same_text,
}
use nebula_token.Store.Rows.{
  TokenStatus, active, rotated, revoked, same_status, TokenRecord, get, put,
}
use nebula_token.Store.{rotate_row, revoke_row}
use nebula_token.Postgres.Sql.{
  Value, text_value, number, Row, Term, assign, new_row, column, nth_value, param, quoted,
}
use nebula_token.Postgres.{
  cols, as_status, as_number, as_optional_text, as_optional_number, optional_text, optional_number,
  row_to_record, record_values, status_text,
}
use nebula_token.Postgres.Law.{printed, received_row}
use nebula_token.Scripts.Runtime.Compare.{digits_value}

abbrev pub params_of : List Term
params_of =
    param 1
    ∷ param 2
    ∷ param 3
    ∷ param 4
    ∷ param 5
    ∷ param 6
    ∷ param 7
    ∷ param 8
    ∷ param 9
    ∷ param 10
    ∷ param 11
    ∷ param 12
    ∷ param 13
    ∷ []

-- The row that an insertion of the record writes.
unfoldable pub row_of : TokenRecord → Row
row_of r = new_row cols params_of (record_values r)

as_status-text : (st : TokenStatus) → as_status (text_value (status_text st)) ≡ st
unfolding same_text
as_status-text active = refl
as_status-text rotated = refl
as_status-text revoked = refl

as_optional_text-optional : (o : Option Text) → as_optional_text (optional_text o) ≡ o
as_optional_text-optional none = refl
as_optional_text-optional (some t) = refl

module _ (shown : ℕ → Text) (digits : (n : ℕ) → digits_value 0 (shown n) ≡ some n) where
  as_number-printed : (n : ℕ) → as_number (printed shown (number n)) ≡ n
  as_number-printed n = rw (digits n, as_number) refl

  as_optional_number-printed :
      (o : Option ℕ) → as_optional_number (printed shown (optional_number o)) ≡ o
  as_optional_number-printed none = refl
  as_optional_number-printed (some n) = ap some (as_number-printed n)

  -- A record is read back as it was written, from the printed bigints.
  pub row_to_record-row_of :
      (r : TokenRecord)
      → row_to_record (received_row shown (map (λ name. (name, column name (row_of r))) cols)) ≡ r
  unfolding row_to_record row_of new_row nth_value column get same_text
  row_to_record-row_of r = λ i. record r {
    created_at = as_number-printed r.created_at i;
    family_expires_at = as_number-printed r.family_expires_at i;
    idle_expires_at = as_number-printed r.idle_expires_at i;
    status = as_status-text r.status i;
    device_id_hash = as_optional_text-optional r.device_id_hash i;
    rotated_at = as_optional_number-printed r.rotated_at i;
    replaced_by_selector = as_optional_text-optional r.replaced_by_selector i;
  }

pub selector-row_of :
    (r : TokenRecord) → column (text "selector") (row_of r) ≡ text_value r.selector
unfolding row_of new_row nth_value column get same_text
selector-row_of r = refl

pub status-row_of :
    (r : TokenRecord) → column (text "status") (row_of r) ≡ text_value (status_text r.status)
unfolding row_of new_row nth_value column get same_text
status-row_of r = refl

pub family-row_of :
    (r : TokenRecord) → column (text "family_id") (row_of r) ≡ text_value r.family_id
unfolding row_of new_row nth_value column get same_text
family-row_of r = refl

pub user-row_of : (r : TokenRecord) → column (text "user_id") (row_of r) ≡ text_value r.user_id
unfolding row_of new_row nth_value column get same_text
user-row_of r = refl

pub same_text-status :
    (a b : TokenStatus) → same_text (status_text a) (status_text b) ≡ same_status a b
unfolding same_text
same_text-status active active = refl
same_text-status active rotated = refl
same_text-status active revoked = refl
same_text-status rotated active = refl
same_text-status rotated rotated = refl
same_text-status rotated revoked = refl
same_text-status revoked active = refl
same_text-status revoked rotated = refl
same_text-status revoked revoked = refl

-- The assignments of `markRotated` and of the revoking methods.
pub assign-rotate :
    (r : TokenRecord) (k next status : Text) (rotated_at : ℕ)
    → assign
        ((text "status", quoted (text "rotated"))
          ∷ (text "rotated_at", param 2)
          ∷ (text "replaced_by_selector", param 3)
          ∷ [])
        (text_value k ∷ number rotated_at ∷ text_value next ∷ text_value status ∷ [])
        (row_of r)
      ≡ row_of (rotate_row rotated_at next r)
unfolding row_of new_row nth_value assign put same_text
assign-rotate r k next status rotated_at = refl

pub assign-revoke :
    (r : TokenRecord) (params : List Value)
    → assign ((text "status", quoted (text "revoked")) ∷ []) params (row_of r)
      ≡ row_of (revoke_row r)
unfolding row_of new_row nth_value assign put same_text
assign-revoke r params = refl
