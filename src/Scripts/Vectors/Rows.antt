-- ===== src/Scripts/Vectors/Rows.antt =====
-- The rows of the traceability document: what each step adds to their sets.
use nebula_token.Common.{
  ◌≡◌, refl, sym, ◌∙◌, ◌⊎◌, inl, inr, ◌↔◌, Bool, Bool-cases, List, [], ◌∷◌, arith, Text, same_text,
  same_text_iff,
}
use mathlib.Core.Path.{subst}
use nebula_token.Scripts.Members.{IsIn}
use nebula_token.Scripts.Vectors.Trace.{Row, add, at_row, define_rows, insert, sort, by_number}

-- The members of the sets.
pub IsIn-add : (id x : Text) (ids : List Text) → IsIn id (add x ids) ↔ ((id ≡ x) ⊎ IsIn id ids)
unfolding add
IsIn-add id x [] = ground arith
IsIn-add id x (y ∷ ids) = elim (Bool-cases (same_text y x)) [
  | inl k ↦ rw k (ground (arith, (same_text_iff y x).0 k))
  | inr k ↦ rw k (ground (arith, IsIn-add id x ids))
]

pub IsIn-insert :
    (before : Text → Text → Bool) (id x : Text) (ids : List Text)
    → IsIn id (insert before x ids) ↔ ((id ≡ x) ⊎ IsIn id ids)
unfolding insert
IsIn-insert before id x [] = ground arith
IsIn-insert before id x (y ∷ ids) = ground (arith, IsIn-insert before id x ids)

pub IsIn-sort :
    (before : Text → Text → Bool) (id : Text) (ids : List Text)
    → IsIn id (sort before ids) ↔ IsIn id ids
unfolding sort
IsIn-sort before id [] = ground arith
IsIn-sort before id (x ∷ ids) =
    ground (arith, IsIn-insert before id x (sort before ids), IsIn-sort before id ids)

module _ (get : Row → List Text) (req id : Text) where
  -- A row of the requirement has the identifier.
  abbrev pub Has : List Row → Type 0
  Has [] = ⊥
  Has (r ∷ rows) = ((r.req ≡ req) × IsIn id (get r)) ⊎ Has rows

  Has-insert :
      (before : Row → Row → Bool) (r : Row) (rows : List Row)
      → Has (insert before r rows) ↔ Has (r ∷ rows)
  unfolding insert
  Has-insert before r [] = ground arith
  Has-insert before r (s ∷ rows) = ground (arith, Has-insert before r rows)

  pub Has-sort : (rows : List Row) → Has (sort by_number rows) ↔ Has rows
  unfolding sort
  Has-sort [] = ground arith
  Has-sort (r ∷ rows) = ground (arith, Has-insert by_number r (sort by_number rows), Has-sort rows)

  -- A function that keeps the requirement, and adds the identifier to the set exactly if `X`.
  abbrev Adds : (Row → Row) → Type 0 → Type 0
  Adds f X = (r : Row) → ((f r).req ≡ r.req) × (IsIn id (get (f r)) ↔ (X ⊎ IsIn id (get r)))

  abbrev fresh_row : Text → Row
  fresh_row q = record { req = q; vectors = []; scenarios = [] }

  Adds-row :
      (f : Row → Row) (X : Type 0) (r : Row)
      → Adds f X
      → (((f r).req ≡ req) × IsIn id (get (f r)))
        ↔ (((r.req ≡ req) × X) ⊎ ((r.req ≡ req) × IsIn id (get r)))
  Adds-row f X r adds =
      let (same, both) = adds r in
      (
        λ (e, i). elim (both.0 i) [ inl x ↦ inl (sym same ∙ e, x) | inr j ↦ inr (sym same ∙ e, j) ],
        λ h. elim h [
          | inl (e, x) ↦ (same ∙ e, both.1 (inl x))
          | inr (e, j) ↦ (same ∙ e, both.1 (inr j))
        ],
      )

  pub Has-at_row :
      (q : Text) (f : Row → Row) (X : Type 0) (rows : List Row)
      → Adds f X
      → ¬ IsIn id (get (fresh_row q))
      → Has (at_row q f rows) ↔ (((q ≡ req) × X) ⊎ Has rows)
  unfolding at_row
  Has-at_row q f X [] adds new =
      let row = Adds-row f X (fresh_row q) adds in
      (
        λ h. elim h [
          | inl p ↦ elim (row.0 p) [ inl y ↦ inl y | inr z ↦ absurd (new z.1) ]
          | inr n ↦ inr n
        ],
        λ h. elim h [ inl y ↦ inl (row.1 (inl y)) | inr n ↦ inr n ],
      )
  Has-at_row q f X (r ∷ rows) adds new = elim (Bool-cases (same_text r.req q)) [
    | inl k ↦ rw k (
        let row = Adds-row f X r adds in
        let at : r.req ≡ q = (same_text_iff r.req q).0 k in
        (
          λ h. elim h [
            | inl p ↦ elim (row.0 p) [ inl (e, x) ↦ inl (sym at ∙ e, x) | inr z ↦ inr (inl z) ]
            | inr n ↦ inr (inr n)
          ],
          λ h. elim h [
            | inl (e, x) ↦ inl (row.1 (inl (at ∙ e, x)))
            | inr (inl z) ↦ inl (row.1 (inr z))
            | inr (inr n) ↦ inr n
          ],
        ))
    | inr k ↦ rw k (ground (arith, Has-at_row q f X rows adds new))
  ]

-- What does not touch the set.
pub Has-kept :
    (get : Row → List Text) (req id q : Text) (f : Row → Row) (rows : List Row)
    → ((r : Row) → ((f r).req ≡ r.req) × (get (f r) ≡ get r))
    → ¬ IsIn id (get (record { req = q; vectors = []; scenarios = [] }))
    → Has get req id (at_row q f rows) ↔ Has get req id rows
Has-kept get req id q f rows keeps new = ground (
  arith,
  Has-at_row get req id q f ⊥ rows
      (λ r. (
        (keeps r).0,
        subst (λ ids. IsIn id ids ↔ (⊥ ⊎ IsIn id (get r))) (sym (keeps r).1) (ground arith),
      ))
      new,
)

pub Has-define_rows :
    (get : Row → List Text) (req id : Text) (reqs : List Text) (rows : List Row)
    → ((q : Text) → ¬ IsIn id (get (record { req = q; vectors = []; scenarios = [] })))
    → Has get req id (define_rows reqs rows) ↔ Has get req id rows
unfolding define_rows
Has-define_rows get req id [] rows new = ground arith
Has-define_rows get req id (q ∷ reqs) rows new = ground (
  arith,
  Has-define_rows get req id reqs (at_row q (λ r. r) rows) new,
  Has-kept get req id q (λ r. r) rows (λ r. (refl, refl)) (new q),
)
