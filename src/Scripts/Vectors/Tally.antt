-- ===== src/Scripts/Vectors/Tally.antt =====
-- The traceability document has one row for each requirement, and its counts add up.
use nebula_token.Common.{
  ◌+◌, ◌≤◌, ◌≡◌, refl, sym, ap, ◌⊎◌, inl, inr, ◌↔◌, Bool, Bool-cases, Option, none, some, List, [],
  ◌∷◌, arith, All, Text, same_text, same_text_iff, length,
}
use mathlib.Core.Path.{subst}
use nebula_token.Scripts.Members.{IsIn}
use nebula_token.Scripts.Vectors.{Case, TestVectors, Scenario, BehaviorVectors, sections, cases_in}
use nebula_token.Scripts.Vectors.Trace.{
  Row, add, at_row, add_vector, add_scenario, define_rows, base_rule, cite_case, vector_rows,
  cite_all, scenario_rows, insert, sort, by_number, sort_ids, executed, Traceability, collect_rows,
  build,
}
use nebula_token.Scripts.Vectors.Ids.{IsUnique}
use nebula_token.Scripts.Vectors.Rows.{IsIn-add}

-- The requirements of the rows.
abbrev pub reqs_of : List Row → List Text
reqs_of [] = []
reqs_of (r ∷ rows) = r.req ∷ reqs_of rows

reqs_of-at_row :
    (q : Text) (f : Row → Row) (rows : List Row)
    → ((r : Row) → (f r).req ≡ r.req)
    → reqs_of (at_row q f rows) ≡ add q (reqs_of rows)
unfolding at_row add
reqs_of-at_row q f [] keeps = ap (λ x. x ∷ []) (keeps _)
reqs_of-at_row q f (r ∷ rows) keeps = elim (Bool-cases (same_text r.req q)) [
  | inl k ↦ rw k (ap (λ x. x ∷ reqs_of rows) (keeps r))
  | inr k ↦ rw k (ap (λ x. r.req ∷ x) (reqs_of-at_row q f rows keeps))
]

add-IsUnique : (x : Text) (ids : List Text) → IsUnique ids → IsUnique (add x ids)
unfolding add
add-IsUnique x [] u = (λ h. h, tt)
add-IsUnique x (y ∷ ids) (n, u) = elim (Bool-cases (same_text y x)) [
  | inl k ↦ rw k (n, u)
  | inr k ↦ rw k (
    λ i. elim ((IsIn-add y x ids).0 i) [ inl e ↦ cc (k, (same_text_iff y x).1 e) | inr j ↦ n j ],
    add-IsUnique x ids u,
  )
]

-- What holds of the rows at every moment: no requirement twice, and the given ones among them.
abbrev IsTable : List Text → List Row → Type 0
IsTable wanted rows = IsUnique (reqs_of rows) × All (λ q. IsIn q (reqs_of rows)) wanted

All-add :
    (x : Text) (ids wanted : List Text)
    → All (λ q. IsIn q ids) wanted
    → All (λ q. IsIn q (add x ids)) wanted
All-add x ids [] h = tt
All-add x ids (w ∷ wanted) (h, hs) = ((IsIn-add w x ids).1 (inr h), All-add x ids wanted hs)

at_row-IsTable :
    (wanted : List Text) (q : Text) (f : Row → Row) (rows : List Row)
    → ((r : Row) → (f r).req ≡ r.req)
    → IsTable wanted rows
    → IsTable wanted (at_row q f rows) × IsIn q (reqs_of (at_row q f rows))
at_row-IsTable wanted q f rows keeps (u, h) =
    let e = sym (reqs_of-at_row q f rows keeps) in
    (
      (
        subst IsUnique e (add-IsUnique q (reqs_of rows) u),
        subst (λ ids. All (λ q. IsIn q ids) wanted) e (All-add q (reqs_of rows) wanted h),
      ),
      subst (λ ids. IsIn q ids) e ((IsIn-add q q (reqs_of rows)).1 (inl refl)),
    )

-- The definitions put each requirement there.
define_rows-IsTable :
    (wanted reqs : List Text) (rows : List Row)
    → IsTable wanted rows
    → IsTable wanted (define_rows reqs rows)
      × All (λ q. IsIn q (reqs_of (define_rows reqs rows))) reqs
unfolding define_rows
define_rows-IsTable wanted [] rows t = (t, tt)
define_rows-IsTable wanted (q ∷ reqs) rows t =
    let ((u, h), here) = at_row-IsTable wanted q (λ r. r) rows (λ r. refl) t in
    let ((u', (here', h')), rest) =
      define_rows-IsTable (q ∷ wanted) reqs (at_row q (λ r. r) rows) (u, (here, h)) in
    ((u', h'), (here', rest))

cite_case-IsTable :
    (wanted : List Text) (id : Text) (o : Option Text) (rows : List Row)
    → IsTable wanted rows
    → IsTable wanted (cite_case id o rows)
unfolding cite_case
cite_case-IsTable wanted id none rows t = t
cite_case-IsTable wanted id (some q) rows t =
    (at_row-IsTable wanted q (add_vector id) rows (λ r. refl) t).0

vector_rows-IsTable :
    (wanted : List Text) (cs : List Case) (rows : List Row)
    → IsTable wanted rows
    → IsTable wanted (vector_rows cs rows)
unfolding vector_rows
vector_rows-IsTable wanted [] rows t = t
vector_rows-IsTable wanted (c ∷ cs) rows t =
    vector_rows-IsTable wanted cs _ (cite_case-IsTable wanted c.id (base_rule c) rows t)

cite_all-IsTable :
    (wanted : List Text) (id : Text) (reqs : List Text) (rows : List Row)
    → IsTable wanted rows
    → IsTable wanted (cite_all id reqs rows)
unfolding cite_all
cite_all-IsTable wanted id [] rows t = t
cite_all-IsTable wanted id (q ∷ reqs) rows t =
    cite_all-IsTable wanted id reqs _
      (at_row-IsTable wanted q (add_scenario id) rows (λ r. refl) t).0

scenario_rows-IsTable :
    (wanted : List Text) (ss : List Scenario) (rows : List Row)
    → IsTable wanted rows
    → IsTable wanted (scenario_rows ss rows)
unfolding scenario_rows
scenario_rows-IsTable wanted [] rows t = t
scenario_rows-IsTable wanted (s ∷ ss) rows t =
    scenario_rows-IsTable wanted ss _ (cite_all-IsTable wanted s.id s.requirements rows t)

-- Sorting permutes the rows.
IsIn-insert_row :
    (before : Row → Row → Bool) (q : Text) (r : Row) (rows : List Row)
    → IsIn q (reqs_of (insert before r rows)) ↔ ((q ≡ r.req) ⊎ IsIn q (reqs_of rows))
unfolding insert
IsIn-insert_row before q r [] = ground arith
IsIn-insert_row before q r (s ∷ rows) = ground (arith, IsIn-insert_row before q r rows)

insert-IsUnique :
    (before : Row → Row → Bool) (r : Row) (rows : List Row)
    → ¬ IsIn r.req (reqs_of rows)
    → IsUnique (reqs_of rows)
    → IsUnique (reqs_of (insert before r rows))
unfolding insert
insert-IsUnique before r [] n u = (n, u)
insert-IsUnique before r (s ∷ rows) n (m, u) = elim (Bool-cases (before s r)) [
  | inr k ↦ rw k (n, (m, u))
  | inl k ↦ rw k (
    λ i. elim ((IsIn-insert_row before s.req r rows).0 i) [ inl e ↦ n (inl (sym e)) | inr j ↦ m j ],
    insert-IsUnique before r rows (λ j. n (inr j)) u,
  )
]

IsIn-sort_rows :
    (before : Row → Row → Bool) (q : Text) (rows : List Row)
    → IsIn q (reqs_of (sort before rows)) ↔ IsIn q (reqs_of rows)
unfolding sort
IsIn-sort_rows before q [] = ground arith
IsIn-sort_rows before q (r ∷ rows) =
    ground (arith, IsIn-insert_row before q r (sort before rows), IsIn-sort_rows before q rows)

sort-IsUnique :
    (before : Row → Row → Bool) (rows : List Row)
    → IsUnique (reqs_of rows)
    → IsUnique (reqs_of (sort before rows))
unfolding sort
sort-IsUnique before [] u = u
sort-IsUnique before (r ∷ rows) (n, u) =
    insert-IsUnique before r (sort before rows) (λ i. n ((IsIn-sort_rows before r.req rows).0 i))
      (sort-IsUnique before rows u)

reqs_of-sort_ids : (rows : List Row) → reqs_of (sort_ids rows) ≡ reqs_of rows
unfolding sort_ids
reqs_of-sort_ids [] = refl
reqs_of-sort_ids (r ∷ rows) = ap (λ x. r.req ∷ x) (reqs_of-sort_ids rows)

executed-le : (rows : List Row) → executed rows ≤ length rows
unfolding executed
executed-le [] = omega arith
executed-le (r ∷ rows) = ground (arith, executed-le rows)

All-imp-IsIn :
    (xs ys wanted : List Text)
    → ((q : Text) → IsIn q xs → IsIn q ys)
    → All (λ q. IsIn q xs) wanted
    → All (λ q. IsIn q ys) wanted
All-imp-IsIn xs ys [] f h = tt
All-imp-IsIn xs ys (w ∷ wanted) f (h, hs) = (f w h, All-imp-IsIn xs ys wanted f hs)

-- A document with one row for each requirement, all of the defined ones among them.
pub record IsComplete (defined : List Text) (doc : Traceability) : Type 0 where
  pub once : IsUnique (reqs_of doc.requirements)
  pub all_defined : All (λ q. IsIn q (reqs_of doc.requirements)) defined
  pub counted : doc.requirements_count ≡ length doc.requirements
  pub adds_up : doc.executed_count + doc.by_review_count ≡ doc.requirements_count
  pub bounded : doc.executed_count ≤ doc.requirements_count

-- The traceability document has no requirement twice and every defined requirement; the count of the
-- requirements is that of its rows, the executed ones are at most that many, and with those left to
-- review they add up to it.
pub build-IsComplete :
    (tv : TestVectors) (bv : BehaviorVectors) (defined : List Text)
    → IsComplete defined (build tv bv defined)
unfolding build collect_rows
build-IsComplete tv bv defined =
    let start = define_rows defined [] in
    let (t, h) = define_rows-IsTable [] defined [] (tt, tt) in
    let collected = scenario_rows bv.scenarios (vector_rows (cases_in tv sections) start) in
    let (u, k) =
      scenario_rows-IsTable defined bv.scenarios _
        (vector_rows-IsTable defined (cases_in tv sections) start (t.0, h)) in
    let sorted = sort by_number collected in
    let same = sym (reqs_of-sort_ids sorted) in
    record {
      once = subst IsUnique same (sort-IsUnique by_number collected u);
      all_defined =
          subst (λ ids. All (λ q. IsIn q ids) defined) same
            (All-imp-IsIn (reqs_of collected) (reqs_of sorted) defined
              (λ q. (IsIn-sort_rows by_number q collected).1) k);
      counted = refl;
      adds_up = omega (arith, executed-le (sort_ids sorted));
      bounded = executed-le (sort_ids sorted);
    }
