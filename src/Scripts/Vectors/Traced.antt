-- ===== src/Scripts/Vectors/Traced.antt =====
-- The traceability document holds exactly the citations of the vectors.
use nebula_token.Common.{
  ◌≡◌, refl, ap, ◌⊎◌, inl, inr, ◌↔◌, Option, none, some, some_injective, List, [], ◌∷◌, arith, Text,
}
use nebula_token.Scripts.Members.{IsIn}
use nebula_token.Scripts.Vectors.{Case, TestVectors, Scenario, BehaviorVectors, sections, cases_in}
use nebula_token.Scripts.Vectors.Trace.{
  Row, at_row, add_vector, add_scenario, define_rows, base_rule, cite_case, vector_rows, cite_all,
  scenario_rows, sort, by_number, by_code_unit, sort_ids, Traceability, collect_rows, build,
}
use nebula_token.Scripts.Vectors.Rows.{
  IsIn-add, IsIn-sort, Has, Has-sort, Has-at_row, Has-kept, Has-define_rows,
}

-- Whether one of the cases with the identifier names the requirement.
abbrev pub IsCitedBy : Text → Text → List Case → Type 0
IsCitedBy req id [] = ⊥
IsCitedBy req id (c ∷ cs) = ((base_rule c ≡ some req) × (id ≡ c.id)) ⊎ IsCitedBy req id cs

-- Whether a scenario with the identifier does.
abbrev pub IsCovering : Text → Text → List Scenario → Type 0
IsCovering req id [] = ⊥
IsCovering req id (s ∷ ss) = (IsIn req s.requirements × (id ≡ s.id)) ⊎ IsCovering req id ss

abbrev vectors_of : Row → List Text
vectors_of r = r.vectors

abbrev scenarios_of : Row → List Text
scenarios_of r = r.scenarios

some_iff : (q req : Text) → (some q ≡ some req) ↔ (q ≡ req)
some_iff q req = (λ h. some_injective h, λ h. ap some h)

Has-cite_case :
    (req id x : Text) (o : Option Text) (rows : List Row)
    → Has vectors_of req id (cite_case x o rows)
      ↔ (((o ≡ some req) × (id ≡ x)) ⊎ Has vectors_of req id rows)
unfolding cite_case
Has-cite_case req id x none rows = (λ h. inr h, λ h. elim h [ inl (e, k) ↦ cc e | inr k ↦ k ])
Has-cite_case req id x (some q) rows = ground (
  arith,
  some_iff q req,
  Has-at_row vectors_of req id q (add_vector x) (id ≡ x) rows (λ r. (refl, IsIn-add id x r.vectors))
      (λ h. h),
)

Has-vector_rows :
    (req id : Text) (cs : List Case) (rows : List Row)
    → Has vectors_of req id (vector_rows cs rows)
      ↔ (IsCitedBy req id cs ⊎ Has vectors_of req id rows)
unfolding vector_rows
Has-vector_rows req id [] rows = ground arith
Has-vector_rows req id (c ∷ cs) rows = ground (
  arith,
  Has-vector_rows req id cs (cite_case c.id (base_rule c) rows),
  Has-cite_case req id c.id (base_rule c) rows,
)

Has-cite_all :
    (req id x : Text) (reqs : List Text) (rows : List Row)
    → Has scenarios_of req id (cite_all x reqs rows)
      ↔ ((IsIn req reqs × (id ≡ x)) ⊎ Has scenarios_of req id rows)
unfolding cite_all
Has-cite_all req id x [] rows = ground arith
Has-cite_all req id x (q ∷ reqs) rows = ground (
  arith,
  Has-cite_all req id x reqs (at_row q (add_scenario x) rows),
  Has-at_row scenarios_of req id q (add_scenario x) (id ≡ x) rows
      (λ r. (refl, IsIn-add id x r.scenarios)) (λ h. h),
)

Has-scenario_rows :
    (req id : Text) (ss : List Scenario) (rows : List Row)
    → Has scenarios_of req id (scenario_rows ss rows)
      ↔ (IsCovering req id ss ⊎ Has scenarios_of req id rows)
unfolding scenario_rows
Has-scenario_rows req id [] rows = ground arith
Has-scenario_rows req id (s ∷ ss) rows = ground (
  arith,
  Has-scenario_rows req id ss (cite_all s.id s.requirements rows),
  Has-cite_all req id s.id s.requirements rows,
)

vectors-cite_all :
    (req id x : Text) (reqs : List Text) (rows : List Row)
    → Has vectors_of req id (cite_all x reqs rows) ↔ Has vectors_of req id rows
unfolding cite_all
vectors-cite_all req id x [] rows = ground arith
vectors-cite_all req id x (q ∷ reqs) rows = ground (
  arith,
  vectors-cite_all req id x reqs (at_row q (add_scenario x) rows),
  Has-kept vectors_of req id q (add_scenario x) rows (λ r. (refl, refl)) (λ h. h),
)

vectors-scenario_rows :
    (req id : Text) (ss : List Scenario) (rows : List Row)
    → Has vectors_of req id (scenario_rows ss rows) ↔ Has vectors_of req id rows
unfolding scenario_rows
vectors-scenario_rows req id [] rows = ground arith
vectors-scenario_rows req id (s ∷ ss) rows = ground (
  arith,
  vectors-scenario_rows req id ss (cite_all s.id s.requirements rows),
  vectors-cite_all req id s.id s.requirements rows,
)

scenarios-cite_case :
    (req id x : Text) (o : Option Text) (rows : List Row)
    → Has scenarios_of req id (cite_case x o rows) ↔ Has scenarios_of req id rows
unfolding cite_case
scenarios-cite_case req id x none rows = ground arith
scenarios-cite_case req id x (some q) rows =
    Has-kept scenarios_of req id q (add_vector x) rows (λ r. (refl, refl)) (λ h. h)

scenarios-vector_rows :
    (req id : Text) (cs : List Case) (rows : List Row)
    → Has scenarios_of req id (vector_rows cs rows) ↔ Has scenarios_of req id rows
unfolding vector_rows
scenarios-vector_rows req id [] rows = ground arith
scenarios-vector_rows req id (c ∷ cs) rows = ground (
  arith,
  scenarios-vector_rows req id cs (cite_case c.id (base_rule c) rows),
  scenarios-cite_case req id c.id (base_rule c) rows,
)

-- Sorting the sets keeps their members.
vectors-sort_ids :
    (req id : Text) (rows : List Row)
    → Has vectors_of req id (sort_ids rows) ↔ Has vectors_of req id rows
unfolding sort_ids
vectors-sort_ids req id [] = ground arith
vectors-sort_ids req id (r ∷ rows) =
    ground (arith, IsIn-sort by_code_unit id r.vectors, vectors-sort_ids req id rows)

scenarios-sort_ids :
    (req id : Text) (rows : List Row)
    → Has scenarios_of req id (sort_ids rows) ↔ Has scenarios_of req id rows
unfolding sort_ids
scenarios-sort_ids req id [] = ground arith
scenarios-sort_ids req id (r ∷ rows) =
    ground (arith, IsIn-sort by_code_unit id r.scenarios, scenarios-sort_ids req id rows)

-- What the document says of a requirement and an identifier.
abbrev pub Lists : Traceability → Text → Text → Type 0
Lists doc req id = Has vectors_of req id doc.requirements

abbrev pub ListsScenario : Traceability → Text → Text → Type 0
ListsScenario doc req id = Has scenarios_of req id doc.requirements

build-vectors :
    (tv : TestVectors) (bv : BehaviorVectors) (defined : List Text) (req id : Text)
    → Lists (build tv bv defined) req id ↔ IsCitedBy req id (cases_in tv sections)
unfolding build collect_rows
build-vectors tv bv defined req id =
    let start = define_rows defined [] in
    let cited = vector_rows (cases_in tv sections) start in
    ground (
      arith,
      vectors-sort_ids req id (sort by_number (scenario_rows bv.scenarios cited)),
      Has-sort vectors_of req id (scenario_rows bv.scenarios cited),
      vectors-scenario_rows req id bv.scenarios cited,
      Has-vector_rows req id (cases_in tv sections) start,
      Has-define_rows vectors_of req id defined [] (λ q h. h),
    )

build-scenarios :
    (tv : TestVectors) (bv : BehaviorVectors) (defined : List Text) (req id : Text)
    → ListsScenario (build tv bv defined) req id ↔ IsCovering req id bv.scenarios
unfolding build collect_rows
build-scenarios tv bv defined req id =
    let start = define_rows defined [] in
    let cited = vector_rows (cases_in tv sections) start in
    ground (
      arith,
      scenarios-sort_ids req id (sort by_number (scenario_rows bv.scenarios cited)),
      Has-sort scenarios_of req id (scenario_rows bv.scenarios cited),
      Has-scenario_rows req id bv.scenarios cited,
      scenarios-vector_rows req id (cases_in tv sections) start,
      Has-define_rows scenarios_of req id defined [] (λ q h. h),
    )

-- The traceability document lists an identifier under a requirement, as a vector or as a scenario,
-- exactly when a case with that identifier has a rule of that requirement, or a scenario with
-- it names the requirement.
pub build_iff :
    (tv : TestVectors) (bv : BehaviorVectors) (defined : List Text) (req id : Text)
    → (Lists (build tv bv defined) req id ↔ IsCitedBy req id (cases_in tv sections))
      × (ListsScenario (build tv bv defined) req id ↔ IsCovering req id bv.scenarios)
build_iff tv bv defined req id =
    (build-vectors tv bv defined req id, build-scenarios tv bv defined req id)
