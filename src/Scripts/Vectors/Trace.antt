-- ===== src/Scripts/Vectors/Trace.antt =====
-- scripts/build-traceability.mjs: which vectors and scenarios cite each requirement. A `Set` is the
-- list of its members, and a `Map` that of its rows, in the order of insertion. The comment and the
-- description of the document, which are fixed texts, are left to what renders it.
use nebula_token.Common.{
  ℕ, ◌+◌, ◌-◌, Bool, true, false, not, ◌||◌, ◌&&◌, ◌==◌, Option, none, some, List, [], ◌∷◌, ltb,
  if◌then◌else◌, is_empty, Text, length, same_text,
}
use nebula_token.Codec.Split.{split}
use nebula_token.Scripts.Texts.{drop, truthy}
use nebula_token.Scripts.Runtime.Compare.{number}
use nebula_token.Scripts.Vectors.{Case, TestVectors, Scenario, BehaviorVectors, sections, cases_in}

pub record Row : Type 0 where
  pub req : Text
  pub vectors : List Text
  pub scenarios : List Text

-- `set.add(id)`
unfoldable pub add : Text → List Text → List Text
add id [] = id ∷ []
add id (other ∷ ids) =
    let rest = add id ids in if same_text other id then other ∷ ids else other ∷ rest

-- `f(row(req))`
unfoldable pub at_row : Text → (Row → Row) → List Row → List Row
at_row req f [] = f (record { req = req; vectors = []; scenarios = [] }) ∷ []
at_row req f (r ∷ rows) =
    let rest = at_row req f rows in if same_text r.req req then f r ∷ rows else r ∷ rest

abbrev pub add_vector : Text → Row → Row
add_vector id r = record { req = r.req; vectors = add id r.vectors; scenarios = r.scenarios }

abbrev pub add_scenario : Text → Row → Row
add_scenario id r = record { req = r.req; vectors = r.vectors; scenarios = add id r.scenarios }

unfoldable pub define_rows : List Text → List Row → List Row
define_rows [] rows = rows
define_rows (req ∷ reqs) rows = define_rows reqs (at_row req (λ r. r) rows)

abbrev first_part : List Text → Text
first_part [] = []
first_part (base ∷ rest) = base

-- `c.rule.split(".")[0]`, where there is a rule.
unfoldable pub base_rule : Case → Option Text
base_rule c = elim (truthy c.rule) [ none ↦ none | some rule ↦ some (first_part (split b'.' rule)) ]

-- `row(...).vectors.add(c.id)`, where the case has a rule.
unfoldable pub cite_case : Text → Option Text → List Row → List Row
cite_case id none rows = rows
cite_case id (some req) rows = at_row req (add_vector id) rows

unfoldable pub vector_rows : List Case → List Row → List Row
vector_rows [] rows = rows
vector_rows (c ∷ cs) rows = vector_rows cs (cite_case c.id (base_rule c) rows)

unfoldable pub cite_all : Text → List Text → List Row → List Row
cite_all id [] rows = rows
cite_all id (req ∷ reqs) rows = cite_all id reqs (at_row req (add_scenario id) rows)

unfoldable pub scenario_rows : List Scenario → List Row → List Row
scenario_rows [] rows = rows
scenario_rows (s ∷ ss) rows = scenario_rows ss (cite_all s.id s.requirements rows)

-- `list.sort(compare)`, where `before y x` says that the comparison puts `y` first.
module _ {A : Type 0} (before : A → A → Bool) where
  unfoldable pub insert : A → List A → List A
  insert x [] = x ∷ []
  insert x (y ∷ ys) = let rest = insert x ys in if before y x then y ∷ rest else x ∷ y ∷ ys

  unfoldable pub sort : List A → List A
  sort [] = []
  sort (x ∷ xs) = insert x (sort xs)

abbrev less_number : Option ℕ → Option ℕ → Bool
less_number (some m) (some n) = ltb m n
less_number _ _ = false

-- `byNumber`
abbrev pub by_number : Row → Row → Bool
by_number r s = less_number (number (drop 2 r.req)) (number (drop 2 s.req))

-- `byCodeUnit`
unfoldable pub by_code_unit : Text → Text → Bool
by_code_unit [] [] = false
by_code_unit [] (d ∷ ds) = true
by_code_unit (c ∷ cs) [] = false
by_code_unit (c ∷ cs) (d ∷ ds) = let rest = by_code_unit cs ds in ltb c d || (c == d && rest)

unfoldable pub sort_ids : List Row → List Row
sort_ids [] = []
sort_ids (r ∷ rows) =
    record {
      req = r.req;
      vectors = sort by_code_unit r.vectors;
      scenarios = sort by_code_unit r.scenarios;
    }
    ∷ sort_ids rows

unfoldable pub executed : List Row → ℕ
executed [] = 0
executed (r ∷ rows) =
    let rest = executed rows in
    if not (is_empty r.vectors) || not (is_empty r.scenarios) then 1 + rest else rest

pub record Traceability : Type 0 where
  pub spec_version : Text
  pub requirements_count : ℕ
  pub executed_count : ℕ
  pub by_review_count : ℕ
  pub requirements : List Row

-- `rows`, before it is sorted.
unfoldable pub collect_rows : TestVectors → BehaviorVectors → List Text → List Row
collect_rows tv bv defined =
    scenario_rows bv.scenarios (vector_rows (cases_in tv sections) (define_rows defined []))

unfoldable pub build : TestVectors → BehaviorVectors → List Text → Traceability
build tv bv defined =
    let requirements = sort_ids (sort by_number (collect_rows tv bv defined)) in
    let executed_count = executed requirements in
    record {
      spec_version = tv.spec_version;
      requirements_count = length requirements;
      executed_count = executed_count;
      by_review_count = length requirements - executed_count;
      requirements = requirements;
    }
