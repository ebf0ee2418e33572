-- ===== src/Tests/Vectors.antt =====
-- Small vectors and a specification, and what scripts/validate-vectors.mjs makes of them.
use nebula_token.Common.{
  ℕ, ◌≡◌, refl, ◌↔◌, true, Option, none, some, List, [], ◌∷◌, ◌++◌, All, if◌then◌else◌, Text,
  same_text,
}
use nebula_token.Codec.Split.{split}
use nebula_token.Scripts.Regex.{text, match_all, scan, try_at}
use nebula_token.Scripts.Texts.{
  starts_with, cut_at, trim, trim_start, trim_end, contains, filter, replace_from, replace_all,
  first_places, drop,
}
use nebula_token.Scripts.Runtime.{group_one}
use nebula_token.Scripts.Runtime.Compare
use nebula_token.Scripts.Vectors.{
  Constant, number, string, Case, TestVectors, Expect, Step, Scenario, BehaviorVectors, unbound,
  rebound, duplicate_id, sub_rule_too_high, sections, check_count, section_counts, unconditional,
  check_counts, cases_in, claim_ids, all_ids, check_ids,
}
use nebula_token.Scripts.Vectors.Citations.{
  defined_in, sub_rule_count, rules_of, requirements_of, citations, sub_problems, cite_problems,
  each_citation, check_citations, check_version,
}
use nebula_token.Scripts.Vectors.Constants.{
  constant_value, constant_line, set_constant, read_lines, spec_constants, constant_map,
  get_constant, same_constant, constant_problems, map_problems, unmirrored_problems,
  check_constants,
}
use nebula_token.Scripts.Vectors.Scenarios.{
  refs_of, ref_problems, bind_problems, kids_of, kid_problems, reconfigure_problems, check_step,
  check_steps, asserts, check_scenario, each_scenario, check_scenarios,
}
use nebula_token.Scripts.Vectors.Trace.{
  Traceability, add, at_row, define_rows, base_rule, cite_case, vector_rows, cite_all,
  scenario_rows, insert, sort, by_code_unit, sort_ids, executed, collect_rows, build,
}
use nebula_token.Scripts.Vectors.Check.{check_trace, validate}
use nebula_token.Scripts.Vectors.Ids.{IsUnique, check_ids_iff}
use nebula_token.Scripts.Vectors.Cited.{IsCited, check_citations-IsCited}
use nebula_token.Scripts.Vectors.Mirrored.{AreMirrored, check_constants-AreMirrored}
use nebula_token.Scripts.Vectors.Bound.{bound_after, IsRunnable}
use nebula_token.Scripts.Vectors.Documented.{IsDocumented, check_scenarios-IsRunnable}
use nebula_token.Scripts.Vectors.Traced.{Lists, ListsScenario, IsCitedBy, IsCovering, build_iff}
use nebula_token.Scripts.Vectors.Tally.{IsComplete, build-IsComplete}

validator : Unit {0}
unfolding same_text split match_all scan try_at starts_with cut_at trim trim_start trim_end contains
    filter replace_from replace_all first_places drop group_one Compare.digits_value Compare.number
    sections check_count section_counts unconditional check_counts cases_in claim_ids check_ids
    defined_in sub_rule_count rules_of requirements_of citations sub_problems cite_problems
    each_citation check_citations check_version constant_value constant_line set_constant read_lines
    spec_constants constant_map get_constant same_constant constant_problems map_problems
    unmirrored_problems check_constants refs_of ref_problems bind_problems kids_of kid_problems
    reconfigure_problems check_step check_steps asserts check_scenario each_scenario check_scenarios
    add at_row define_rows base_rule cite_case vector_rows cite_all scenario_rows insert sort
    by_code_unit sort_ids executed collect_rows build check_trace validate
validator = tt

abbrev spec : Text
spec =
    text "# Spec\n**Spec version:** 1\n\n## 1. Constants\n"
    ++ (text "| Name | Value |\n|---|---|\n"
        ++ (text "| `PREFIX` | `\"nbl\"` |\n| `SELECTOR_BYTES` | 16 |\n| `VERIFIER_BYTES` | 32 |\n"
            ++ (text
                  "| `SELECTOR_CHARS` | 22 |\n| `VERIFIER_CHARS` | 43 |\n| `MAX_KID_LENGTH` | 64 |\n"
                ++ (text "| `MAX_TOKEN_LENGTH` | 255 |\n| `MIN_PEPPER_LENGTH` | 32 bytes |\n"
                    ++ (text
                          "| `DEFAULT_ABSOLUTE_TTL` | 2 592 000 s (30 days) |\n| `DEFAULT_IDLE_TTL` | 604 800 s |\n"
                        ++ (text
                              "| `DEFAULT_REUSE_GRACE` | 0 |\n\n**[N-1]** Roles.\n\n**[N-6]** Rules:\n\n"
                            ++ text "1. One.\n2. Two.\n\nThe end.\n"))))))

abbrev constants_of : List (Text × Constant) → Text → Option Constant
constants_of [] key = none
constants_of ((name, c) ∷ rest) key =
    let later = constants_of rest key in if same_text name key then some c else later

abbrev counts_of : List (Text × ℕ) → Text → Option ℕ
counts_of [] key = none
counts_of ((name, n) ∷ rest) key =
    let later = counts_of rest key in if same_text name key then some n else later

abbrev two_cases : List Case
two_cases =
    record { id = text "p-2"; rule = some (text "N-6.2") }
    ∷ record { id = text "p-1"; rule = some (text "N-6.1") }
    ∷ []

abbrev tv : TestVectors
tv = record {
  spec_version = text "1";
  counts =
      counts_of
        ((text "verifier_hashing", 0) ∷ (text "device_hashing", 0) ∷ (text "parsing", 2) ∷ []);
  cases = λ s. if same_text s (text "parsing") then some two_cases else some [];
  constants = constants_of (
      (text "prefix", string (text "nbl"))
      ∷ (text "selector_bytes", number 16)
      ∷ (text "verifier_bytes", number 32)
      ∷ (text "selector_chars", number 22)
      ∷ (text "verifier_chars", number 43)
      ∷ (text "max_kid_length", number 64)
      ∷ (text "max_token_length", number 255)
      ∷ (text "min_pepper_length", number 32)
      ∷ (text "default_absolute_ttl_seconds", number 2592000)
      ∷ (text "default_idle_ttl_seconds", number 604800)
      ∷ (text "default_reuse_grace_seconds", number 0)
      ∷ []);
}

abbrev expect_ok : Expect
expect_ok = record { ok = some true; kid = none; same_family_as = none; same_expires_at_as = none }

abbrev issue_step : Step
issue_step = record {
  op = text "issue";
  token_ref = none;
  of = none;
  bind = some (text "t0");
  active_kid = none;
  peppers = none;
  expect = some (record expect_ok { kid = some (text "k1") });
}

abbrev refresh_step : Text → Step
refresh_step name = record {
  op = text "refresh";
  token_ref = some name;
  of = none;
  bind = some (text "t1");
  active_kid = none;
  peppers = none;
  expect = some (record expect_ok { same_family_as = some (text "t0") });
}

abbrev scenario : Text → List Step → Scenario
scenario id steps = record {
  id = id;
  condition = none;
  requirements = text "N-1" ∷ [];
  steps = steps;
}

abbrev rotation : Scenario
rotation = scenario (text "rotate-01") (issue_step ∷ refresh_step (text "t0") ∷ [])

abbrev vectors_with : List Scenario → BehaviorVectors
vectors_with scenarios = record {
  spec_version = text "1";
  counts = counts_of ((text "scenarios", 1) ∷ (text "unconditional", 1) ∷ []);
  scenarios = scenarios;
  conditions = [];
  kids = text "k1" ∷ [];
  default_kid = some (text "k1");
  default_peppers = some (text "k1" ∷ []);
}

abbrev bv : BehaviorVectors
bv = vectors_with (rotation ∷ [])

-- Where a step names a token that is bound later, or binds one again.
scenario_tests :
    (check_scenarios
        (vectors_with (scenario (text "s") (refresh_step (text "t1") ∷ issue_step ∷ []) ∷ []))
      ≡ some (unbound (text "s") 1 ∷ unbound (text "s") 1 ∷ []))
    × (check_scenarios (vectors_with (scenario (text "s") (issue_step ∷ issue_step ∷ []) ∷ []))
        ≡ some (rebound (text "s") 2 ∷ []))
    × (claim_ids [] (text "a" ∷ text "b" ∷ text "a" ∷ []) ≡ duplicate_id (text "a") ∷ [])
    × (cite_problems spec (defined_in spec) (text "N-6.3") ≡ sub_rule_too_high (text "N-6.3") ∷ [])
unfolding validator
scenario_tests = (refl, refl, refl, refl)

-- Second parts that name no rule, and pass: N-1 has no list of its own, and the list of N-6 starts
-- at 1.
stray_rules :
    (cite_problems spec (defined_in spec) (text "N-1.2") ≡ [])
    × (cite_problems spec (defined_in spec) (text "N-6.0") ≡ [])
    × (cite_problems spec (defined_in spec) (text "N-6.foo") ≡ [])
unfolding validator
stray_rules = (refl, refl, refl)

abbrev stringify : Traceability → Text
stringify doc = text "{}"

valid : validate stringify (some (text "{}\n")) spec tv bv ≡ some []
unfolding validator
valid = refl

check_ids_iff_example : (check_ids tv bv ≡ []) ↔ IsUnique (all_ids tv bv)
check_ids_iff_example = check_ids_iff tv bv

citations_pass : check_citations spec tv bv ≡ []
unfolding validator
citations_pass = refl

check_citations-IsCited_example : All (IsCited spec) (citations tv bv)
check_citations-IsCited_example = check_citations-IsCited spec tv bv citations_pass

constants_pass : check_constants spec tv ≡ []
unfolding validator
constants_pass = refl

check_constants-AreMirrored_example : AreMirrored spec tv
check_constants-AreMirrored_example = check_constants-AreMirrored spec tv constants_pass

scenarios_pass : check_scenarios bv ≡ some []
unfolding validator
scenarios_pass = refl

check_scenarios-IsRunnable_example :
    IsRunnable bv.kids (bound_after [] (issue_step ∷ [])) (refresh_step (text "t0"))
    × IsDocumented bv rotation
check_scenarios-IsRunnable_example =
    check_scenarios-IsRunnable bv [] rotation [] (issue_step ∷ []) (refresh_step (text "t0")) []
      scenarios_pass refl refl

build_iff_example :
    (Lists (build tv bv (defined_in spec)) (text "N-6") (text "p-1")
      ↔ IsCitedBy (text "N-6") (text "p-1") (cases_in tv sections))
    × (ListsScenario (build tv bv (defined_in spec)) (text "N-6") (text "p-1")
        ↔ IsCovering (text "N-6") (text "p-1") bv.scenarios)
build_iff_example = build_iff tv bv (defined_in spec) (text "N-6") (text "p-1")

build-IsComplete_example : IsComplete (defined_in spec) (build tv bv (defined_in spec))
build-IsComplete_example = build-IsComplete tv bv (defined_in spec)
