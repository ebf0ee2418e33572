-- ===== src/Scripts/Vectors/Citations.antt =====
-- The fourth and the fifth section of scripts/validate-vectors.mjs: the requirements that the
-- vectors cite stand in SPECIFICATION.md, and the versions agree.
use nebula_token.Common.{
  ℕ, Bool, false, Option, none, some, List, [], ◌∷◌, ◌++◌, ◌==◌, ltb, if◌then◌else◌, is_empty, Text,
  length, same_text,
}
use nebula_token.Codec.Split.{split}
use nebula_token.Scripts.Regex.{
  Regex, text, lit, both, many, some_of, star, group, text_start, is_digit, is_space, other_than,
  match_all, first_groups, test,
}
use nebula_token.Scripts.Texts.{cut_at, contains, filter, trim_end, truthy, first_places}
use nebula_token.Scripts.Runtime.{group_one}
use nebula_token.Scripts.Runtime.Compare.{number}
use nebula_token.Scripts.Vectors.{
  Case, TestVectors, Scenario, BehaviorVectors, Problem, no_requirements, undefined_requirement,
  no_sub_rules, sub_rule_too_high, no_spec_version, spec_version_differs, sections, cases_in,
}

-- `\*\*\[(N-\d+)\]`
abbrev pub requirement : Regex
requirement = both (lit "**[") (both (group (both (lit "N-") (some_of is_digit))) (lit "]"))

-- `defined`
unfoldable pub defined_in : Text → List Text
defined_in spec = first_places [] (first_groups (match_all requirement spec))

-- `\d+\.`
abbrev numbered : Regex
numbered = both (some_of is_digit) (lit ".")

-- `\n\n((?:\d+\.[^\n]*\n)+)`
abbrev item_list : Regex
item_list =
    let item = both numbered (both (many (other_than b'\n')) (lit "\n")) in
    both (lit "\n\n") (group (both item (star item)))

-- `subRuleCount`
unfoldable pub sub_rule_count : Text → Text → ℕ
sub_rule_count spec req = elim (cut_at (text "**[" ++ (req ++ text "]**")) spec) [
  | none ↦ 0
  | some (before, after) ↦ elim (group_one item_list after) [
    | none ↦ 0
    | some items ↦ length (filter (test (both text_start numbered)) (split b'\n' (trim_end items)))
  ]
]

unfoldable pub rules_of : List Case → List Text
rules_of [] = []
rules_of (c ∷ cs) = elim (truthy c.rule) [ none ↦ rules_of cs | some r ↦ r ∷ rules_of cs ]

unfoldable pub requirements_of : List Scenario → List Text
requirements_of [] = []
requirements_of (s ∷ ss) = s.requirements ++ requirements_of ss

-- The keys of `citations`.
unfoldable pub citations : TestVectors → BehaviorVectors → List Text
citations tv bv = first_places [] (rules_of (cases_in tv sections) ++ requirements_of bv.scenarios)

-- `Number(sub) > n`
abbrev pub exceeds : Option ℕ → ℕ → Bool
exceeds none n = false
exceeds (some m) n = ltb n m

abbrev pub base_of : List Text → Text
base_of [] = []
base_of (base ∷ rest) = base

unfoldable pub sub_problems : Text → Text → List Text → List Problem
sub_problems spec ref (base ∷ sub ∷ rest) =
    let n = sub_rule_count spec base in
    if n == 0
    then no_sub_rules ref ∷ []
    else if exceeds (number sub) n
    then sub_rule_too_high ref ∷ []
    else []
sub_problems spec ref _ = []

-- The body of the loop over the citations.
unfoldable pub cite_problems : Text → List Text → Text → List Problem
cite_problems spec defined ref =
    let cut = split b'.' ref in
    if contains (base_of cut) defined
    then sub_problems spec ref cut
    else undefined_requirement ref ∷ []

unfoldable pub each_citation : Text → List Text → List Text → List Problem
each_citation spec defined [] = []
each_citation spec defined (ref ∷ refs) =
    cite_problems spec defined ref ++ each_citation spec defined refs

unfoldable pub check_citations : Text → TestVectors → BehaviorVectors → List Problem
check_citations spec tv bv =
    let defined = defined_in spec in
    (if is_empty defined then no_requirements ∷ [] else [])
    ++ each_citation spec defined (citations tv bv)

-- `\*\*Spec version:\*\*\s*(\d+)`
abbrev pub spec_version_line : Regex
spec_version_line = both (lit "**Spec version:**") (both (many is_space) (group (some_of is_digit)))

abbrev pub same_version : Text → Text → Text → List Problem
same_version name version stated =
    if same_text version stated then [] else spec_version_differs name ∷ []

-- The fifth section.
unfoldable pub check_version : Text → TestVectors → BehaviorVectors → List Problem
check_version spec tv bv = elim (group_one spec_version_line spec) [
  | none ↦ no_spec_version ∷ []
  | some stated ↦
      same_version (text "test-vectors.json") tv.spec_version stated
      ++ same_version (text "behavior-vectors.json") bv.spec_version stated
]
