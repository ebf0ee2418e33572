-- ===== src/Scripts/Vectors.antt =====
-- scripts/validate-vectors.mjs: the checks on the two files of conformance vectors. The files are
-- records, with the fields that the script reads, typed as their JSON schemas have them; the
-- validation against the schemas is the work of a package and not modelled.
pub mod Citations
pub mod Constants
pub mod Scenarios
pub mod Trace
pub mod Check
pub mod Ids
pub mod Defined
pub mod Cited
pub mod Mirrored
pub mod Bound
pub mod Documented
pub mod Rows
pub mod Tally
pub mod Traced
use nebula_token.Common.{
  ℕ, ◌+◌, Bool, true, false, not, Option, none, some, List, [], ◌∷◌, ◌++◌, ◌==◌, if◌then◌else◌,
  Text, map, length,
}
use nebula_token.Scripts.Regex.{text}
use nebula_token.Scripts.Texts.{contains}

pub data Constant : Type 0 where
  number : ℕ → Constant
  string : Text → Constant

pub record Case : Type 0 where
  pub id : Text
  pub rule : Option Text

-- A section of cases, or the scenarios, may be missing, and so may every declared count.
pub record TestVectors : Type 0 where
  pub spec_version : Text
  pub counts : Text → Option ℕ
  pub cases : Text → Option (List Case)
  pub constants : Text → Option Constant

pub record Expect : Type 0 where
  pub ok : Option Bool
  pub kid : Option Text
  pub same_family_as : Option Text
  pub same_expires_at_as : Option Text

pub record Step : Type 0 where
  pub op : Text
  pub token_ref : Option Text
  pub of : Option Text
  pub bind : Option Text
  pub active_kid : Option Text
  pub peppers : Option (List Text)
  pub expect : Option Expect

pub record Scenario : Type 0 where
  pub id : Text
  pub condition : Option Text
  pub requirements : List Text
  pub steps : List Step

pub record BehaviorVectors : Type 0 where
  pub spec_version : Text
  pub counts : Text → Option ℕ
  pub scenarios : List Scenario
  pub conditions : List Text
  pub kids : List Text
  pub default_kid : Option Text
  pub default_peppers : Option (List Text)

pub data Problem : Type 0 where
  count_differs duplicate_id : Text → Problem
  no_requirements no_spec_version no_constants_table : Problem
  undefined_requirement no_sub_rules sub_rule_too_high : Text → Problem
  spec_version_differs no_constant constant_differs unmirrored : Text → Problem
  unknown_condition asserts_nothing : Text → Problem
  unbound rebound bound_on_failure unknown_kid unconfigured_kid : Text → ℕ → Problem
  default_kid_unconfigured trace_missing trace_stale : Problem

-- `tvSections`
unfoldable pub sections : List Text
sections = text "verifier_hashing" ∷ text "device_hashing" ∷ text "parsing" ∷ []

-- `a !== b`, with `undefined`.
abbrev pub same_count : Option ℕ → Option ℕ → Bool
same_count none none = true
same_count (some a) (some b) = a == b
same_count _ _ = false

abbrev pub count_of {ℓ} : {A : Type ℓ} → Option (List A) → Option ℕ
count_of none = none
count_of (some xs) = some (length xs)

-- One entry of a `counts` block.
unfoldable pub check_count : Text → Option ℕ → Option ℕ → List Problem
check_count name declared actual =
    if same_count declared actual then [] else count_differs name ∷ []

unfoldable pub section_counts : TestVectors → List Text → List Problem
section_counts tv [] = []
section_counts tv (s ∷ names) =
    check_count s (tv.counts s) (count_of (tv.cases s)) ++ section_counts tv names

abbrev pub is_none {ℓ} : {A : Type ℓ} → Option A → Bool
is_none none = true
is_none (some a) = false

unfoldable pub unconditional : List Scenario → ℕ
unconditional [] = 0
unconditional (s ∷ ss) =
    let rest = unconditional ss in if is_none s.condition then 1 + rest else rest

-- The second section of the script.
unfoldable pub check_counts : TestVectors → BehaviorVectors → List Problem
check_counts tv bv =
    section_counts tv sections
    ++ (check_count (text "scenarios") (bv.counts (text "scenarios")) (some (length bv.scenarios))
        ++ check_count (text "unconditional") (bv.counts (text "unconditional"))
            (some (unconditional bv.scenarios)))

-- `tv[s] ?? []`
abbrev pub or_none {ℓ} : {A : Type ℓ} → Option (List A) → List A
or_none none = []
or_none (some xs) = xs

unfoldable pub cases_in : TestVectors → List Text → List Case
cases_in tv [] = []
cases_in tv (s ∷ names) = or_none (tv.cases s) ++ cases_in tv names

-- The calls of `claimId`, with the keys of `seen`.
unfoldable pub claim_ids : List Text → List Text → List Problem
claim_ids seen [] = []
claim_ids seen (id ∷ ids) =
    let again = claim_ids seen ids in
    let next = claim_ids (id ∷ seen) ids in
    if contains id seen then duplicate_id id ∷ again else next

abbrev pub all_ids : TestVectors → BehaviorVectors → List Text
all_ids tv bv = map (λ c. c.id) (cases_in tv sections) ++ map (λ s. s.id) bv.scenarios

-- The third section.
unfoldable pub check_ids : TestVectors → BehaviorVectors → List Problem
check_ids tv bv = claim_ids [] (all_ids tv bv)
