-- ===== src/Scripts/Vectors/Scenarios.antt =====
-- The seventh section of scripts/validate-vectors.mjs: the steps of each scenario name only tokens
-- that an earlier step has bound, and only keys that have a pepper.
use nebula_token.Common.{
  ℕ, ◌+◌, Bool, true, false, not, ◌||◌, Option, none, some, List, [], ◌∷◌, ◌++◌, if◌then◌else◌,
  Text,
}
use nebula_token.Scripts.Regex.{text}
use nebula_token.Scripts.Texts.{starts_with, contains, truthy, not_blank}
use nebula_token.Scripts.Version.{then_do}
use nebula_token.Scripts.Vectors.{
  Expect, Step, Scenario, BehaviorVectors, Problem, unknown_condition, asserts_nothing, unbound,
  rebound, bound_on_failure, unknown_kid, unconfigured_kid, default_kid_unconfigured, is_none,
  or_none,
}

-- A name that is there and not empty.
abbrev pub to_list : Option Text → List Text
to_list none = []
to_list (some t) = t ∷ []

abbrev pub named : Option Text → List Text
named o = to_list (truthy o)

-- `refs`
unfoldable pub refs_of : Step → List Text
refs_of step =
    named step.token_ref
    ++ (named step.of
        ++ named (then_do step.expect λ e. e.same_family_as)
        ++ named (then_do step.expect λ e. e.same_expires_at_as))

unfoldable pub ref_problems : Text → ℕ → List Text → List Text → List Problem
ref_problems id i bound [] = []
ref_problems id i bound (name ∷ names) =
    let rest = ref_problems id i bound names in
    if contains name bound then rest else unbound id i ∷ rest

-- `step.expect?.ok === false`
abbrev pub expects_failure : Option Expect → Bool
expects_failure none = false
expects_failure (some e) = elim e.ok [ some false ↦ true | _ ↦ false ]

-- The part of the body on `step.bind`: its problems, and what is bound after it; the Boolean says
-- that the step expects a failure.
unfoldable pub bind_problems : Text → ℕ → List Text → Bool → Option Text → List Problem × List Text
bind_problems id i bound fails none = ([], bound)
bind_problems id i bound fails (some name) =
    let again = if contains name bound then rebound id i ∷ [] else [] in
    if fails then (again ++ (bound_on_failure id i ∷ []), bound) else (again, name ∷ bound)

-- `[step.activeKid, ...(step.peppers ?? []), step.expect?.kid].filter(Boolean)`
unfoldable pub kids_of : Step → List Text
kids_of step =
    named step.active_kid
    ++ (not_blank (or_none step.peppers) ++ named (then_do step.expect λ e. e.kid))

unfoldable pub kid_problems : Text → ℕ → List Text → List Text → List Problem
kid_problems id i known [] = []
kid_problems id i known (kid ∷ kids) =
    let rest = kid_problems id i known kids in
    if contains kid known then rest else unknown_kid id i ∷ rest

abbrev pub includes_kid : Option Text → List Text → Bool
includes_kid none peppers = false
includes_kid (some kid) peppers = contains kid peppers

-- The test of a `reconfigure`, which throws where `peppers` is missing.
unfoldable pub reconfigure_problems : Text → ℕ → Step → Option (List Problem)
reconfigure_problems id i step =
    if contains step.op (text "reconfigure" ∷ [])
    then (then_do step.peppers λ peppers.
        some (if includes_kid step.active_kid peppers then [] else unconfigured_kid id i ∷ []))
    else some []

-- The body of the loop over the steps.
unfoldable pub check_step :
    List Text → Text → ℕ → List Text → Step → Option (List Problem × List Text)
check_step known id i bound step = then_do (reconfigure_problems id i step) λ unconfigured.
    let (binding, after) =
      bind_problems id i bound (expects_failure step.expect) (truthy step.bind) in
    some (
      ref_problems id i bound (refs_of step)
          ++ (binding ++ (kid_problems id i known (kids_of step) ++ unconfigured)),
      after,
    )

-- The loop; `i` is the number of the next step.
unfoldable pub check_steps : List Text → Text → ℕ → List Text → List Step → Option (List Problem)
check_steps known id i bound [] = some []
check_steps known id i bound (step ∷ steps) =
    then_do (check_step known id i bound step) λ (problems, after).
      then_do (check_steps known id (i + 1) after steps) λ rest. some (problems ++ rest)

-- `(st) => st.expect || st.op.startsWith("expect")`, for some step.
unfoldable pub asserts : List Step → Bool
asserts [] = false
asserts (st ∷ steps) =
    (not (is_none st.expect) || starts_with (text "expect") st.op) || asserts steps

abbrev pub condition_problems : List Text → Scenario → List Problem
condition_problems known s = elim s.condition [
  | none ↦ []
  | some condition ↦ if contains condition known then [] else unknown_condition s.id ∷ []
]

-- The body of the loop over the scenarios.
unfoldable pub check_scenario : BehaviorVectors → Scenario → Option (List Problem)
check_scenario bv s = then_do (check_steps bv.kids s.id 1 [] s.steps) λ problems. some (
    condition_problems bv.conditions s
    ++ (problems ++ (if asserts s.steps then [] else asserts_nothing s.id ∷ [])))

unfoldable pub each_scenario : BehaviorVectors → List Scenario → Option (List Problem)
each_scenario bv [] = some []
each_scenario bv (s ∷ ss) =
    then_do (check_scenario bv s)
      λ problems. then_do (each_scenario bv ss) λ rest. some (problems ++ rest)

-- `bv.defaults?.peppers?.includes(bv.defaults?.activeKid)`
abbrev pub default_included : BehaviorVectors → Bool
default_included bv = elim bv.default_peppers [
  | none ↦ false
  | some peppers ↦ includes_kid bv.default_kid peppers
]

unfoldable pub check_scenarios : BehaviorVectors → Option (List Problem)
check_scenarios bv = then_do (each_scenario bv bv.scenarios) λ problems.
    some (problems ++ (if default_included bv then [] else default_kid_unconfigured ∷ []))
