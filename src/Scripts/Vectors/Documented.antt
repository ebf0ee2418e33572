-- ===== src/Scripts/Vectors/Documented.antt =====
-- What the check of the scenarios establishes, scenario by scenario.
use nebula_token.Common.{
  ◌≡◌, sym, ◌∙◌, ap, ◌⊎◌, inl, inr, Bool-cases, true, none, some, Option-cases, some_injective,
  List, [], ◌∷◌, ◌++◌, All, Text, append-eq-empty, All-append-at,
}
use mathlib.Core.Path.{subst}
use nebula_token.Scripts.Texts.{contains}
use nebula_token.Scripts.Members.{IsIn, contains_iff}
use nebula_token.Scripts.Vectors.{Step, Scenario, BehaviorVectors}
use nebula_token.Scripts.Vectors.Scenarios.{
  check_steps, asserts, condition_problems, check_scenario, each_scenario, check_scenarios,
  default_included,
}
use nebula_token.Scripts.Vectors.Bound.{bound_after, IsRunnable, check_steps-IsRunnable}

-- A scenario that the script accepts, but for its steps.
abbrev pub IsDocumented : BehaviorVectors → Scenario → Type 0
IsDocumented bv s =
    ((s.condition ≡ none) ⊎ ((c : Text) × (s.condition ≡ some c) × IsIn c bv.conditions))
    × (asserts s.steps ≡ true)

condition_problems-none :
    (known : List Text) (s : Scenario)
    → condition_problems known s ≡ []
    → (s.condition ≡ none) ⊎ ((c : Text) × (s.condition ≡ some c) × IsIn c known)
condition_problems-none known s h = elim (Option-cases s.condition) [
  | inl n ↦ inl n
  | inr (c, e) ↦ elim (Bool-cases (contains c known)) [
    | inl k ↦ inr (c, e, (contains_iff c known).0 k)
    | inr k ↦ cc (rw (e, k) at h)
  ]
]

check_scenario-none :
    (bv : BehaviorVectors) (s : Scenario)
    → check_scenario bv s ≡ some []
    → IsDocumented bv s × (check_steps bv.kids s.id 1 [] s.steps ≡ some [])
unfolding check_scenario
check_scenario-none bv s h = elim (Option-cases (check_steps bv.kids s.id 1 [] s.steps)) [
  | inl n ↦ cc (rw n at h)
  | inr (problems, e) ↦
      let (a, b) = append-eq-empty _ _ (some_injective (rw e at h)) in
      let (c, d) = append-eq-empty _ _ b in
      elim (Bool-cases (asserts s.steps)) [
        | inl k ↦ ((condition_problems-none bv.conditions s a, k), e ∙ ap some c)
        | inr k ↦ cc (rw k at d)
      ]
]

each_scenario-cons :
    (bv : BehaviorVectors) (s : Scenario) (ss : List Scenario)
    → each_scenario bv (s ∷ ss) ≡ some []
    → (check_scenario bv s ≡ some []) × (each_scenario bv ss ≡ some [])
unfolding each_scenario
each_scenario-cons bv s ss h = elim (Option-cases (check_scenario bv s)) [
  | inl n ↦ cc (rw n at h)
  | inr (problems, e) ↦ elim (Option-cases (each_scenario bv ss)) [
    | inl n ↦ cc (rw (e, n) at h)
    | inr (rest, r) ↦
        let (p, q) = append-eq-empty problems rest (some_injective (rw (e, r) at h)) in
        (e ∙ ap some p, r ∙ ap some q)
  ]
]

pub each_scenario-All :
    (bv : BehaviorVectors) (ss : List Scenario)
    → each_scenario bv ss ≡ some []
    → All (λ s. IsDocumented bv s × (check_steps bv.kids s.id 1 [] s.steps ≡ some [])) ss
each_scenario-All bv [] h = tt
each_scenario-All bv (s ∷ ss) h =
    let (a, b) = each_scenario-cons bv s ss h in
    (check_scenario-none bv s a, each_scenario-All bv ss b)

pub check_scenarios-each :
    (bv : BehaviorVectors)
    → check_scenarios bv ≡ some []
    → (each_scenario bv bv.scenarios ≡ some []) × (default_included bv ≡ true)
unfolding check_scenarios
check_scenarios-each bv h = elim (Option-cases (each_scenario bv bv.scenarios)) [
  | inl n ↦ cc (rw n at h)
  | inr (problems, e) ↦
      let (a, b) = append-eq-empty _ _ (some_injective (rw e at h)) in
      elim (Bool-cases (default_included bv)) [
        | inl k ↦ (e ∙ ap some a, k)
        | inr k ↦ cc (rw k at b)
      ]
]

-- Where the check of the scenarios finds no problem, every step of every scenario can be run: what it
-- names is bound by the steps before it, what it binds is new and not the result of a failure, its
-- keys have a pepper, and a `reconfigure` names one of its own keys. Every scenario asserts
-- something, and its condition is a documented one.
pub check_scenarios-IsRunnable :
    (bv : BehaviorVectors) (earlier : List Scenario) (s : Scenario) (later : List Scenario)
    (before : List Step) (step : Step) (after : List Step)
    → check_scenarios bv ≡ some []
    → bv.scenarios ≡ earlier ++ (s ∷ later)
    → s.steps ≡ before ++ (step ∷ after)
    → IsRunnable bv.kids (bound_after [] before) step × IsDocumented bv s
check_scenarios-IsRunnable bv earlier s later before step after h split_at steps_at =
    let every = each_scenario-All bv bv.scenarios (check_scenarios-each bv h).0 in
    let P : Scenario → Type 0 =
      λ s. IsDocumented bv s × (check_steps bv.kids s.id 1 [] s.steps ≡ some []) in
    let (documented, ran) = All-append-at P earlier s later (subst (All P) split_at every) in
    (
      check_steps-IsRunnable bv.kids s.id 1 [] before step after
          (ap (check_steps bv.kids s.id 1 []) (sym steps_at) ∙ ran),
      documented,
    )
