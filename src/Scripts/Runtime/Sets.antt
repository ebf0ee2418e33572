-- ===== src/Scripts/Runtime/Sets.antt =====
-- What the check of an entry whose set of frameworks is to match establishes.
use nebula_token.Common.{
  ◌≡◌, refl, sym, ap, inl, inr, Bool-cases, Option, none, some, Option-cases, some_injective, List,
  [], ◌∷◌, All, Text, map, append-eq-empty,
}
use mathlib.Core.Path.{subst}
use nebula_token.Scripts.Version.{Files}
use nebula_token.Scripts.Texts.{contains}
use nebula_token.Scripts.Members.{IsIn, contains_iff}
use nebula_token.Scripts.Runtime.{
  Matrix, Runtime, Framework, Problem, Row, targets, test_project, ships_untested, each_missing,
  also_check, found_set, check_set,
}
use nebula_token.Scripts.Runtime.Floors.{guarded-none}

-- `each_missing` reports nothing: every text of the one list is in the other.
each_missing-none :
    (problem : Text → Problem) (ts known : List Text)
    → each_missing problem ts known ≡ []
    → All (λ t. IsIn t known) ts
unfolding each_missing
each_missing-none problem [] known h = tt
each_missing-none problem (t ∷ ts) known h = elim (Bool-cases (contains t known)) [
  | inl k ↦ ((contains_iff t known).0 k, each_missing-none problem ts known (rw k at h))
  | inr k ↦ cc (rw k at h)
]

abbrev or_none : Option (List Text) → List Text
or_none none = []
or_none (some ts) = ts

-- Every declared framework is one of the test project.
abbrev pub IsTestedProject : Files → List Text → Type 0
IsTestedProject files declared =
    (t : Text) × (files test_project ≡ some t) × All (λ d. IsIn d (or_none (targets t))) declared

also_check-none :
    (files : Files) (declared : List Text)
    → also_check files declared ≡ []
    → IsTestedProject files declared
unfolding also_check
also_check-none files declared h = elim (Option-cases (files test_project)) [
  | inl n ↦ cc (rw (n, also_check) at h)
  | inr (t, e) ↦ elim (Option-cases (targets t)) [
    | inl n ↦ (
      t,
      e,
      subst (λ o. All (λ d. IsIn d (or_none o)) declared) (sym n)
          (each_missing-none ships_untested declared [] (rw (e, n, also_check) at h)),
    )
    | inr (ts, n) ↦ (
      t,
      e,
      subst (λ o. All (λ d. IsIn d (or_none o)) declared) (sym n)
          (each_missing-none ships_untested declared ts (rw (e, n, also_check) at h)),
    )
  ]
]

-- The frameworks that CI tests.
abbrev pub tested_in : List Framework → List Text
tested_in listed = map (λ g. g.framework) listed

-- An entry whose set is to match: declared, tested and test project agree.
abbrev pub HasTestedSet : Matrix → Files → Runtime → Type 0
HasTestedSet matrix files rt =
    (listed : List Framework) × (t : Text) × (declared : List Text) × (matrix.frameworks rt.key
      ≡ some listed)
    × (files rt.manifest ≡ some t)
    × (targets t ≡ some declared)
    × All (λ d. IsIn d (tested_in listed)) declared
    × All (λ d. IsIn d declared) (tested_in listed)
    × IsTestedProject files declared

found_set-none :
    (files : Files) (rt : Runtime) (listed : List Framework) (o : Option (List Text))
    (rows : List Row)
    → found_set files rt listed o ≡ ([], rows)
    → (declared : List Text) × (o ≡ some declared)
      × All (λ d. IsIn d (tested_in listed)) declared
      × All (λ d. IsIn d declared) (tested_in listed)
      × IsTestedProject files declared
unfolding found_set
found_set-none files rt listed none rows h = cc
found_set-none files rt listed (some declared) rows h =
    let (a, b) = append-eq-empty _ _ (ap (λ x. x.0) h) in
    let (c, d) = append-eq-empty _ _ b in
    (
      declared,
      refl,
      each_missing-none _ declared (tested_in listed) a,
      each_missing-none _ (tested_in listed) declared c,
      also_check-none files declared d,
    )

pub check_set-HasTestedSet :
    (matrix : Matrix) (files : Files) (rt : Runtime) (rows : List Row)
    → check_set matrix files rt ≡ some ([], rows)
    → HasTestedSet matrix files rt
unfolding check_set
check_set-HasTestedSet matrix files rt rows h =
    let (v, vs, t, listed, readable, rest) =
      guarded-none files rt (matrix.frameworks rt.key) _ rows h in
    let (declared, read, a, b, c) =
      found_set-none files rt (v ∷ vs) (targets t) rows (some_injective rest) in
    (v ∷ vs, t, declared, listed, readable, read, a, b, c)
