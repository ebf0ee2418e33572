-- ===== src/Scripts/Vectors/Mirrored.antt =====
-- What the check of the constants establishes.
use nebula_token.Common.{
  ◌≡◌, refl, ap, inl, inr, Bool-cases, true, Option, none, some, Option-cases, List, [], ◌∷◌, All,
  Text, append-eq-empty, same_text_iff, ==_iff,
}
use nebula_token.Scripts.Texts.{contains}
use nebula_token.Scripts.Members.{IsIn, contains_iff}
use nebula_token.Scripts.Vectors.{Constant, number, string, TestVectors}
use nebula_token.Scripts.Vectors.Constants.{
  spec_constants, constant_map, get_constant, same_constant, constant_problems, map_problems,
  spec_keys, unmirrored_problems, check_constants,
}

same_constant-eq : (o : Option Constant) (c : Constant) → same_constant o c ≡ true → o ≡ some c
unfolding same_constant
same_constant-eq (some (number m)) (number n) h = ap (λ k. some (number k)) ((==_iff m n).0 h)
same_constant-eq (some (string s)) (string t) h =
    ap (λ k. some (string k)) ((same_text_iff s t).0 h)
same_constant-eq (some (number m)) (string t) h = cc
same_constant-eq (some (string s)) (number n) h = cc
same_constant-eq none (number n) h = cc
same_constant-eq none (string t) h = cc

-- A constant of the vectors has the value of its row.
abbrev pub IsMirrored : TestVectors → List (Text × Constant) → Text × Text → Type 0
IsMirrored tv consts (vec_key, spec_key) =
    (c : Constant) × (get_constant spec_key consts ≡ some c) × (tv.constants vec_key ≡ some c)

constant_problems-some :
    (tv : TestVectors) (vec_key spec_key : Text) (o : Option Constant)
    → constant_problems tv vec_key spec_key o ≡ []
    → (c : Constant) × (o ≡ some c) × (tv.constants vec_key ≡ some c)
unfolding constant_problems
constant_problems-some tv vec_key spec_key none h = cc
constant_problems-some tv vec_key spec_key (some c) h =
    elim (Bool-cases (same_constant (tv.constants vec_key) c)) [
      | inl k ↦ (c, refl, same_constant-eq (tv.constants vec_key) c k)
      | inr k ↦ cc (rw k at h)
    ]

map_problems-All :
    (tv : TestVectors) (consts : List (Text × Constant)) (keys : List (Text × Text))
    → map_problems tv consts keys ≡ []
    → All (IsMirrored tv consts) keys
unfolding map_problems
map_problems-All tv consts [] h = tt
map_problems-All tv consts ((vec_key, spec_key) ∷ keys) h =
    let (a, b) = append-eq-empty _ _ h in
    (constant_problems-some tv vec_key spec_key _ a, map_problems-All tv consts keys b)

unmirrored_problems-All :
    (consts : List (Text × Constant))
    → unmirrored_problems consts ≡ []
    → All (λ x. IsIn x.0 (spec_keys constant_map)) consts
unfolding unmirrored_problems
unmirrored_problems-All [] h = tt
unmirrored_problems-All ((name, value) ∷ consts) h =
    elim (Bool-cases (contains name (spec_keys constant_map))) [
      | inl k ↦ ((contains_iff _ _).0 k, unmirrored_problems-All consts (rw k at h))
      | inr k ↦ cc (rw k at h)
    ]

-- The constants of the vectors and the rows of the specification's table.
abbrev pub AreMirrored : Text → TestVectors → Type 0
AreMirrored spec tv =
    (consts : List (Text × Constant)) × (spec_constants spec ≡ some consts)
    × All (IsMirrored tv consts) constant_map
    × All (λ x. IsIn x.0 (spec_keys constant_map)) consts

-- Where the check of the constants finds no problem, SPECIFICATION.md has its table, each of the
-- eleven constants of the vectors is there under its name and has the value of its row, and the
-- table has no row besides.
pub check_constants-AreMirrored :
    (spec : Text) (tv : TestVectors) → check_constants spec tv ≡ [] → AreMirrored spec tv
unfolding check_constants
check_constants-AreMirrored spec tv h = elim (Option-cases (spec_constants spec)) [
  | inl n ↦ cc (rw (n, check_constants) at h)
  | inr (consts, e) ↦
      let (a, b) = append-eq-empty _ _ (rw (e, check_constants) at h) in
      (consts, e, map_problems-All tv consts constant_map a, unmirrored_problems-All consts b)
]
