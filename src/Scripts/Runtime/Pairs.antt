-- ===== src/Scripts/Runtime/Pairs.antt =====
-- What the check of an entry with pairs of an Elixir and an OTP establishes.
use nebula_token.Common.{
  ◌≡◌, refl, sym, ap, ◌⊎◌, inl, inr, Option, none, some, some_injective, List, [], ◌∷◌, arith, All,
  Text, append-eq-empty,
}
use mathlib.Core.Path.{subst}
use nebula_token.Scripts.Version.{Files}
use nebula_token.Scripts.Texts.{truthy}
use nebula_token.Scripts.Members.{List-cases, IsIn-move, IsIn-filter}
use nebula_token.Scripts.Runtime.{
  Matrix, Runtime, Pair, Problem, Row, numeric, lowest_of, unless_same, elixir_problems,
  otp_problems, check_pairs,
}
use nebula_token.Scripts.Runtime.Compare.{same, cmp}
use nebula_token.Scripts.Runtime.Order.{IsNumeric}
use nebula_token.Scripts.Runtime.Floors.{IsLowest, IsTested, lowest-IsLowest, guarded-none}
use nebula_token.Scripts.Runtime.Single.{elixirs, otps, IsPlain, truthy-some}

unless_same-none : (low f : Text) (p : Problem) → unless_same low f p ≡ [] → cmp low f ≡ same
unless_same-none low f p h = ground (arith, h)

-- Every Elixir of the matrix is a channel, or the floor is tested.
abbrev pub IsTestedElixir : Text → List Pair → Type 0
IsTestedElixir f listed = (numeric (elixirs listed) ≡ []) ⊎ IsTested f (elixirs listed)

elixir_problems-none :
    (rt : Runtime) (o : Option Text) (listed : List Pair)
    → All IsNumeric (numeric (elixirs listed))
    → elixir_problems rt o listed ≡ []
    → (f : Text) × (o ≡ some f) × IsTestedElixir f listed
unfolding elixir_problems numeric
elixir_problems-none rt none listed plain h = cc
elixir_problems-none rt (some f) listed plain h =
    let e = unless_same-none _ f _ h in
    (
      f,
      refl,
      elim (List-cases (numeric (elixirs listed))) [
        | inl n ↦ inl n
        | inr (v, vs, n) ↦ inr (
            subst (λ c. IsLowest f c (elixirs listed)) (sym n)
              (lowest-IsLowest f v vs (elixirs listed)
                (λ u i. IsIn-filter _ u (elixirs listed) (IsIn-move u (sym n) i))
                (subst (All IsNumeric) n plain) (subst (λ c. cmp (lowest_of c) f ≡ same) n e)))
      ],
    )

-- The declared OTP, where there is one, is tested.
abbrev pub IsTestedOtp : Option Text → List Pair → Type 0
IsTestedOtp none listed = Unit
IsTestedOtp (some f) listed = IsLowest f (otps listed) (otps listed)

otp_problems-none :
    (rt : Runtime) (o : Option Text) (p : Pair) (ps : List Pair)
    → All IsNumeric (otps (p ∷ ps))
    → otp_problems rt o (p ∷ ps) ≡ []
    → IsTestedOtp o (p ∷ ps)
unfolding otp_problems
otp_problems-none rt none p ps plain h = tt
otp_problems-none rt (some f) p ps plain h =
    lowest-IsLowest f p.otp (otps ps) (otps (p ∷ ps)) (λ u i. i) plain (unless_same-none _ f _ h)

-- An entry with pairs.
abbrev pub HasTestedPairs :
    Matrix → Files → Runtime → (Text → Option Text) → (Text → Option Text) → Type 0
HasTestedPairs matrix files rt floor otp =
    (listed : List Pair) × (t : Text) × (f : Text) × (matrix.pairs rt.key ≡ some listed)
    × (files rt.manifest ≡ some t)
    × (floor t ≡ some f)
    × IsTestedElixir f listed
    × IsTestedOtp (truthy (otp t)) listed

pub check_pairs-HasTestedPairs :
    (matrix : Matrix) (files : Files) (rt : Runtime) (floor otp : Text → Option Text)
    (rows : List Row)
    → IsPlain matrix
    → check_pairs matrix files rt floor otp ≡ some ([], rows)
    → HasTestedPairs matrix files rt floor otp
unfolding check_pairs
check_pairs-HasTestedPairs matrix files rt floor otp rows plain h =
    let (p, ps, t, listed, readable, rest) = guarded-none files rt (matrix.pairs rt.key) _ rows h in
    let (a, b) = append-eq-empty _ _ (ap (λ x. x.0) (some_injective rest)) in
    let (m, n) = plain.pairs rt.key (p ∷ ps) listed in
    let (f, shown, tested) = elixir_problems-none rt (truthy (floor t)) (p ∷ ps) m a in
    (
      p ∷ ps,
      t,
      f,
      listed,
      readable,
      truthy-some (floor t) f shown,
      tested,
      otp_problems-none rt (truthy (otp t)) p ps n b,
    )
