-- ===== src/Scripts/Runtime/Single.antt =====
-- What the check of an entry with a floor establishes.
use nebula_token.Common.{
  ◌≡◌, refl, ◌∙◌, ap, inl, inr, Option, none, some, Option-cases, some_injective, List, [], ◌∷◌,
  All, Text, map,
}
use nebula_token.Scripts.Version.{Files}
use nebula_token.Scripts.Texts.{truthy}
use nebula_token.Scripts.Runtime.{
  JsonField, Matrix, Runtime, Floor, Pair, Row, numeric, found_floor, check_floor,
}
use nebula_token.Scripts.Runtime.Order.{IsNumeric}
use nebula_token.Scripts.Runtime.Floors.{IsTested, floor_problems-IsTested, guarded-none}

-- The members of the pairs.
abbrev pub elixirs : List Pair → List Text
elixirs listed = map (λ p. p.elixir) listed

abbrev pub otps : List Pair → List Text
otps listed = map (λ p. p.otp) listed

-- Every version of the matrix that starts with a digit is made of numbers, and so is every OTP.
pub record IsPlain (matrix : Matrix) : Type 0 where
  pub versions :
      (key : Text) (listed : List Text)
      → matrix.versions key ≡ some listed
      → All IsNumeric (numeric listed)
  pub pairs :
      (key : Text) (listed : List Pair)
      → matrix.pairs key ≡ some listed
      → All IsNumeric (numeric (elixirs listed)) × All IsNumeric (otps listed)

pub truthy-some : (o : Option Text) (f : Text) → truthy o ≡ some f → o ≡ some f
truthy-some none f h = cc
truthy-some (some []) f h = cc
truthy-some (some (c ∷ s)) f h = h

found_floor-none :
    (rt : Runtime) (listed : List Text) (o : Option Text) (rows : List Row)
    → All IsNumeric (numeric listed)
    → found_floor rt listed o ≡ ([], rows)
    → (f : Text) × (o ≡ some f) × IsTested f listed
unfolding found_floor
found_floor-none rt listed none rows plain h = cc
found_floor-none rt listed (some f) rows plain h =
    (f, refl, floor_problems-IsTested rt f listed plain (ap (λ x. x.0) h))

-- An entry with a floor.
abbrev pub HasTestedFloor : JsonField → Matrix → Files → Runtime → Floor → Type 0
HasTestedFloor json matrix files rt floor =
    (listed : List Text) × (t : Text) × (f : Text) × (matrix.versions rt.key ≡ some listed)
    × (files rt.manifest ≡ some t)
    × (floor json t ≡ some (some f))
    × IsTested f listed

pub check_floor-HasTestedFloor :
    (json : JsonField) (matrix : Matrix) (files : Files) (rt : Runtime) (floor : Floor)
    (rows : List Row)
    → IsPlain matrix
    → check_floor json matrix files rt floor ≡ some ([], rows)
    → HasTestedFloor json matrix files rt floor
unfolding check_floor
check_floor-HasTestedFloor json matrix files rt floor rows plain h =
    let (v, vs, t, listed, readable, rest) =
      guarded-none files rt (matrix.versions rt.key) _ rows h in
    elim (Option-cases (floor json t)) [
      | inl n ↦ cc (rw n at rest)
      | inr (read, e) ↦
          let (f, shown, tested) =
            found_floor-none rt (v ∷ vs) (truthy read) rows (plain.versions rt.key (v ∷ vs) listed)
              (some_injective (rw e at rest)) in
          (v ∷ vs, t, f, listed, readable, e ∙ ap some (truthy-some read f shown), tested)
    ]
