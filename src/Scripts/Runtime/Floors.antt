-- ===== src/Scripts/Runtime/Floors.antt =====
-- What it means that the check of a floor finds no problem: CI tests it, and nothing below it.
use nebula_token.Common.{
  ◌≡◌, refl, sym, ◌∙◌, inl, inr, Option, none, some, Option-cases, List, [], ◌∷◌, arith, All, Text,
}
use mathlib.Core.Path.{subst}
use nebula_token.Scripts.Version.{Files}
use nebula_token.Scripts.Members.{IsIn, List-cases, IsIn-move, IsIn-filter}
use nebula_token.Scripts.Runtime.{
  Runtime, only_channels, Row, Found, numeric, compare_floor, floor_problems, guarded,
}
use nebula_token.Scripts.Runtime.Compare.{same, cmp, lowest}
use nebula_token.Scripts.Runtime.Order.{IsNumeric, IsAtMost, lowest-IsIn, lowest-All}

-- Some version of the list is equal to the floor, and none of the candidates is earlier.
abbrev pub IsLowest : Text → List Text → List Text → Type 0
IsLowest floor candidates listed =
    (v : Text) × IsIn v listed × (cmp v floor ≡ same) × All (IsAtMost v) candidates

-- A floor that CI tests: the versions that name a channel do not count.
abbrev pub IsTested : Text → List Text → Type 0
IsTested floor listed = IsLowest floor (numeric listed) listed

compare_floor-none : (rt : Runtime) (f low : Text) → compare_floor rt f low ≡ [] → cmp low f ≡ same
unfolding compare_floor
compare_floor-none rt f low h = ground (arith, h)

pub lowest-IsLowest :
    (f v : Text) (vs listed : List Text)
    → ((u : Text) → IsIn u (v ∷ vs) → IsIn u listed)
    → All IsNumeric (v ∷ vs)
    → cmp (lowest v vs) f ≡ same
    → IsLowest f (v ∷ vs) listed
lowest-IsLowest f v vs listed inside (n, ns) e =
    (lowest v vs, inside _ (lowest-IsIn v vs), e, lowest-All v vs n ns)

floor_problems-empty :
    (rt : Runtime) (f : Text) (listed : List Text)
    → numeric listed ≡ []
    → floor_problems rt f listed ≡ only_channels rt.label f ∷ []
unfolding floor_problems
floor_problems-empty rt f listed e = rw (e, floor_problems) refl

floor_problems-some :
    (rt : Runtime) (f v : Text) (listed vs : List Text)
    → numeric listed ≡ v ∷ vs
    → floor_problems rt f listed ≡ compare_floor rt f (lowest v vs)
unfolding floor_problems
floor_problems-some rt f v listed vs e = rw (e, floor_problems) refl

pub floor_problems-IsTested :
    (rt : Runtime) (f : Text) (listed : List Text)
    → All IsNumeric (numeric listed)
    → floor_problems rt f listed ≡ []
    → IsTested f listed
unfolding numeric
floor_problems-IsTested rt f listed plain h = elim (List-cases (numeric listed)) [
  | inl e ↦ cc (floor_problems-empty rt f listed e, h)
  | inr (v, vs, e) ↦
      subst (λ c. IsLowest f c listed) (sym e)
        (lowest-IsLowest f v vs listed (λ u i. IsIn-filter _ u listed (IsIn-move u (sym e) i))
          (subst (All IsNumeric) e plain)
          (compare_floor-none rt f (lowest v vs)
            (sym (floor_problems-some rt f v listed vs e) ∙ h)))
]

-- Where the start of the body reports nothing, the rest of it runs.
pub guarded-none {ℓ} :
    {A : Type ℓ} (files : Files) (rt : Runtime) (o : Option (List A))
    (check : List A → Text → Option Found) (rows : List Row)
    → guarded files rt o check ≡ some ([], rows)
    → (v : A) × (vs : List A) × (t : Text) × (o ≡ some (v ∷ vs))
      × (files rt.manifest ≡ some t)
      × (check (v ∷ vs) t ≡ some ([], rows))
unfolding guarded
guarded-none files rt none check rows h = cc
guarded-none files rt (some []) check rows h = cc
guarded-none files rt (some (v ∷ vs)) check rows h = elim (Option-cases (files rt.manifest)) [
  | inl n ↦ cc (rw (n, guarded) at h)
  | inr (t, e) ↦ (v, vs, t, refl, e, rw (e, guarded) at h)
]
