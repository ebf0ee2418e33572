-- ===== src/Scripts/Vectors/Cited.antt =====
-- What the checks of the citations and of the versions establish.
use nebula_token.Common.{
  ℕ, ◌≡◌, ◌≢◌, ◌≤◌, inl, inr, Bool-cases, false, Option, none, some, Option-cases, List, [], ◌∷◌,
  ◌==◌, arith, All, Text, append-eq-empty, same_text_iff,
}
use nebula_token.Codec.Split.{split}
use nebula_token.Scripts.Texts.{contains}
use nebula_token.Scripts.Members.{contains_iff}
use nebula_token.Scripts.Vectors.Defined.{IsDefined, defined_in-IsDefined}
use nebula_token.Scripts.Runtime.{group_one}
use nebula_token.Scripts.Runtime.Compare.{number}
use nebula_token.Scripts.Vectors.{TestVectors, BehaviorVectors}
use nebula_token.Scripts.Vectors.Citations.{
  defined_in, sub_rule_count, citations, exceeds, base_of, sub_problems, cite_problems,
  each_citation, check_citations, spec_version_line, same_version, check_version,
}

-- A number is at most `n`; what is no number passes.
abbrev pub IsWithin : Option ℕ → ℕ → Type 0
IsWithin none n = Unit
IsWithin (some m) n = m ≤ n

exceeds-IsWithin : (o : Option ℕ) (n : ℕ) → exceeds o n ≡ false → IsWithin o n
exceeds-IsWithin none n h = tt
exceeds-IsWithin (some m) n h = ground (arith, h)

-- The second part of a citation, against the first list behind the requirement, whichever
-- requirement that list is under. A part that is no number, and 0, pass.
abbrev pub IsRule : Text → List Text → Type 0
IsRule spec (base ∷ sub ∷ rest) =
    (sub_rule_count spec base ≢ 0) × IsWithin (number sub) (sub_rule_count spec base)
IsRule spec _ = Unit

abbrev pub IsCited : Text → Text → Type 0
IsCited spec ref = IsDefined spec (base_of (split b'.' ref)) × IsRule spec (split b'.' ref)

sub_problems-IsRule :
    (spec ref : Text) (cut : List Text) → sub_problems spec ref cut ≡ [] → IsRule spec cut
unfolding sub_problems
sub_problems-IsRule spec ref [] h = tt
sub_problems-IsRule spec ref (base ∷ []) h = tt
sub_problems-IsRule spec ref (base ∷ sub ∷ rest) h =
    let n = sub_rule_count spec base in
    elim (Bool-cases (n == 0)) [
      | inl z ↦ cc (rw z at h)
      | inr z ↦ elim (Bool-cases (exceeds (number sub) n)) [
        | inl x ↦ cc (rw (z, x) at h)
        | inr x ↦ (ground (arith, z), exceeds-IsWithin (number sub) n x)
      ]
    ]

cite_problems-IsCited :
    (spec ref : Text) → cite_problems spec (defined_in spec) ref ≡ [] → IsCited spec ref
unfolding cite_problems
cite_problems-IsCited spec ref h =
    let cut = split b'.' ref in
    elim (Bool-cases (contains (base_of cut) (defined_in spec))) [
      | inl k ↦ (
        defined_in-IsDefined spec _ ((contains_iff _ _).0 k),
        sub_problems-IsRule spec ref cut (rw k at h),
      )
      | inr k ↦ cc (rw k at h)
    ]

each_citation-All :
    (spec : Text) (refs : List Text)
    → each_citation spec (defined_in spec) refs ≡ []
    → All (IsCited spec) refs
unfolding each_citation
each_citation-All spec [] h = tt
each_citation-All spec (ref ∷ refs) h =
    let (a, b) = append-eq-empty _ _ h in
    (cite_problems-IsCited spec ref a, each_citation-All spec refs b)

-- Where the check of the citations finds no problem, the part before the dot of every citation of
-- either file is `N-` and a number, and stands in SPECIFICATION.md as `**[N-…]`. Of a citation with
-- a second part it says only this: a numbered list stands somewhere behind that requirement, if need
-- be under a later one, and the second part, where it is a number, is at most the number of the
-- items of the first such list; 0 and what is no number pass.
pub check_citations-IsCited :
    (spec : Text) (tv : TestVectors) (bv : BehaviorVectors)
    → check_citations spec tv bv ≡ []
    → All (IsCited spec) (citations tv bv)
unfolding check_citations
check_citations-IsCited spec tv bv h =
    each_citation-All spec (citations tv bv) (append-eq-empty _ _ h).1

-- Both files have the version that the specification states.
abbrev pub IsOneVersion : Text → TestVectors → BehaviorVectors → Type 0
IsOneVersion spec tv bv =
    (v : Text) × (group_one spec_version_line spec ≡ some v)
    × (tv.spec_version ≡ v)
    × (bv.spec_version ≡ v)

same_version-eq : (name v w : Text) → same_version name v w ≡ [] → v ≡ w
same_version-eq name v w h = ground (arith, h, same_text_iff v w)

pub check_version-IsOneVersion :
    (spec : Text) (tv : TestVectors) (bv : BehaviorVectors)
    → check_version spec tv bv ≡ []
    → IsOneVersion spec tv bv
unfolding check_version
check_version-IsOneVersion spec tv bv h = elim (Option-cases (group_one spec_version_line spec)) [
  | inl n ↦ cc (rw (n, check_version) at h)
  | inr (v, e) ↦
      let (a, b) = append-eq-empty _ _ (rw (e, check_version) at h) in
      (v, e, same_version-eq _ tv.spec_version v a, same_version-eq _ bv.spec_version v b)
]
