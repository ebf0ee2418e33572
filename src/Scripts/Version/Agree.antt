-- ===== src/Scripts/Version/Agree.antt =====
-- Lists of problems and of versions in `check` of scripts/version.mjs: where no problem is found, all
-- versioned sites read one version.
use nebula_token.Common.{
  append-eq-empty, ◌≡◌, refl, sym, ap, ◌∙◌, true, false, Bool-cases, inl, inr, Option, none, some,
  List, [], ◌∷◌, All, arith, Text, same_text, same_text_iff, map, is_empty,
}
use mathlib.Core.Path.{subst}
use nebula_token.Scripts.Regex.{Regex, test}
use nebula_token.Scripts.Version.{
  Files, Site, Problem, read_site, distinct, without, versions, row_problems, site_problems,
  disagree,
}

-- A list with one distinct value.
without-keeps :
    (w u : Text) (us : List Text) → same_text u w ≡ false → without w (u ∷ us) ≡ u ∷ without w us
unfolding without
without-keeps w u us miss = rw miss refl

without-All :
    (v w : Text) (us : List Text) → w ≡ v → All (λ u. u ≡ v) (without w us) → All (λ u. u ≡ v) us
unfolding without
without-All v w [] e h = tt
without-All v w (u ∷ us) e h = elim (Bool-cases (same_text u w)) [
  | inl hit ↦ ((same_text_iff u w).0 hit ∙ e, without-All v w us e (ground (arith, hit, h)))
  | inr miss ↦
      let both : All (λ u. u ≡ v) (u ∷ without w us) =
        subst (All (λ u. u ≡ v)) (without-keeps w u us miss) h in
      (both.0, without-All v w us e both.1)
]

distinct-All : (v : Text) (us : List Text) → All (λ u. u ≡ v) (distinct us) → All (λ u. u ≡ v) us
unfolding distinct
distinct-All v [] h = tt
distinct-All v (u ∷ us) (e, h) = (e, distinct-All v us (without-All v u (distinct us) e h))

single :
    (problem : List Text → Problem) (v : Text) (us : List Text)
    → disagree problem (v ∷ us) ≡ []
    → us ≡ []
single problem v [] h = refl
single problem v (u ∷ us) h = ground arith

pub distinct-single :
    (problem : List Text → Problem) (v : Text) (us : List Text)
    → disagree problem (distinct (v ∷ us)) ≡ []
    → (distinct (v ∷ us) ≡ v ∷ []) × All (λ u. u ≡ v) us
unfolding distinct
distinct-single problem v us h =
    let alone = single problem v (without v (distinct us)) h in
    (
      ap (λ rest. v ∷ rest) alone,
      distinct-All v us
          (without-All v v (distinct us) refl (subst (All (λ u. u ≡ v)) (sym alone) tt)),
    )

module _ (semver : Regex) (files : Files) (not_empty : test semver [] ≡ false) where
  pub row_problems-none :
      (t : Site) (row : Option Text)
      → row_problems semver t row ≡ []
      → (v : Text) × (row ≡ some v) × (test semver v ≡ true) × (is_empty v ≡ false)
  unfolding row_problems
  row_problems-none t none h = cc
  row_problems-none t (some []) h = ground (arith, not_empty)
  row_problems-none t (some (c ∷ v)) h = (c ∷ v, refl, ground arith, refl)

  pub versions-cons :
      (v : Text) (rows : List (Option Text))
      → is_empty v ≡ false
      → versions (some v ∷ rows) ≡ v ∷ versions rows
  unfolding versions
  versions-cons v rows h = rw (h, versions) refl

  pub sites-agree :
      (v : Text) (sites : List Site)
      → site_problems semver files sites ≡ []
      → All (λ u. u ≡ v) (versions (map (read_site files) sites))
      → All (λ t. read_site files t ≡ some v) sites
  unfolding site_problems
  sites-agree v [] h a = tt
  sites-agree v (t ∷ sites) h a =
      let (none_here, none_after) =
        append-eq-empty (row_problems semver t (read_site files t)) _ h in
      let (w, row, good, full) = row_problems-none t (read_site files t) none_here in
      let shape =
        ap (λ o. versions (o ∷ map (read_site files) sites)) row
        ∙ versions-cons w (map (read_site files) sites) full in
      let both = subst (All (λ u. u ≡ v)) shape a in
      (row ∙ ap some both.0, sites-agree v sites none_after both.1)
