-- ===== src/Scripts/Version/Check.antt =====
-- What `check` of scripts/version.mjs establishes where it finds no problem.
use nebula_token.Common.{
  ◌≡◌, refl, sym, ap, ◌∙◌, Bool, true, false, Option-cases, inl, inr, Option, none, some,
  some_injective, List, [], ◌∷◌, ◌++◌, All, append-eq-empty, arith, Text, same_text_iff, map,
}
use nebula_token.Scripts.Regex.{Regex, test, match_all, scan, try_at}
use nebula_token.Scripts.Version.Sites
use nebula_token.Scripts.Version.{
  Files, Site, Unversioned, Dated, Problem, Tables, read_site, distinct, versions, only,
  row_problems, site_problems, disagree, sites_disagree, unversioned_problems, check_dates, check,
  expect_problems,
}
use nebula_token.Scripts.Version.Agree.{
  distinct-single, row_problems-none, versions-cons, sites-agree,
}
use nebula_token.Scripts.Version.Dates.{
  IsUndeclared, IsDated, unversioned_problems-none, check_dates-none,
}

-- The version that was asked for.
abbrev pub IsAsked : Option Text → Text → Type 0
IsAsked none v = Unit
IsAsked (some expected) v = expected ≡ v

expect_problems-none :
    (semver : Regex) (expected : Option Text) (v : Text)
    → expect_problems semver expected (v ∷ []) ≡ []
    → IsAsked expected v
unfolding expect_problems
expect_problems-none semver none v h = tt
expect_problems-none semver (some w) v h = ground (arith, same_text_iff v w)

-- What the tool promises of a repository.
pub record IsConsistent (json : Text → Text → Option Bool) (tables : Tables) (files : Files)
    (expected : Option Text) (v : Text) : Type 0 where
  pub sites : All (λ t. read_site files t ≡ some v) tables.versioned
  pub is_semantic : test tables.semver v ≡ true
  pub undeclared : All (IsUndeclared json files) tables.unversioned
  pub one_date : (date : Text) × All (IsDated v date files) tables.dated
  pub asked : IsAsked expected v

module _ (json : Text → Text → Option Bool) (files : Files) (expected : Option Text)
    (semver : Regex) (t : Site) (ts : List Site) (us : List Unversioned) (ds : List Dated)
    (not_empty : test semver [] ≡ false) where
  abbrev whole : Tables
  whole = record { semver = semver; versioned = t ∷ ts; unversioned = us; dated = ds }

  abbrev found : List Text
  found = distinct (versions (map (read_site files) (t ∷ ts)))

  check-step :
      (ps qs : List Problem)
      → unversioned_problems json files us ≡ some ps
      → check_dates files (only found) ds ≡ some qs
      → check json whole files expected
        ≡ some (
            site_problems semver files (t ∷ ts)
            ++ (disagree sites_disagree found
                ++ (ps ++ (qs ++ expect_problems semver expected found))))
  unfolding check
  check-step ps qs hp hq = rw (hp, hq) refl

  -- With every list of problems empty, the sites agree on the first one's version.
  found-IsConsistent :
      (ps qs : List Problem)
      → unversioned_problems json files us ≡ some ps
      → check_dates files (only found) ds ≡ some qs
      → site_problems semver files (t ∷ ts) ≡ []
      → disagree sites_disagree found ≡ []
      → ps ≡ []
      → qs ≡ []
      → expect_problems semver expected found ≡ []
      → (v : Text) × IsConsistent json whole files expected v
  unfolding site_problems
  found-IsConsistent ps qs hp hq hs hd ep eq he =
      let (none_here, none_after) =
        append-eq-empty (row_problems semver t (read_site files t)) _ hs in
      let (v, row, good, full) =
        row_problems-none semver files not_empty t (read_site files t) none_here in
      let later = versions (map (read_site files) ts) in
      let shape =
        ap (λ o. versions (o ∷ map (read_site files) ts)) row
        ∙ versions-cons semver files not_empty v (map (read_site files) ts) full in
      let (alone, same) =
        distinct-single sites_disagree v later
          (ap (λ x. disagree sites_disagree (distinct x)) (sym shape) ∙ hd) in
      let found_eq = ap distinct shape ∙ alone in
      (
        v,
        record {
          sites = (row, sites-agree semver files not_empty v ts none_after same);
          is_semantic = good;
          undeclared = unversioned_problems-none json files us (hp ∙ ap some ep);
          one_date =
              check_dates-none v files ds
                (ap (λ x. check_dates files (only x) ds) (sym found_eq) ∙ hq ∙ ap some eq);
          asked =
              expect_problems-none semver expected v
                (ap (λ x. expect_problems semver expected x) (sym found_eq) ∙ he);
        },
      )

  whole-IsConsistent :
      check json whole files expected ≡ some []
      → (v : Text) × IsConsistent json whole files expected v
  unfolding check
  whole-IsConsistent h = elim (Option-cases (unversioned_problems json files us)) [
    | inl stop ↦ ground (arith, stop, h)
    | inr (ps, hp) ↦ elim (Option-cases (check_dates files (only found) ds)) [
      | inl stop ↦ ground (arith, hp, stop, h)
      | inr (qs, hq) ↦
          let a =
            append-eq-empty (site_problems semver files (t ∷ ts)) _
              (some_injective (sym (check-step ps qs hp hq) ∙ h)) in
          let b = append-eq-empty (disagree sites_disagree found) _ a.1 in
          let c = append-eq-empty ps _ b.1 in
          let d = append-eq-empty qs _ c.1 in found-IsConsistent ps qs hp hq a.0 b.0 c.0 d.0 d.1
    ]
  ]

empty_refused : test Sites.semver [] ≡ false
unfolding match_all scan try_at
empty_refused = refl

-- Where `check` finds no problem in the repository, there is one version, and it is semantic:
-- every versioned site reads it, no site that must not declare a version does, every dated site
-- documents it with one and the same date, and a version that was asked for is that one.
pub check-IsConsistent :
    (json : Text → Text → Option Bool) (files : Files) (expected : Option Text)
    → check json Sites.tables files expected ≡ some []
    → (v : Text) × IsConsistent json Sites.tables files expected v
check-IsConsistent json files expected h =
    whole-IsConsistent json files expected _ _ _ _ _ empty_refused h
