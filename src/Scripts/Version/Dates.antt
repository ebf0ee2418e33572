-- ===== src/Scripts/Version/Dates.antt =====
-- The unversioned and the dated sites in `check` of scripts/version.mjs, where no problem is found.
use nebula_token.Common.{
  ◌≡◌, refl, sym, ap, ◌∙◌, Bool, true, false, Option-cases, Bool-cases, inl, inr, Option, some,
  some_injective, List, [], ◌∷◌, ◌++◌, All, append-eq-empty, arith, Text, same_text, same_text_iff,
}
use mathlib.Core.Path.{subst, ap₂}
use nebula_token.Scripts.Version.{
  Files, Unversioned, Dated, Problem, distinct, disagree, dates_disagree, unversioned_problems,
  declares, date_entries, read_entry, check_dates, documents_other,
}
use nebula_token.Scripts.Version.Agree.{distinct-single}

-- The sites that must not carry a version.
abbrev pub IsUndeclared : (Text → Text → Option Bool) → Files → Unversioned → Type 0
IsUndeclared json files u =
    (s : Text) × (files u.file ≡ some s) × (declares json u.rule s ≡ some false)

pub unversioned_problems-none :
    (json : Text → Text → Option Bool) (files : Files) (us : List Unversioned)
    → unversioned_problems json files us ≡ some []
    → All (IsUndeclared json files) us
unfolding unversioned_problems
unversioned_problems-none json files [] h = tt
unversioned_problems-none json files (u ∷ us) h = elim (Option-cases (files u.file)) [
  | inl missing ↦ ground (arith, missing, h)
  | inr (s, there) ↦ elim (Option-cases (declares json u.rule s)) [
    | inl bad ↦ ground (arith, there, bad, h)
    | inr (true, has) ↦ elim (Option-cases (unversioned_problems json files us)) [
      | inl k ↦ ground (arith, there, has, k, h)
      | inr (ps, k) ↦ ground (arith, there, has, k, h)
    ]
    | inr (false, lacks) ↦ elim (Option-cases (unversioned_problems json files us)) [
      | inl k ↦ ground (arith, there, lacks, k, h)
      | inr (ps, k) ↦ (
        (s, there, lacks),
        unversioned_problems-none json files us (k ∙ ground (arith, there, lacks, k, h)),
      )
    ]
  ]
]

-- A dated site that documents the version and the date.
abbrev pub IsDated : Text → Text → Files → Dated → Type 0
IsDated v date files d = (s : Text) × (files d.file ≡ some s) × (read_entry d s ≡ some (v, date))

documents_other-none : (file v w : Text) → documents_other file (some v) w ≡ [] → w ≡ v
documents_other-none file v w h = elim (Bool-cases (same_text w v)) [
  | inl hit ↦ (same_text_iff w v).0 hit
  | inr miss ↦ ground (arith, miss, h)
]

date_entries-step :
    (manifest : Option Text) (files : Files) (d : Dated) (ds : List Dated) (s w day : Text)
    (ps : List Problem) (seen : List Text)
    → files d.file ≡ some s
    → date_entries files manifest ds ≡ some (ps, seen)
    → read_entry d s ≡ some (w, day)
    → date_entries files manifest (d ∷ ds)
      ≡ some (documents_other d.file manifest w ++ ps, day ∷ seen)
unfolding date_entries
date_entries-step manifest files d ds s w day ps seen there rest k = rw (there, rest, k) refl

date_entries-none :
    (v date : Text) (files : Files) (ds : List Dated) (ps : List Problem) (dates : List Text)
    → date_entries files (some v) ds ≡ some (ps, dates)
    → ps ≡ []
    → All (λ u. u ≡ date) dates
    → All (IsDated v date files) ds
unfolding date_entries
date_entries-none v date files [] ps dates h none_left a = tt
date_entries-none v date files (d ∷ ds) ps dates h none_left a =
    elim (Option-cases (files d.file)) [
      | inl missing ↦ ground (arith, missing, h)
      | inr (s, there) ↦ elim (Option-cases (date_entries files (some v) ds)) [
        | inl stop ↦ ground (arith, there, stop, h)
        | inr ((qs, seen), rest) ↦ elim (Option-cases (read_entry d s)) [
          | inl k ↦ ground (arith, there, rest, k, h, none_left)
          | inr ((w, day), k) ↦
              let e =
                some_injective
                  (sym (date_entries-step (some v) files d ds s w day qs seen there rest k) ∙ h) in
              let (none_here, none_after) =
                append-eq-empty (documents_other d.file (some v) w) qs
                  (ap (λ x. x.0) e ∙ none_left) in
              let days = subst (All (λ u. u ≡ date)) (sym (ap (λ x. x.1) e)) a in
              (
                (
                  s,
                  there,
                  k ∙ ap₂ (λ x y. some (x, y)) (documents_other-none d.file v w none_here) days.0,
                ),
                date_entries-none v date files ds qs seen rest none_after days.1,
              )
        ]
      ]
    ]

all_same :
    (problem : List Text → Problem) (us : List Text)
    → disagree problem (distinct us) ≡ []
    → (v : Text) × All (λ u. u ≡ v) us
all_same problem [] h = ([], tt)
all_same problem (v ∷ us) h = (v, (refl, (distinct-single problem v us h).1))

check_dates-step :
    (manifest : Option Text) (files : Files) (ds : List Dated) (ps : List Problem)
    (dates : List Text)
    → date_entries files manifest ds ≡ some (ps, dates)
    → check_dates files manifest ds ≡ some (ps ++ disagree dates_disagree (distinct dates))
unfolding check_dates
check_dates-step manifest files ds ps dates k = rw k refl

pub check_dates-none :
    (v : Text) (files : Files) (ds : List Dated)
    → check_dates files (some v) ds ≡ some []
    → (date : Text) × All (IsDated v date files) ds
unfolding check_dates
check_dates-none v files ds h = elim (Option-cases (date_entries files (some v) ds)) [
  | inl stop ↦ ground (arith, stop, h)
  | inr ((ps, dates), k) ↦
      let e =
        append-eq-empty ps (disagree dates_disagree (distinct dates))
          (some_injective (sym (check_dates-step (some v) files ds ps dates k) ∙ h)) in
      let (date, same) = all_same dates_disagree dates e.1 in
      (date, date_entries-none v date files ds ps dates k e.0 same)
]
