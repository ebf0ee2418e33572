-- ===== src/Scripts/Licenses/Prose.antt =====
-- The last section of scripts/check-licenses.mjs, and the whole of it up to its report.
use nebula_token.Common.{Option, none, some, List, [], ◌∷◌, ◌++◌, if◌then◌else◌, Text, map}
use nebula_token.Scripts.Regex.{Regex, text, lit, both, either, word_boundary, test}
use nebula_token.Scripts.Licenses.{
  Platform, Problem, problem, is_missing, second_grant, packages, licence_file, dual, mit, dir_of,
  check_root, check_copies,
}
use nebula_token.Scripts.Licenses.Parsed.{check_manifests, check_locks, lock_files}

-- `PROSE`
unfoldable pub prose : List Text
prose =
    text "README.md"
    ∷ text "CONTRIBUTING.md"
    ∷ text "GOVERNANCE.md"
    ∷ text "CITATION.cff"
    ∷ text "SECURITY.md"
    ∷ text "COMPATIBILITY.md"
    ∷ text "VERSIONING.md"
    ∷ text "RELEASING.md"
    ∷ text "SUPPORT.md"
    ∷ text "CHANGELOG.md"
    ∷ text "docs/COMPLIANCE.md"
    ∷ text "docs/paper/nebula.tex"
    ∷ text ".github/CODEOWNERS"
    ∷ text ".github/workflows/ci.yml"
    ∷ text "scripts/package.json"
    ∷ map (λ p. dir_of p ++ text "/README.md") packages

-- `/\bApache-2\.0 OR MIT\b/`
abbrev pub old_expression : Regex
old_expression = both word_boundary (both (lit "Apache-2.0 OR MIT") word_boundary)

-- `/\bLICENSE-(MIT|APACHE)\b/`
abbrev pub old_file : Regex
old_file =
    both word_boundary
      (both (lit "LICENSE-") (both (either (lit "MIT") (lit "APACHE")) word_boundary))

-- `FORBIDDEN_PROSE`
unfoldable pub forbidden_prose : List Regex
forbidden_prose = old_expression ∷ old_file ∷ dual ∷ mit ∷ []

unfoldable pub forbidden_problems : Text → Text → List Regex → List Problem
forbidden_problems rel t [] = []
forbidden_problems rel t (re ∷ res) =
    let rest = forbidden_problems rel t res in
    if test re t then problem rel second_grant ∷ rest else rest

unfoldable pub check_page : Text → Option Text → List Problem
check_page rel none = problem rel is_missing ∷ []
check_page rel (some t) = forbidden_problems rel t forbidden_prose

unfoldable pub check_prose : Platform → List Text → List Problem
check_prose os [] = []
check_prose os (rel ∷ rels) = check_page rel (os.files rel) ++ check_prose os rels

-- The script, for a root LICENSE that is there; without one it stops at once.
unfoldable pub check_licences : Platform → List Problem
check_licences os = elim (os.files licence_file) [
  | none ↦ problem licence_file is_missing ∷ []
  | some root ↦
      check_root os.sha_text root
      ++ (check_copies os
          ++ (check_manifests os ++ (check_locks os lock_files ++ check_prose os prose)))
]
