-- ===== src/Tests/Packages.antt =====
-- A workflow and a repository with its licences, and what the two scripts make of them.
use nebula_token.Common.{◌≡◌, refl, Option, some, List, [], ◌∷◌, ◌++◌, Text, same_text}
use nebula_token.Codec.Split.{split}
use nebula_token.Scripts.Regex.{text, match_all, scan, try_at}
use nebula_token.Scripts.Texts.{
  starts_with, ends_with, rev_onto, drop, cut_at, includes, contains, trim, trim_start, trim_end,
  filter, any, replace_from, replace_all,
}
use nebula_token.Scripts.Runtime.{group_one, strip_xml_comments}
use nebula_token.Scripts.Runtime.Support.{index_of, slice}
use nebula_token.Scripts.Examples.{
  until_job, after_head, job_lines, run_parts, open_line, collect, run_lines, Template,
  not_compiled, templates, check_compiled, check_package, check_examples,
}

runner : Unit {0}
unfolding same_text split match_all scan try_at starts_with ends_with rev_onto drop cut_at includes
    contains trim trim_start trim_end filter any replace_from replace_all group_one
    strip_xml_comments index_of slice until_job after_head job_lines run_parts open_line collect
    run_lines templates check_compiled check_package check_examples
runner = tt

abbrev ci : Text
ci =
    text "jobs:\n  python:\n    steps:\n      - run: python -m compileall -q examples\n"
    ++ text
        "  go:\n    steps:\n      - name: go build ./...\n      - run: |\n          # go build ./...\n          go vet ./...\n          go build ./... \n      - uses: x\n"

run_tests :
    (run_lines ci (text "go") ≡ text "go vet ./..." ∷ text "go build ./..." ∷ [])
    × (run_lines ci (text "python") ≡ text "python -m compileall -q examples" ∷ [])
    × (run_lines ci (text "rust") ≡ [])
unfolding runner
run_tests = (refl, refl, refl)

abbrev template : Text → Text → Text → Template
template pkg ext command = record {
  pkg = pkg;
  dir = text "examples";
  ext = ext ∷ [];
  command = command;
  why = [];
}

abbrev specs : List Template
specs =
    template (text "python") (text ".py") (text "python -m compileall -q examples")
    ∷ template (text "go") (text ".go") (text "go build ./...")
    ∷ []

abbrev listing : Text → Option (List Text)
listing path = some (text "README.md" ∷ text "store.py" ∷ text "store.go" ∷ [])

not_built :
    (check_examples listing ci (template (text "go") (text ".go") (text "go test") ∷ [])).0
    ≡ not_compiled (text "packages/go/examples") ∷ []
unfolding runner
not_built = refl
