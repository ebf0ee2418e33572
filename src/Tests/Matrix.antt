-- ===== src/Tests/Matrix.antt =====
-- A small repository, and what scripts/check-runtime-matrix.mjs makes of it.
use nebula_token.Common.{
  ◌≡◌, refl, true, false, Option, none, some, some_injective, List, [], ◌∷◌, ◌++◌, All, arith,
  if◌then◌else◌, Text, same_text, length, ◌≤◌,
}
use mathlib.Core.Path.{subst}
use nebula_token.Codec.Split.{split}
use nebula_token.Scripts.Regex.{text, match_all, scan, try_at}
use nebula_token.Scripts.Texts.{
  starts_with, ends_with, drop, cut_at, trim, trim_start, trim_end, rev_onto, contains, join_text,
  filter, replace_from, replace_all,
}
use nebula_token.Scripts.Version.{Files, write_file}
use nebula_token.Scripts.Runtime.{
  JsonField, Matrix, Row, Problem, group_one, strip_xml_comments, numeric, compare_floor,
  floor_problems, guarded, found_floor, check_floor, elixir_problems, otp_problems, check_pairs,
  targets, each_missing, also_check, found_set, check_set,
}
use nebula_token.Scripts.Runtime.Compare.{
  less, same, more, digits_value, number, cmp_part, cmp_parts, parts, cmp, lowest,
}
use nebula_token.Scripts.Runtime.Order.{IsNumeric}
use nebula_token.Scripts.Runtime.Table.{json_floor, runtimes}
use nebula_token.Scripts.Runtime.Support.{
  check_entry, check_entries, begin_mark, end_mark, table_lines, table, index_of, slice, splice,
  support_file, check_support, check_matrix,
}
use nebula_token.Scripts.Runtime.Single.{elixirs, otps, IsPlain}
use nebula_token.Scripts.Runtime.Covered.{IsCovered, check_entries-IsCovered}
use nebula_token.Scripts.Runtime.Written.{check_support-write}

checker : Unit {0}
unfolding same_text split match_all scan try_at starts_with ends_with drop cut_at trim trim_start
    trim_end rev_onto contains join_text filter replace_from replace_all write_file group_one
    strip_xml_comments numeric compare_floor floor_problems guarded found_floor check_floor
    elixir_problems otp_problems check_pairs targets each_missing also_check found_set check_set
    digits_value number cmp_part cmp_parts parts cmp lowest json_floor runtimes check_entry
    check_entries table_lines table index_of slice splice check_support check_matrix
checker = tt

cmp_tests :
    (cmp (text "1.9") (text "1.10") ≡ less)
    × (cmp (text "2") (text "2.0") ≡ same)
    × (cmp (text "3.1") (text "3") ≡ more)
    × (cmp (text "stable") (text "3") ≡ same)
    × (cmp (text "undefined") (text "2") ≡ same)
    × (lowest (text "1.10") (text "1.9" ∷ text "2" ∷ []) ≡ text "1.9")
unfolding checker
cmp_tests = (refl, refl, refl, refl, refl, refl)

abbrev json : JsonField
json t a b = some (some (text ">=21"))

abbrev matrix : Matrix
matrix = record {
  versions = λ key. some (text "22" ∷ text "21" ∷ text "stable" ∷ []);
  frameworks = λ key. some (record { framework = text "net10.0"; sdk = text "10" } ∷ []);
  pairs = λ key. some (record { elixir = text "1.15"; otp = text "26" } ∷ []);
}

abbrev manifests : List (Text × Text)
manifests =
    (text "packages/typescript/package.json", text "{}")
    ∷ (text "packages/python/pyproject.toml", text "[project]\nrequires-python = \">=21\"\n")
    ∷ (text "packages/go/go.mod", text "module m\n\ngo 21\n")
    ∷ (text "packages/rust/Cargo.toml", text "rust-version = \"21\"")
    ∷ (
      text "packages/java/pom.xml",
      text "<!-- <maven.compiler.release>9< -->\n<maven.compiler.release>21</",
    )
    ∷ (text "composer.json", text "{}")
    ∷ (
      text "packages/csharp/src/NebulaToken/NebulaToken.csproj",
      text "<TargetFramework>net10.0</TargetFramework>",
    )
    ∷ (
      text "packages/csharp/tests/NebulaToken.Tests/NebulaToken.Tests.csproj",
      text "<TargetFrameworks>net8.0; net10.0 </TargetFrameworks>",
    )
    ∷ (text "packages/dart/pubspec.yaml", text "environment:\n  sdk: \">=21 <4\"")
    ∷ (text "packages/ruby/nebula-token.gemspec", text "spec.required_ruby_version = '>= 21'")
    ∷ (text "packages/elixir/mix.exs", text "@minimum_otp 26\nelixir: \"~> 1.15\"")
    ∷ (
      text "SUPPORT.md",
      text "# Support\n" ++ (begin_mark ++ (text "\nold\n" ++ (end_mark ++ text "\nEnd\n"))),
    )
    ∷ []

abbrev files_of : List (Text × Text) → Files
files_of [] path = none
files_of ((name, s) ∷ rest) path =
    let later = files_of rest path in if same_text name path then some s else later

abbrev files : Files
files = files_of manifests

abbrev problems_of : Option (List Problem × Files) → List Problem
problems_of none = []
problems_of (some (problems, left)) = problems

matrix_problems : problems_of (check_matrix json matrix runtimes true files) ≡ []
unfolding checker
matrix_problems = refl

abbrev problems_and_rows : Option (List Problem × List Row) → List Row
problems_and_rows none = []
problems_and_rows (some (problems, rows)) = rows

abbrev rows : List Row
rows = problems_and_rows (check_entries json matrix files runtimes)

no_problems : check_entries json matrix files runtimes ≡ some ([], rows)
unfolding checker
no_problems = refl

listed_plain : All IsNumeric (numeric (text "22" ∷ text "21" ∷ text "stable" ∷ []))
unfolding checker
listed_plain = ((λ h. cc, tt), ((λ h. cc, tt), tt))

pairs_plain : All IsNumeric (numeric (text "1.15" ∷ [])) × All IsNumeric (text "26" ∷ [])
unfolding checker
pairs_plain = (((λ h. cc, (λ h. cc, tt)), tt), ((λ h. cc, tt), tt))

matrix-IsPlain : IsPlain matrix
matrix-IsPlain = record {
  versions = λ key listed e. subst (λ l. All IsNumeric (numeric l)) (some_injective e) listed_plain;
  pairs = λ key listed e.
      subst (λ l. All IsNumeric (numeric (elixirs l)) × All IsNumeric (otps l)) (some_injective e)
        pairs_plain;
}

check_entries-IsCovered_example : All (IsCovered json matrix files) runtimes
check_entries-IsCovered_example =
    check_entries-IsCovered json matrix files runtimes rows matrix-IsPlain no_problems

abbrev row : Row
row = record {
  label = text "Go";
  pkg = text "go";
  tested = text "21, 22";
  floor = text "21";
  source = text "go directive";
}

abbrev before_mark : Text → Text → Text
before_mark mark s = elim (cut_at mark s) [ none ↦ [] | some (b, f) ↦ b ]

abbrev from_mark : Text → Text → Text
from_mark mark s = elim (cut_at mark s) [ none ↦ [] | some (b, f) ↦ f ]

abbrev old_support : Text
old_support = text "# Support\n" ++ (begin_mark ++ (text "\nold\n" ++ (end_mark ++ text "\nEnd\n")))

marks :
    (files support_file ≡ some old_support)
    × (cut_at end_mark (table (row ∷ []))
        ≡ some (before_mark end_mark (table (row ∷ [])), end_mark))
    × (cut_at begin_mark old_support
        ≡ some (before_mark begin_mark old_support, from_mark begin_mark old_support))
    × (cut_at end_mark old_support
        ≡ some (before_mark end_mark old_support, from_mark end_mark old_support))
    × (length (before_mark begin_mark old_support) ≤ length (before_mark end_mark old_support))
unfolding checker
marks = (refl, refl, refl, refl, omega arith)

check_support-write_example :
    check_support false (row ∷ []) (check_support true (row ∷ []) files).1
    ≡ ([], (check_support true (row ∷ []) files).1)
check_support-write_example =
    check_support-write (row ∷ []) files (before_mark end_mark (table (row ∷ []))) old_support
      (before_mark begin_mark old_support) (from_mark begin_mark old_support)
      (before_mark end_mark old_support) (from_mark end_mark old_support) marks.0 marks.1 marks.2
      marks.3 marks.4 false
