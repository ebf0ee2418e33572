-- ===== src/Tests/Release.antt =====
-- A small repository on which `check` passes and that `set` rewrites.
use Prim.Native.String.{String}
use nebula_token.Common.{
  ◌≡◌, refl, Bool, true, false, Option, none, some, List, [], ◌∷◌, Text, same_text, all, not,
}
use nebula_token.Store.Rows.{get}
use nebula_token.Scripts.Texts.{rev_onto}
use nebula_token.Scripts.Regex.{text, match_all, scan, try_at}
use nebula_token.Scripts.Version.{
  Files, sites_disagree, check, set, set_sites, write_file, write_version, only_match, read_site,
  distinct, without, versions, row_problems, site_problems, expect_problems, unversioned_problems,
  declares, date_entries, read_entry, check_dates,
}
use nebula_token.Scripts.Version.Sites.{tables}
use nebula_token.Scripts.Version.Check.{IsConsistent, check-IsConsistent}
use nebula_token.Scripts.Version.Set.{set-others}

abbrev file : String → String → Text × Text
file path content = (text path, text content)

abbrev changelog : String
changelog = "# Changes\n\n## [1.2.3] - 2026-01-02\n"

abbrev repository : List (Text × Text)
repository =
    file "packages/typescript/package.json" "{\n  \"version\": \"1.2.3\",\n}"
    ∷ file "packages/python/pyproject.toml" "version = \"1.2.3\"\n"
    ∷ file "packages/rust/Cargo.toml" "name = \"nebula-token\"\nversion = \"1.2.3\"\n"
    ∷ file "packages/java/pom.xml"
        "<artifactId>nebula-token</artifactId>\n<version>1.2.3</version>\n<tag>v1.2.3</tag>\n<project.build.outputTimestamp>2026-01-02T00:00:00Z</project.build.outputTimestamp>"
    ∷ file "packages/csharp/src/NebulaToken/NebulaToken.csproj" "<Version>1.2.3</Version>"
    ∷ file "packages/dart/pubspec.yaml" "name: n\nversion: 1.2.3\n"
    ∷ file "packages/ruby/nebula-token.gemspec" "spec.version = '1.2.3'"
    ∷ file "packages/elixir/mix.exs" "[\n version: \"1.2.3\",\n]"
    ∷ file "sonar-project.properties" "sonar.projectVersion=1.2.3\n"
    ∷ file "packages/typescript/package-lock.json"
        "{\n  \"version\": \"1.2.3\",\n    \"\": {\n      \"name\": \"nebula-token\",\n      \"version\": \"1.2.3\",\n"
    ∷ file "packages/java/README.md"
        "<version>1.2.3</version>\nimplementation 'dev.nebulatoken:nebula-token:1.2.3'"
    ∷ file "packages/java/skills/nebula-token-java/SKILL.md"
        "Maven/Gradle: dev.nebulatoken:nebula-token:1.2.3\n"
    ∷ file "packages/go/README.md" "`go get …@v1.2.3` resolves"
    ∷ file "CITATION.cff" "cff-version: 1\nversion: 1.2.3\ndate-released: \"2026-01-02\"\n"
    ∷ file "CHANGELOG.md" changelog
    ∷ file "packages/typescript/CHANGELOG.md" changelog
    ∷ file "packages/python/CHANGELOG.md" changelog
    ∷ file "packages/rust/CHANGELOG.md" changelog
    ∷ file "packages/dart/CHANGELOG.md" changelog
    ∷ file "packages/ruby/CHANGELOG.md" changelog
    ∷ file "packages/elixir/CHANGELOG.md" changelog
    ∷ file "packages/go/go.mod" "module example\n\ngo 1.22\n"
    ∷ file "composer.json" "{}"
    ∷ []

abbrev files : Files
files path = get path repository

-- No object of this repository has a key.
abbrev no_key : Text → Text → Option Bool
no_key key s = some false

check-passes : check no_key tables files (some (text "1.2.3")) ≡ some []
unfolding get same_text match_all scan try_at check read_site only_match distinct without versions
    row_problems site_problems expect_problems unversioned_problems declares date_entries read_entry
    check_dates
check-passes = refl

check-IsConsistent_example : (v : Text) × IsConsistent no_key tables files (some (text "1.2.3")) v
check-IsConsistent_example = check-IsConsistent no_key files (some (text "1.2.3")) check-passes

-- A site that disagrees is found.
abbrev stale : Files
stale = write_file (text "packages/dart/pubspec.yaml") (text "version: 1.2.2\n") files

check-stale :
    check no_key tables stale none ≡ some (sites_disagree (text "1.2.3" ∷ text "1.2.2" ∷ []) ∷ [])
unfolding get same_text match_all scan try_at check read_site only_match distinct without versions
    row_problems site_problems expect_problems unversioned_problems declares date_entries read_entry
    check_dates write_file
check-stale = refl

-- `set` writes the versions, so the changelogs are left to be dated.
abbrev bumped : Bool × Files
bumped = set tables (text "1.3.0") files

set-check :
    (bumped.0 ≡ true)
    × (bumped.1 (text "packages/go/README.md") ≡ some (text "`go get …@v1.3.0` resolves"))
    × (bumped.1 (text "packages/java/README.md")
        ≡ some
            (text "<version>1.3.0</version>\nimplementation 'dev.nebulatoken:nebula-token:1.3.0'"))
unfolding get same_text match_all scan try_at set set_sites write_version only_match rev_onto
    write_file
set-check = (refl, refl, refl)

composer_apart : all (λ t. not (same_text t.file (text "composer.json"))) tables.versioned ≡ true
unfolding same_text
composer_apart = refl

set-others_example : bumped.1 (text "composer.json") ≡ files (text "composer.json")
set-others_example = set-others tables (text "1.3.0") files (text "composer.json") composer_apart
