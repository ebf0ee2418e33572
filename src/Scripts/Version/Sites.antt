-- ===== src/Scripts/Version/Sites.antt =====
-- The tables of scripts/version.mjs: `SEMVER`, `VERSIONED`, `DATED` and `UNVERSIONED`.
use Prim.Native.String.{String}
use nebula_token.Common.{ℕ, Bool, ◌&&◌, ◌||◌, leb, ◌==◌, List, [], ◌∷◌}
use nebula_token.Scripts.Regex.{
  Regex, empty, line_start, line_end, text_start, text_end, one, many, many_lazy, both, either,
  group, text, lit, literal, some_of, is_digit, is_space, not_space, other_than, lit_i,
}
use nebula_token.Scripts.Version.{Site, key, forbidden, Unversioned, Dated, Tables}

infixr 6 ◌then◌
abbrev ◌then◌ : Regex → Regex → Regex
r then s = both r s

abbrev number : Regex
number = group (either (lit "0") (one (λ c. leb b'1' c && leb c b'9') then many is_digit))

abbrev is_prerelease : ℕ → Bool
is_prerelease c =
    is_digit c
    || ((leb b'A' c && leb c b'Z') || ((leb b'a' c && leb c b'z') || (c == b'.' || c == b'-')))

abbrev pub semver : Regex
semver =
    text_start
    then number
    then lit "."
    then number
    then lit "."
    then number
    then either (lit "-" then some_of is_prerelease) empty
    then text_end

abbrev three : Regex → Regex → Regex → Regex
three a b c = group a then group b then group c

abbrev site : String → String → Regex → Site
site id file pattern = record { id = text id; file = text file; pattern = pattern }

abbrev quoted : ℕ → Regex
quoted c = some_of (other_than c)

-- `^(start)(\S+)(\s*)$`
abbrev to_line_end : String → Regex
to_line_end start =
    line_start then three (lit start) (some_of not_space) (many is_space) then line_end

abbrev spaces : Regex
spaces = many is_space

-- `\s*\n\s*`
abbrev next_line : Regex
next_line = spaces then lit "\n" then spaces

abbrev json_version : Regex
json_version =
    line_start then three (lit "  \"version\": \"") (quoted b'"') (lit "\",") then line_end

abbrev xml_version : Regex
xml_version = three (lit "<version>") (quoted b'<') (lit "</version>")

abbrev pub versioned : List Site
versioned =
    site "typescript" "packages/typescript/package.json" json_version
    ∷ site "python" "packages/python/pyproject.toml"
        (line_start then three (lit "version = \"") (quoted b'"') (lit "\"") then line_end)
    ∷ site "rust" "packages/rust/Cargo.toml" (
        line_start
        then three
            (lit "name = \"nebula-token\"" then either (lit "\r") empty then lit "\nversion = \"")
            (quoted b'"') (lit "\"")
        then line_end)
    ∷ site "java" "packages/java/pom.xml" (
        three (lit "<artifactId>nebula-token</artifactId>" then next_line then lit "<version>")
          (quoted b'<') (lit "</version>"))
    ∷ site "csharp" "packages/csharp/src/NebulaToken/NebulaToken.csproj"
        (three (lit "<Version>") (quoted b'<') (lit "</Version>"))
    ∷ site "dart" "packages/dart/pubspec.yaml" (to_line_end "version: ")
    ∷ site "ruby" "packages/ruby/nebula-token.gemspec" (
        three (lit "spec.version" then spaces then lit "=" then spaces then lit "'") (quoted 39)
          (lit "'"))
    ∷ site "elixir" "packages/elixir/mix.exs"
        (three (lit "\n" then spaces then lit "version: \"") (quoted b'"') (lit "\","))
    ∷ site "java-scm-tag" "packages/java/pom.xml"
        (three (lit "<tag>v") (quoted b'<') (lit "</tag>"))
    ∷ site "sonar" "sonar-project.properties" (to_line_end "sonar.projectVersion=")
    ∷ site "typescript-lock" "packages/typescript/package-lock.json" json_version
    ∷ site "typescript-lock-root" "packages/typescript/package-lock.json" (
        three
          (lit "\"\": {"
            then next_line
            then lit "\"name\": \"nebula-token\","
            then next_line
            then lit "\"version\": \"")
          (quoted b'"') (lit "\""))
    ∷ site "java-readme-maven" "packages/java/README.md" xml_version
    ∷ site "java-readme-gradle" "packages/java/README.md"
        (three (lit "implementation 'dev.nebulatoken:nebula-token:") (quoted 39) (lit "'"))
    ∷ site "java-skill" "packages/java/skills/nebula-token-java/SKILL.md" (
        three (lit "Maven/Gradle: dev.nebulatoken:nebula-token:") (some_of not_space)
          (many is_space)
        then line_end)
    ∷ site "go-readme" "packages/go/README.md" (
        three (lit "`go get " then literal (0x2026 ∷ []) then lit "@v") (quoted b'`')
          (lit "` resolves"))
    ∷ site "citation" "CITATION.cff" (to_line_end "version: ")
    ∷ []

-- `\d{4}-\d{2}-\d{2}`
abbrev digits : Regex
digits = one is_digit then one is_digit

abbrev day : Regex
day = digits then digits then lit "-" then digits then lit "-" then digits

-- `[\s\S]*?`
abbrev anything : Regex
anything = many_lazy (λ c. is_space c || not_space c)

-- `^## \[([^\]]+)\] - (date)\s*$`
abbrev changelog : Regex
changelog =
    line_start
    then lit "## ["
    then group (quoted b']')
    then lit "] - "
    then group day
    then spaces
    then line_end

abbrev dated_file : String → Regex → Dated
dated_file file pattern = record { file = text file; pattern = pattern }

abbrev pub dated : List Dated
dated =
    dated_file "CHANGELOG.md" changelog
    ∷ dated_file "packages/typescript/CHANGELOG.md" changelog
    ∷ dated_file "packages/python/CHANGELOG.md" changelog
    ∷ dated_file "packages/rust/CHANGELOG.md" changelog
    ∷ dated_file "packages/dart/CHANGELOG.md" changelog
    ∷ dated_file "packages/ruby/CHANGELOG.md" changelog
    ∷ dated_file "packages/elixir/CHANGELOG.md" changelog
    ∷ dated_file "CITATION.cff" (
        line_start
        then lit "version: "
        then group (some_of not_space)
        then anything
        then line_start
        then lit "date-released: \""
        then group day
        then lit "\""
        then spaces
        then line_end)
    ∷ dated_file "packages/java/pom.xml" (
        lit "<artifactId>nebula-token</artifactId>"
        then spaces
        then lit "<version>"
        then group (some_of not_space)
        then lit "</version>"
        then anything
        then lit "<project.build.outputTimestamp>"
        then group day
        then lit "T"
        then some_of (λ c. is_digit c || c == b':')
        then lit "Z</project.build.outputTimestamp>")
    ∷ []

abbrev pub unversioned : List Unversioned
unversioned =
    record {
      id = text "go";
      file = text "packages/go/go.mod";
      rule = forbidden (
          line_start
          then spaces
          then lit_i "version"
          then spaces
          then one (λ c. c == b':' || c == b'='));
    }
    ∷ record { id = text "php"; file = text "composer.json"; rule = key (text "version") }
    ∷ []

abbrev pub tables : Tables
tables = record { semver = semver; versioned = versioned; unversioned = unversioned; dated = dated }
