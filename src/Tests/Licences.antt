-- ===== src/Tests/Licences.antt =====
-- A repository with its licences, and what scripts/check-licenses.mjs makes of it.
use nebula_token.Common.{
  ◌≡◌, refl, true, false, some, List, [], ◌∷◌, ◌++◌, if◌then◌else◌, Text, same_text,
}
use nebula_token.Codec.Split.{split}
use nebula_token.Scripts.Regex.{text, match_all, scan, try_at, test}
use nebula_token.Scripts.Texts.{
  starts_with, ends_with, rev_onto, drop, cut_at, includes, contains, trim, trim_start, trim_end,
  filter, any, replace_from, replace_all,
}
use nebula_token.Scripts.Version.{Files}
use nebula_token.Scripts.Runtime.{group_one, strip_xml_comments}
use nebula_token.Scripts.Runtime.Support.{index_of, slice}
use nebula_token.Scripts.Licenses.{
  str, array, Platform, spdx, packages, markers, missing_markers, body_sha, licence_body,
  check_body, templates_left, check_root, forbidden_licence_file, forbidden_entries, check_copy,
  check_package, check_packages, check_copies,
}
use nebula_token.Scripts.Licenses.Payload.{check_includes, check_list, toml_list, ruby_list}
use nebula_token.Scripts.Licenses.Manifests.{
  check_python, check_rust, check_block, check_blocks, check_resources, missing_plugins,
  check_profile, check_java, check_csharp, check_ruby, check_elixir, check_dart,
}
use nebula_token.Scripts.Licenses.Parsed.{
  check_files, check_typescript, check_php_license, ignored_paths, check_attributes, check_php,
  with_manifest, check_manifests, check_root_entry, check_lock_json, check_lock, check_locks,
  lock_files,
}
use nebula_token.Scripts.Licenses.Prose.{
  prose, forbidden_prose, forbidden_problems, check_page, check_prose, check_licences,
}

licence_checker : Unit {0}
unfolding same_text split match_all scan try_at starts_with ends_with rev_onto drop cut_at includes
    contains trim trim_start trim_end filter any replace_from replace_all group_one
    strip_xml_comments index_of slice spdx packages markers missing_markers licence_body check_body
    templates_left check_root forbidden_entries check_copy check_package check_packages check_copies
    check_includes check_list toml_list ruby_list check_python check_rust check_block check_blocks
    check_resources missing_plugins check_profile check_java check_csharp check_ruby check_elixir
    check_dart check_files check_typescript check_php_license ignored_paths check_attributes
    check_php with_manifest check_manifests check_root_entry check_lock_json check_lock check_locks
    lock_files prose forbidden_prose forbidden_problems check_page check_prose check_licences
licence_checker = tt

name_tests :
    (test forbidden_licence_file (text "LICENSE-MIT") ≡ true)
    × (test forbidden_licence_file (text "Copying") ≡ true)
    × (test forbidden_licence_file (text "LICENSE") ≡ false)
    × (toml_list (text " \"a\",\n \"LICENSE\" # last\n") ≡ text "a" ∷ text "LICENSE" ∷ [])
unfolding licence_checker
name_tests = (refl, refl, refl, refl)

-- A comment behind a comma goes to the next entry, and is not at its end: it stays.
comment_test :
    toml_list (text "\"src\", # code\n\"LICENSE\"") ≡ text "src" ∷ text "# code\n\"LICENSE" ∷ []
unfolding licence_checker
comment_test = refl

abbrev root : Text
root =
    text
      "Apache License\nVersion 2.0, January 2004\nhttp://www.apache.org/licenses/\n1. Definitions.\n"
    ++ text
        "3. Grant of Patent License.\nEND OF TERMS AND CONDITIONS\nAPPENDIX: How to apply the Apache License to your work.\nCopyright 2026 Matteo Teodori\n"

abbrev pom : Text
pom =
    text
      "<license><name>Apache-2.0</name><url>https://www.apache.org/licenses/LICENSE-2.0.txt</url><distribution>repo</distribution></license>"
    ++ (text
          "<Bundle-License>Apache-2.0</Bundle-License><includes><include>LICENSE</include></includes><includes><include> LICENSE </include></includes>"
        ++ (text
              "<profile><id>release</id><artifactId>maven-source-plugin</artifactId><artifactId>maven-javadoc-plugin</artifactId>"
            ++ text
                "<artifactId>maven-gpg-plugin</artifactId><artifactId>central-publishing-maven-plugin</artifactId></profile>"))

abbrev contents : List (Text × Text)
contents =
    (text "LICENSE", root)
    ∷ (
      text "packages/python/pyproject.toml",
      text
          "license = \"Apache-2.0\"\nlicense-files = [\"LICENSE\"]\n[tool.hatch.build.targets.sdist]\ninclude = [\"src\", \"LICENSE\"]\n",
    )
    ∷ (text "packages/rust/Cargo.toml", text "license = \"Apache-2.0\"\ninclude = [\"/LICENSE\"]\n")
    ∷ (text "packages/java/pom.xml", pom)
    ∷ (
      text "packages/csharp/src/NebulaToken/NebulaToken.csproj",
      text
          "<PackageLicenseExpression>Apache-2.0</PackageLicenseExpression><None Include=\"../LICENSE\" Pack=\"true\"/>",
    )
    ∷ (
      text "packages/ruby/nebula-token.gemspec",
      text "spec.license = 'Apache-2.0'\nspec.files = Dir['lib/*', 'LICENSE']\n",
    )
    ∷ (
      text "packages/elixir/mix.exs",
      text "licenses: [\"Apache-2.0\"],\nfiles: [\"lib\", \"LICENSE\"]",
    )
    ∷ []

abbrev content : List (Text × Text) → Files
content [] path = some (text "Submit it.")
content ((name, s) ∷ rest) path =
    let later = content rest path in if same_text name path then some s else later

abbrev os : Platform
os = record {
  files = content contents;
  listing = λ path. some (text "LICENSE" ∷ text "README.md" ∷ []);
  is_file = λ path. true;
  sha_file = λ path. [];
  sha_text = λ s. body_sha;
  json = λ t. some (record {
    license = some (str spdx);
    files = some (array (text "LICENSE" ∷ []));
    excluded = [];
    root_entry = some (some (str spdx));
  });
  composers = text "composer.json" ∷ [];
  export_ignored = λ path. false;
}
