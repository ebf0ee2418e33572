-- ===== src/Scripts/Licenses/Parsed.antt =====
-- The manifests of scripts/check-licenses.mjs that are JSON, the dispatch over all of them, and the
-- lock files of npm.
use nebula_token.Common.{
  Bool, false, not, Option, none, some, List, [], ◌∷◌, ◌++◌, if◌then◌else◌, Text, same_text, map,
}
use nebula_token.Scripts.Regex.{text, test}
use nebula_token.Scripts.Texts.{any}
use nebula_token.Scripts.Licenses.{
  Value, str, array, Json, Platform, Problem, problem, is_missing, not_json, wrong_licence,
  several_licences, no_list, excludes_licence, several_composers, ignores_licence, no_root_entry,
  spdx, packages, licence_word, unless_holds, dir_of,
}
use nebula_token.Scripts.Licenses.Payload.{check_includes}
use nebula_token.Scripts.Licenses.Manifests.{
  check_python, check_rust, check_java, check_csharp, check_ruby, check_elixir, check_dart,
}

-- `value === SPDX`
abbrev pub is_spdx_value : Option Value → Bool
is_spdx_value (some (str t)) = same_text t spdx
is_spdx_value _ = false

unfoldable pub check_files : Text → Option Value → List Problem
check_files rel (some (array list)) = check_includes rel (text "files") list
check_files rel _ = problem rel (no_list (text "files")) ∷ []

unfoldable pub check_typescript : Text → Option Json → List Problem
check_typescript rel none = problem rel not_json ∷ []
check_typescript rel (some json) =
    unless_holds (is_spdx_value json.license) rel wrong_licence ++ check_files rel json.files

unfoldable pub check_php_license : Text → Option Value → List Problem
check_php_license rel (some (array list)) = problem rel several_licences ∷ []
check_php_license rel l = unless_holds (is_spdx_value l) rel wrong_licence

abbrev pub only_composer : List Text → Bool
only_composer (c ∷ []) = same_text c (text "composer.json")
only_composer _ = false

unfoldable pub ignored_paths : (Text → Bool) → List Text → List Problem
ignored_paths export_ignored [] = []
ignored_paths export_ignored (p ∷ ps) =
    let rest = ignored_paths export_ignored ps in
    if export_ignored p then problem p ignores_licence ∷ rest else rest

abbrev attributes : Text
attributes = text ".gitattributes"

unfoldable pub check_attributes : Platform → Option Text → List Problem
check_attributes os none = problem attributes is_missing ∷ []
check_attributes os (some t) =
    ignored_paths os.export_ignored (text "LICENSE" ∷ text "packages/php/LICENSE" ∷ [])

unfoldable pub check_php : Platform → Text → Option Json → List Problem
check_php os rel none = problem rel not_json ∷ []
check_php os rel (some json) =
    check_php_license rel json.license
    ++ (unless_holds (not (any (test licence_word) json.excluded)) rel excludes_licence
        ++ (unless_holds (only_composer os.composers) rel several_composers
            ++ check_attributes os (os.files attributes)))

-- A manifest, where it is there.
unfoldable pub with_manifest : Platform → Text → (Text → List Problem) → List Problem
with_manifest os rel check = elim (os.files rel) [
  | none ↦ problem rel is_missing ∷ []
  | some t ↦ check t
]

-- `CHECKS`, one after the other; Go modules carry no licence metadata.
unfoldable pub check_manifests : Platform → List Problem
check_manifests os =
    let at : Text → (Text → Text → List Problem) → List Problem =
      λ rel check. with_manifest os rel (check rel) in
    at (text "packages/typescript/package.json") (λ rel t. check_typescript rel (os.json t))
    ++ (at (text "packages/python/pyproject.toml") check_python
        ++ (at (text "packages/rust/Cargo.toml") check_rust
            ++ (at (text "packages/java/pom.xml") check_java
                ++ (at (text "composer.json") (λ rel t. check_php os rel (os.json t))
                    ++ (at (text "packages/csharp/src/NebulaToken/NebulaToken.csproj") check_csharp
                        ++ (at (text "packages/dart/pubspec.yaml") check_dart
                            ++ (at (text "packages/ruby/nebula-token.gemspec") check_ruby
                                ++ at (text "packages/elixir/mix.exs") check_elixir)))))))

-- One lock file, which may be missing.
unfoldable pub check_root_entry : Text → Option (Option Value) → List Problem
check_root_entry rel none = problem rel no_root_entry ∷ []
check_root_entry rel (some license) = unless_holds (is_spdx_value license) rel wrong_licence

unfoldable pub check_lock_json : Text → Option Json → List Problem
check_lock_json rel none = problem rel not_json ∷ []
check_lock_json rel (some json) = check_root_entry rel json.root_entry

unfoldable pub check_lock : Platform → Text → Option Text → List Problem
check_lock os rel none = []
check_lock os rel (some t) = check_lock_json rel (os.json t)

unfoldable pub check_locks : Platform → List Text → List Problem
check_locks os [] = []
check_locks os (rel ∷ rels) = check_lock os rel (os.files rel) ++ check_locks os rels

unfoldable pub lock_files : List Text
lock_files =
    text "package-lock.json"
    ∷ text "scripts/package-lock.json"
    ∷ map (λ p. dir_of p ++ text "/package-lock.json") packages
