-- ===== src/Scripts/Licenses/Manifests.antt =====
-- The third and fourth section of scripts/check-licenses.mjs: every manifest declares the licence in
-- the form of its ecosystem, and ships the file.
use nebula_token.Common.{
  Bool, true, false, not, ◌||◌, ◌==◌, Option, none, some, List, [], ◌∷◌, ◌++◌, if◌then◌else◌, Text,
  same_text, length, map,
}
use nebula_token.Codec.Split.{split}
use nebula_token.Scripts.Regex.{
  Regex, text, lit, both, either, one, many, many_lazy, some_of, group, line_start, is_space,
  other_than, literal, test, match_all, first_groups,
}
use nebula_token.Scripts.Texts.{includes, trim}
use nebula_token.Scripts.Runtime.{group_one, strip_xml_comments}
use nebula_token.Scripts.Licenses.{
  Problem, problem, no_plugin, wrong_licence, licence_table, licence_file_set, licence_key,
  several_licences, wrong_blocks, wrong_url, wrong_distribution, wrong_bundle, wrong_lists,
  no_profile, conflicting_element, spdx, unless_holds,
}
use nebula_token.Scripts.Licenses.Payload.{check_includes, check_list, toml_list, ruby_list}

-- `declared !== SPDX`, for a text that may be missing.
abbrev pub is_spdx : Option Text → Bool
is_spdx none = false
is_spdx (some t) = same_text t spdx

abbrev pub list_of : (Text → List Text) → Option Text → Option (List Text)
list_of read none = none
list_of read (some inner) = some (read inner)

abbrev spaces : Regex
spaces = many is_space

-- `name\s*=\s*`
abbrev key : Regex → Regex
key name = both name (both spaces (both (lit "=") spaces))

-- `^license\s*=\s*"([^"]+)"`, with the flag `m`.
abbrev pub licence_string : Regex
licence_string = both line_start (
    both (key (lit "license"))
      (both (lit "\"") (both (group (some_of (other_than b'"'))) (lit "\""))))

-- `\[([^\]]*)\]`
abbrev bracketed : Regex
bracketed = both (lit "[") (both (group (many (other_than b']'))) (lit "]"))

-- `\[([\s\S]*?)\]`
abbrev lazily_bracketed : Regex
lazily_bracketed = both (lit "[") (both (group (many_lazy (λ c. true))) (lit "]"))

-- `^license-files\s*=\s*\[([^\]]*)\]`, with the flag `m`.
abbrev pub python_files : Regex
python_files = both line_start (both (key (lit "license-files")) bracketed)

-- `^include\s*=\s*\[([^\]]*)\]`, with the flag `m`.
abbrev pub rust_files : Regex
rust_files = both line_start (both (key (lit "include")) bracketed)

unfoldable pub check_python : Text → Text → List Problem
check_python rel t =
    unless_holds (not (test (both line_start (both (key (lit "license")) (lit "{"))) t)) rel
      licence_table
    ++ (unless_holds (is_spdx (group_one licence_string t)) rel wrong_licence
        ++ (check_list rel (text "license-files") (list_of toml_list (group_one python_files t))
            ++ check_list rel (text "sdist") (
                list_of toml_list (
                  group_one
                    (both (lit "[tool.hatch.build.targets.sdist]")
                      (both (many_lazy (λ c. true)) (both (key (lit "include")) bracketed)))
                    t))))

unfoldable pub check_rust : Text → Text → List Problem
check_rust rel t =
    unless_holds (is_spdx (group_one licence_string t)) rel wrong_licence
    ++ (unless_holds (not (test (both line_start (key (lit "license-file"))) t)) rel
          licence_file_set
        ++ check_list rel (text "include") (list_of toml_list (group_one rust_files t)))

-- `<tag>([^<]+)<\/tag>`
abbrev pub element : Text → Regex
element tag =
    let name : Regex = literal tag in
    both (lit "<") (
      both name (
        both (lit ">")
          (both (group (some_of (other_than b'<'))) (both (lit "</") (both name (lit ">"))))))

-- `<tag>([\s\S]*?)<\/tag>`
abbrev pub block : Text → Regex
block tag =
    let name : Regex = literal tag in
    both (lit "<") (
      both name (
        both (lit ">")
          (both (group (many_lazy (λ c. true))) (both (lit "</") (both name (lit ">"))))))

abbrev is_text : Text → Option Text → Bool
is_text wanted none = false
is_text wanted (some t) = same_text t wanted

unfoldable pub check_block : Text → Text → List Problem
check_block rel b =
    unless_holds (is_spdx (group_one (element (text "name")) b)) rel wrong_licence
    ++ (unless_holds
          (is_text (text "https://www.apache.org/licenses/LICENSE-2.0.txt")
            (group_one (element (text "url")) b))
          rel wrong_url
        ++ unless_holds (is_text (text "repo") (group_one (element (text "distribution")) b)) rel
            wrong_distribution)

unfoldable pub check_blocks : Text → List Text → List Problem
check_blocks rel [] = []
check_blocks rel (b ∷ bs) = check_block rel b ++ check_blocks rel bs

unfoldable pub check_resources : Text → List Text → List Problem
check_resources rel [] = []
check_resources rel (l ∷ lists) =
    check_includes rel (text "includes")
      (map trim (first_groups (match_all (element (text "include")) l)))
    ++ check_resources rel lists

unfoldable pub missing_plugins : Text → Text → List Text → List Problem
missing_plugins rel profile [] = []
missing_plugins rel profile (p ∷ ps) =
    let rest = missing_plugins rel profile ps in
    if includes (text "<artifactId>" ++ (p ++ text "</artifactId>")) profile
    then rest
    else problem rel (no_plugin p) ∷ rest

unfoldable pub check_profile : Text → Option Text → List Problem
check_profile rel none = problem rel no_profile ∷ []
check_profile rel (some profile) = missing_plugins rel profile (
    text "maven-source-plugin"
    ∷ text "maven-javadoc-plugin"
    ∷ text "maven-gpg-plugin"
    ∷ text "central-publishing-maven-plugin"
    ∷ [])

-- `<profile>[\s\S]*?<id>release<\/id>([\s\S]*?)<\/profile>`
abbrev release_profile : Regex
release_profile = both (lit "<profile>") (
    both (many_lazy (λ c. true))
      (both (lit "<id>release</id>") (both (group (many_lazy (λ c. true))) (lit "</profile>"))))

unfoldable pub check_java : Text → Text → List Problem
check_java rel raw =
    let t = strip_xml_comments raw in
    let blocks = first_groups (match_all (block (text "license")) t) in
    let lists = first_groups (match_all (block (text "includes")) t) in
    unless_holds (length blocks == 1) rel wrong_blocks
    ++ (check_blocks rel blocks
        ++ (unless_holds (is_spdx (group_one (element (text "Bundle-License")) t)) rel wrong_bundle
            ++ (unless_holds (length lists == 2) rel wrong_lists
                ++ (check_resources rel lists ++ check_profile rel (group_one release_profile t)))))

-- `m[1].split("/").pop()`
abbrev pub last_part : List Text → Text
last_part [] = []
last_part (p ∷ []) = p
last_part (p ∷ q ∷ ps) = last_part (q ∷ ps)

-- `<None\s+Include="([^"]+)"[^>]*Pack="true"`
abbrev pub packed_item : Regex
packed_item = both (lit "<None") (
    both (some_of is_space) (
      both (lit "Include=\"") (
        both (group (some_of (other_than b'"')))
          (both (lit "\"") (both (many (other_than b'>')) (lit "Pack=\"true\""))))))

unfoldable pub check_csharp : Text → Text → List Problem
check_csharp rel raw =
    let t = strip_xml_comments raw in
    unless_holds (is_spdx (group_one (element (text "PackageLicenseExpression")) t)) rel
      wrong_licence
    ++ (unless_holds
          (not (test (either (lit "<PackageLicenseFile>") (lit "<PackageLicenseUrl>")) t)) rel
          conflicting_element
        ++ check_includes rel (text "packed")
            (map (λ s. last_part (split b'/' s)) (first_groups (match_all packed_item t))))

-- `['"]`
abbrev quote : Regex
quote = one (λ c. c == b'\'' || c == b'"')

-- `spec\.license\s*=\s*['"]([^'"]+)['"]`
abbrev pub ruby_licence : Regex
ruby_licence =
    both (key (lit "spec.license"))
      (both quote (both (group (some_of (λ c. not (c == b'\'' || c == b'"')))) quote))

-- `spec\.files\s*=\s*Dir\[([\s\S]*?)\]`
abbrev pub ruby_files : Regex
ruby_files = both (key (lit "spec.files")) (both (lit "Dir") lazily_bracketed)

unfoldable pub check_ruby : Text → Text → List Problem
check_ruby rel t =
    unless_holds (not (test (both (lit "spec.licenses") (both spaces (lit "="))) t)) rel
      several_licences
    ++ (unless_holds (is_spdx (group_one ruby_licence t)) rel wrong_licence
        ++ check_list rel (text "spec.files") (list_of ruby_list (group_one ruby_files t)))

abbrev pub is_only_spdx : List Text → Bool
is_only_spdx (t ∷ []) = same_text t spdx
is_only_spdx _ = false

abbrev pub ruby_or_none : Option Text → List Text
ruby_or_none none = []
ruby_or_none (some raw) = ruby_list raw

-- `licenses:\s*\[([^\]]*)\]`
abbrev pub elixir_licences : Regex
elixir_licences = both (lit "licenses:") (both spaces bracketed)

-- `files:\s*\[([\s\S]*?)\]`
abbrev pub elixir_files : Regex
elixir_files = both (lit "files:") (both spaces lazily_bracketed)

unfoldable pub check_elixir : Text → Text → List Problem
check_elixir rel t =
    unless_holds (is_only_spdx (ruby_or_none (group_one elixir_licences t))) rel wrong_licence
    ++ check_list rel (text "files") (list_of ruby_list (group_one elixir_files t))

-- `^licen[cs]e\s*:`, with the flag `m`; this one has small letters only.
abbrev dart_key : Regex
dart_key = both line_start (
    both (lit "licen")
      (both (one (λ c. c == b'c' || c == b's')) (both (lit "e") (both spaces (lit ":")))))

unfoldable pub check_dart : Text → Text → List Problem
check_dart rel t = unless_holds (not (test dart_key t)) rel licence_key
