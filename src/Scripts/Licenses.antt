-- ===== src/Scripts/Licenses.antt =====
-- scripts/check-licenses.mjs: one licence, stated identically everywhere. What the script asks of the
-- disk, of SHA-256, of `JSON.parse` and of git is a parameter.
pub mod Manifests
pub mod Payload
pub mod Parsed
pub mod Prose
pub mod Granted
pub mod Declared
use nebula_token.Common.{
  ℕ, ◌+◌, Bool, true, false, not, ◌||◌, ◌&&◌, ◌==◌, Option, none, some, List, [], ◌∷◌, ◌++◌,
  if◌then◌else◌, Text, same_text, length,
}
use nebula_token.Scripts.Regex.{
  Regex, text, lit, lit_i, both, either, one, many, optional, text_start, text_end, word_boundary,
  in_line, test,
}
use nebula_token.Scripts.Texts.{includes, filter, contains}
use nebula_token.Scripts.Version.{Files}
use nebula_token.Scripts.Runtime.Support.{index_of, slice}

-- A value of a JSON document: a string, an array of strings, or something else.
pub data Value : Type 0 where
  str : Text → Value
  array : List Text → Value
  other : Value

-- The fields that the script reads of a JSON document; none where it is missing.
pub record Json : Type 0 where
  pub license : Option Value
  pub files : Option Value
  pub excluded : List Text
  pub root_entry : Option (Option Value)

-- Paths are relative to the root of the repository. A directory lists its entries, `sha_file` is the
-- digest of a file's bytes, and `sha_text` that of a text in UTF-8.
pub record Platform : Type 0 where
  pub files : Files
  pub listing : Text → Option (List Text)
  pub is_file : Text → Bool
  pub sha_file : Text → Text
  pub sha_text : Text → Text
  pub json : Text → Option Json
  pub composers : List Text
  pub export_ignored : Text → Bool

pub data What : Type 0 where
  missing_marker template_left no_list not_included stale_entry no_plugin : Text → What
  no_body body_differs no_copyright second_grant has_cr : What
  no_package no_licence licence_differs forbidden_file is_missing not_json : What
  wrong_licence licence_table licence_file_set licence_key several_licences : What
  wrong_blocks wrong_url wrong_distribution wrong_bundle wrong_lists no_profile : What
  conflicting_element excludes_licence several_composers ignores_licence no_root_entry : What

pub data Problem : Type 0 where
  problem : Text → What → Problem

unfoldable pub spdx : Text
spdx = text "Apache-2.0"

unfoldable pub packages : List Text
packages =
    text "typescript"
    ∷ text "python"
    ∷ text "go"
    ∷ text "rust"
    ∷ text "java"
    ∷ text "php"
    ∷ text "csharp"
    ∷ text "dart"
    ∷ text "ruby"
    ∷ text "elixir"
    ∷ []

-- `licen[cs]e`, in either case.
abbrev pub licence_word : Regex
licence_word =
    both (lit_i "licen")
      (both (one (λ c. (c == b'c' || c == b's') || (c == b'C' || c == b'S'))) (lit_i "e"))

-- `/^(licen[cs]e[-_.].*|copying(\..*)?)$/i`
abbrev pub forbidden_licence_file : Regex
forbidden_licence_file =
    let sep : ℕ → Bool = λ c. c == b'-' || (c == b'_' || c == b'.') in
    both text_start (
      both
        (either (both licence_word (both (one sep) (many in_line)))
          (both (lit_i "copying") (optional (both (lit ".") (many in_line)))))
        text_end)

abbrev pub licence_file : Text
licence_file = text "LICENSE"

unfoldable pub markers : List Text
markers =
    text "Apache License"
    ∷ text "Version 2.0, January 2004"
    ∷ text "http://www.apache.org/licenses/"
    ∷ text "1. Definitions."
    ∷ text "3. Grant of Patent License."
    ∷ text "END OF TERMS AND CONDITIONS"
    ∷ text "APPENDIX: How to apply the Apache License to your work."
    ∷ []

unfoldable pub missing_markers : Text → List Text → List Problem
missing_markers root [] = []
missing_markers root (m ∷ ms) =
    let rest = missing_markers root ms in
    if includes m root then rest else problem licence_file (missing_marker m) ∷ rest

abbrev pub body_sha : Text
body_sha = text "4bf96504d6e83ce5c6fc7167f1795d9ceaa68e70ab86bc5d08ab93184262bbbe"

abbrev pub end_of_terms : Text
end_of_terms = text "END OF TERMS AND CONDITIONS"

-- The body of the licence, from its title to its end mark.
unfoldable pub licence_body : Text → Option Text
licence_body root = elim (index_of (text "Apache License") root) [
  | none ↦ none
  | some start ↦ elim (index_of end_of_terms root) [
    | none ↦ none
    | some end ↦ some (slice start (end + length end_of_terms) root)
  ]
]

unfoldable pub check_body : (Text → Text) → Option Text → List Problem
check_body sha_text none = problem licence_file no_body ∷ []
check_body sha_text (some body) =
    if same_text (sha_text body) body_sha then [] else problem licence_file body_differs ∷ []

unfoldable pub templates_left : Text → List Text → List Problem
templates_left root [] = []
templates_left root (t ∷ ts) =
    let rest = templates_left root ts in
    if includes t root then problem licence_file (template_left t) ∷ rest else rest

-- `\bMIT\b`
abbrev pub mit : Regex
mit = both word_boundary (both (lit "MIT") word_boundary)

-- `/dual[- ]licen[cs]/i`
abbrev pub dual : Regex
dual = both (lit_i "dual") (
    both (one (λ c. c == b'-' || c == b' '))
      (both (lit_i "licen") (one (λ c. (c == b'c' || c == b's') || (c == b'C' || c == b'S')))))

abbrev pub unless_holds : Bool → Text → What → List Problem
unless_holds holds rel what = if holds then [] else problem rel what ∷ []

-- The first section, for a LICENSE that is there.
unfoldable pub check_root : (Text → Text) → Text → List Problem
check_root sha_text root =
    missing_markers root markers
    ++ (check_body sha_text (licence_body root)
        ++ (unless_holds (includes (text "Copyright 2026 Matteo Teodori") root) licence_file
              no_copyright
            ++ (templates_left root (text "[yyyy]" ∷ text "[name of copyright owner]" ∷ [])
                ++ (unless_holds (not (test mit root || test dual root)) licence_file second_grant
                    ++ unless_holds (not (includes (text "\r") root)) licence_file has_cr))))

-- `join(dir, entry)`, below the root.
abbrev pub entry_of : Text → Text → Text
entry_of dir entry = dir ++ (text "/" ++ entry)

unfoldable pub forbidden_entries : (Text → Bool) → (Text → Text) → List Text → List Problem
forbidden_entries is_file path [] = []
forbidden_entries is_file path (e ∷ es) =
    let rest = forbidden_entries is_file path es in
    if test forbidden_licence_file e && is_file (path e)
    then problem (path e) forbidden_file ∷ rest
    else rest

abbrev pub dir_of : Text → Text
dir_of pkg = text "packages/" ++ pkg

-- The copy of a package, compared with the digest of the root's.
unfoldable pub check_copy : Platform → Text → Text → List Problem
check_copy os root_hash path = elim (os.files path) [
  | none ↦ problem path no_licence ∷ []
  | some s ↦
      if same_text (os.sha_file path) root_hash then [] else problem path licence_differs ∷ []
]

-- The body of the loop over the packages.
unfoldable pub check_package : Platform → Text → Text → List Problem
check_package os root_hash pkg = elim (os.listing (dir_of pkg)) [
  | none ↦ problem (dir_of pkg) no_package ∷ []
  | some entries ↦
      check_copy os root_hash (entry_of (dir_of pkg) licence_file)
      ++ forbidden_entries os.is_file (entry_of (dir_of pkg)) entries
]

unfoldable pub check_packages : Platform → Text → List Text → List Problem
check_packages os root_hash [] = []
check_packages os root_hash (pkg ∷ pkgs) =
    check_package os root_hash pkg ++ check_packages os root_hash pkgs

abbrev pub entries_of : Option (List Text) → List Text
entries_of none = []
entries_of (some entries) = entries

-- The second section; the root directory is the empty path.
unfoldable pub check_copies : Platform → List Problem
check_copies os =
    check_packages os (os.sha_file licence_file) packages
    ++ forbidden_entries os.is_file (λ e. e) (entries_of (os.listing []))
