-- ===== src/Scripts/Licenses/Payload.antt =====
-- The lists of the manifests that name what an artefact ships.
use nebula_token.Common.{not, ◌||◌, ◌==◌, Option, none, some, List, [], ◌∷◌, ◌++◌, Text, map}
use nebula_token.Codec.Split.{split}
use nebula_token.Scripts.Regex.{
  Regex, text, lit, both, either, one, many, optional, text_start, text_end, in_line, test,
}
use nebula_token.Scripts.Texts.{contains, trim, remove_all, not_blank, any}
use nebula_token.Scripts.Licenses.{
  Problem, problem, not_included, stale_entry, no_list, licence_file, licence_word, unless_holds,
}

-- `/^\/?licen[cs]e[-_.]/i`
abbrev pub stale_name : Regex
stale_name = both text_start (
    both (optional (lit "/"))
      (both licence_word (one (λ c. c == b'-' || (c == b'_' || c == b'.')))))

-- `checkIncludes`
unfoldable pub check_includes : Text → Text → List Text → List Problem
check_includes rel label list =
    unless_holds (contains licence_file list || contains (text "/LICENSE") list) rel
      (not_included label)
    ++ unless_holds (not (any (test stale_name) list)) rel (stale_entry label)

-- A list that may be missing.
unfoldable pub check_list : Text → Text → Option (List Text) → List Problem
check_list rel label none = problem rel (no_list label) ∷ []
check_list rel label (some list) = check_includes rel label list

-- `/#.*$/`, which matches no line but the last.
abbrev pub trailing_comment : Regex
trailing_comment = both (lit "#") (both (many in_line) text_end)

-- `/^["']|["']$/g`
abbrev pub outer_quote : Regex
outer_quote =
    let quote : Regex = one (λ c. c == b'"' || c == b'\'') in
    either (both text_start quote) (both quote text_end)

-- `tomlList`
unfoldable pub toml_list : Text → List Text
toml_list inner =
    map (remove_all outer_quote)
      (not_blank (map (λ s. trim (remove_all trailing_comment (trim s))) (split b',' inner)))

-- `rubyList`
unfoldable pub ruby_list : Text → List Text
ruby_list inner =
    map (remove_all outer_quote)
      (not_blank (map (λ s. trim (remove_all trailing_comment s)) (split b',' inner)))
