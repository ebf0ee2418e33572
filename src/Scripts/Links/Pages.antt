-- ===== src/Scripts/Links/Pages.antt =====
-- The anchors and the links of a page, and the whole of scripts/check-links.mjs up to its report.
use nebula_token.Common.{
  ℕ, ◌+◌, Bool, false, not, ◌||◌, ◌==◌, Option, none, some, List, [], ◌∷◌, ◌++◌, if◌then◌else◌,
  Text,
}
use nebula_token.Codec.Split.{split}
use nebula_token.Scripts.Regex.{
  Regex, text, lit, both, either, one, many, many_lazy, some_of, optional, up_to, group, text_start,
  text_end, is_space, is_word, in_line, other_than, test, match_all, first_groups,
}
use nebula_token.Scripts.Texts.{trim, remove_all, replace_all, first_places}
use nebula_token.Scripts.Version.{then_do}
use nebula_token.Scripts.Runtime.{group_one}
use nebula_token.Scripts.Links.{
  Platform, Link, Report, unreadable, nothing, one_problem, join, check_links,
}

-- `slug`
unfoldable pub slug : (Text → Text) → Text → Text
slug lower heading =
    replace_all (one is_space) (λ _. text "-")
      (remove_all (one (λ c. not (is_word c || (is_space c || c == b'-')))) (lower (trim heading)))

abbrev spaces : Regex
spaces = many is_space

-- ``^\s*(```|~~~)``
abbrev pub fence : Regex
fence = both text_start (both spaces (either (lit "```") (lit "~~~")))

-- `^#{1,6}\s+(.*?)\s*#*\s*$`
abbrev heading_line : Regex
heading_line =
    let hash : ℕ → Bool = λ c. c == b'#' in
    both text_start (
      both (one hash) (
        both (up_to 5 hash) (
          both (some_of is_space) (
            both (group (many_lazy in_line))
              (both spaces (both (many hash) (both spaces text_end)))))))

-- `="([^"]+)"`
abbrev value : Regex
value = both (lit "=\"") (both (group (some_of (other_than b'"'))) (lit "\""))

-- `<a\s[^>]*(?:id|name)="([^"]+)"`
abbrev html_anchor : Regex
html_anchor = both (lit "<a") (
    both (one is_space)
      (both (many (other_than b'>')) (both (either (lit "id") (lit "name")) value)))

-- What one line outside every fence adds to the set.
unfoldable pub line_anchors : (Text → Text) → Text → List Text
line_anchors lower line =
    elim (group_one heading_line line) [
      | none ↦ []
      | some h ↦ slug lower (remove_all (one (λ c. c == b'`' || (c == b'*' || c == b'_'))) h) ∷ []
    ]
    ++ first_groups (match_all html_anchor line)

unfoldable pub anchors_in : (Text → Text) → Bool → List Text → List Text
anchors_in lower in_fence [] = []
anchors_in lower in_fence (line ∷ lines) =
    let toggled = anchors_in lower (not in_fence) lines in
    let rest = anchors_in lower in_fence lines in
    if test fence line then toggled else if in_fence then rest else line_anchors lower line ++ rest

-- `anchorsOf`, whose cache is not modelled: the files do not change.
unfoldable pub anchors_of : Platform → Text → List Text
anchors_of os path = elim (os.read path) [
  | none ↦ []
  | some s ↦ first_places [] (anchors_in os.lower false (split b'\n' s))
]

-- ``line.replace(/`[^`]*`/g, (m) => " ".repeat(m.length))``
abbrev blank : Text → Text
blank [] = []
blank (c ∷ s) = b' ' ∷ blank s

abbrev code_span : Regex
code_span = both (lit "`") (both (many (other_than b'`')) (lit "`"))

-- `!?\[[^\]]*\]\(\s*<?([^)\s>]+)>?(?:\s+"[^"]*")?\s*\)`
abbrev inline_link : Regex
inline_link = both (optional (lit "!")) (
    both (lit "[") (
      both (many (other_than b']')) (
        both (lit "](") (
          both spaces (
            both (optional (lit "<")) (
              both (group (some_of (λ c. not (c == b')' || (is_space c || c == b'>'))))) (
                both (optional (lit ">")) (
                  both
                    (optional (
                      both (some_of is_space)
                        (both (lit "\"") (both (many (other_than b'"')) (lit "\"")))))
                    (both spaces (lit ")"))))))))))

-- `^\s*\[[^\]]+\]:\s*<?([^\s>]+)>?`
abbrev definition : Regex
definition = both text_start (
    both spaces (
      both (lit "[") (
        both (some_of (other_than b']')) (
          both (lit "]:") (
            both spaces (
              both (optional (lit "<")) (
                both (group (some_of (λ c. not (is_space c || c == b'>'))))
                  (optional (lit ">")))))))))

-- `<(?:a|img)\s[^>]*(?:href|src)="([^"]+)"`
abbrev html_link : Regex
html_link = both (lit "<") (
    both (either (lit "a") (lit "img")) (
      both (one is_space)
        (both (many (other_than b'>')) (both (either (lit "href") (lit "src")) value))))

abbrev at_number : ℕ → List Text → List Link
at_number n [] = []
at_number n (t ∷ ts) = record { target = t; line = n } ∷ at_number n ts

unfoldable pub line_links : ℕ → Text → List Link
line_links n line =
    let stripped = replace_all code_span blank line in
    at_number n (first_groups (match_all inline_link stripped))
    ++ (at_number n (first_groups (match_all definition stripped))
        ++ at_number n (first_groups (match_all html_link stripped)))

-- The loop of `linksIn`; `n` is the number of the next line.
unfoldable pub links_from : Bool → ℕ → List Text → List Link
links_from in_fence n [] = []
links_from in_fence n (line ∷ lines) =
    let toggled = links_from (not in_fence) (n + 1) lines in
    let rest = links_from in_fence (n + 1) lines in
    if test fence line then toggled else if in_fence then rest else line_links n line ++ rest

unfoldable pub links_in : Text → List Link
links_in s = links_from false 1 (split b'\n' s)

-- The body of the loop over the files.
unfoldable pub check_file : Platform → Text → Option Report
check_file os file = elim (os.read (os.absolute file)) [
  | none ↦ some (one_problem (unreadable file))
  | some s ↦ check_links os (anchors_of os) file (links_in s)
]

-- The script; nothing where it throws.
unfoldable pub check_files : Platform → List Text → Option Report
check_files os [] = some nothing
check_files os (file ∷ files) =
    then_do (check_file os file) λ r. then_do (check_files os files) λ rest. some (join r rest)
