-- ===== src/Scripts/Examples.antt =====
-- scripts/check-examples.mjs: CI still compiles the example templates of every package. The text of
-- ci.yml and the listing of a directory (the names of all files below it) are parameters.
pub mod Table
pub mod RunLine
pub mod Compiled
use nebula_token.Common.{
  ℕ, ◌+◌, ◌-◌, Bool, true, false, not, ◌||◌, ◌&&◌, ◌==◌, Option, none, some, List, [], ◌∷◌, ◌++◌,
  leb, if◌then◌else◌, is_empty, Text, same_text, length,
}
use nebula_token.Codec.Split.{split}
use nebula_token.Scripts.Regex.{
  Regex, text, lit, both, one, many, optional, group, text_start, text_end, is_digit, is_space,
  in_line, test, first_match,
}
use nebula_token.Scripts.Texts.{
  starts_with, ends_with, includes, contains, trim, trim_start, filter, any,
}
use nebula_token.Scripts.Version.{then_do}

-- `^  [a-z][a-z0-9-]*:$`
abbrev pub job_line : Regex
job_line =
    let small : ℕ → Bool = λ c. leb b'a' c && leb c b'z' in
    both text_start (
      both (lit "  ") (
        both (one small)
          (both (many (λ c. small c || (is_digit c || c == b'-'))) (both (lit ":") text_end))))

-- `^(\s*)-?\s*run:\s*(.*)$`
abbrev pub run_line : Regex
run_line = both text_start (
    both (group (many is_space)) (
      both (optional (lit "-")) (
        both (many is_space)
          (both (lit "run:") (both (many is_space) (both (group (many in_line)) text_end))))))

-- The lines from the head of the next job on are cut off.
unfoldable pub until_job : List Text → List Text
until_job [] = []
until_job (l ∷ lines) = let rest = until_job lines in if test job_line l then [] else l ∷ rest

-- The lines behind the first one that is the head of the job.
unfoldable pub after_head : Text → List Text → List Text
after_head head [] = []
after_head head (l ∷ lines) =
    let rest = after_head head lines in if same_text l head then lines else rest

-- `  ${job}:`
unfoldable pub job_lines : Text → List Text → List Text
job_lines job lines = until_job (after_head (text "  " ++ (job ++ text ":")) lines)

-- `line.search(/\S/)`, for a line that has such a character.
abbrev pub indent_of : Text → ℕ
indent_of line = length line - length (trim_start line)

-- A line that belongs to a block scalar of this indentation.
abbrev pub in_block : Option ℕ → Text → Bool
in_block none line = false
in_block (some indent) line = is_empty (trim line) || leb indent (indent_of line)

-- The indentation and the text of a `run:` line.
unfoldable pub run_parts : Text → Option (ℕ × Text)
run_parts line =
    then_do (first_match run_line line)
      λ m. elim m.groups [ spaces ∷ command ∷ rest ↦ some (length spaces, trim command) | _ ↦ none ]

abbrev pub is_block_mark : Text → Bool
is_block_mark rest = contains rest (text "|" ∷ text "|-" ∷ text ">" ∷ text ">-" ∷ [])

-- What a line outside every block gives: the block that it opens, and its command.
unfoldable pub open_line : Option (ℕ × Text) → Option ℕ × List Text
open_line none = (none, [])
open_line (some (indent, rest)) =
    if is_block_mark rest
    then (some (indent + 2), [])
    else if is_empty rest
    then (none, [])
    else (none, rest ∷ [])

-- The loop over the lines of the job; the first argument is `blockIndent`.
unfoldable pub collect : Option ℕ → List Text → List Text
collect block [] = []
collect block (line ∷ lines) =
    let inside = collect block lines in
    let (opened, command) = open_line (run_parts line) in
    let outside = collect opened lines in
    if in_block block line then trim line ∷ inside else command ++ outside

abbrev pub is_command : Text → Bool
is_command l = not (is_empty l) && not (starts_with (text "#") l)

-- `runLines`
unfoldable pub run_lines : Text → Text → List Text
run_lines ci job = filter is_command (collect none (job_lines job (split b'\n' ci)))

pub record Template : Type 0 where
  pub pkg : Text
  pub dir : Text
  pub ext : List Text
  pub command : Text
  pub why : Text

pub data Problem : Type 0 where
  no_directory no_template not_compiled : Text → Problem

pub record Row : Type 0 where
  pub rel : Text
  pub count : ℕ
  pub how : Text

abbrev pub rel_of : Template → Text
rel_of spec = text "packages/" ++ (spec.pkg ++ (text "/" ++ spec.dir))

-- `files`
unfoldable pub templates : Template → List Text → List Text
templates spec names = filter (λ f. any (λ e. ends_with e f) spec.ext) names

-- The end of the loop's body, for a package with templates.
unfoldable pub check_compiled : Text → Template → ℕ → List Problem × List Row
check_compiled ci spec count =
    if any (λ line. includes spec.command line) (run_lines ci spec.pkg)
    then ([], record { rel = rel_of spec; count = count; how = spec.why } ∷ [])
    else (not_compiled (rel_of spec) ∷ [], [])

-- The body of the loop over `PACKAGES`.
unfoldable pub check_package :
    (Text → Option (List Text)) → Text → Template → List Problem × List Row
check_package listing ci spec = elim (listing (rel_of spec)) [
  | none ↦ (no_directory (rel_of spec) ∷ [], [])
  | some names ↦ elim (templates spec names) [
    | [] ↦ (no_template (rel_of spec) ∷ [], [])
    | f ∷ fs ↦ check_compiled ci spec (length (f ∷ fs))
  ]
]

unfoldable pub check_examples :
    (Text → Option (List Text)) → Text → List Template → List Problem × List Row
check_examples listing ci [] = ([], [])
check_examples listing ci (spec ∷ specs) =
    let (problems, rows) = check_package listing ci spec in
    let (others, more) = check_examples listing ci specs in (problems ++ others, rows ++ more)
