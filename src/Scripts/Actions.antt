-- ===== src/Scripts/Actions.antt =====
-- scripts/check-actions-pinned.mjs: every action and container image of a workflow is pinned to a
-- commit or a digest. The workflows are their names and texts, in the order of the script.
pub mod Lines
pub mod Pinned
use nebula_token.Common.{
  ℕ, suc, ◌+◌, Bool, true, false, not, ◌||◌, ◌&&◌, ◌==◌, leb, Option, none, some, List, [], ◌∷◌,
  ◌++◌, if◌then◌else◌, Text,
}
use nebula_token.Codec.Split.{split}
use nebula_token.Codec.Hex.{is_lower_hex}
use nebula_token.Scripts.Texts.{starts_with}
use nebula_token.Scripts.Regex.{
  Regex, empty, text_start, text_end, one, many, both, either, group, text, lit, some_of, exactly,
  all_of, is_space, not_space, is_line_terminator, or_else, Match, first_match, test,
}

-- `.`
abbrev pub on_line : ℕ → Bool
on_line c = not (is_line_terminator c)

abbrev pub spaces : Regex
spaces = many is_space

-- `(\S+)(.*)$`
abbrev pub value : Regex
value = both (group (some_of not_space)) (both (group (many on_line)) text_end)

-- `^\s*image:\s*(\S+)(.*)$`
abbrev pub image_line : Regex
image_line = both text_start (both spaces (both (lit "image:") (both spaces value)))

-- `^\s*(?:-\s+)?uses:\s*(\S+)(.*)$`
abbrev pub uses_line : Regex
uses_line = both text_start (
    both spaces (
      both (either (both (lit "-") (some_of is_space)) empty)
        (both (lit "uses:") (both spaces value))))

-- `@sha256:[0-9a-f]{64}$`
abbrev pub digest : Regex
digest = both (lit "@sha256:") (both (exactly 64 is_lower_hex) text_end)

-- `^[0-9a-f]{40}$`
abbrev pub commit : Regex
commit = all_of 40 is_lower_hex

-- `^\s*#\s*\S`
abbrev pub comment : Regex
comment = both text_start (both spaces (both (lit "#") (both spaces (one not_space))))

pub data Fault : Type 0 where
  mutable_image image_comment_missing mutable_container no_ref mutable_ref comment_missing : Fault

-- What one line comes to.
pub data Verdict : Type 0 where
  other_line is_local is_pinned : Verdict
  faulty : Fault → Verdict

-- `lastIndexOf('@')` and the two slices beside it.
unfoldable pub last_at : Text → Option (Text × Text)
last_at [] = none
last_at (c ∷ s) = elim (last_at s) [
  | some (name, version) ↦ some (c ∷ name, version)
  | none ↦ if c == b'@' then some ([], s) else none
]

abbrev pub two_groups : Option Match → Option (Text × Text)
two_groups none = none
two_groups (some m) = elim m.groups [
  | a ∷ rest ↦ elim rest [ b ∷ more ↦ some (a, b) | [] ↦ none ]
  | [] ↦ none
]

unfoldable pub groups_of : Regex → Text → Option (Text × Text)
groups_of r s = two_groups (first_match r s)

unfoldable pub image_verdict : Text → Text → Verdict
image_verdict image rest =
    if not (test digest image)
    then faulty mutable_image
    else if not (test comment rest)
    then faulty image_comment_missing
    else is_pinned

unfoldable pub action_verdict : Option (Text × Text) → Text → Verdict
action_verdict none rest = faulty no_ref
action_verdict (some (name, version)) rest =
    if not (test commit version)
    then faulty mutable_ref
    else if not (test comment rest)
    then faulty comment_missing
    else is_pinned

unfoldable pub uses_verdict : Text → Text → Verdict
uses_verdict ref rest =
    if starts_with (text "./") ref || starts_with (text ".github/") ref
    then is_local
    else if starts_with (text "docker://") ref
    then (if not (test digest ref) then faulty mutable_container else is_pinned)
    else action_verdict (last_at ref) rest

-- The body of the loop over the lines.
unfoldable pub line_verdict : Text → Verdict
line_verdict line = elim (groups_of image_line line) [
  | some (image, rest) ↦ image_verdict image rest
  | none ↦ elim (groups_of uses_line line) [
    | some (ref, rest) ↦ uses_verdict ref rest
    | none ↦ other_line
  ]
]

-- `problems`, `pinned` and `local`; a problem is at a line of a file.
pub record Tally : Type 0 where
  pub problems : List (Text × (ℕ × Fault))
  pub pinned : ℕ
  pub local : ℕ

unfoldable pub count : Text → ℕ → Verdict → Tally → Tally
count file i other_line t = t
count file i is_local t = record t { local = t.local + 1 }
count file i is_pinned t = record t { pinned = t.pinned + 1 }
count file i (faulty f) t = record t { problems = (file, (i, f)) ∷ t.problems }

-- The lines of one file, from line number `i`; the tally is of what follows.
unfoldable pub tally_lines : Text → ℕ → List Text → Tally → Tally
tally_lines file i [] t = t
tally_lines file i (line ∷ lines) t =
    count file i (line_verdict line) (tally_lines file (suc i) lines t)

unfoldable pub tally_files : List (Text × Text) → Tally
tally_files [] = record { problems = []; pinned = 0; local = 0 }
tally_files ((file, s) ∷ files) = tally_lines file 1 (split 10 s) (tally_files files)
