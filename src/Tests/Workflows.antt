-- ===== src/Tests/Workflows.antt =====
-- Lines of workflows, and what scripts/check-actions-pinned.mjs makes of them.
use nebula_token.Common.{◌≡◌, refl, List, [], ◌∷◌, ◌++◌, Text, All}
use nebula_token.Codec.Split.{split}
use nebula_token.Codec.Hex.{is_lower_hex}
use nebula_token.Scripts.Texts.{starts_with}
use nebula_token.Scripts.Regex.{text, match_all, scan, try_at}
use nebula_token.Scripts.Actions.{
  mutable_ref, comment_missing, mutable_image, no_ref, is_local, is_pinned, other_line, faulty,
  last_at, groups_of, image_verdict, action_verdict, uses_verdict, line_verdict, count, tally_lines,
  tally_files,
}
use nebula_token.Scripts.Actions.Pinned.{IsSafe, tally_files-IsSafe}

abbrev sha : Text
sha = text "0123456789abcdef0123456789abcdef01234567"

scanner : Unit {0}
unfolding split is_lower_hex match_all scan try_at starts_with last_at groups_of image_verdict
    action_verdict uses_verdict line_verdict count tally_lines tally_files
scanner = tt

line_tests :
    (line_verdict (text "      - uses: actions/checkout@v4 # v4") ≡ faulty mutable_ref)
    × (line_verdict (text "      - uses: actions/checkout@" ++ sha) ≡ faulty comment_missing)
    × (line_verdict (text "        uses: a/b@" ++ (sha ++ text " # v4.1")) ≡ is_pinned)
    × (line_verdict (text "  - uses: actions/checkout") ≡ faulty no_ref)
    × (line_verdict (text "  - uses: ./.github/actions/setup") ≡ is_local)
    × (line_verdict (text "  image: postgres:16") ≡ faulty mutable_image)
    × (line_verdict (text "  run: make") ≡ other_line)
unfolding scanner
line_tests = (refl, refl, refl, refl, refl, refl, refl)

abbrev workflows : List (Text × Text)
workflows =
    (text "ci.yml", text "jobs:\n  - uses: ./local\n  - uses: a/b@" ++ (sha ++ text " # v1\n")) ∷ []

no_problems : (tally_files workflows).problems ≡ []
unfolding scanner
no_problems = refl

tally_files-IsSafe_example : All (λ f. All IsSafe (split 10 f.1)) workflows
tally_files-IsSafe_example = tally_files-IsSafe workflows no_problems
