-- ===== src/Tests/Links.antt =====
-- Two pages, and what scripts/check-links.mjs makes of them.
use nebula_token.Common.{
  ℕ, ◌≡◌, refl, Bool, true, false, ◌&&◌, leb, ◌+◌, Option, none, some, List, [], ◌∷◌, ◌++◌, All,
  if◌then◌else◌, Text, same_text, map,
}
use nebula_token.Codec.Split.{split}
use nebula_token.Scripts.Regex.{text, match_all, scan, try_at}
use nebula_token.Scripts.Texts.{
  starts_with, ends_with, rev_onto, drop, contains, trim, trim_start, trim_end, replace_from,
  replace_all, first_places,
}
use nebula_token.Scripts.Runtime.{group_one}
use nebula_token.Scripts.Links.{
  Platform, Report, no_heading, join, own_anchor, far_anchor, path_link, check_link, check_links,
}
use nebula_token.Scripts.Links.Pages.{
  slug, line_anchors, anchors_in, anchors_of, line_links, links_from, links_in, check_file,
  check_files,
}
use nebula_token.Scripts.Links.Resolved.{IsPage, check_files-IsPage}

linker : Unit {0}
unfolding same_text split match_all scan try_at starts_with ends_with rev_onto drop contains trim
    trim_start trim_end replace_from replace_all first_places group_one join own_anchor far_anchor
    path_link check_link check_links slug line_anchors anchors_in anchors_of line_links links_from
    links_in check_file check_files
linker = tt

abbrev small : ℕ → ℕ
small c = if leb b'A' c && leb c b'Z' then c + 32 else c

abbrev guide : Text
guide =
    text
      "# Rotation & Reuse\n\nSee [here](#rotation--reuse), [code](src/a.ts?x#y) and [home](../README.md#top).\n"
    ++ text
        "```\n[no](gone.md)\n```\n`[no](gone.md)` <https://example.org> [out](https://example.org)\n"

abbrev readme : Text
readme = text "<a id=\"top\"></a>\n\n## Guide ##\n\n[guide]: docs/guide.md#rotation--reuse\n"

abbrev pages : List (Text × Text)
pages =
    (text "/docs/guide.md", guide) ∷ (text "/README.md", readme) ∷ (text "/docs/src/a.ts", []) ∷ []

abbrev page : List (Text × Text) → Text → Option Text
page [] path = none
page ((name, s) ∷ rest) path =
    let later = page rest path in if same_text name path then some s else later

abbrev is_some : Option Text → Bool
is_some none = false
is_some (some s) = true

-- The paths of the two pages, as `node:path` resolves them.
abbrev resolved : Text → Text → Text
resolved file path =
    if same_text path (text "../README.md")
    then text "/README.md"
    else if same_text file (text "/docs/guide.md")
    then text "/docs/" ++ path
    else text "/" ++ path

abbrev os : Platform
os = record {
  lower = map small;
  decode = λ s. some s;
  absolute = λ s. text "/" ++ s;
  resolve = resolved;
  relative = drop 1;
  exists = λ path. is_some (page pages path);
  is_file = λ path. true;
  read = page pages;
}

slug_test : slug (map small) (text " Rotation & Reuse, twice") ≡ text "rotation--reuse-twice"
unfolding linker
slug_test = refl

abbrev report : Report
report = record { problems = []; paths = 3; anchors = 3; external = 1 }

passes : check_files os (text "docs/guide.md" ∷ text "README.md" ∷ []) ≡ some report
unfolding linker
passes = refl

broken :
    check_link os (anchors_of os) (text "README.md") (record { target = text "#nowhere"; line = 3 })
    ≡ some (record {
      problems = no_heading (text "README.md") (record { target = text "#nowhere"; line = 3 }) ∷ [];
      paths = 0;
      anchors = 1;
      external = 0;
    })
unfolding linker
broken = refl

check_files-IsPage_example : All (IsPage os) (text "docs/guide.md" ∷ text "README.md" ∷ [])
check_files-IsPage_example =
    check_files-IsPage os (text "docs/guide.md" ∷ text "README.md" ∷ []) report passes refl
