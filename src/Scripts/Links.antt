-- ===== src/Scripts/Links.antt =====
-- scripts/check-links.mjs: every relative link of the documentation resolves. `toLowerCase`,
-- `decodeURIComponent` and what `node:path` and `node:fs` say of a path are parameters; the listing
-- of the files by git is not modelled.
pub mod Pages
pub mod Resolved
use nebula_token.Common.{
  ℕ, ◌+◌, Bool, true, false, not, ◌||◌, ◌==◌, Option, none, some, List, [], ◌∷◌, ◌++◌, leb, ◌&&◌,
  if◌then◌else◌, is_empty, Text,
}
use nebula_token.Codec.Split.{split}
use nebula_token.Scripts.Regex.{
  Regex, text, lit, lit_i, both, one, many, some_of, any_case, text_start, is_digit, test,
}
use nebula_token.Scripts.Texts.{starts_with, ends_with, contains, drop}
use nebula_token.Scripts.Version.{then_do}

-- What the script asks of the platform. Paths are absolute, but for that of a file and that of
-- `relative`, which are relative to the root of the repository.
pub record Platform : Type 0 where
  pub lower : Text → Text
  pub decode : Text → Option Text
  pub absolute : Text → Text
  pub resolve : Text → Text → Text
  pub relative : Text → Text
  pub exists : Text → Bool
  pub is_file : Text → Bool
  pub read : Text → Option Text

pub record Link : Type 0 where
  pub target : Text
  pub line : ℕ

pub data Problem : Type 0 where
  unreadable : Text → Problem
  no_heading no_heading_there escapes does_not_exist : Text → Link → Problem

-- The counters and the problems of the script.
pub record Report : Type 0 where
  pub problems : List Problem
  pub paths : ℕ
  pub anchors : ℕ
  pub external : ℕ

abbrev pub nothing : Report
nothing = record { problems = []; paths = 0; anchors = 0; external = 0 }

unfoldable pub join : Report → Report → Report
join a b = record {
  problems = a.problems ++ b.problems;
  paths = a.paths + b.paths;
  anchors = a.anchors + b.anchors;
  external = a.external + b.external;
}

-- `/^[a-z][a-z0-9+.-]*:/i`
abbrev pub scheme : Regex
scheme =
    let letter : ℕ → Bool = λ c. (leb b'a' c && leb c b'z') || (leb b'A' c && leb c b'Z') in
    both text_start (
      both (one letter) (
        both (many (λ c. letter c || (is_digit c || (c == b'+' || (c == b'.' || c == b'-')))))
          (lit ":")))

abbrev pub is_external : Text → Bool
is_external target = test scheme target || starts_with (text "//") target

abbrev pub one_problem : Problem → Report
one_problem p = record { problems = p ∷ []; paths = 0; anchors = 0; external = 0 }

abbrev pub unless_found : Bool → Problem → List Problem
unless_found found p = if found then [] else p ∷ []

-- The path and the anchor of a target: `target.split("#")`.
abbrev pub path_part : List Text → Text
path_part [] = []
path_part (p ∷ rest) = p

abbrev pub anchor_part : List Text → Text
anchor_part (p ∷ a ∷ rest) = a
anchor_part _ = []

module _ (os : Platform) (anchors_of : Text → List Text) where
  -- A target that starts with `#`; nothing where `decodeURIComponent` throws.
  unfoldable pub own_anchor : Text → Link → Option Report
  own_anchor file link = then_do (os.decode (drop 1 link.target)) λ want. some (record {
    problems =
        unless_found (is_empty want || contains want (anchors_of (os.absolute file)))
          (no_heading file link);
    paths = 0;
    anchors = 1;
    external = 0;
  })

  -- The anchor after a path that exists.
  unfoldable pub far_anchor : Text → Link → Text → Text → Text → Option Report
  far_anchor file link clean target_abs anchor =
      if is_empty anchor || (not (os.is_file target_abs) || not (ends_with (text ".md") clean))
      then some (record { problems = []; paths = 1; anchors = 0; external = 0 })
      else (then_do (os.decode anchor) λ want. some (record {
        problems =
            unless_found (contains want (anchors_of target_abs)) (no_heading_there file link);
        paths = 1;
        anchors = 1;
        external = 0;
      }))

  unfoldable pub path_link : Text → Link → Text → Text → Option Report
  path_link file link clean anchor =
      let target_abs = os.resolve (os.absolute file) clean in
      if is_empty clean
      then some nothing
      else if starts_with (text "..") (os.relative target_abs)
      then some (one_problem (escapes file link))
      else if os.exists target_abs
      then far_anchor file link clean target_abs anchor
      else some (one_problem (does_not_exist file link))

  -- The body of the loop over the links of a file.
  unfoldable pub check_link : Text → Link → Option Report
  check_link file link =
      let cut = split b'#' link.target in
      if is_external link.target
      then some (record { problems = []; paths = 0; anchors = 0; external = 1 })
      else if starts_with (text "#") link.target
      then own_anchor file link
      else (then_do (os.decode (path_part (split b'?' (path_part cut))))
          λ clean. path_link file link clean (anchor_part cut))

  unfoldable pub check_links : Text → List Link → Option Report
  check_links file [] = some nothing
  check_links file (link ∷ links) =
      then_do (check_link file link)
        λ r. then_do (check_links file links) λ rest. some (join r rest)
