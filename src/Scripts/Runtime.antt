-- ===== src/Scripts/Runtime.antt =====
-- scripts/check-runtime-matrix.mjs: the lowest version that CI tests is the floor that each manifest
-- declares, and SUPPORT.md shows both. The matrix is its JSON file, as the script reads it: versions,
-- target frameworks or pairs for a key. `JSON.parse` is a parameter: the text under two keys of an
-- object, or nothing where it throws.
pub mod Compare
pub mod Order
pub mod Table
pub mod Support
pub mod Floors
pub mod Single
pub mod Sets
pub mod Pairs
pub mod Covered
pub mod Written
use Prim.Native.String.{String}
use nebula_token.Common.{
  ℕ, Bool, true, false, not, Option, none, some, List, [], ◌∷◌, ◌++◌, if◌then◌else◌, is_empty, Text,
  map,
}
use nebula_token.Codec.Split.{split}
use nebula_token.Scripts.Regex.{
  Regex, text, first_match, one, both, lit, either, empty, some_of, group, text_start, is_digit,
  other_than, many_lazy, test,
}
use nebula_token.Scripts.Texts.{trim, contains, join_text, filter, not_blank, remove_all, truthy}
use nebula_token.Scripts.Version.{Files, then_do}
use Compare.{Sign, less, same, more, cmp, lowest}

abbrev pub JsonField : Type 0
JsonField = Text → Text → Text → Option (Option Text)

pub record Framework : Type 0 where
  pub framework : Text
  pub sdk : Text

pub record Pair : Type 0 where
  pub elixir : Text
  pub otp : Text

pub record Matrix : Type 0 where
  pub versions : Text → Option (List Text)
  pub frameworks : Text → Option (List Framework)
  pub pairs : Text → Option (List Pair)

-- An entry of `RUNTIMES`, without its reader.
pub record Runtime : Type 0 where
  pub key : Text
  pub label : Text
  pub pkg : Text
  pub manifest : Text
  pub field : Text

-- `floor`, of an entry that has neither `pairs` nor `exact`; nothing where it throws.
abbrev pub Floor : Type 0
Floor = JsonField → Text → Option (Option Text)

pub data Problem : Type 0 where
  no_versions unreadable no_field : Text → Problem
  only_channels : Text → Text → Problem
  floor_untested floor_exceeded floor_differs otp_differs : Text → Text → Text → Problem
  target_untested target_undeclared : Text → Text → Problem
  test_project_unreadable : Problem
  ships_untested : Text → Problem
  support_missing support_no_block support_stale : Problem

pub record Row : Type 0 where
  pub label : Text
  pub pkg : Text
  pub tested : Text
  pub floor : Text
  pub source : Text

abbrev pub Found : Type 0
Found = List Problem × List Row

abbrev pub comma : Text
comma = text ", "

-- `t.match(pattern)?.[1]`
unfoldable pub group_one : Regex → Text → Option Text
group_one r s = then_do (first_match r s) λ m. elim m.groups [ [] ↦ none | a ∷ rest ↦ some a ]

-- `<!--[\s\S]*?-->`
abbrev pub xml_comment : Regex
xml_comment = both (lit "<!--") (both (many_lazy (λ c. true)) (lit "-->"))

unfoldable pub strip_xml_comments : Text → Text
strip_xml_comments = remove_all xml_comment

-- `numeric`
unfoldable pub numeric : List Text → List Text
numeric = filter (test (both text_start (one is_digit)))

-- `list.sort(cmp)[0]`, as text: `undefined` where there is none.
abbrev pub lowest_of : List Text → Text
lowest_of [] = text "undefined"
lowest_of (v ∷ vs) = lowest v vs

-- The comparison of a floor with the lowest version tested.
unfoldable pub compare_floor : Runtime → Text → Text → List Problem
compare_floor rt floor low = elim (cmp low floor) [
  | same ↦ []
  | more ↦ floor_untested rt.label floor low ∷ []
  | less ↦ floor_exceeded rt.label low floor ∷ []
]

unfoldable pub floor_problems : Runtime → Text → List Text → List Problem
floor_problems rt floor listed = elim (numeric listed) [
  | [] ↦ only_channels rt.label floor ∷ []
  | v ∷ vs ↦ compare_floor rt floor (lowest v vs)
]

-- The start of the loop's body: the entry has a list, and its manifest can be read.
unfoldable pub guarded {ℓ} :
    {A : Type ℓ} → Files → Runtime → Option (List A) → (List A → Text → Option Found) → Option Found
guarded files rt none check = some (no_versions rt.key ∷ [], [])
guarded files rt (some []) check = some (no_versions rt.key ∷ [], [])
guarded files rt (some (v ∷ vs)) check = elim (files rt.manifest) [
  | none ↦ some (unreadable rt.key ∷ [], [])
  | some t ↦ check (v ∷ vs) t
]

-- The last part of the loop's body, for an entry with a floor only; then where the floor is read.
unfoldable pub found_floor : Runtime → List Text → Option Text → Found
found_floor rt listed none = (no_field rt.key ∷ [], [])
found_floor rt listed (some f) = (
  floor_problems rt f listed,
  record {
    label = rt.label;
    pkg = rt.pkg;
    tested = join_text comma listed;
    floor = f;
    source = rt.field;
  }
      ∷ [],
)

unfoldable pub check_floor : JsonField → Matrix → Files → Runtime → Floor → Option Found
check_floor json matrix files rt floor =
    guarded files rt (matrix.versions rt.key)
      λ listed t. then_do (floor json t) λ read. some (found_floor rt listed (truthy read))

-- A version that is not the floor.
abbrev pub unless_same : Text → Text → Problem → List Problem
unless_same low floor problem = elim (cmp low floor) [ same ↦ [] | _ ↦ problem ∷ [] ]

unfoldable pub elixir_problems : Runtime → Option Text → List Pair → List Problem
elixir_problems rt none listed = no_field rt.key ∷ []
elixir_problems rt (some f) listed =
    let low = lowest_of (numeric (map (λ p. p.elixir) listed)) in
    unless_same low f (floor_differs rt.label f low)

unfoldable pub otp_problems : Runtime → Option Text → List Pair → List Problem
otp_problems rt none listed = []
otp_problems rt (some f) listed =
    let low = lowest_of (map (λ p. p.otp) listed) in unless_same low f (otp_differs rt.label f low)

abbrev pub show_pair : Pair → Text
show_pair p = p.elixir ++ (text " / OTP " ++ p.otp)

abbrev pub or_question : Option Text → Text
or_question none = text "?"
or_question (some f) = f

abbrev pub otp_suffix : Option Text → Text
otp_suffix none = []
otp_suffix (some f) = text " / OTP " ++ f

-- The part of the loop's body for an entry with `pairs`.
unfoldable pub check_pairs :
    Matrix → Files → Runtime → (Text → Option Text) → (Text → Option Text) → Option Found
check_pairs matrix files rt floor otp_floor = guarded files rt (matrix.pairs rt.key) λ listed t.
    some (
      elixir_problems rt (truthy (floor t)) listed ++ otp_problems rt (truthy (otp_floor t)) listed,
      record {
        label = rt.label;
        pkg = rt.pkg;
        tested = join_text comma (map show_pair listed);
        floor = or_question (floor t) ++ otp_suffix (truthy (otp_floor t));
        source = rt.field;
      }
          ∷ [],
    )

-- `<TargetFrameworks?>([^<]+)<`, split at `;`.
unfoldable pub targets : Text → Option (List Text)
targets t =
    then_do
      (group_one
        (both (lit "<TargetFramework") (
          both (either (lit "s") empty)
            (both (lit ">") (both (group (some_of (other_than b'<'))) (lit "<")))))
        (strip_xml_comments t))
      λ raw. some (not_blank (map trim (split b';' raw)))

abbrev pub test_project : Text
test_project = text "packages/csharp/tests/NebulaToken.Tests/NebulaToken.Tests.csproj"

unfoldable pub each_missing : (Text → Problem) → List Text → List Text → List Problem
each_missing problem [] known = []
each_missing problem (t ∷ ts) known =
    let rest = each_missing problem ts known in if contains t known then rest else problem t ∷ rest

-- `alsoCheck`
unfoldable pub also_check : Files → List Text → List Problem
also_check files declared = elim (files test_project) [
  | none ↦ test_project_unreadable ∷ []
  | some t ↦ each_missing ships_untested declared (elim (targets t) [ none ↦ [] | some ts ↦ ts ])
]

abbrev pub show_framework : Framework → Text
show_framework f = f.framework ++ (text " (SDK " ++ (f.sdk ++ text ")"))

-- The part of the loop's body for an entry with `exact`, where the declared set is read.
unfoldable pub found_set : Files → Runtime → List Framework → Option (List Text) → Found
found_set files rt listed none = (no_field rt.key ∷ [], [])
found_set files rt listed (some declared) =
    let tested = map (λ g. g.framework) listed in
    (
      each_missing (target_untested rt.label) declared tested
          ++ (each_missing (target_undeclared rt.label) tested declared
              ++ also_check files declared),
      record {
        label = rt.label;
        pkg = rt.pkg;
        tested = join_text comma (map show_framework listed);
        floor = join_text comma declared;
        source = rt.field;
      }
          ∷ [],
    )

unfoldable pub check_set : Matrix → Files → Runtime → Option Found
check_set matrix files rt =
    guarded files rt (matrix.frameworks rt.key)
      λ listed t. some (found_set files rt listed (targets t))
