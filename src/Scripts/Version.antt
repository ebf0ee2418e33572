-- ===== src/Scripts/Version.antt =====
-- scripts/version.mjs: `match`, `sub`, `collect`, `checkDates`, `check` and `set`, over a file
-- system that is a function from a path to the text of a file that is there. `JSON.parse` is a
-- parameter: whether the object of a text has a key, or nothing where it throws.
pub mod Sites
pub mod Agree
pub mod Dates
pub mod Check
pub mod Set
use nebula_token.Common.{
  ℕ, Bool, true, false, not, Option, none, some, List, [], ◌∷◌, ◌++◌, ltb, if◌then◌else◌, is_empty,
  Text, same_text, length, map,
}
use nebula_token.Scripts.Texts.{rev_onto}
use nebula_token.Scripts.Regex.{Regex, Match, match_all, first_match, test}

abbrev pub Files : Type 0
Files = Text → Option Text

-- An entry of `VERSIONED`; its pattern has three groups.
pub record Site : Type 0 where
  pub id : Text
  pub file : Text
  pub pattern : Regex

-- An entry of `UNVERSIONED`: a key that the JSON object must not have, or a forbidden pattern.
pub data Forbidden : Type 0 where
  key : Text → Forbidden
  forbidden : Regex → Forbidden

pub record Unversioned : Type 0 where
  pub id : Text
  pub file : Text
  pub rule : Forbidden

-- An entry of `DATED`; its pattern has two groups, the version and the date.
pub record Dated : Type 0 where
  pub file : Text
  pub pattern : Regex

pub data Problem : Type 0 where
  cannot_read : Text → Problem
  not_semver : Text → Text → Problem
  sites_disagree : List Text → Problem
  declares_version : Text → Problem
  no_entry : Text → Problem
  documents : Text → Text → Text → Problem
  dates_disagree : List Text → Problem
  expect_not_semver : Text → Problem
  expect_differs : Text → Text → Problem

-- `match`: the only match, or nothing where it throws.
unfoldable pub only_match : Regex → Text → Option Match
only_match pattern s = elim (match_all pattern s) [
  | [] ↦ none
  | m ∷ ms ↦ if is_empty ms then some m else none
]

-- `match(pattern, text)[2]`
abbrev pub second_group : List Text → Option Text
second_group (a ∷ b ∷ rest) = some b
second_group _ = none

abbrev pub then_do {ℓ κ} : {A : Type ℓ} {B : Type κ} → Option A → (A → Option B) → Option B
then_do o f = elim o [ none ↦ none | some a ↦ f a ]

-- `t.read(read(t.file))`; nothing where one of the two throws.
unfoldable pub read_site : Files → Site → Option Text
read_site files t =
    then_do (files t.file) λ s. then_do (only_match t.pattern s) λ m. second_group m.groups

-- `[...new Set(values)]`
unfoldable pub without : Text → List Text → List Text
without v [] = []
without v (w ∷ ws) = let rest = without v ws in if same_text w v then rest else w ∷ rest

unfoldable pub distinct : List Text → List Text
distinct [] = []
distinct (v ∷ vs) = v ∷ without v (distinct vs)

-- `rows.filter((r) => r.version).map((r) => r.version)`
unfoldable pub versions : List (Option Text) → List Text
versions [] = []
versions (none ∷ rows) = versions rows
versions (some v ∷ rows) = let rest = versions rows in if is_empty v then rest else v ∷ rest

-- The only element, or nothing: `distinct.length === 1 ? distinct[0] : null`.
abbrev pub only : List Text → Option Text
only (v ∷ []) = some v
only _ = none

-- `SEMVER.test`, for the pattern of the source.
module _ (semver : Regex) where
  -- The loop of `check` over the rows of `collect`.
  unfoldable pub row_problems : Site → Option Text → List Problem
  row_problems t none = cannot_read t.id ∷ []
  row_problems t (some v) = if test semver v then [] else not_semver t.id v ∷ []

  unfoldable pub site_problems : Files → List Site → List Problem
  site_problems files [] = []
  site_problems files (t ∷ sites) = row_problems t (read_site files t) ++ site_problems files sites

  -- What `--expect` adds.
  unfoldable pub expect_problems : Option Text → List Text → List Problem
  expect_problems none found = []
  expect_problems (some expected) found =
      if not (test semver expected) then expect_not_semver expected ∷ [] else elim (only found) [
        | none ↦ []
        | some v ↦ if same_text v expected then [] else expect_differs v expected ∷ []
      ]

abbrev pub disagree : (List Text → Problem) → List Text → List Problem
disagree problem found = if ltb 1 (length found) then problem found ∷ [] else []

-- `u.forbiddenKey ? u.forbiddenKey in JSON.parse(text) : u.forbidden.test(text)`
unfoldable pub declares : (Text → Text → Option Bool) → Forbidden → Text → Option Bool
declares json (key k) s = json k s
declares json (forbidden pattern) s = some (test pattern s)

-- The loop over `UNVERSIONED`; nothing where it throws.
unfoldable pub unversioned_problems :
    (Text → Text → Option Bool) → Files → List Unversioned → Option (List Problem)
unversioned_problems json files [] = some []
unversioned_problems json files (u ∷ us) =
    let rest = unversioned_problems json files us in
    then_do (files u.file) λ s.
      then_do (declares json u.rule s) λ b.
        then_do rest λ problems. some (if b then declares_version u.id ∷ problems else problems)

-- The version and the date of a dated site.
abbrev pub entry_of : List Text → Option (Text × Text)
entry_of (version ∷ date ∷ rest) = some (version, date)
entry_of _ = none

-- `text.match(d.pattern)`, taken apart.
unfoldable pub read_entry : Dated → Text → Option (Text × Text)
read_entry d s = then_do (first_match d.pattern s) λ m. entry_of m.groups

abbrev pub documents_other : Text → Option Text → Text → List Problem
documents_other file none version = []
documents_other file (some v) version =
    if same_text version v then [] else documents file version v ∷ []

-- The loop of `checkDates`: its problems, and the dates seen.
unfoldable pub date_entries : Files → Option Text → List Dated → Option (List Problem × List Text)
date_entries files manifest [] = some ([], [])
date_entries files manifest (d ∷ ds) =
    let rest = date_entries files manifest ds in
    then_do (files d.file) λ s. then_do rest λ seen. elim (read_entry d s) [
      | none ↦ some (no_entry d.file ∷ seen.0, seen.1)
      | some (version, date) ↦
          some (documents_other d.file manifest version ++ seen.0, date ∷ seen.1)
    ]

unfoldable pub check_dates : Files → Option Text → List Dated → Option (List Problem)
check_dates files manifest ds =
    then_do (date_entries files manifest ds)
      λ seen. some (seen.0 ++ disagree dates_disagree (distinct seen.1))

-- The tables of one repository.
pub record Tables : Type 0 where
  pub semver : Regex
  pub versioned : List Site
  pub unversioned : List Unversioned
  pub dated : List Dated

-- `check`, to the list of its problems; nothing where it throws.
unfoldable pub check :
    (Text → Text → Option Bool) → Tables → Files → Option Text → Option (List Problem)
check json tables files expected =
    let found = distinct (versions (map (read_site files) tables.versioned)) in
    then_do (unversioned_problems json files tables.unversioned) λ undeclared.
      then_do (check_dates files (only found) tables.dated) λ undated. some (
        site_problems tables.semver files tables.versioned
        ++ (disagree sites_disagree found
            ++ (undeclared ++ (undated ++ expect_problems tables.semver expected found))))

-- `write` of `sub`: the second group of the only match is replaced.
unfoldable pub write_version : Regex → Text → Text → Option Text
write_version pattern v s = then_do (only_match pattern s) λ m. elim m.groups [
  | start ∷ old ∷ end ∷ [] ↦ some (rev_onto m.before (start ++ (v ++ (end ++ m.after))))
  | _ ↦ none
]

-- `writeFileSync`
unfoldable pub write_file : Text → Text → Files → Files
write_file path s files other = if same_text other path then some s else files other

-- The loop of `set`: whether it came to its end, and the files that it leaves.
unfoldable pub set_sites : Text → List Site → Files → Bool × Files
set_sites v [] files = (true, files)
set_sites v (t ∷ sites) files = elim (then_do (files t.file) (write_version t.pattern v)) [
  | none ↦ (false, files)
  | some after ↦ set_sites v sites (write_file t.file after files)
]

-- `set`
unfoldable pub set : Tables → Text → Files → Bool × Files
set tables v files =
    if not (test tables.semver v) then (false, files) else set_sites v tables.versioned files
