-- ===== src/Scripts/Runtime/Support.antt =====
-- The whole of scripts/check-runtime-matrix.mjs: the loop over the runtimes, and the table in
-- SUPPORT.md, which is compared or, under `--write`, rewritten. The report is not modelled.
use nebula_token.Common.{
  ℕ, ◌+◌, ◌-◌, Bool, Option, none, some, List, [], ◌∷◌, ◌++◌, if◌then◌else◌, Text, map, same_text,
  length,
}
use nebula_token.Scripts.Regex.{text, first_units}
use nebula_token.Scripts.Texts.{drop, cut_at, join_text}
use nebula_token.Scripts.Version.{Files, then_do, write_file}
use nebula_token.Scripts.Runtime.{
  JsonField, Matrix, Problem, support_missing, support_no_block, support_stale, Row, Found,
  check_floor, check_pairs, check_set,
}
use nebula_token.Scripts.Runtime.Table.{Entry, by_floor, by_set, by_pairs}

-- The body of the loop; nothing where it throws.
unfoldable pub check_entry : JsonField → Matrix → Files → Entry → Option Found
check_entry json matrix files (by_floor rt floor) = check_floor json matrix files rt floor
check_entry json matrix files (by_set rt) = check_set matrix files rt
check_entry json matrix files (by_pairs rt floor otp) = check_pairs matrix files rt floor otp

unfoldable pub check_entries : JsonField → Matrix → Files → List Entry → Option Found
check_entries json matrix files [] = some ([], [])
check_entries json matrix files (e ∷ es) =
    then_do (check_entry json matrix files e) λ (problems, rows).
      then_do (check_entries json matrix files es)
        λ (more, others). some (problems ++ more, rows ++ others)

abbrev pub begin_mark : Text
begin_mark = text "<!-- BEGIN GENERATED: runtime-matrix -->"

abbrev pub end_mark : Text
end_mark = text "<!-- END GENERATED: runtime-matrix -->"

abbrev pub table_row : Row → Text
table_row r =
    text "| "
    ++ (r.label
        ++ (text " | `packages/"
            ++ (r.pkg ++ (text "` | " ++ (r.floor ++ (text " | " ++ (r.tested ++ text " |")))))))

-- The lines of the table between the two marks.
unfoldable pub table_lines : List Row → List Text
table_lines rows =
    text ""
      ∷ text "| Runtime | Package | Declared floor | Exercised by CI |"
      ∷ text "|---|---|---|---|"
      ∷ map table_row rows
    ++ (text ""
        ∷ text
            "<sub>Generated from `.github/runtime-matrix.json` by `scripts/check-runtime-matrix.mjs`. \"Declared floor\" is read from each package manifest; CI fails if the two disagree.</sub>"
        ∷ text ""
        ∷ [])

unfoldable pub table : List Row → Text
table rows = join_text (text "\n") (begin_mark ∷ (table_lines rows ++ (end_mark ∷ [])))

-- `s.indexOf(needle)`, with nothing for -1.
unfoldable pub index_of : Text → Text → Option ℕ
index_of needle s = elim (cut_at needle s) [
  | none ↦ none
  | some (before, from) ↦ some (length before)
]

-- `s.slice(a, b)`
unfoldable pub slice : ℕ → ℕ → Text → Text
slice a b s = first_units (b - a) (drop a s)

-- What stands in place of the table, and the text with the table in its place.
unfoldable pub splice : Text → Text → Option (Text × Text)
splice wanted s = then_do (index_of begin_mark s) λ start. then_do (index_of end_mark s) λ end.
    let after = end + length end_mark in
    some (slice start after s, first_units start s ++ (wanted ++ drop after s))

abbrev pub support_file : Text
support_file = text "SUPPORT.md"

unfoldable pub check_support : Bool → List Row → Files → List Problem × Files
check_support write rows files = elim (files support_file) [
  | none ↦ (support_missing ∷ [], files)
  | some s ↦ elim (splice (table rows) s) [
    | none ↦ (support_no_block ∷ [], files)
    | some (current, rewritten) ↦
        if same_text current (table rows)
        then ([], files)
        else if write
        then ([], write_file support_file rewritten files)
        else (support_stale ∷ [], files)
  ]
]

-- The script: its problems and the files that it leaves; nothing where it throws.
unfoldable pub check_matrix :
    JsonField → Matrix → List Entry → Bool → Files → Option (List Problem × Files)
check_matrix json matrix entries write files =
    then_do (check_entries json matrix files entries) λ (problems, rows).
      let (more, left) = check_support write rows files in some (problems ++ more, left)
