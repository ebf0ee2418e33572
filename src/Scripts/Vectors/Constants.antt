-- ===== src/Scripts/Vectors/Constants.antt =====
-- The sixth section of scripts/validate-vectors.mjs: the constants of the vectors are those of the
-- table in SPECIFICATION.md.
use nebula_token.Common.{
  Bool, true, false, ◌||◌, ◌&&◌, ◌==◌, Option, none, some, List, [], ◌∷◌, ◌++◌, leb, if◌then◌else◌,
  Text, same_text,
}
use nebula_token.Codec.Split.{split}
use nebula_token.Scripts.Regex.{
  Regex, text, lit, both, one, many, many_lazy, some_of, group, ahead, text_start, text_end,
  is_digit, is_space, in_line, first_match,
}
use nebula_token.Scripts.Texts.{remove_all, contains}
use nebula_token.Scripts.Version.{then_do}
use nebula_token.Scripts.Runtime.{group_one}
use nebula_token.Scripts.Runtime.Compare.{digits_value}
use nebula_token.Scripts.Vectors.{
  Constant, number, string, TestVectors, Problem, no_constants_table, no_constant, constant_differs,
  unmirrored,
}

-- `## 1\. Constants\n([\s\S]*?)\n\n\*\*\[N-1\]`
abbrev constants_block : Regex
constants_block =
    both (lit "## 1. Constants\n") (both (group (many_lazy (λ c. true))) (lit "\n\n**[N-1]"))

abbrev spaces : Regex
spaces = many is_space

-- ``^\|\s*`([A-Z_]+)`\s*\|\s*(.+?)\s*\|$``
abbrev constant_row : Regex
constant_row = both text_start (
    both (lit "|") (
      both spaces (
        both (lit "`") (
          both (group (some_of (λ c. (leb b'A' c && leb c b'Z') || c == b'_'))) (
            both (lit "`") (
              both spaces (
                both (lit "|") (
                  both spaces (
                    both (group (both (one in_line) (many_lazy in_line)))
                      (both spaces (both (lit "|") text_end)))))))))))

-- ``^`"(.*)"`$``
abbrev quoted : Regex
quoted =
    both text_start (both (lit "`\"") (both (group (many in_line)) (both (lit "\"`") text_end)))

-- A space, plain or not breaking, before a digit.
abbrev digit_gap : Regex
digit_gap = both (one (λ c. c == 0x20 || (c == 0xa0 || c == 0x202f))) (ahead (one is_digit))

abbrev leading_digits : Regex
leading_digits = both text_start (group (some_of is_digit))

-- `num ? Number(num[1]) : raw`
abbrev number_or : Text → Option Text → Constant
number_or raw none = string raw
number_or raw (some digits) = elim (digits_value 0 digits) [ none ↦ string raw | some n ↦ number n ]

unfoldable pub constant_value : Text → Constant
constant_value raw = elim (group_one quoted raw) [
  | some q ↦ string q
  | none ↦ number_or raw (group_one leading_digits (remove_all digit_gap raw))
]

-- One line of the table: a name and its value.
unfoldable pub constant_line : Text → Option (Text × Constant)
constant_line line =
    then_do (first_match constant_row line)
      λ m. elim m.groups [ name ∷ raw ∷ rest ↦ some (name, constant_value raw) | _ ↦ none ]

-- `out.set(name, value)`
unfoldable pub set_constant : Text → Constant → List (Text × Constant) → List (Text × Constant)
set_constant name value [] = (name, value) ∷ []
set_constant name value ((other, old) ∷ out) =
    let rest = set_constant name value out in
    if same_text other name then (other, value) ∷ out else (other, old) ∷ rest

unfoldable pub read_lines : List Text → List (Text × Constant) → List (Text × Constant)
read_lines [] out = out
read_lines (line ∷ lines) out = elim (constant_line line) [
  | none ↦ read_lines lines out
  | some (name, value) ↦ read_lines lines (set_constant name value out)
]

-- `specConstants`
unfoldable pub spec_constants : Text → Option (List (Text × Constant))
spec_constants spec =
    then_do (group_one constants_block spec) λ block. some (read_lines (split b'\n' block) [])

unfoldable pub constant_map : List (Text × Text)
constant_map =
    (text "prefix", text "PREFIX")
    ∷ (text "selector_bytes", text "SELECTOR_BYTES")
    ∷ (text "verifier_bytes", text "VERIFIER_BYTES")
    ∷ (text "selector_chars", text "SELECTOR_CHARS")
    ∷ (text "verifier_chars", text "VERIFIER_CHARS")
    ∷ (text "max_kid_length", text "MAX_KID_LENGTH")
    ∷ (text "max_token_length", text "MAX_TOKEN_LENGTH")
    ∷ (text "min_pepper_length", text "MIN_PEPPER_LENGTH")
    ∷ (text "default_absolute_ttl_seconds", text "DEFAULT_ABSOLUTE_TTL")
    ∷ (text "default_idle_ttl_seconds", text "DEFAULT_IDLE_TTL")
    ∷ (text "default_reuse_grace_seconds", text "DEFAULT_REUSE_GRACE")
    ∷ []

-- `specConsts.get(name)`
unfoldable pub get_constant : Text → List (Text × Constant) → Option Constant
get_constant name [] = none
get_constant name ((other, value) ∷ out) =
    let rest = get_constant name out in if same_text other name then some value else rest

-- `got === want`
unfoldable pub same_constant : Option Constant → Constant → Bool
same_constant (some (number m)) (number n) = m == n
same_constant (some (string s)) (string t) = same_text s t
same_constant _ _ = false

-- The body of the loop over `CONSTANT_MAP`, for the row of the name `spec_key`.
unfoldable pub constant_problems : TestVectors → Text → Text → Option Constant → List Problem
constant_problems tv vec_key spec_key none = no_constant spec_key ∷ []
constant_problems tv vec_key spec_key (some want) =
    if same_constant (tv.constants vec_key) want then [] else constant_differs vec_key ∷ []

unfoldable pub map_problems :
    TestVectors → List (Text × Constant) → List (Text × Text) → List Problem
map_problems tv consts [] = []
map_problems tv consts ((vec_key, spec_key) ∷ rest) =
    constant_problems tv vec_key spec_key (get_constant spec_key consts)
    ++ map_problems tv consts rest

abbrev pub spec_keys : List (Text × Text) → List Text
spec_keys [] = []
spec_keys ((vec_key, spec_key) ∷ rest) = spec_key ∷ spec_keys rest

-- The loop over `specConsts.keys()`.
unfoldable pub unmirrored_problems : List (Text × Constant) → List Problem
unmirrored_problems [] = []
unmirrored_problems ((name, value) ∷ out) =
    let rest = unmirrored_problems out in
    if contains name (spec_keys constant_map) then rest else unmirrored name ∷ rest

unfoldable pub check_constants : Text → TestVectors → List Problem
check_constants spec tv = elim (spec_constants spec) [
  | none ↦ no_constants_table ∷ []
  | some consts ↦ map_problems tv consts constant_map ++ unmirrored_problems consts
]
