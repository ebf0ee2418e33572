-- ===== src/Scripts/Texts.antt =====
-- The string methods of the scripts, on texts as lists of UTF-16 code units.
use nebula_token.Common.{
  ℕ, zero, suc, ◌-◌, Bool, true, false, not, ◌&&◌, ◌||◌, ◌==◌, Option, none, some, List, [], ◌∷◌,
  ◌++◌, if◌then◌else◌, is_empty, Text, same_text, length,
}
use nebula_token.Scripts.Regex.{Regex, try_at, first_units, is_space}

-- `s.startsWith(prefix)`
unfoldable pub starts_with : Text → Text → Bool
starts_with [] s = true
starts_with (c ∷ cs) [] = false
starts_with (c ∷ cs) (d ∷ ds) = c == d && starts_with cs ds

unfoldable pub rev_onto : Text → Text → Text
rev_onto [] s = s
rev_onto (c ∷ before) s = rev_onto before (c ∷ s)

-- `s.endsWith(suffix)`
unfoldable pub ends_with : Text → Text → Bool
ends_with suffix s = starts_with (rev_onto suffix []) (rev_onto s [])

-- `s.slice(n)`
unfoldable pub drop : ℕ → Text → Text
drop zero s = s
drop (suc n) [] = []
drop (suc n) (c ∷ s) = drop n s

-- `s.indexOf(needle)`: what stands before the first occurrence, and the text from it on.
unfoldable pub cut_at : Text → Text → Option (Text × Text)
cut_at needle [] = if is_empty needle then some ([], []) else none
cut_at needle (c ∷ s) =
    let later = cut_at needle s in
    if starts_with needle (c ∷ s)
    then some ([], c ∷ s)
    else elim later [ none ↦ none | some (before, from) ↦ some (c ∷ before, from) ]

-- `s.includes(needle)`
unfoldable pub includes : Text → Text → Bool
includes needle s = elim (cut_at needle s) [ none ↦ false | some _ ↦ true ]

unfoldable pub trim_start : Text → Text
trim_start [] = []
trim_start (c ∷ s) = let rest = trim_start s in if is_space c then rest else c ∷ s

unfoldable pub trim_end : Text → Text
trim_end [] = []
trim_end (c ∷ s) = let rest = trim_end s in if is_empty rest && is_space c then [] else c ∷ rest

-- `s.trim()`
unfoldable pub trim : Text → Text
trim s = trim_end (trim_start s)

-- `list.includes(t)`
unfoldable pub contains : Text → List Text → Bool
contains t [] = false
contains t (u ∷ us) = same_text u t || contains t us

-- `list.join(sep)`
unfoldable pub join_text : Text → List Text → Text
join_text sep [] = []
join_text sep (t ∷ []) = t
join_text sep (t ∷ u ∷ ts) = t ++ (sep ++ join_text sep (u ∷ ts))

-- `list.some(p)`
unfoldable pub any : (Text → Bool) → List Text → Bool
any p [] = false
any p (t ∷ ts) = p t || any p ts

unfoldable pub filter : (Text → Bool) → List Text → List Text
filter p [] = []
filter p (t ∷ ts) = let rest = filter p ts in if p t then t ∷ rest else rest

-- `list.filter(Boolean)` on strings.
abbrev pub not_blank : List Text → List Text
not_blank = filter (λ t. not (is_empty t))

-- `s.replace(pattern, f)` with the flag `g`, for a pattern that matches no empty text.
unfoldable pub replace_from : Regex → (Text → Text) → Text → Text → ℕ → Text
replace_from r f before [] n = []
replace_from r f before (c ∷ rest) (suc n) = replace_from r f (c ∷ before) rest n
replace_from r f before (c ∷ rest) zero =
    elim (try_at r (record { before = before; rest = c ∷ rest; groups = [] }) some) [
      | none ↦ c ∷ replace_from r f (c ∷ before) rest zero
      | some q ↦
          f (first_units (suc (length rest) - length q.rest) (c ∷ rest))
          ++ replace_from r f (c ∷ before) rest (length rest - length q.rest)
    ]

unfoldable pub replace_all : Regex → (Text → Text) → Text → Text
replace_all r f s = replace_from r f [] s 0

-- `s.replace(pattern, '')` with the flag `g`.
abbrev pub remove_all : Regex → Text → Text
remove_all r s = replace_all r (λ _. []) s

-- A string that may be missing, as a condition: the empty one does not pass.
abbrev pub truthy : Option Text → Option Text
truthy none = none
truthy (some []) = none
truthy (some (c ∷ s)) = some (c ∷ s)

-- Each text at its first place: the members of a `Set`, in the order of insertion.
unfoldable pub first_places : List Text → List Text → List Text
first_places known [] = []
first_places known (t ∷ ts) =
    let rest = first_places (t ∷ known) ts in
    let others = first_places known ts in if contains t known then others else t ∷ rest
