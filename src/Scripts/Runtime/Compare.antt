-- ===== src/Scripts/Runtime/Compare.antt =====
-- `cmp` of scripts/check-runtime-matrix.mjs: dotted versions, part by part. A part that is neither
-- empty nor all digits stands for NaN, which no comparison tells apart from another number.
use nebula_token.Common.{
  ℕ, ◌+◌, ◌*◌, ◌-◌, Option, none, some, List, [], ◌∷◌, if◌then◌else◌, Text, map, ltb,
}
use nebula_token.Codec.Split.{split}
use nebula_token.Scripts.Regex.{is_digit}

pub data Sign : Type 0 where
  less same more : Sign

unfoldable pub digits_value : ℕ → Text → Option ℕ
digits_value n [] = some n
digits_value n (c ∷ s) =
    let rest = digits_value (n * 10 + (c - b'0')) s in if is_digit c then rest else none

-- `Number(part)`
unfoldable pub number : Text → Option ℕ
number s = digits_value 0 s

-- `d = a - b; if (d) return Math.sign(d);`, and else the rest of the loop.
unfoldable pub cmp_part : Option ℕ → Option ℕ → Sign → Sign
cmp_part none b rest = rest
cmp_part (some m) none rest = rest
cmp_part (some m) (some n) rest = if ltb m n then less else if ltb n m then more else rest

-- The loop; a missing part is 0.
unfoldable pub cmp_parts : List (Option ℕ) → List (Option ℕ) → Sign
cmp_parts [] [] = same
cmp_parts (a ∷ xs) [] = cmp_part a (some 0) (cmp_parts xs [])
cmp_parts [] (b ∷ ys) = cmp_part (some 0) b (cmp_parts [] ys)
cmp_parts (a ∷ xs) (b ∷ ys) = cmp_part a b (cmp_parts xs ys)

unfoldable pub parts : Text → List (Option ℕ)
parts s = map number (split b'.' s)

unfoldable pub cmp : Text → Text → Sign
cmp a b = cmp_parts (parts a) (parts b)

abbrev pub smaller : Text → Text → Text
smaller w v = elim (cmp w v) [ less ↦ w | _ ↦ v ]

-- The first element of the sorted list, for a list that starts with `v`.
unfoldable pub lowest : Text → List Text → Text
lowest v [] = v
lowest v (w ∷ ws) = lowest (smaller w v) ws
