-- ===== src/Codec/Split.antt =====
-- `String.prototype.split` with a separator of one character.
use nebula_token.Common.{
  ℕ, ◌≡◌, refl, sym, ap, ap₂, ◌∙◌, ◌==◌, if◌then◌else◌, List, [], ◌∷◌, ◌++◌, All, Text, arith, ◌≢◌,
  Bool-cases, inl, inr, ==_iff,
}

push_head : ℕ → List Text → List Text
push_head c [] = (c ∷ []) ∷ []
push_head c (part ∷ parts) = (c ∷ part) ∷ parts

unfoldable pub split : ℕ → Text → List Text
unfolding push_head
split sep [] = [] ∷ []
split sep (c ∷ cs) = let rest = split sep cs in if c == sep then [] ∷ rest else push_head c rest

-- `parts.join(sep)`
unfoldable pub join : ℕ → List Text → Text
join sep [] = []
join sep (part ∷ []) = part
join sep (part ∷ next ∷ parts) = part ++ (sep ∷ join sep (next ∷ parts))

abbrev pub Avoids : ℕ → Text → Type 0
Avoids sep s = All (λ c. c ≢ sep) s

join-push_head : (sep c : ℕ) (parts : List Text) → join sep (push_head c parts) ≡ c ∷ join sep parts
unfolding push_head join
join-push_head sep c [] = refl
join-push_head sep c (part ∷ []) = refl
join-push_head sep c (part ∷ next ∷ parts) = refl

data Split (sep : ℕ) (s : Text) : Type 0 where
  parts : (p : Text) (ps : List Text) → split sep s ≡ p ∷ ps → join sep (p ∷ ps) ≡ s → Split sep s

Split-of : (sep : ℕ) (s : Text) → Split sep s
unfolding split
Split-of sep [] = parts [] [] refl (unfold join in refl)
Split-of sep (c ∷ cs) = elim (Split-of sep cs) [
  | parts p ps e j ↦ elim (Bool-cases (c == sep)) [
    | inl hit ↦
        parts [] (p ∷ ps) (rw (hit, e)) (unfold join in ap₂ ◌∷◌ (sym ((==_iff c sep).0 hit)) j)
    | inr miss ↦
        parts (c ∷ p) ps (rw (miss, e) (unfold push_head in refl))
          (join-push_head sep c (p ∷ ps) ∙ ap (◌∷◌ c) j)
  ]
]

-- Splitting loses nothing.
pub join-split : (sep : ℕ) (s : Text) → join sep (split sep s) ≡ s
join-split sep s = elim (Split-of sep s) [ parts p ps e j ↦ rw e j ]

-- A part that avoids the separator is split off whole.
pub split-append_sep :
    (sep : ℕ) (s t : Text) → Avoids sep s → split sep (s ++ (sep ∷ t)) ≡ s ∷ split sep t
unfolding split push_head
split-append_sep sep [] t h = ground arith
split-append_sep sep (c ∷ cs) t (h, hs) = ground (arith, split-append_sep sep cs t hs)

pub split_of_Avoids : (sep : ℕ) (s : Text) → Avoids sep s → split sep s ≡ s ∷ []
unfolding split push_head
split_of_Avoids sep [] h = refl
split_of_Avoids sep (c ∷ cs) (h, hs) = ground (arith, split_of_Avoids sep cs hs)
