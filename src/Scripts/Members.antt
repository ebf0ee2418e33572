-- ===== src/Scripts/Members.antt =====
-- Membership in a list of texts, as `includes` and `Set.has` decide it.
use nebula_token.Common.{
  ◌≡◌, refl, ◌↔◌, ◌⊎◌, inl, inr, Bool, Bool-cases, true, sym, ◌++◌, List, [], ◌∷◌, arith, Text,
  same_text_iff,
}
use mathlib.Core.Path.{subst}
use nebula_token.Scripts.Texts.{filter, contains, any}

abbrev pub IsIn : Text → List Text → Type 0
IsIn v [] = ⊥
IsIn v (w ∷ ws) = (v ≡ w) ⊎ IsIn v ws

pub contains_iff : (t : Text) (us : List Text) → (contains t us ≡ true) ↔ IsIn t us
unfolding contains
contains_iff t [] = (λ h. cc, λ h. absurd h)
contains_iff t (u ∷ us) = ground (arith, contains_iff t us, same_text_iff u t)

-- The members of a filtered list are members of the list.
filter-cons :
    (p : Text → Bool) (w : Text) (ws : List Text)
    → (filter p (w ∷ ws) ≡ w ∷ filter p ws) ⊎ (filter p (w ∷ ws) ≡ filter p ws)
unfolding filter
filter-cons p w ws = elim (Bool-cases (p w)) [ inl k ↦ inl (rw k refl) | inr k ↦ inr (rw k refl) ]

pub IsIn-move : (v : Text) {vs ws : List Text} → vs ≡ ws → IsIn v vs → IsIn v ws
IsIn-move v e h = subst (IsIn v) e h

pub IsIn-filter : (p : Text → Bool) (v : Text) (vs : List Text) → IsIn v (filter p vs) → IsIn v vs
unfolding filter
IsIn-filter p v [] h = h
IsIn-filter p v (w ∷ ws) h = elim (filter-cons p w ws) [
  | inl k ↦ elim (IsIn-move v k h) [ inl e ↦ inl e | inr i ↦ inr (IsIn-filter p v ws i) ]
  | inr k ↦ inr (IsIn-filter p v ws (IsIn-move v k h))
]

-- The two cases of a list.
pub List-cases {ℓ} :
    {A : Type ℓ} (xs : List A) → (xs ≡ []) ⊎ ((x : A) × (ys : List A) × (xs ≡ x ∷ ys))
List-cases [] = inl refl
List-cases (x ∷ xs) = inr (x, xs, refl)

pub filter-passes :
    (p : Text → Bool) (t : Text) (ts : List Text) → IsIn t (filter p ts) → p t ≡ true
unfolding filter
filter-passes p t [] h = absurd h
filter-passes p t (u ∷ us) h = elim (Bool-cases (p u)) [
  | inl k ↦ elim (rw k at h) [
    | inl e ↦ subst (λ x. p x ≡ true) (sym e) k
    | inr i ↦ filter-passes p t us i
  ]
  | inr k ↦ filter-passes p t us (rw k at h)
]

-- A member that passes.
pub any-some :
    (p : Text → Bool) (ts : List Text) → any p ts ≡ true → (t : Text) × IsIn t ts × (p t ≡ true)
unfolding any
any-some p [] h = cc
any-some p (t ∷ ts) h = elim (Bool-cases (p t)) [
  | inl k ↦ (t, inl refl, k)
  | inr k ↦ let (u, i, q) = any-some p ts (rw k at h) in (u, inr i, q)
]

pub IsIn-append : (t : Text) (us vs : List Text) → IsIn t (us ++ vs) → IsIn t us ⊎ IsIn t vs
IsIn-append t [] vs h = inr h
IsIn-append t (u ∷ us) vs (inl e) = inl (inl e)
IsIn-append t (u ∷ us) vs (inr h) = elim (IsIn-append t us vs h) [
  | inl i ↦ inl (inr i)
  | inr i ↦ inr i
]

pub IsIn-longer : (t : Text) (us vs : List Text) → IsIn t us → IsIn t (us ++ vs)
IsIn-longer t [] vs h = absurd h
IsIn-longer t (u ∷ us) vs (inl e) = inl e
IsIn-longer t (u ∷ us) vs (inr h) = inr (IsIn-longer t us vs h)
