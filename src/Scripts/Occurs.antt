-- ===== src/Scripts/Occurs.antt =====
-- `indexOf` as a split of a text, and where an occurrence stays when the text around it changes.
use nebula_token.Common.{
  ℕ, ◌≤◌, ◌≡◌, refl, sym, ◌∙◌, ap, ap₂, inl, inr, Bool-cases, true, false, ◌&&◌, ◌==◌, Option, none,
  some, Option-cases, some_injective, [], ◌∷◌, ◌++◌, arith, Text, length,
}
use mathlib.Core.List.{append-nil, append_assoc}
use nebula_token.Scripts.Regex.{first_units}
use nebula_token.Scripts.Texts.{drop, starts_with, cut_at}

starts_with-append : (n x : Text) → starts_with n (n ++ x) ≡ true
unfolding starts_with
starts_with-append [] x = refl
starts_with-append (c ∷ n) x = ground (arith, starts_with-append n x)

-- Whether a text starts with `n` is decided by its first units.
starts_with-local :
    (n q x y : Text) → length n ≤ length q → starts_with n (q ++ x) ≡ starts_with n (q ++ y)
unfolding starts_with
starts_with-local [] q x y h = refl
starts_with-local (c ∷ n) [] x y h = absurd (omega (arith, h))
starts_with-local (c ∷ n) (d ∷ q) x y h =
    ap (λ b. c == d && b) (starts_with-local n q x y (omega (arith, h)))

starts_with-behind :
    (n b q x y : Text)
    → length n ≤ length q
    → starts_with n (b ++ (q ++ x)) ≡ starts_with n (b ++ (q ++ y))
unfolding starts_with
starts_with-behind n [] q x y h = starts_with-local n q x y h
starts_with-behind [] (d ∷ b) q x y h = refl
starts_with-behind (c ∷ n) (d ∷ b) q x y h =
    ap (λ k. c == d && k) (starts_with-behind n b q x y (omega (arith, h)))

cut_at-here :
    (n : Text) (c : ℕ) (s : Text)
    → starts_with n (c ∷ s) ≡ true
    → cut_at n (c ∷ s) ≡ some ([], c ∷ s)
unfolding cut_at
cut_at-here n c s h = rw h refl

abbrev later : ℕ → Option (Text × Text) → Option (Text × Text)
later c none = none
later c (some (before, from)) = some (c ∷ before, from)

cut_at-later :
    (n : Text) (c : ℕ) (s : Text)
    → starts_with n (c ∷ s) ≡ false
    → cut_at n (c ∷ s) ≡ later c (cut_at n s)
unfolding cut_at
cut_at-later n c s h = elim (Option-cases (cut_at n s)) [
  | inl e ↦ rw (h, e) refl
  | inr ((b, f), e) ↦ rw (h, e) refl
]

later-some :
    (c : ℕ) (o : Option (Text × Text)) (e g : Text)
    → later c o ≡ some (e, g)
    → (e' : Text) × (o ≡ some (e', g)) × (e ≡ c ∷ e')
later-some c none e g h = cc
later-some c (some (b, f)) e g h =
    let p = some_injective h in (b, ap (λ x. some (b, x)) (ap (λ x. x.1) p), sym (ap (λ x. x.0) p))

-- The first occurrence is behind `b`, and it stays behind `b` whatever follows the text `q`, which is
-- as long as what is looked for.
pub cut_at-behind :
    (n b q x y e g u v : Text)
    → length n ≤ length q
    → cut_at n (b ++ (q ++ x)) ≡ some (e, g)
    → length b ≤ length e
    → cut_at n (q ++ y) ≡ some (u, v)
    → cut_at n (b ++ (q ++ y)) ≡ some (b ++ u, v)
cut_at-behind n [] q x y e g u v l h k there = there
cut_at-behind n (d ∷ b) q x y e g u v l h k there =
    elim (Bool-cases (starts_with n (d ∷ (b ++ (q ++ x))))) [
      | inl first ↦ absurd (
          omega (arith, k, ap (λ p. length p.0) (some_injective (sym h ∙ cut_at-here n d _ first))))
      | inr miss ↦
          let (e', inner, shape) = later-some d _ e g (sym (cut_at-later n d _ miss) ∙ h) in
          let still = starts_with-behind n (d ∷ b) q y x l ∙ miss in
          cut_at-later n d _ still
          ∙ ap (later d)
              (cut_at-behind n b q x y e' g u v l inner (omega (arith, k, ap length shape)) there)
    ]

-- What `cut_at` finds.
starts_with-split : (n s : Text) → starts_with n s ≡ true → (r : Text) × (s ≡ n ++ r)
unfolding starts_with
starts_with-split [] s h = (s, refl)
starts_with-split (c ∷ n) [] h = cc
starts_with-split (c ∷ n) (d ∷ s) h =
    let (r, e) = starts_with-split n s (ground (arith, h)) in
    let same : d ≡ c = ground (arith, h) in (r, ap₂ (λ x y. x ∷ y) same e)

pub cut_at-split :
    (n s e g : Text) → cut_at n s ≡ some (e, g) → (r : Text) × (g ≡ n ++ r) × (s ≡ e ++ g)
unfolding cut_at
cut_at-split [] [] e g h = (g, refl, ap (λ x. x.0 ++ x.1) (some_injective h))
cut_at-split (c ∷ n) [] e g h = cc
cut_at-split n (d ∷ s) e g h = elim (Bool-cases (starts_with n (d ∷ s))) [
  | inl first ↦
      let p = some_injective (sym (cut_at-here n d s first) ∙ h) in
      let (r, shape) = starts_with-split n (d ∷ s) first in
      (r, sym (ap (λ x. x.1) p) ∙ shape, ap (λ x. x.0 ++ x.1) p)
  | inr miss ↦
      let (e', inner, shape) = later-some d _ e g (sym (cut_at-later n d s miss) ∙ h) in
      let (r, tail, whole) = cut_at-split n s e' g inner in
      (r, tail, ap (λ x. d ∷ x) whole ∙ ap (λ x. x ++ g) (sym shape))
]

-- A text that is looked for where it stands first.
pub cut_at-first : (c : ℕ) (n x : Text) → cut_at (c ∷ n) ((c ∷ n) ++ x) ≡ some ([], (c ∷ n) ++ x)
cut_at-first c n x = cut_at-here (c ∷ n) c (n ++ x) (starts_with-append (c ∷ n) x)

-- The first occurrence in a text that ends with it is the first in every longer text.
pub cut_at-longer :
    (c : ℕ) (n t w x : Text)
    → cut_at (c ∷ n) t ≡ some (w, c ∷ n)
    → cut_at (c ∷ n) (t ++ x) ≡ some (w, (c ∷ n) ++ x)
cut_at-longer c n t w x h =
    let (r, tail, whole) = cut_at-split (c ∷ n) t w (c ∷ n) h in
    let key : Text = c ∷ n in
    let from : cut_at key (w ++ (key ++ [])) ≡ some (w, key) =
      ap (λ k. cut_at key (w ++ k)) (append-nil key) ∙ ap (cut_at key) (sym whole) ∙ h in
    let further =
      cut_at-behind key w key [] x w key [] (key ++ x) (omega arith) from (omega arith)
        (cut_at-first c n x) in
    ap (cut_at key) (ap (λ u. u ++ x) whole ∙ append_assoc w key x)
    ∙ further
    ∙ ap (λ u. some (u, key ++ x)) (append-nil w)

pub first_units-append : (s x : Text) → first_units (length s) (s ++ x) ≡ s
first_units-append [] x = refl
first_units-append (c ∷ s) x = ap (λ y. c ∷ y) (first_units-append s x)

pub drop-append : (s x : Text) → drop (length s) (s ++ x) ≡ x
unfolding drop
drop-append [] x = refl
drop-append (c ∷ s) x = drop-append s x
