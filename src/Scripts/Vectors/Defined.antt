-- ===== src/Scripts/Vectors/Defined.antt =====
-- What it means that SPECIFICATION.md defines a requirement.
use nebula_token.Common.{
  ℕ, suc, zero, ◌≡◌, refl, sym, ap, ◌∙◌, ◌⊎◌, inl, inr, true, Bool-cases, some, some_injective,
  Option-cases, List, [], ◌∷◌, ◌++◌, All, Text,
}
use nebula_token.Scripts.Regex.{
  Place, Regex, text, is_digit, try_at, scan, match_all, first_groups, between,
}
use nebula_token.Scripts.Regex.Shape.{
  take_one-split, take_many-split, literal-split, between-append,
}
use nebula_token.Scripts.Texts.{contains, first_places}
use nebula_token.Scripts.Members.{IsIn}
use nebula_token.Scripts.Vectors.Citations.{requirement, defined_in}

-- `**[N-…]` with a number stands in the specification.
pub record IsDefined (spec req : Text) : Type 0 where
  pub before : Text
  pub after : Text
  pub digit : ℕ
  pub digits : Text
  pub named : req ≡ text "N-" ++ (digit ∷ digits)
  pub are_digits : All (λ c. is_digit c ≡ true) (digit ∷ digits)
  pub stands : spec ≡ before ++ (text "**[" ++ (req ++ (text "]" ++ after)))

first_places-IsIn : (t : Text) (known ts : List Text) → IsIn t (first_places known ts) → IsIn t ts
unfolding first_places
first_places-IsIn t known [] h = absurd h
first_places-IsIn t known (s ∷ ts) h = elim (Bool-cases (contains s known)) [
  | inl k ↦ inr (first_places-IsIn t known ts (rw k at h))
  | inr k ↦ elim (rw k at h) [ inl e ↦ inl e | inr i ↦ inr (first_places-IsIn t (s ∷ known) ts i) ]
]

-- A match, and that its first group is this text.
abbrev Matches : Regex → Text → Text → Type 0
Matches r rest t =
    (pre : Text) × (post : Text) × (b : Text) × (q : Place) × (more : List Text) × (rest
      ≡ pre ++ post)
    × (try_at r (record { before = b; rest = post; groups = [] }) some ≡ some q)
    × (q.groups ≡ t ∷ more)

Matches-later : (r : Regex) (c : ℕ) (rest t : Text) → Matches r rest t → Matches r (c ∷ rest) t
Matches-later r c rest t (pre, post, b, q, more, e, h, g) =
    (c ∷ pre, post, b, q, more, ap (λ s. c ∷ s) e, h, g)

head_group :
    (t : Text) (g : List Text) (others : List Text)
    → IsIn t (elim g [ [] ↦ others | a ∷ rest ↦ a ∷ others ])
    → ((more : List Text) × (g ≡ t ∷ more)) ⊎ IsIn t others
head_group t [] others h = inr h
head_group t (a ∷ more) others (inl e) = inl (more, ap (λ x. x ∷ more) (sym e))
head_group t (a ∷ more) others (inr i) = inr i

scan-Matches :
    (r : Regex) (t before rest : Text) (n : ℕ)
    → IsIn t (first_groups (scan r before rest n))
    → Matches r rest t
unfolding scan
scan-Matches r t before [] zero h =
    elim (Option-cases (try_at r (record { before = before; rest = []; groups = [] }) some)) [
      | inl n ↦ absurd (rw (n, scan) at h)
      | inr (q, e) ↦ elim (head_group t q.groups [] (rw (e, scan) at h)) [
        | inl (more, g) ↦ ([], [], before, q, more, refl, e, g)
        | inr i ↦ absurd i
      ]
    ]
scan-Matches r t before [] (suc n) h = absurd h
scan-Matches r t before (c ∷ rest) (suc n) h =
    Matches-later r c rest t (scan-Matches r t (c ∷ before) rest n h)
scan-Matches r t before (c ∷ rest) zero h =
    elim (Option-cases (try_at r (record { before = before; rest = c ∷ rest; groups = [] }) some)) [
      | inl n ↦
          Matches-later r c rest t (scan-Matches r t (c ∷ before) rest zero (rw (n, scan) at h))
      | inr (q, e) ↦ elim (head_group t q.groups _ (rw (e, scan) at h)) [
        | inl (more, g) ↦ ([], c ∷ rest, before, q, more, refl, e, g)
        | inr i ↦ Matches-later r c rest t (scan-Matches r t (c ∷ before) rest _ i)
      ]
    ]

abbrev first_of : Text → List Text → Text
first_of d [] = d
first_of d (t ∷ ts) = t

pub defined_in-IsDefined : (spec req : Text) → IsIn req (defined_in spec) → IsDefined spec req
unfolding defined_in match_all try_at
defined_in-IsDefined spec req h =
    let (pre, post, b, q, more, e, tried, g) =
      scan-Matches requirement req [] spec 0 (first_places-IsIn req [] _ h) in
    let (s1, b1, e1, h1) = literal-split (text "**[") b post [] _ q tried in
    let (s2, b2, e2, h2) = literal-split (text "N-") b1 s1 [] _ q h1 in
    let (c, s3, e3, d, h3) = take_one-split is_digit b2 s2 [] _ q h2 in
    let (ds, s4, b4, e4, a, h4) = take_many-split is_digit (c ∷ b2) s3 [] _ q h3 in
    let name = text "N-" ++ (c ∷ ds) in
    let whole : s1 ≡ name ++ s4 = e2 ∙ ap (λ x. text "N-" ++ x) (e3 ∙ ap (λ x. c ∷ x) e4) in
    let (s5, b5, e5, h5) = literal-split (text "]") b4 s4 _ _ q h4 in
    let part : between (record { before = b1; rest = s1; groups = [] })
          (record { before = b4; rest = s4; groups = [] })
        ≡ name =
      ap
        (λ x.
          between (record { before = b1; rest = x; groups = [] })
            (record { before = b4; rest = s4; groups = [] }))
        whole
      ∙ between-append b1 b4 name s4 [] [] in
    let named : name ≡ req =
      sym part ∙ ap (first_of []) (ap (λ x. x.groups) (some_injective h5) ∙ g) in
    record {
      before = pre;
      after = s5;
      digit = c;
      digits = ds;
      named = sym named;
      are_digits = (d, a);
      stands =
          e
          ∙ ap (λ x. pre ++ x)
              (e1
                ∙ ap (λ x. text "**[" ++ x)
                    (whole ∙ ap (λ x. name ++ x) e5 ∙ ap (λ x. x ++ (text "]" ++ s5)) named));
    }
