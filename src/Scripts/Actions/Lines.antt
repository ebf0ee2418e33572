-- ===== src/Scripts/Actions/Lines.antt =====
-- The lines of a workflow that name an image or an action, and that the patterns of
-- scripts/check-actions-pinned.mjs find the reference in them.
use mathlib.Core.Path.{subst}
use mathlib.Core.List.{append-nil}
use nebula_token.Common.{
  ℕ, ◌≡◌, ◌≢◌, ◌⊎◌, refl, sym, ap, ◌∙◌, inl, inr, Option, Option-cases, none, some, true, false,
  List, [], ◌∷◌, ◌++◌, Text, All, arith,
}
use nebula_token.Scripts.Regex.{
  text, both, group, many, lit, some_of, text_end, is_space, not_space, between, literal, Regex,
  either, empty, Place, try_at, take_many, first_match,
}
use nebula_token.Scripts.Regex.Shape.{
  take_many-split, literal-split, between-append, first_match-start,
}
use nebula_token.Scripts.Regex.Finds.{
  Finds, FindsFrom, Stops, Finds-or_else, take_many-Finds, take_one-Finds, literal-Finds,
  first_match-Finds,
}
use nebula_token.Scripts.Actions.{
  on_line, value, spaces, image_line, uses_line, two_groups, groups_of,
}

abbrev pub AreSpaces : Text → Type 0
AreSpaces s = All (λ c. is_space c ≡ true) s

-- A line that has a reference behind a key, and then perhaps a comment.
pub record IsKeyed (lead key line ref rest : Text) : Type 0 where
  pub indent : Text
  pub gap : Text
  pub shape : line ≡ indent ++ (lead ++ (key ++ (gap ++ (ref ++ rest))))
  pub all_spaces : AreSpaces indent × AreSpaces gap
  pub solid : (ref ≢ []) × All (λ c. not_space c ≡ true) ref
  pub behind : Stops not_space rest
  pub one_line : All (λ c. on_line c ≡ true) rest

-- `image: ref`, and `uses: ref` or `- uses: ref`.
abbrev pub NamesImage : Text → Text → Text → Type 0
NamesImage line ref rest = IsKeyed [] (text "image:") line ref rest

abbrev pub IsLead : Text → Type 0
IsLead lead =
    (lead ≡ []) ⊎ ((c : ℕ) × (more : Text) × (lead ≡ b'-' ∷ (c ∷ more)) × AreSpaces (c ∷ more))

abbrev pub NamesAction : Text → Text → Text → Type 0
NamesAction line ref rest = (lead : Text) × IsLead lead × IsKeyed lead (text "uses:") line ref rest

-- The rest of the line is the second group.
rest-Finds :
    (rest : Text) (now : List Text)
    → All (λ c. on_line c ≡ true) rest
    → FindsFrom
        (λ p. try_at (both (group (many on_line)) text_end) p some)
        rest
        now
        (now ++ (rest ∷ []))
unfolding try_at
rest-Finds rest now a b =
    let p : Place = record { before = b; rest = rest; groups = now } in
    let close : Place → Option Place =
      λ q. try_at text_end (record q { groups = q.groups ++ (between p q ∷ []) }) some in
    let part : (b' : Text) → between p (record { before = b'; rest = []; groups = now }) ≡ rest =
      λ b'.
        ap
          (λ s.
            between (record { before = b; rest = s; groups = now })
              (record { before = b'; rest = []; groups = now }))
          (sym (append-nil rest))
        ∙ between-append b b' rest [] now now in
    subst (λ s. Finds (take_many on_line b s now close) (now ++ (rest ∷ []))) (append-nil rest)
      (take_many-Finds on_line rest [] b now (now ++ (rest ∷ [])) close a tt
        (λ b'. (_, refl, ap (λ s. now ++ (s ∷ [])) (part b'))))

-- The reference is the first one.
value-Finds :
    (c : ℕ) (ref rest : Text)
    → All (λ d. not_space d ≡ true) (c ∷ ref)
    → Stops not_space rest
    → All (λ d. on_line d ≡ true) rest
    → FindsFrom (λ p. try_at value p some) ((c ∷ ref) ++ rest) [] ((c ∷ ref) ∷ (rest ∷ []))
unfolding try_at
value-Finds c ref rest (solid, a) stop line b =
    let p : Place = record { before = b; rest = (c ∷ ref) ++ rest; groups = [] } in
    let next : Place → Option Place = λ q.
      try_at (both (group (many on_line)) text_end)
        (record q { groups = q.groups ++ (between p q ∷ []) }) some in
    take_one-Finds not_space c (ref ++ rest) b [] ((c ∷ ref) ∷ (rest ∷ []))
      (λ q. take_many not_space q.before q.rest q.groups next) solid
      (take_many-Finds not_space ref rest (c ∷ b) [] ((c ∷ ref) ∷ (rest ∷ [])) next a stop (λ b'.
        subst
          (λ s.
            Finds
              (try_at (both (group (many on_line)) text_end)
                (record { before = b'; rest = rest; groups = s ∷ [] }) some)
              ((c ∷ ref) ∷ (rest ∷ [])))
          (sym (between-append b b' (c ∷ ref) rest [] []))
          (rest-Finds rest ((c ∷ ref) ∷ []) line b')))

space-apart : (c : ℕ) → not_space c ≡ true → is_space c ≡ false
space-apart c h = ground arith

-- A key, spaces and the reference.
keyed-Finds :
    (key gap ref rest : Text)
    → AreSpaces gap
    → (ref ≢ []) × All (λ d. not_space d ≡ true) ref
    → Stops not_space rest
    → All (λ d. on_line d ≡ true) rest
    → FindsFrom
        (λ p. try_at (both (literal key) (both spaces value)) p some)
        (key ++ (gap ++ (ref ++ rest)))
        []
        (ref ∷ (rest ∷ []))
unfolding try_at
keyed-Finds key gap [] rest a (e, solid) stop line b = absurd (e refl)
keyed-Finds key gap (c ∷ ref) rest a (e, solid) stop line b =
    let g : List Text = (c ∷ ref) ∷ (rest ∷ []) in
    literal-Finds key (gap ++ ((c ∷ ref) ++ rest)) b [] g (λ q. try_at (both spaces value) q some)
      (λ b'.
        take_many-Finds is_space gap ((c ∷ ref) ++ rest) b' [] g (λ q. try_at value q some) a
          (space-apart c solid.0) (value-Finds c ref rest solid stop line))

groups_of-Finds :
    (r : Regex) (line ref rest : Text)
    → Finds (try_at r (record { before = []; rest = line; groups = [] }) some) (ref ∷ (rest ∷ []))
    → groups_of r line ≡ some (ref, rest)
unfolding groups_of
groups_of-Finds r line ref rest h =
    let (m, e, f) = first_match-Finds r line (ref ∷ (rest ∷ [])) h in
    ap two_groups e
    ∙ ap (λ g. elim g [ a ∷ more ↦ elim more [ b ∷ others ↦ some (a, b) | [] ↦ none ] | [] ↦ none ])
        f

pub image-groups :
    (line ref rest : Text) → NamesImage line ref rest → groups_of image_line line ≡ some (ref, rest)
unfolding try_at
image-groups line ref rest n = groups_of-Finds image_line line ref rest (
    subst
      (λ s.
        Finds (try_at image_line (record { before = []; rest = s; groups = [] }) some)
          (ref ∷ (rest ∷ [])))
      (sym n.shape)
      (take_many-Finds is_space n.indent (text "image:" ++ (n.gap ++ (ref ++ rest))) [] []
        (ref ∷ (rest ∷ [])) (λ p. try_at (both (lit "image:") (both spaces value)) p some)
        n.all_spaces.0 refl
        (keyed-Finds (text "image:") n.gap ref rest n.all_spaces.1 n.solid n.behind n.one_line)))

abbrev dashed : Regex
dashed = either (both (lit "-") (some_of is_space)) empty

-- The dash of a step, or none, and then the key.
lead-Finds :
    (lead tail : Text) (g : List Text) (k : Place → Option Place)
    → IsLead lead
    → FindsFrom k (text "uses:" ++ tail) [] g
    → FindsFrom (λ p. try_at dashed p k) (lead ++ (text "uses:" ++ tail)) [] g
unfolding try_at
lead-Finds lead tail g k (inl e) h b =
    subst
      (λ l.
        Finds
          (try_at dashed (record { before = b; rest = l ++ (text "uses:" ++ tail); groups = [] }) k)
          g)
      (sym e) (h b)
lead-Finds lead tail g k (inr (c, more, e, (sp, a))) h b =
    let key = text "uses:" ++ tail in
    subst (λ l. Finds (try_at dashed (record { before = b; rest = l ++ key; groups = [] }) k) g)
      (sym e)
      (Finds-or_else _ _ g (
        take_one-Finds is_space c (more ++ key) (b'-' ∷ b) [] g
          (λ q. take_many is_space q.before q.rest q.groups k) sp
          (take_many-Finds is_space more key (c ∷ (b'-' ∷ b)) [] g k a refl h)))

Stops-lead : (lead tail : Text) → IsLead lead → Stops is_space (lead ++ (text "uses:" ++ tail))
Stops-lead lead tail (inl e) =
    subst (λ l. Stops is_space (l ++ (text "uses:" ++ tail))) (sym e) refl
Stops-lead lead tail (inr (c, more, e, a)) =
    subst (λ l. Stops is_space (l ++ (text "uses:" ++ tail))) (sym e) refl

pub action-groups :
    (line ref rest : Text) → NamesAction line ref rest → groups_of uses_line line ≡ some (ref, rest)
unfolding try_at
action-groups line ref rest (lead, l, n) =
    let tail = n.gap ++ (ref ++ rest) in
    groups_of-Finds uses_line line ref rest (
      subst
        (λ s.
          Finds (try_at uses_line (record { before = []; rest = s; groups = [] }) some)
            (ref ∷ (rest ∷ [])))
        (sym n.shape)
        (take_many-Finds is_space n.indent (lead ++ (text "uses:" ++ tail)) [] []
          (ref ∷ (rest ∷ []))
          (λ p. try_at dashed p (λ q. try_at (both (lit "uses:") (both spaces value)) q some))
          n.all_spaces.0 (Stops-lead lead tail l)
          (lead-Finds lead tail (ref ∷ (rest ∷ []))
            (λ q. try_at (both (lit "uses:") (both spaces value)) q some) l
            (keyed-Finds (text "uses:") n.gap ref rest n.all_spaces.1 n.solid n.behind
              n.one_line))))

-- The first unit behind the spaces is the same, however they are cut off.
first_behind :
    (a b s t : Text)
    → AreSpaces a
    → AreSpaces b
    → Stops is_space s
    → Stops is_space t
    → a ++ s ≡ b ++ t
    → s ≡ t
first_behind [] [] s t ha hb hs ht e = e
first_behind [] (d ∷ b) [] t ha hb hs ht e = cc
first_behind [] (d ∷ b) (c ∷ s) t ha (p, hb) hs ht e =
    let same : c ≡ d = ap (λ x. elim x [ [] ↦ c | u ∷ us ↦ u ]) e in cc
first_behind (c ∷ a) [] s [] ha hb hs ht e = cc
first_behind (c ∷ a) [] s (d ∷ t) (p, ha) hb hs ht e =
    let same : c ≡ d = ap (λ x. elim x [ [] ↦ c | u ∷ us ↦ u ]) e in cc
first_behind (c ∷ a) (d ∷ b) s t (p, ha) (q, hb) hs ht e =
    first_behind a b s t ha hb hs ht (ap (λ x. elim x [ [] ↦ [] | u ∷ us ↦ us ]) e)

abbrev first_unit : Text → ℕ
first_unit [] = 0
first_unit (c ∷ s) = c

not_image :
    (lead tail ys : Text) → IsLead lead → (lead ++ (text "uses:" ++ tail)) ≢ (text "image:" ++ ys)
not_image lead tail ys (inl e) h =
    let same : 117 ≡ 105 =
      ap (λ l. first_unit (l ++ (text "uses:" ++ tail))) (sym e) ∙ ap first_unit h in
    absurd (omega (arith, same))
not_image lead tail ys (inr (c, more, e, a)) h =
    let same : 45 ≡ 105 =
      ap (λ l. first_unit (l ++ (text "uses:" ++ tail))) (sym e) ∙ ap first_unit h in
    absurd (omega (arith, same))

-- A line with a key of the other kind names no image.
pub action-no_image :
    (line ref rest : Text) → NamesAction line ref rest → groups_of image_line line ≡ none
unfolding groups_of try_at
action-no_image line ref rest (lead, l, n) = elim (Option-cases (first_match image_line line)) [
  | inl e ↦ ap two_groups e
  | inr (m, e) ↦
      let (q, tried, same) = first_match-start _ line m e in
      let (sp, ys, b, cut, a, go) = take_many-split is_space [] line [] _ q tried in
      let (zs, b', key, go') = literal-split (text "image:") b ys [] _ q go in
      let tail = n.gap ++ (ref ++ rest) in
      absurd (
        not_image lead tail zs l (
          first_behind n.indent sp _ _ n.all_spaces.0 a (Stops-lead lead tail l) refl
            (sym n.shape ∙ cut ∙ ap (λ x. sp ++ x) key)))
]
