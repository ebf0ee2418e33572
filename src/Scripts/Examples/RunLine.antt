-- ===== src/Scripts/Examples/RunLine.antt =====
-- The lines of a job that hold a `run:`, and what is inside a block.
use nebula_token.Common.{
  ℕ, ◌≡◌, ◌≤◌, ◌⊎◌, refl, sym, ap, ◌∙◌, inl, inr, true, Option, none, some, Option-cases, List, [],
  ◌∷◌, ◌++◌, ◌-◌, All, Text, length, some_injective, if◌then◌else◌,
}
use mathlib.Core.Path.{subst}
use mathlib.Core.List.{append-nil}
use nebula_token.Scripts.Regex.{
  Regex, Place, text, lit, both, many, optional, group, text_end, is_space, in_line, try_at,
  first_match, between, at_end,
}
use nebula_token.Scripts.Regex.Shape.{
  or_else-split, take_many-split, literal-split, between-append, first_match-start,
}
use nebula_token.Scripts.Texts.{trim, trim_start}
use nebula_token.Scripts.Examples.{run_line, run_parts}

-- A line with a `run:`, perhaps the first of a step: its indentation, and the text behind.
pub record IsRunLine (line : Text) (indent : ℕ) (t : Text) : Type 0 where
  pub spaces : Text
  pub dash : Text
  pub gap : Text
  pub wide : Text
  pub raw : Text
  pub shape : line ≡ spaces ++ (dash ++ (gap ++ (text "run:" ++ (wide ++ raw))))
  pub all_spaces :
      All (λ c. is_space c ≡ true) spaces
      × All (λ c. is_space c ≡ true) gap
      × All (λ c. is_space c ≡ true) wide
  pub first_of_step : (dash ≡ []) ⊎ (dash ≡ text "-")
  pub indented : indent ≡ length spaces
  pub behind : t ≡ trim raw

-- A line of a block: blank, or indented far enough.
abbrev pub IsInner : ℕ → Text → Type 0
IsInner indent line = (trim line ≡ []) ⊎ (indent ≤ (length line - length (trim_start line)))

-- The pattern behind the dash.
abbrev run_tail : Regex
run_tail =
    both (many is_space)
      (both (lit "run:") (both (many is_space) (both (group (many in_line)) text_end)))

ended :
    (b raw ys : Text) (groups : List Text) (q : Place) (p : Place)
    → p.rest ≡ raw ++ ys
    → (if at_end ys
        then some (record {
          before = b;
          rest = ys;
          groups = groups ++ (between p (record { before = b; rest = ys; groups = groups }) ∷ []);
        })
        else none)
      ≡ some q
    → (p.rest ≡ raw) × (q.groups ≡ groups ++ (raw ∷ []))
ended b raw (c ∷ ys) groups q p e h = cc
ended b raw [] groups q p e h =
    let whole : p.rest ≡ raw = e ∙ append-nil raw in
    let part : between p (record { before = b; rest = []; groups = groups }) ≡ raw =
      ap
        (λ r.
          between (record { before = p.before; rest = r; groups = p.groups })
            (record { before = b; rest = []; groups = groups }))
        e
      ∙ between-append p.before b raw [] p.groups groups in
    (whole, sym (ap (λ x. x.groups) (some_injective h)) ∙ ap (λ r. groups ++ (r ∷ [])) part)

run_tail-shape :
    (b s : Text) (groups : List Text) (q : Place)
    → try_at run_tail (record { before = b; rest = s; groups = groups }) some ≡ some q
    → (gap : Text) × (wide : Text) × (raw : Text) × (s ≡ gap ++ (text "run:" ++ (wide ++ raw)))
      × All (λ c. is_space c ≡ true) gap
      × All (λ c. is_space c ≡ true) wide
      × (q.groups ≡ groups ++ (raw ∷ []))
unfolding try_at
run_tail-shape b s groups q h =
    let (gap, s1, b1, e1, a1, h1) = take_many-split is_space b s groups _ q h in
    let (s2, b2, e2, h2) = literal-split (text "run:") b1 s1 groups _ q h1 in
    let (wide, s3, b3, e3, a3, h3) = take_many-split is_space b2 s2 groups _ q h2 in
    let (raw, s4, b4, e4, a4, h4) = take_many-split in_line b3 s3 groups _ q h3 in
    let (whole, found) =
      ended b4 raw s4 groups q (record { before = b3; rest = s3; groups = groups }) e4 h4 in
    (
      gap,
      wide,
      raw,
      e1 ∙ ap (λ x. gap ++ x) (e2 ∙ ap (λ x. text "run:" ++ x) (e3 ∙ ap (λ x. wide ++ x) whole)),
      a1,
      a3,
      found,
    )

-- The pattern with a dash or with none.
run_dash-shape :
    (b s : Text) (groups : List Text) (q : Place)
    → try_at
        (both (optional (lit "-")) run_tail)
        (record { before = b; rest = s; groups = groups })
        some
      ≡ some q
    → (dash : Text) × (s1 : Text) × (b1 : Text) × (s ≡ dash ++ s1)
      × ((dash ≡ []) ⊎ (dash ≡ text "-"))
      × (try_at run_tail (record { before = b1; rest = s1; groups = groups }) some ≡ some q)
unfolding try_at
run_dash-shape b s groups q h = elim (or_else-split _ _ q h) [
  | inl k ↦
      let (s1, b1, e, g) = literal-split (text "-") b s groups _ q k in
      (text "-", s1, b1, e, inr refl, g)
  | inr k ↦ ([], s, b, refl, inl refl, k)
]

run_line-shape :
    (line : Text) (q : Place)
    → try_at run_line (record { before = []; rest = line; groups = [] }) some ≡ some q
    → (spaces : Text) × (s1 : Text) × (b1 : Text) × (line ≡ spaces ++ s1)
      × All (λ c. is_space c ≡ true) spaces
      × (try_at
            (both (optional (lit "-")) run_tail)
            (record { before = b1; rest = s1; groups = spaces ∷ [] })
            some
          ≡ some q)
unfolding try_at
run_line-shape line q h =
    let (spaces, s1, b1, e1, a1, h1) = take_many-split is_space [] line [] _ q h in
    let part =
      ap
        (λ r.
          between (record { before = []; rest = r; groups = [] })
            (record { before = b1; rest = s1; groups = [] }))
        e1
      ∙ between-append [] b1 spaces s1 [] [] in
    (
      spaces,
      s1,
      b1,
      e1,
      a1,
      subst
          (λ g.
            try_at (both (optional (lit "-")) run_tail)
              (record { before = b1; rest = s1; groups = g ∷ [] }) some
            ≡ some q)
          part h1,
    )

run_line-IsRunLine :
    (line : Text) (q : Place)
    → try_at run_line (record { before = []; rest = line; groups = [] }) some ≡ some q
    → (spaces : Text) × (raw : Text) × (q.groups ≡ spaces ∷ raw ∷ [])
      × IsRunLine line (length spaces) (trim raw)
run_line-IsRunLine line q h =
    let (spaces, s1, b1, e1, a1, h1) = run_line-shape line q h in
    let (dash, s2, b2, e2, d, h2) = run_dash-shape b1 s1 (spaces ∷ []) q h1 in
    let (gap, wide, raw, e3, a3, a4, found) = run_tail-shape b2 s2 (spaces ∷ []) q h2 in
    (
      spaces,
      raw,
      found,
      record {
        spaces = spaces;
        dash = dash;
        gap = gap;
        wide = wide;
        raw = raw;
        shape = e1 ∙ ap (λ x. spaces ++ x) (e2 ∙ ap (λ x. dash ++ x) e3);
        all_spaces = (a1, a3, a4);
        first_of_step = d;
        indented = refl;
        behind = refl;
      },
    )

abbrev parts_of : List Text → Option (ℕ × Text)
parts_of groups = elim groups [
  | spaces ∷ command ∷ rest ↦ some (length spaces, trim command)
  | _ ↦ none
]

pub run_parts-IsRunLine :
    (line : Text) (indent : ℕ) (t : Text)
    → run_parts line ≡ some (indent, t)
    → IsRunLine line indent t
unfolding run_parts try_at
run_parts-IsRunLine line indent t h = elim (Option-cases (first_match run_line line)) [
  | inl n ↦ cc (rw n at h)
  | inr (m, e) ↦
      let (q, tried, same) = first_match-start _ line m e in
      let (spaces, raw, found, is_run) = run_line-IsRunLine line q tried in
      let both_parts : some (length spaces, trim raw) ≡ some (indent, t) =
        sym (ap parts_of (same ∙ found)) ∙ rw e at h in
      subst (λ p. IsRunLine line p.0 p.1) (some_injective both_parts) is_run
]
