-- ===== src/Scripts/Actions/Pinned.antt =====
-- What it means that scripts/check-actions-pinned.mjs finds no problem.
use nebula_token.Common.{
  ℕ, suc, ◌≡◌, refl, sym, ap, ◌∙◌, ◌⊎◌, inl, inr, Bool, true, false, ◌||◌, Option, Option-cases,
  Bool-cases, none, some, List, [], ◌∷◌, ◌++◌, Text, All, all, length, arith,
}
use nebula_token.Codec.Split.{split}
use nebula_token.Codec.Hex.{is_lower_hex}
use nebula_token.Scripts.Texts.{starts_with}
use nebula_token.Scripts.Regex.Exact.{test-all_of, test-start, succeeded}
use nebula_token.Scripts.Regex.Shape.{
  take_many-split, take_one-split, literal-split, exactly-split, test-split,
}
use nebula_token.Scripts.Regex.{Place, test, text, try_at, is_space, not_space}
use nebula_token.Scripts.Actions.Lines.{
  AreSpaces, NamesImage, NamesAction, image-groups, action-groups, action-no_image,
}
use nebula_token.Scripts.Actions.{
  image_line, uses_line, digest, commit, comment, Verdict, other_line, is_local, is_pinned, faulty,
  last_at, groups_of, image_verdict, action_verdict, uses_verdict, line_verdict, Tally, count,
  tally_lines, tally_files,
}

-- A digest: `@sha256:` and 64 lowercase hex characters, at the end.
abbrev pub HasDigest : Text → Type 0
HasDigest ref =
    (name : Text) × (hex : Text) × (ref ≡ name ++ (text "@sha256:" ++ hex))
    × (length hex ≡ 64)
    × All (λ c. is_lower_hex c ≡ true) hex

-- A comment that says something.
abbrev pub IsNoted : Text → Type 0
IsNoted rest =
    (before : Text) × (after : Text) × (c : ℕ) × (more : Text) × (rest
      ≡ before ++ (b'#' ∷ (after ++ (c ∷ more))))
    × AreSpaces before
    × AreSpaces after
    × (not_space c ≡ true)

abbrev Begins : Text → Text → Type 0
Begins n s = (t : Text) × (s ≡ n ++ t)

-- A reference that nobody can move, or that travels with the commit.
pub data IsFixed (ref rest : Text) : Type 0 where
  in_repository : Begins (text "./") ref ⊎ Begins (text ".github/") ref → IsFixed ref rest
  container_by_digest : Begins (text "docker://") ref → HasDigest ref → IsFixed ref rest
  action_by_commit :
      (name sha : Text)
      → ref ≡ name ++ (b'@' ∷ sha)
      → length sha ≡ 40
      → all is_lower_hex sha ≡ true
      → IsNoted rest
      → IsFixed ref rest

-- What a line names, by its shape alone, is fixed.
pub record IsSafe (line : Text) : Type 0 where
  pub images : (ref rest : Text) → NamesImage line ref rest → HasDigest ref × IsNoted rest
  pub actions : (ref rest : Text) → NamesAction line ref rest → IsFixed ref rest

starts_with-Begins : (n s : Text) → starts_with n s ≡ true → Begins n s
unfolding starts_with
starts_with-Begins [] s h = (s, refl)
starts_with-Begins (c ∷ n) [] h = cc
starts_with-Begins (c ∷ n) (d ∷ s) h =
    let (t, e) = starts_with-Begins n s (ground (arith, h)) in (t, ground (arith, h, e))

digest-HasDigest : (ref : Text) → test digest ref ≡ true → HasDigest ref
unfolding try_at
digest-HasDigest ref h =
    let (name, post, b, q, e, tried) = test-split digest ref h in
    let (hex, b', f, last) = literal-split (text "@sha256:") b post [] _ q tried in
    let (l, a) = exactly-split 64 is_lower_hex b' hex [] q last in
    (name, hex, e ∙ ap (λ x. name ++ x) f, l, a)

succeeded-some : (o : Option Place) → succeeded o ≡ true → (q : Place) × (o ≡ some q)
succeeded-some none h = cc
succeeded-some (some q) h = (q, refl)

comment-IsNoted : (rest : Text) → test comment rest ≡ true → IsNoted rest
unfolding try_at
comment-IsNoted rest h =
    let (q, tried) = succeeded-some _ (sym (test-start _ rest) ∙ h) in
    let (before, s1, b1, e1, a1, h1) = take_many-split is_space [] rest [] _ q tried in
    let (s2, b2, e2, h2) = literal-split (text "#") b1 s1 [] _ q h1 in
    let (after, s3, b3, e3, a3, h3) = take_many-split is_space b2 s2 [] _ q h2 in
    let (c, more, e4, solid, _) = take_one-split not_space b3 s3 [] _ q h3 in
    (
      before,
      after,
      c,
      more,
      e1 ∙ ap (λ x. before ++ x) (e2 ∙ ap (λ x. b'#' ∷ x) (e3 ∙ ap (λ x. after ++ x) e4)),
      a1,
      a3,
      solid,
    )

abbrev is_fault : Verdict → Bool
is_fault (faulty f) = true
is_fault _ = false

last_at-split :
    (s name version : Text) → last_at s ≡ some (name, version) → s ≡ name ++ (b'@' ∷ version)
unfolding last_at
last_at-split [] name version h = cc
last_at-split (c ∷ s) name version h = elim (Option-cases (last_at s)) [
  | inl k ↦ ground (arith, k, h)
  | inr ((n, v), k) ↦ ground (arith, k, h, last_at-split s n v k)
]

image_verdict-IsNoted :
    (image rest : Text)
    → is_fault (image_verdict image rest) ≡ false
    → HasDigest image × IsNoted rest
unfolding image_verdict
image_verdict-IsNoted image rest h = elim (Bool-cases (test digest image)) [
  | inr bad ↦ ground (arith, bad, h)
  | inl good ↦ elim (Bool-cases (test comment rest)) [
    | inr bad ↦ ground (arith, good, bad, h)
    | inl noted ↦ (digest-HasDigest image good, comment-IsNoted rest noted)
  ]
]

action_verdict-IsFixed :
    (ref rest : Text) (o : Option (Text × Text))
    → last_at ref ≡ o
    → is_fault (action_verdict o rest) ≡ false
    → IsFixed ref rest
unfolding action_verdict
action_verdict-IsFixed ref rest none e h = cc
action_verdict-IsFixed ref rest (some (name, sha)) e h = elim (Bool-cases (test commit sha)) [
  | inr bad ↦ ground (arith, bad, h)
  | inl good ↦ elim (Bool-cases (test comment rest)) [
    | inr bad ↦ ground (arith, good, bad, h)
    | inl noted ↦
        let exact = sym (test-all_of 40 is_lower_hex sha) ∙ good in
        action_by_commit name sha (last_at-split ref name sha e) (ground (arith, exact))
          (ground (arith, exact)) (comment-IsNoted rest noted)
  ]
]

true_not_false : (A : Type 0) → true ≡ false → A
true_not_false A h = cc

or_cases : (a b : Bool) → (a || b) ≡ true → (a ≡ true) ⊎ (b ≡ true)
or_cases true b h = inl refl
or_cases false b h = inr h

uses_verdict-IsFixed :
    (ref rest : Text) → is_fault (uses_verdict ref rest) ≡ false → IsFixed ref rest
unfolding uses_verdict
uses_verdict-IsFixed ref rest h =
    elim (Bool-cases (starts_with (text "./") ref || starts_with (text ".github/") ref)) [
      | inl here ↦
          in_repository
            (elim (or_cases (starts_with (text "./") ref) (starts_with (text ".github/") ref)
              here) [
                | inl k ↦ inl (starts_with-Begins (text "./") ref k)
                | inr k ↦ inr (starts_with-Begins (text ".github/") ref k)
              ])
      | inr away ↦ elim (Bool-cases (starts_with (text "docker://") ref)) [
        | inr action ↦
            action_verdict-IsFixed ref rest (last_at ref) refl (sym (rw (away, action) refl) ∙ h)
        | inl container ↦ elim (Bool-cases (test digest ref)) [
          | inl good ↦
              container_by_digest (starts_with-Begins _ ref container) (digest-HasDigest ref good)
          | inr bad ↦ true_not_false _ (sym (rw (away, container, bad) refl) ∙ h)
        ]
      ]
    ]

line_verdict-image :
    (line image rest : Text)
    → groups_of image_line line ≡ some (image, rest)
    → line_verdict line ≡ image_verdict image rest
unfolding line_verdict
line_verdict-image line image rest g = rw (g, line_verdict) refl

line_verdict-uses :
    (line ref rest : Text)
    → groups_of image_line line ≡ none
    → groups_of uses_line line ≡ some (ref, rest)
    → line_verdict line ≡ uses_verdict ref rest
unfolding line_verdict
line_verdict-uses line ref rest n g = rw (n, g, line_verdict) refl

line_verdict-IsSafe : (line : Text) → is_fault (line_verdict line) ≡ false → IsSafe line
line_verdict-IsSafe line h = record {
  images = λ ref rest n.
      image_verdict-IsNoted ref rest
        (ap is_fault (sym (line_verdict-image line ref rest (image-groups line ref rest n))) ∙ h);
  actions = λ ref rest n. uses_verdict-IsFixed ref rest (
      ap is_fault (
        sym (
          line_verdict-uses line ref rest (action-no_image line ref rest n)
            (action-groups line ref rest n)))
      ∙ h);
}

count-eq-empty :
    (file : Text) (i : ℕ) (v : Verdict) (t : Tally)
    → (count file i v t).problems ≡ []
    → (is_fault v ≡ false) × (t.problems ≡ [])
unfolding count
count-eq-empty file i other_line t h = (refl, h)
count-eq-empty file i is_local t h = (refl, h)
count-eq-empty file i is_pinned t h = (refl, h)
count-eq-empty file i (faulty f) t h = cc

tally_lines-All :
    (file : Text) (i : ℕ) (lines : List Text) (t : Tally)
    → (tally_lines file i lines t).problems ≡ []
    → All IsSafe lines × (t.problems ≡ [])
unfolding tally_lines
tally_lines-All file i [] t h = (tt, h)
tally_lines-All file i (line ∷ lines) t h =
    let (fine, rest) =
      count-eq-empty file i (line_verdict line) (tally_lines file (suc i) lines t) h in
    let (safe, left) = tally_lines-All file (suc i) lines t rest in
    ((line_verdict-IsSafe line fine, safe), left)

-- Where the script finds no problem, every line of every workflow is safe. Where the line is spaces,
-- `image:`, spaces, a reference without spaces, and a rest that starts with a space if there is one
-- and holds no line terminator, the reference ends in `@sha256:` and 64 lowercase hex characters,
-- and the rest is a comment that says something. Where it is such a line with `uses:`, perhaps
-- behind `-` and spaces, the reference starts with `./` or `.github/`; or starts with `docker://` and
-- ends in such a digest; or is a name, `@` and exactly 40 lowercase hex characters, with a comment
-- that says something.
pub tally_files-IsSafe :
    (files : List (Text × Text))
    → (tally_files files).problems ≡ []
    → All (λ f. All IsSafe (split 10 f.1)) files
unfolding tally_files
tally_files-IsSafe [] h = tt
tally_files-IsSafe ((file, s) ∷ files) h =
    let (safe, rest) = tally_lines-All file 1 (split 10 s) (tally_files files) h in
    (safe, tally_files-IsSafe files rest)
