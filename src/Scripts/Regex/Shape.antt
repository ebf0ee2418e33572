-- ===== src/Scripts/Regex/Shape.antt =====
-- What a match of a pattern says of the text: the parts that its classes and literals took.
use Prim.Native.Nat.{ℕ, zero, suc}
use nebula_token.Common.{
  Bool, true, false, Option, none, some, List, [], ◌∷◌, ◌++◌, ◌-◌, Text, length, All, arith, ◌≡◌,
  ◌⊎◌, refl, sym, ap, inl, inr, Bool-cases, Option-cases, ◌==◌, length-append,
}
use mathlib.Core.Path.{subst}
use nebula_token.Scripts.Regex.{
  test, exactly, text_end, Place, Regex, or_else, take_one, take_many, first_units, between,
  literal, both, text_start, try_at, scan, match_all, first_match, Match,
}

pub or_else-split :
    {A : Type 0} (a b : Option A) (x : A) → or_else a b ≡ some x → (a ≡ some x) ⊎ (b ≡ some x)
or_else-split (some a) b x h = inl h
or_else-split none b x h = inr h

-- What `p*` took, before the place where the match goes on.
pub take_many-split :
    (test : ℕ → Bool) (before rest : Text) (groups : List Text) (k : Place → Option Place)
    (x : Place)
    → take_many test before rest groups k ≡ some x
    → (xs : Text) × (ys : Text) × (b : Text) × (rest ≡ xs ++ ys)
      × All (λ c. test c ≡ true) xs
      × (k (record { before = b; rest = ys; groups = groups }) ≡ some x)
take_many-split test before [] groups k x h = ([], [], before, refl, tt, h)
take_many-split test before (c ∷ rest) groups k x h = elim (Bool-cases (test c)) [
  | inr miss ↦ ([], c ∷ rest, before, refl, tt, rw miss at h)
  | inl hit ↦ elim (or_else-split _ _ x (rw hit at h)) [
    | inl more ↦
        let (xs, ys, b, e, a, g) = take_many-split test (c ∷ before) rest groups k x more in
        (c ∷ xs, ys, b, ap (λ s. c ∷ s) e, (hit, a), g)
    | inr here ↦ ([], c ∷ rest, before, refl, tt, here)
  ]
]

-- A literal took itself.
pub literal-split :
    (w before rest : Text) (groups : List Text) (k : Place → Option Place) (x : Place)
    → try_at (literal w) (record { before = before; rest = rest; groups = groups }) k ≡ some x
    → (ys : Text) × (b : Text) × (rest ≡ w ++ ys)
      × (k (record { before = b; rest = ys; groups = groups }) ≡ some x)
unfolding try_at
literal-split [] before rest groups k x h = (rest, before, refl, h)
literal-split (c ∷ w) before [] groups k x h = cc
literal-split (c ∷ w) before (d ∷ rest) groups k x h = elim (Bool-cases (d == c)) [
  | inr miss ↦ cc (rw miss at h)
  | inl hit ↦
      let (ys, b, e, g) = literal-split w (d ∷ before) rest groups k x (rw hit at h) in
      (ys, b, ground (arith, hit, e), g)
]

first_units-append : (xs ys : Text) → first_units (length xs) (xs ++ ys) ≡ xs
first_units-append [] ys = refl
first_units-append (x ∷ xs) ys = ap (λ s. x ∷ s) (first_units-append xs ys)

-- The text of a group.
pub between-append :
    (b b' xs ys : Text) (g g' : List Text)
    → between
        (record { before = b; rest = xs ++ ys; groups = g })
        (record { before = b'; rest = ys; groups = g' })
      ≡ xs
between-append b b' xs ys g g' =
    let taken : length (xs ++ ys) - length ys ≡ length xs = omega (arith, length-append xs ys) in
    rw taken (first_units-append xs ys)

-- A match of a pattern that starts with `^` is at the start.
scan-later :
    (r : Regex) (c : ℕ) (before rest : Text) (n : ℕ)
    → scan (both text_start r) (c ∷ before) rest n ≡ []
unfolding scan try_at
scan-later r c before [] zero = refl
scan-later r c before [] (suc n) = refl
scan-later r c before (d ∷ rest) zero = scan-later r d (c ∷ before) rest zero
scan-later r c before (d ∷ rest) (suc n) = scan-later r d (c ∷ before) rest n

pub first_match-start :
    (r : Regex) (s : Text) (m : Match)
    → first_match (both text_start r) s ≡ some m
    → (q : Place) × (try_at r (record { before = []; rest = s; groups = [] }) some ≡ some q)
      × (m.groups ≡ q.groups)
unfolding match_all scan try_at
first_match-start r [] m h =
    elim (Option-cases (try_at r (record { before = []; rest = []; groups = [] }) some)) [
      | inl n ↦ cc (rw n at h)
      | inr (q, e) ↦ (q, e, cc (rw e at h))
    ]
first_match-start r (c ∷ s) m h =
    elim (Option-cases (try_at r (record { before = []; rest = c ∷ s; groups = [] }) some)) [
      | inl n ↦ cc (rw (n, scan-later r c [] s 0) at h)
      | inr (q, e) ↦ (q, e, cc (rw e at h))
    ]

-- A pattern that is found in a text is found at some place of it.
scan-split :
    (r : Regex) (before rest : Text) (n : ℕ) (m : Match) (ms : List Match)
    → scan r before rest n ≡ m ∷ ms
    → (pre : Text) × (post : Text) × (b : Text) × (q : Place) × (rest ≡ pre ++ post)
      × (try_at r (record { before = b; rest = post; groups = [] }) some ≡ some q)
unfolding scan
scan-split r before [] zero m ms h =
    elim (Option-cases (try_at r (record { before = before; rest = []; groups = [] }) some)) [
      | inl n ↦ cc (rw (n, scan) at h)
      | inr (q, e) ↦ ([], [], before, q, refl, e)
    ]
scan-split r before [] (suc n) m ms h = cc
scan-split r before (c ∷ rest) (suc n) m ms h =
    let (pre, post, b, q, e, t) = scan-split r (c ∷ before) rest n m ms h in
    (c ∷ pre, post, b, q, ap (λ s. c ∷ s) e, t)
scan-split r before (c ∷ rest) zero m ms h =
    elim (Option-cases (try_at r (record { before = before; rest = c ∷ rest; groups = [] }) some)) [
      | inl n ↦
          let (pre, post, b, q, e, t) =
            scan-split r (c ∷ before) rest zero m ms (rw (n, scan) at h) in
          (c ∷ pre, post, b, q, ap (λ s. c ∷ s) e, t)
      | inr (q, e) ↦ ([], c ∷ rest, before, q, refl, e)
    ]

tested :
    (ms : List Match)
    → (elim ms [ [] ↦ false | m ∷ rest ↦ true ]) ≡ true
    → (m : Match) × (rest : List Match) × (ms ≡ m ∷ rest)
tested [] h = cc
tested (m ∷ rest) h = (m, rest, refl)

pub test-split :
    (r : Regex) (s : Text)
    → test r s ≡ true
    → (pre : Text) × (post : Text) × (b : Text) × (q : Place) × (s ≡ pre ++ post)
      × (try_at r (record { before = b; rest = post; groups = [] }) some ≡ some q)
unfolding match_all
test-split r s h = let (m, ms, e) = tested (match_all r s) h in scan-split r [] s 0 m ms e

-- A unit of a class took one.
pub take_one-split :
    (test : ℕ → Bool) (before rest : Text) (groups : List Text) (k : Place → Option Place)
    (x : Place)
    → take_one test before rest groups k ≡ some x
    → (c : ℕ) × (ys : Text) × (rest ≡ c ∷ ys)
      × (test c ≡ true)
      × (k (record { before = c ∷ before; rest = ys; groups = groups }) ≡ some x)
take_one-split test before [] groups k x h = cc
take_one-split test before (c ∷ rest) groups k x h = elim (Bool-cases (test c)) [
  | inl hit ↦ (c, rest, refl, hit, rw hit at h)
  | inr miss ↦ cc (rw miss at h)
]

-- A pattern `p{n}$` took what is left, `n` units that pass.
pub exactly-split :
    (n : ℕ) (p : ℕ → Bool) (before rest : Text) (groups : List Text) (x : Place)
    → try_at
        (both (exactly n p) text_end)
        (record { before = before; rest = rest; groups = groups })
        some
      ≡ some x
    → (length rest ≡ n) × All (λ c. p c ≡ true) rest
unfolding try_at
exactly-split zero p before [] groups x h = (refl, tt)
exactly-split zero p before (c ∷ rest) groups x h = cc
exactly-split (suc n) p before rest groups x h =
    let (c, ys, e, hit, k) = take_one-split p before rest groups _ x h in
    let (l, a) = exactly-split n p (c ∷ before) ys groups x k in
    subst (λ s. (length s ≡ suc n) × All (λ d. p d ≡ true) s) (sym e) (omega (arith, l), (hit, a))
