-- ===== src/Scripts/Regex/Finds.antt =====
-- When a pattern matches a text that is put together from the parts that its classes and literals
-- take, and what its groups are.
use Prim.Native.Nat.{ℕ}
use nebula_token.Common.{
  Bool, true, false, Option, some, List, [], ◌∷◌, ◌++◌, ◌==◌, Text, All, arith, ◌≡◌, refl, sym,
}
use mathlib.Core.Path.{subst}
use nebula_token.Scripts.Regex.{
  Place, Regex, or_else, take_one, take_many, literal, try_at, scan, match_all, first_match, test,
  Match,
}

-- The search succeeds, with these groups.
abbrev pub Finds : Option Place → List Text → Type 0
Finds o groups = (q : Place) × (o ≡ some q) × (q.groups ≡ groups)

-- The match goes on from this text, whatever stands before it.
abbrev pub FindsFrom : (Place → Option Place) → Text → List Text → List Text → Type 0
FindsFrom k ys now groups =
    (b : Text) → Finds (k (record { before = b; rest = ys; groups = now })) groups

pub Finds-or_else : (a b : Option Place) (g : List Text) → Finds a g → Finds (or_else a b) g
Finds-or_else a b g (q, e, f) = (q, rw e refl, f)

-- A text that a class does not go on with.
abbrev pub Stops : (ℕ → Bool) → Text → Type 0
Stops test [] = Unit
Stops test (c ∷ ys) = test c ≡ false

pub take_many-Finds :
    (test : ℕ → Bool) (xs ys before : Text) (now g : List Text) (k : Place → Option Place)
    → All (λ c. test c ≡ true) xs
    → Stops test ys
    → FindsFrom k ys now g
    → Finds (take_many test before (xs ++ ys) now k) g
take_many-Finds test [] [] before now g k a stop h = h before
take_many-Finds test [] (c ∷ ys) before now g k a stop h =
    subst (λ o. Finds o g) (sym (rw stop refl)) (h before)
take_many-Finds test (c ∷ xs) ys before now g k (p, a) stop h =
    subst (λ o. Finds o g) (sym (rw p refl))
      (Finds-or_else (take_many test (c ∷ before) (xs ++ ys) now k)
        (k (record { before = before; rest = c ∷ (xs ++ ys); groups = now })) g
        (take_many-Finds test xs ys (c ∷ before) now g k a stop h))

pub take_one-Finds :
    (test : ℕ → Bool) (c : ℕ) (rest before : Text) (now g : List Text) (k : Place → Option Place)
    → test c ≡ true
    → Finds (k (record { before = c ∷ before; rest = rest; groups = now })) g
    → Finds (take_one test before (c ∷ rest) now k) g
take_one-Finds test c rest before now g k hit (q, e, f) = (q, rw hit e, f)

pub literal-Finds :
    (w ys before : Text) (now g : List Text) (k : Place → Option Place)
    → FindsFrom k ys now g
    → Finds (try_at (literal w) (record { before = before; rest = w ++ ys; groups = now }) k) g
unfolding try_at
literal-Finds [] ys before now g k h = h before
literal-Finds (c ∷ w) ys before now g k h =
    let same : (c == c) ≡ true = ground arith in
    subst (λ o. Finds o g) (sym (rw same refl)) (literal-Finds w ys (c ∷ before) now g k h)

pub first_match-Finds :
    (r : Regex) (s : Text) (g : List Text)
    → Finds (try_at r (record { before = []; rest = s; groups = [] }) some) g
    → (m : Match) × (first_match r s ≡ some m) × (m.groups ≡ g)
unfolding match_all scan
first_match-Finds r [] g (q, e, f) =
    (record { before = []; groups = q.groups; after = q.rest }, rw (e, first_match) refl, f)
first_match-Finds r (c ∷ s) g (q, e, f) =
    (record { before = []; groups = q.groups; after = q.rest }, rw (e, first_match) refl, f)
