-- ===== src/Scripts/Runtime/Order.antt =====
-- The order of dotted versions: `cmp` is a total preorder where every part is a number, and `lowest`
-- finds a least element.
use nebula_token.Common.{
  ℕ, ◌≡◌, ◌≢◌, refl, sym, ◌⊎◌, inl, inr, Option, none, some, List, [], ◌∷◌, arith, All, Text,
}
use mathlib.Core.Path.{subst}
use nebula_token.Scripts.Members.{IsIn}
use nebula_token.Scripts.Runtime.Compare.{
  Sign, less, same, more, cmp_part, cmp_parts, parts, cmp, smaller, lowest,
}

-- All parts are numbers.
abbrev pub IsNumeric : Text → Type 0
IsNumeric v = All (λ p. p ≢ none) (parts v)

abbrev AllSome : List (Option ℕ) → Type 0
AllSome = All (λ p. p ≢ none)

abbrev opposite : Sign → Sign
opposite less = more
opposite same = same
opposite more = less

cmp_part-opposite :
    (a b : Option ℕ) (r s : Sign) → r ≡ opposite s → cmp_part a b r ≡ opposite (cmp_part b a s)
unfolding cmp_part
cmp_part-opposite none none r s h = h
cmp_part-opposite none (some n) r s h = h
cmp_part-opposite (some m) none r s h = h
cmp_part-opposite (some m) (some n) r s h = ground arith

cmp_parts-opposite : (xs ys : List (Option ℕ)) → cmp_parts xs ys ≡ opposite (cmp_parts ys xs)
unfolding cmp_parts
cmp_parts-opposite [] [] = refl
cmp_parts-opposite [] (b ∷ ys) = cmp_part-opposite (some 0) b _ _ (cmp_parts-opposite [] ys)
cmp_parts-opposite (a ∷ xs) [] = cmp_part-opposite a (some 0) _ _ (cmp_parts-opposite xs [])
cmp_parts-opposite (a ∷ xs) (b ∷ ys) = cmp_part-opposite a b _ _ (cmp_parts-opposite xs ys)

-- Transitivity of "not more".
cmp_part-chain :
    (a b c : Option ℕ) (r s t : Sign)
    → a ≢ none
    → b ≢ none
    → c ≢ none
    → (r ≢ more → s ≢ more → t ≢ more)
    → cmp_part a b r ≢ more
    → cmp_part b c s ≢ more
    → cmp_part a c t ≢ more
unfolding cmp_part
cmp_part-chain none b c r s t x y z h p q = absurd (x refl)
cmp_part-chain (some a) none c r s t x y z h p q = absurd (y refl)
cmp_part-chain (some a) (some b) none r s t x y z h p q = absurd (z refl)
cmp_part-chain (some a) (some b) (some c) r s t x y z h p q = ground (arith, h, p, q)

some_zero : ◌≢◌ {A = Option ℕ} (some 0) none
some_zero h = cc

cmp_parts-chain :
    (xs ys zs : List (Option ℕ))
    → AllSome xs
    → AllSome ys
    → AllSome zs
    → cmp_parts xs ys ≢ more
    → cmp_parts ys zs ≢ more
    → cmp_parts xs zs ≢ more
unfolding cmp_parts
cmp_parts-chain [] [] [] h i j p q = p
cmp_parts-chain [] [] (z ∷ zs) h i j p q = q
cmp_parts-chain [] (y ∷ ys) [] h i j p q = λ k. cc
cmp_parts-chain [] (y ∷ ys) (z ∷ zs) h (i, is) (j, js) p q =
    cmp_part-chain (some 0) y z _ _ _ some_zero i j (cmp_parts-chain [] ys zs tt is js) p q
cmp_parts-chain (x ∷ xs) [] [] h i j p q = p
cmp_parts-chain (x ∷ xs) [] (z ∷ zs) (h, hs) i (j, js) p q =
    cmp_part-chain x (some 0) z _ _ _ h some_zero j (cmp_parts-chain xs [] zs hs tt js) p q
cmp_parts-chain (x ∷ xs) (y ∷ ys) [] (h, hs) (i, is) j p q =
    cmp_part-chain x y (some 0) _ _ _ h i some_zero (cmp_parts-chain xs ys [] hs is tt) p q
cmp_parts-chain (x ∷ xs) (y ∷ ys) (z ∷ zs) (h, hs) (i, is) (j, js) p q =
    cmp_part-chain x y z _ _ _ h i j (cmp_parts-chain xs ys zs hs is js) p q

cmp_parts_refl : (xs : List (Option ℕ)) → cmp_parts xs xs ≡ same
unfolding cmp_parts cmp_part
cmp_parts_refl [] = refl
cmp_parts_refl (none ∷ xs) = cmp_parts_refl xs
cmp_parts_refl (some n ∷ xs) = ground (arith, cmp_parts_refl xs)

-- "Not later than", on versions.
abbrev pub IsAtMost : Text → Text → Type 0
IsAtMost v w = cmp v w ≢ more

pub cmp-opposite : (v w : Text) → cmp v w ≡ opposite (cmp w v)
unfolding cmp
cmp-opposite v w = cmp_parts-opposite (parts v) (parts w)

pub cmp_refl : (v : Text) → cmp v v ≡ same
unfolding cmp
cmp_refl v = cmp_parts_refl (parts v)

pub IsAtMost-trans :
    (u v w : Text)
    → IsNumeric u
    → IsNumeric v
    → IsNumeric w
    → IsAtMost u v
    → IsAtMost v w
    → IsAtMost u w
unfolding cmp
IsAtMost-trans u v w a b c p q = cmp_parts-chain (parts u) (parts v) (parts w) a b c p q

Sign-cases : (s : Sign) → (s ≡ less) ⊎ ((s ≡ same) ⊎ (s ≡ more))
Sign-cases less = inl refl
Sign-cases same = inr (inl refl)
Sign-cases more = inr (inr refl)

smaller-eq :
    (w v : Text) → ((cmp w v ≡ less) × (smaller w v ≡ w)) ⊎ ((cmp w v ≢ less) × (smaller w v ≡ v))
smaller-eq w v = elim (Sign-cases (cmp w v)) [
  | inl h ↦ inl (h, rw (h, smaller) refl)
  | inr (inl h) ↦ inr (λ k. cc (h, k), rw (h, smaller) refl)
  | inr (inr h) ↦ inr (λ k. cc (h, k), rw (h, smaller) refl)
]

IsAtMost-refl : (v : Text) → IsAtMost v v
IsAtMost-refl v k = cc (cmp_refl v, k)

not_less-IsAtMost : (w v : Text) → cmp w v ≢ less → IsAtMost v w
not_less-IsAtMost w v h k = elim (Sign-cases (cmp w v)) [
  | inl l ↦ h l
  | inr (inl l) ↦ cc (cmp-opposite v w, l, k)
  | inr (inr l) ↦ cc (cmp-opposite v w, l, k)
]

-- What one step of `lowest` keeps.
smaller-IsAtMost :
    (w v : Text)
    → IsAtMost (smaller w v) v × IsAtMost (smaller w v) w × ((smaller w v ≡ w) ⊎ (smaller w v ≡ v))
smaller-IsAtMost w v = elim (smaller-eq w v) [
  | inl (h, e) ↦ (
    subst (λ x. IsAtMost x v) (sym e) (λ k. cc (h, k)),
    subst (λ x. IsAtMost x w) (sym e) (IsAtMost-refl w),
    inl e,
  )
  | inr (h, e) ↦ (
    subst (λ x. IsAtMost x v) (sym e) (IsAtMost-refl v),
    subst (λ x. IsAtMost x w) (sym e) (not_less-IsAtMost w v h),
    inr e,
  )
]

-- `lowest` is one of the versions, and none of them is earlier, where all their parts are numbers.
pub lowest-IsIn : (v : Text) (vs : List Text) → IsIn (lowest v vs) (v ∷ vs)
unfolding lowest
lowest-IsIn v [] = inl refl
lowest-IsIn v (w ∷ ws) = elim (smaller-IsAtMost w v).2 [
  | inl e ↦ inr (subst (λ x. IsIn (lowest x ws) (w ∷ ws)) (sym e) (lowest-IsIn w ws))
  | inr e ↦
      subst (λ x. IsIn (lowest x ws) (v ∷ w ∷ ws)) (sym e)
        (elim (lowest-IsIn v ws) [ inl k ↦ inl k | inr k ↦ inr (inr k) ])
]

smaller-IsNumeric : (w v : Text) → IsNumeric w → IsNumeric v → IsNumeric (smaller w v)
smaller-IsNumeric w v a b = elim (smaller-IsAtMost w v).2 [
  | inl e ↦ subst IsNumeric (sym e) a
  | inr e ↦ subst IsNumeric (sym e) b
]

-- `lowest v ws` is numeric, and not later than a version that `v` is not later than.
lowest-first :
    (v : Text) (ws : List Text)
    → IsNumeric v
    → All IsNumeric ws
    → IsNumeric (lowest v ws) × IsAtMost (lowest v ws) v
unfolding lowest
lowest-first v [] n a = (n, λ k. cc (cmp_refl v, k))
lowest-first v (w ∷ ws) n (m, a) =
    let s = smaller-IsNumeric w v m n in
    let (d, e) = lowest-first (smaller w v) ws s a in
    (d, IsAtMost-trans (lowest (smaller w v) ws) (smaller w v) v d s n e (smaller-IsAtMost w v).0)

pub lowest-All :
    (v : Text) (ws : List Text)
    → IsNumeric v
    → All IsNumeric ws
    → All (IsAtMost (lowest v ws)) (v ∷ ws)
unfolding lowest
lowest-All v [] n a = (λ k. cc (cmp_refl v, k), tt)
lowest-All v (w ∷ ws) n (m, a) =
    let s = smaller-IsNumeric w v m n in
    let (d, e) = lowest-first (smaller w v) ws s a in
    let rest = (lowest-All (smaller w v) ws s a).1 in
    (
      IsAtMost-trans (lowest (smaller w v) ws) (smaller w v) v d s n e (smaller-IsAtMost w v).0,
      (
        IsAtMost-trans (lowest (smaller w v) ws) (smaller w v) w d s m e (smaller-IsAtMost w v).1,
        rest,
      ),
    )
