-- ===== src/Scripts/Vectors/Ids.antt =====
-- What the checks of the counts and of the identifiers establish.
use nebula_token.Common.{
  ℕ, ◌≡◌, refl, sym, ap, ◌↔◌, inl, inr, Bool-cases, true, Option, none, some, List, [], ◌∷◌, arith,
  All, All-imp, Text, append-eq-empty, length,
}
use nebula_token.Scripts.Regex.{text}
use nebula_token.Scripts.Texts.{contains}
use nebula_token.Scripts.Members.{IsIn, contains_iff}
use nebula_token.Scripts.Vectors.{
  TestVectors, BehaviorVectors, sections, same_count, count_of, check_count, section_counts,
  unconditional, check_counts, claim_ids, all_ids, check_ids,
}

-- No text stands twice in the list.
abbrev pub IsUnique : List Text → Type 0
IsUnique [] = Unit
IsUnique (t ∷ ts) = (¬ IsIn t ts) × IsUnique ts

-- None of the texts is known.
abbrev pub AllNew : List Text → List Text → Type 0
AllNew known ts = All (λ t. ¬ IsIn t known) ts

AllNew-head : (t : Text) (known ts : List Text) → AllNew (t ∷ known) ts → ¬ IsIn t ts
AllNew-head t known [] h k = k
AllNew-head t known (u ∷ ts) (h, hs) (inl e) = h (inl (sym e))
AllNew-head t known (u ∷ ts) (h, hs) (inr k) = AllNew-head t known ts hs k

claim_ids-none : (seen ids : List Text) → claim_ids seen ids ≡ [] → IsUnique ids × AllNew seen ids
unfolding claim_ids
claim_ids-none seen [] h = (tt, tt)
claim_ids-none seen (id ∷ ids) h = elim (Bool-cases (contains id seen)) [
  | inl k ↦ cc (rw k at h)
  | inr k ↦
      let (unique, new) = claim_ids-none (id ∷ seen) ids (rw k at h) in
      (
        (AllNew-head id seen ids new, unique),
        (
          λ i. cc (k, (contains_iff id seen).1 i),
          All-imp {P = λ t. ¬ IsIn t (id ∷ seen)} {Q = λ t. ¬ IsIn t seen} (λ t n i. n (inr i)) ids
              new,
        ),
      )
]

-- Conversely, nothing is reported of new texts that are all different.
AllNew-cons :
    (t : Text) (known ts : List Text) → ¬ IsIn t ts → AllNew known ts → AllNew (t ∷ known) ts
AllNew-cons t known [] n h = tt
AllNew-cons t known (u ∷ ts) n (h, hs) = (
  λ i. elim i [ inl e ↦ n (inl (sym e)) | inr j ↦ h j ],
  AllNew-cons t known ts (λ i. n (inr i)) hs,
)

claim_ids-IsUnique :
    (seen ids : List Text) → IsUnique ids → AllNew seen ids → claim_ids seen ids ≡ []
unfolding claim_ids
claim_ids-IsUnique seen [] u a = refl
claim_ids-IsUnique seen (id ∷ ids) (n, u) (new, a) = elim (Bool-cases (contains id seen)) [
  | inl k ↦ absurd (new ((contains_iff id seen).0 k))
  | inr k ↦ rw k (claim_ids-IsUnique (id ∷ seen) ids u (AllNew-cons id seen ids n a))
]

AllNew-nothing : (ts : List Text) → AllNew [] ts
AllNew-nothing [] = tt
AllNew-nothing (t ∷ ts) = (λ k. k, AllNew-nothing ts)

-- The check of the identifiers finds no problem exactly when no two of the cases and scenarios, of
-- either file, have the same one.
pub check_ids_iff :
    (tv : TestVectors) (bv : BehaviorVectors) → (check_ids tv bv ≡ []) ↔ IsUnique (all_ids tv bv)
unfolding check_ids
check_ids_iff tv bv = (
  λ h. (claim_ids-none [] (all_ids tv bv) h).0,
  λ u. claim_ids-IsUnique [] (all_ids tv bv) u (AllNew-nothing (all_ids tv bv)),
)

same_count-eq : (a b : Option ℕ) → same_count a b ≡ true → a ≡ b
same_count-eq none none h = refl
same_count-eq none (some b) h = cc
same_count-eq (some a) none h = cc
same_count-eq (some a) (some b) h = ap some (ground (arith, h))

check_count-eq :
    (name : Text) (declared actual : Option ℕ)
    → check_count name declared actual ≡ []
    → declared ≡ actual
unfolding check_count
check_count-eq name declared actual h = elim (Bool-cases (same_count declared actual)) [
  | inl k ↦ same_count-eq declared actual k
  | inr k ↦ cc (rw k at h)
]

section_counts-All :
    (tv : TestVectors) (names : List Text)
    → section_counts tv names ≡ []
    → All (λ s. tv.counts s ≡ count_of (tv.cases s)) names
unfolding section_counts
section_counts-All tv [] h = tt
section_counts-All tv (s ∷ names) h =
    let (a, b) = append-eq-empty _ _ h in
    (check_count-eq s (tv.counts s) (count_of (tv.cases s)) a, section_counts-All tv names b)

-- Every declared count is the length of what it counts.
pub record IsCounted (tv : TestVectors) (bv : BehaviorVectors) : Type 0 where
  pub cases : All (λ s. tv.counts s ≡ count_of (tv.cases s)) sections
  pub scenarios : bv.counts (text "scenarios") ≡ some (length bv.scenarios)
  pub without_condition : bv.counts (text "unconditional") ≡ some (unconditional bv.scenarios)

pub check_counts-IsCounted :
    (tv : TestVectors) (bv : BehaviorVectors) → check_counts tv bv ≡ [] → IsCounted tv bv
unfolding check_counts
check_counts-IsCounted tv bv h =
    let (a, b) = append-eq-empty (section_counts tv sections) _ h in
    let (c, d) = append-eq-empty _ _ b in
    record {
      cases = section_counts-All tv sections a;
      scenarios = check_count-eq _ _ _ c;
      without_condition = check_count-eq _ _ _ d;
    }
