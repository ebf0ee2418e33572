-- ===== src/Scripts/Regex/Exact.antt =====
-- What a pattern of a fixed number of units of one class accepts.
use Prim.Native.Nat.{ℕ, zero, suc}
use nebula_token.Common.{
  Bool, true, false, ◌&&◌, Option, none, some, List, [], ◌∷◌, ◌==◌, Text, length, all, arith, ◌≡◌,
  refl, ◌∙◌, inl, inr, Option-cases,
}
use nebula_token.Scripts.Regex.{
  Place, Regex, all_of, both, exactly, match_all, scan, test, text_end, text_start, try_at,
}

abbrev pub succeeded : Option Place → Bool
succeeded none = false
succeeded (some q) = true

exactly-end :
    (n : ℕ) (p : ℕ → Bool) (before rest : Text) (groups : List Text)
    → succeeded (
        try_at
          (exactly n p)
          (record { before = before; rest = rest; groups = groups })
          (λ q. try_at text_end q some))
      ≡ (length rest == n && all p rest)
unfolding try_at
exactly-end zero p before [] groups = refl
exactly-end zero p before (c ∷ rest) groups = ground arith
exactly-end (suc n) p before [] groups = ground arith
exactly-end (suc n) p before (c ∷ rest) groups =
    ground (arith, exactly-end n p (c ∷ before) rest groups)

-- A pattern that starts with `^` matches nowhere but at the start.
scan-later :
    (r : Regex) (c : ℕ) (before rest : Text) (n : ℕ)
    → scan (both text_start r) (c ∷ before) rest n ≡ []
unfolding scan try_at
scan-later r c before [] zero = refl
scan-later r c before [] (suc n) = refl
scan-later r c before (d ∷ rest) zero = scan-later r d (c ∷ before) rest zero
scan-later r c before (d ∷ rest) (suc n) = scan-later r d (c ∷ before) rest n

-- So it is tried there only.
pub test-start :
    (r : Regex) (s : Text)
    → test (both text_start r) s
      ≡ succeeded (try_at r (record { before = []; rest = s; groups = [] }) some)
unfolding match_all scan try_at
test-start r [] =
    elim (Option-cases (try_at r (record { before = []; rest = []; groups = [] }) some)) [
      | inl h ↦ rw h refl
      | inr (q, h) ↦ rw h refl
    ]
test-start r (c ∷ s) =
    elim (Option-cases (try_at r (record { before = []; rest = c ∷ s; groups = [] }) some)) [
      | inl h ↦ rw (h, scan-later r c [] s 0) refl
      | inr (q, h) ↦ rw h refl
    ]

-- The pattern `^p{n}$` accepts the texts of `n` units that all pass, and no others.
pub test-all_of :
    (n : ℕ) (p : ℕ → Bool) (s : Text) → test (all_of n p) s ≡ (length s == n && all p s)
unfolding try_at
test-all_of n p s = test-start (both (exactly n p) text_end) s ∙ exactly-end n p [] s []
