-- ===== src/Scripts/Runtime/Covered.antt =====
-- What scripts/check-runtime-matrix.mjs establishes where it finds no problem.
use nebula_token.Common.{
  ◌≡◌, ◌∙◌, ap, inl, inr, some, Option-cases, some_injective, List, [], ◌∷◌, All, append-eq-empty,
}
use nebula_token.Scripts.Version.{Files}
use nebula_token.Scripts.Runtime.{JsonField, Matrix, Row}
use nebula_token.Scripts.Runtime.Table.{Entry, by_floor, by_set, by_pairs}
use nebula_token.Scripts.Runtime.Support.{check_entry, check_entries}
use nebula_token.Scripts.Runtime.Single.{IsPlain, HasTestedFloor, check_floor-HasTestedFloor}
use nebula_token.Scripts.Runtime.Sets.{HasTestedSet, check_set-HasTestedSet}
use nebula_token.Scripts.Runtime.Pairs.{HasTestedPairs, check_pairs-HasTestedPairs}

-- What the script promises of one entry of its table.
abbrev pub IsCovered : JsonField → Matrix → Files → Entry → Type 0
IsCovered json matrix files (by_floor rt floor) = HasTestedFloor json matrix files rt floor
IsCovered json matrix files (by_set rt) = HasTestedSet matrix files rt
IsCovered json matrix files (by_pairs rt floor otp) = HasTestedPairs matrix files rt floor otp

check_entry-IsCovered :
    (json : JsonField) (matrix : Matrix) (files : Files) (e : Entry) (rows : List Row)
    → IsPlain matrix
    → check_entry json matrix files e ≡ some ([], rows)
    → IsCovered json matrix files e
unfolding check_entry
check_entry-IsCovered json matrix files (by_floor rt floor) rows plain h =
    check_floor-HasTestedFloor json matrix files rt floor rows plain h
check_entry-IsCovered json matrix files (by_set rt) rows plain h =
    check_set-HasTestedSet matrix files rt rows h
check_entry-IsCovered json matrix files (by_pairs rt floor otp) rows plain h =
    check_pairs-HasTestedPairs matrix files rt floor otp rows plain h

-- Where the loop over the runtimes finds no problem, every one of them is covered. By a floor: some
-- listed version is equal to the floor that its manifest declares, and no listed version that is a
-- number is earlier. By a set: the declared frameworks are exactly the tested ones, and all in
-- the test project. By pairs: the same as for a floor, for the Elixir (unless only channels are
-- listed) and for the OTP that is declared. The versions of the matrix are made of numbers.
pub check_entries-IsCovered :
    (json : JsonField) (matrix : Matrix) (files : Files) (es : List Entry) (rows : List Row)
    → IsPlain matrix
    → check_entries json matrix files es ≡ some ([], rows)
    → All (IsCovered json matrix files) es
unfolding check_entries
check_entries-IsCovered json matrix files [] rows plain h = tt
check_entries-IsCovered json matrix files (e ∷ es) rows plain h =
    elim (Option-cases (check_entry json matrix files e)) [
      | inl n ↦ cc (rw n at h)
      | inr ((problems, own), a) ↦ elim (Option-cases (check_entries json matrix files es)) [
        | inl n ↦ cc (rw (a, n) at h)
        | inr ((found, others), b) ↦
            let both = some_injective (rw (a, b) at h) in
            let (p, q) = append-eq-empty problems found (ap (λ x. x.0) both) in
            (
              check_entry-IsCovered json matrix files e own plain (a ∙ ap (λ x. some (x, own)) p),
              check_entries-IsCovered json matrix files es others plain
                  (b ∙ ap (λ x. some (x, others)) q),
            )
      ]
    ]
