-- ===== src/Task/Schedule.antt =====
-- Interleavings: between two awaited calls of one method, the calls of others may run.
use nebula_token.Common.{ℕ, zero, suc, ◌≡◌, ◌≢◌, refl, Bool, Option, List, [], ◌∷◌, All}
use nebula_token.Errors.{Result, ok, throws}
use nebula_token.Store.Rows.{TokenRecord, revoked}
use nebula_token.Store.{
  MemoryStore, find_by_selector, insert, mark_rotated, revoke_if_active, revoke_family, revoke_user,
}
use nebula_token.Store.Invariant.{
  IsRow, IsSound, Extends, Extends-refl, Extends-trans, Keeps, insert-Keeps, mark_rotated-Keeps,
  revoke_if_active-Keeps, revoke_family-Keeps, revoke_user-Keeps,
}
use nebula_token.Task.{
  Task, done, reject, ask_find, ask_insert, ask_mark_rotated, ask_revoke_if_active,
  ask_revoke_family, ask_revoke_user, run, after_insert,
}

-- What follows `await store.insert(…)`.
abbrev pub resume_insert : {A : Type 0} → Result (Unit {0}) → Task A → Task A
resume_insert (ok _) t = t
resume_insert (throws e) t = reject e

pub Keeps-refl : (s : MemoryStore) → Keeps s s
Keeps-refl s = record { sound = λ v. v; extends = λ _. Extends-refl s }

pub Keeps-trans : (s t u : MemoryStore) → Keeps s t → Keeps t u → Keeps s u
Keeps-trans s t u a b = record {
  sound = λ v. b.sound (a.sound v);
  extends = λ v. Extends-trans s t u (a.extends v) (b.extends (a.sound v));
}

module _ {A : Type 0} where
  -- One awaited call.
  unfoldable pub advance : Task A → MemoryStore → Task A × MemoryStore
  advance (done a) s = (done a, s)
  advance (reject e) s = (reject e, s)
  advance (ask_find selector k) s = (k (find_by_selector selector s), s)
  advance (ask_insert r t) s = (resume_insert (insert r s).0 t, (insert r s).1)
  advance (ask_mark_rotated selector from_status rotated_at replaced_by k) s =
      let (won, s') = mark_rotated selector from_status rotated_at replaced_by s in (k won, s')
  advance (ask_revoke_if_active selector k) s =
      let (won, s') = revoke_if_active selector s in (k won, s')
  advance (ask_revoke_family family_id k) s = let (n, s') = revoke_family family_id s in (k n, s')
  advance (ask_revoke_user user_id k) s = let (n, s') = revoke_user user_id s in (k n, s')

  -- The task at a position makes its next call; a position with no task changes nothing.
  unfoldable pub advance_at : ℕ → List (Task A) → MemoryStore → List (Task A) × MemoryStore
  advance_at i [] s = ([], s)
  advance_at zero (t ∷ ts) s = let (t', s') = advance t s in (t' ∷ ts, s')
  advance_at (suc i) (t ∷ ts) s = let (ts', s') = advance_at i ts s in (t ∷ ts', s')

  -- A schedule names the task that moves, step by step.
  unfoldable pub interleave : List ℕ → List (Task A) → MemoryStore → List (Task A) × MemoryStore
  interleave [] ts s = (ts, s)
  interleave (i ∷ is) ts s = let (ts', s') = advance_at i ts s in interleave is ts' s'

  run-resume_insert :
      (t : Task A) (p : Result (Unit {0}) × MemoryStore)
      → run (resume_insert p.0 t) p.1 ≡ after_insert p (run t)
  unfolding run
  run-resume_insert t (ok _, s) = refl
  run-resume_insert t (throws e, s) = refl

  -- With no other task in between, the calls lead to what `run` computes.
  pub run-advance : (t : Task A) (s : MemoryStore) → run (advance t s).0 (advance t s).1 ≡ run t s
  unfolding run advance
  run-advance (done a) s = refl
  run-advance (reject e) s = refl
  run-advance (ask_find selector k) s = refl
  run-advance (ask_insert r t) s = run-resume_insert t (insert r s)
  run-advance (ask_mark_rotated selector from_status rotated_at replaced_by k) s = refl
  run-advance (ask_revoke_if_active selector k) s = refl
  run-advance (ask_revoke_family family_id k) s = refl
  run-advance (ask_revoke_user user_id k) s = refl

  -- A task inserts only records that may stand in the store, and never rotates a revoked record.
  abbrev pub Disciplined : Task A → Type 0
  Disciplined (done a) = Unit
  Disciplined (reject e) = Unit
  Disciplined (ask_find selector k) = (o : Option TokenRecord) → Disciplined (k o)
  Disciplined (ask_insert r t) = IsRow r.selector r × Disciplined t
  Disciplined (ask_mark_rotated selector from_status rotated_at replaced_by k) =
      (from_status ≢ revoked) × ((b : Bool) → Disciplined (k b))
  Disciplined (ask_revoke_if_active selector k) = (b : Bool) → Disciplined (k b)
  Disciplined (ask_revoke_family family_id k) = (n : ℕ) → Disciplined (k n)
  Disciplined (ask_revoke_user user_id k) = (n : ℕ) → Disciplined (k n)

  resume_insert-Disciplined :
      (r : Result (Unit {0})) (t : Task A) → Disciplined t → Disciplined (resume_insert r t)
  resume_insert-Disciplined (ok _) t d = d
  resume_insert-Disciplined (throws e) t d = tt

  -- One call of a disciplined task keeps the store, and leaves a disciplined task.
  pub advance-Keeps :
      (t : Task A) (s : MemoryStore)
      → Disciplined t
      → Keeps s (advance t s).1 × Disciplined (advance t s).0
  unfolding advance
  advance-Keeps (done a) s d = (Keeps-refl s, tt)
  advance-Keeps (reject e) s d = (Keeps-refl s, tt)
  advance-Keeps (ask_find selector k) s d = (Keeps-refl s, d (find_by_selector selector s))
  advance-Keeps (ask_insert r t) s d =
      (insert-Keeps r s d.0, resume_insert-Disciplined (insert r s).0 t d.1)
  advance-Keeps (ask_mark_rotated selector from_status rotated_at replaced_by k) s d =
      (mark_rotated-Keeps selector from_status rotated_at replaced_by s d.0, d.1 _)
  advance-Keeps (ask_revoke_if_active selector k) s d = (revoke_if_active-Keeps selector s, d _)
  advance-Keeps (ask_revoke_family family_id k) s d = (revoke_family-Keeps family_id s, d _)
  advance-Keeps (ask_revoke_user user_id k) s d = (revoke_user-Keeps user_id s, d _)

  pub advance_at-Keeps :
      (i : ℕ) (ts : List (Task A)) (s : MemoryStore)
      → All Disciplined ts
      → Keeps s (advance_at i ts s).1 × All Disciplined (advance_at i ts s).0
  unfolding advance_at
  advance_at-Keeps i [] s d = (Keeps-refl s, tt)
  advance_at-Keeps zero (t ∷ ts) s (d, ds) = let (k, d') = advance-Keeps t s d in (k, (d', ds))
  advance_at-Keeps (suc i) (t ∷ ts) s (d, ds) =
      let (k, ds') = advance_at-Keeps i ts s ds in (k, (d, ds'))

  -- Under every schedule the store stays sound, and its records only evolve.
  pub interleave-Keeps :
      (is : List ℕ) (ts : List (Task A)) (s : MemoryStore)
      → All Disciplined ts
      → IsSound s
      → IsSound (interleave is ts s).1 × Extends s (interleave is ts s).1
  unfolding interleave
  interleave-Keeps [] ts s d v = (v, Extends-refl s)
  interleave-Keeps (i ∷ is) ts s d v =
      let (k, d') = advance_at-Keeps i ts s d in
      let (v', x) = interleave-Keeps is _ _ d' (k.sound v) in
      (v', Extends-trans s _ _ (k.extends v) x)

  after_insert-Keeps :
      (p : Result (Unit {0}) × MemoryStore) (t : Task A) (s : MemoryStore)
      → Keeps s p.1
      → ((s : MemoryStore) → Keeps s (run t s).1)
      → Keeps s (after_insert p (run t)).1
  after_insert-Keeps (ok _, s') t s k h = Keeps-trans s s' _ k (h s')
  after_insert-Keeps (throws e, s') t s k h = k

  -- A disciplined method that runs alone, from its first call to its last, keeps the store sound,
  -- and the records only evolve.
  pub run-Keeps : (t : Task A) → Disciplined t → (s : MemoryStore) → Keeps s (run t s).1
  unfolding run
  run-Keeps (done a) d s = Keeps-refl s
  run-Keeps (reject e) d s = Keeps-refl s
  run-Keeps (ask_find selector k) d s = run-Keeps (k _) (d _) s
  run-Keeps (ask_insert r t) d s =
      after_insert-Keeps (insert r s) t s (insert-Keeps r s d.0) (run-Keeps t d.1)
  run-Keeps (ask_mark_rotated selector from_status rotated_at replaced_by k) d s =
      Keeps-trans s _ _ (mark_rotated-Keeps selector from_status rotated_at replaced_by s d.0)
        (run-Keeps (k _) (d.1 _) _)
  run-Keeps (ask_revoke_if_active selector k) d s =
      Keeps-trans s _ _ (revoke_if_active-Keeps selector s) (run-Keeps (k _) (d _) _)
  run-Keeps (ask_revoke_family family_id k) d s =
      Keeps-trans s _ _ (revoke_family-Keeps family_id s) (run-Keeps (k _) (d _) _)
  run-Keeps (ask_revoke_user user_id k) d s =
      Keeps-trans s _ _ (revoke_user-Keeps user_id s) (run-Keeps (k _) (d _) _)
