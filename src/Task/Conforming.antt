-- ===== src/Task/Conforming.antt =====
-- The methods of the engine over any store that keeps the contract of the interface, and whose
-- calls may be rejected: what `await this.store.…` does there, against the memory store.
use nebula_token.Common.{ℕ, zero, suc, ◌≡◌, refl, sym, ap, ◌⊎◌, inl, inr, List, [], ◌∷◌}
use mathlib.Core.Path.{subst}
use nebula_token.Errors.{Error, Result, ok, throws}
use nebula_token.Store.Rows.{TokenRecord}
use nebula_token.Store.{MemoryStore, insert}
use nebula_token.Store.Interface.{RefreshTokenStore, Answers, Inserts, IsConforming}
use nebula_token.Task.{
  Task, done, reject, ask_find, ask_insert, ask_mark_rotated, ask_revoke_if_active,
  ask_revoke_family, ask_revoke_user, attempt,
}
use nebula_token.Task.Schedule.{advance, advance_at, interleave, resume_insert}

module _ {S : Type 0} (store : RefreshTokenStore S) {A : Type 0} where
  -- One awaited call: a rejection is not caught.
  unfoldable pub call : Task A → S → Task A × S
  call (done a) s = (done a, s)
  call (reject e) s = (reject e, s)
  call (ask_find selector k) s =
      let (answer, s') = store.find_by_selector selector s in (attempt answer k, s')
  call (ask_insert r t) s = let (answer, s') = store.insert r s in (attempt answer (λ _. t), s')
  call (ask_mark_rotated selector from_status rotated_at replaced_by k) s =
      let (answer, s') = store.mark_rotated selector from_status rotated_at replaced_by s in
      (attempt answer k, s')
  call (ask_revoke_if_active selector k) s =
      let (answer, s') = store.revoke_if_active selector s in (attempt answer k, s')
  call (ask_revoke_family family_id k) s =
      let (answer, s') = store.revoke_family family_id s in (attempt answer k, s')
  call (ask_revoke_user user_id k) s =
      let (answer, s') = store.revoke_user user_id s in (attempt answer k, s')

  unfoldable pub call_at : ℕ → List (Task A) → S → List (Task A) × S
  call_at i [] s = ([], s)
  call_at zero (t ∷ ts) s = let (t', s') = call t s in (t' ∷ ts, s')
  call_at (suc i) (t ∷ ts) s = let (ts', s') = call_at i ts s in (t ∷ ts', s')

  -- Several methods at the same time, as a schedule lets them make their calls.
  unfoldable pub serve_on : List ℕ → List (Task A) → S → List (Task A) × S
  serve_on [] ts s = (ts, s)
  serve_on (i ∷ is) ts s = let (ts', s') = call_at i ts s in serve_on is ts' s'

-- A method is where it would be on the memory store, or was rejected.
abbrev pub Follows : {A : Type 0} → Task A → Task A → Type 0
Follows t u = (t ≡ u) ⊎ ((e : Error) × (t ≡ reject e))

abbrev pub FollowsAll : {A : Type 0} → List (Task A) → List (Task A) → Type 0
FollowsAll [] [] = Unit
FollowsAll (t ∷ ts) (u ∷ us) = Follows t u × FollowsAll ts us
FollowsAll _ _ = ⊥

pub FollowsAll-refl : {A : Type 0} (ts : List (Task A)) → FollowsAll ts ts
FollowsAll-refl [] = tt
FollowsAll-refl (t ∷ ts) = (inl refl, FollowsAll-refl ts)

module _ {S : Type 0} (Stands : S → MemoryStore → Type 0) {A : Type 0} where
  -- After a call, the memory store has made it too, or has not been called.
  abbrev Simulates : Task A × S → Task A → MemoryStore → Type 0
  Simulates p u m =
      (Follows p.0 (advance u m).0 × Stands p.1 (advance u m).1) ⊎ (Follows p.0 u × Stands p.1 m)

  answered :
      {B : Type 0} (k : B → Task A) (u : Task A) (m : MemoryStore) (p : B × MemoryStore)
      (answer : Result B × S)
      → Answers Stands m p answer
      → (Follows (attempt answer.0 k) (k p.0) × Stands answer.1 p.1)
        ⊎ (Follows (attempt answer.0 k) u × Stands answer.1 m)
  answered k u m p (ok a, s) (same, h) = inl (inl (ap k same), h)
  answered k u m p (throws e, s) (inl h) = inr (inr (e, refl), h)
  answered k u m p (throws e, s) (inr h) = inl (inr (e, refl), h)

  inserted :
      (r : TokenRecord) (t u : Task A) (m : MemoryStore) (answer : Result (Unit {0}) × S)
      → Inserts Stands m r answer
      → (Follows (attempt answer.0 (λ _. t)) (resume_insert (insert r m).0 t)
          × Stands answer.1 (insert r m).1)
        ⊎ (Follows (attempt answer.0 (λ _. t)) u × Stands answer.1 m)
  inserted r t u m (ok _, s) (same, h) = inl (inl (sym (ap (λ x. resume_insert x t) same)), h)
  inserted r t u m (throws e, s) (inl h) = inr (inr (e, refl), h)
  inserted r t u m (throws e, s) (inr h) = inl (inr (e, refl), h)

  module _ (store : RefreshTokenStore S) (conforms : IsConforming Stands store) where
    call-advance :
        (t : Task A) (s : S) (m : MemoryStore) → Stands s m → Simulates (call store t s) t m
    unfolding call advance
    call-advance (done a) s m h = inl (inl refl, h)
    call-advance (reject e) s m h = inl (inl refl, h)
    call-advance (ask_find selector k) s m h = answered k _ m _ _ (conforms.finds selector h)
    call-advance (ask_insert r t) s m h = inserted r t _ m _ (conforms.inserts r h)
    call-advance (ask_mark_rotated selector from_status rotated_at replaced_by k) s m h =
        answered k _ m _ _ (conforms.marks selector from_status rotated_at replaced_by h)
    call-advance (ask_revoke_if_active selector k) s m h =
        answered k _ m _ _ (conforms.revokes selector h)
    call-advance (ask_revoke_family family_id k) s m h =
        answered k _ m _ _ (conforms.revokes_family family_id h)
    call-advance (ask_revoke_user user_id k) s m h =
        answered k _ m _ _ (conforms.revokes_user user_id h)

    call-Simulates :
        (t u : Task A) (s : S) (m : MemoryStore)
        → Stands s m
        → Follows t u
        → Simulates (call store t s) u m
    unfolding call
    call-Simulates t u s m h (inl same) =
        subst (λ v. Simulates (call store t s) v m) same (call-advance t s m h)
    call-Simulates t u s m h (inr (e, same)) =
        subst (λ v. Simulates (call store v s) u m) (sym same) (inr (inr (e, refl), h))

    call_at-Simulates :
        (i : ℕ) (ts us : List (Task A)) (s : S) (m : MemoryStore)
        → Stands s m
        → FollowsAll ts us
        → (FollowsAll (call_at store i ts s).0 (advance_at i us m).0
            × Stands (call_at store i ts s).1 (advance_at i us m).1)
          ⊎ (FollowsAll (call_at store i ts s).0 us × Stands (call_at store i ts s).1 m)
    unfolding call_at advance_at
    call_at-Simulates i [] [] s m h f = inl (f, h)
    call_at-Simulates i [] (u ∷ us) s m h f = absurd f
    call_at-Simulates i (t ∷ ts) [] s m h f = absurd f
    call_at-Simulates zero (t ∷ ts) (u ∷ us) s m h (f, fs) = elim (call-Simulates t u s m h f) [
      | inl (g, k) ↦ inl ((g, fs), k)
      | inr (g, k) ↦ inr ((g, fs), k)
    ]
    call_at-Simulates (suc i) (t ∷ ts) (u ∷ us) s m h (f, fs) =
        elim (call_at-Simulates i ts us s m h fs) [
          | inl (gs, k) ↦ inl ((f, gs), k)
          | inr (gs, k) ↦ inr ((f, gs), k)
        ]

    -- The calls that the memory store would have been asked for, in their order.
    pub serve_on-interleave :
        (is : List ℕ) (ts us : List (Task A)) (s : S) (m : MemoryStore)
        → Stands s m
        → FollowsAll ts us
        → (js : List ℕ) × FollowsAll (serve_on store is ts s).0 (interleave js us m).0
          × Stands (serve_on store is ts s).1 (interleave js us m).1
    unfolding serve_on interleave
    serve_on-interleave [] ts us s m h fs = ([], fs, h)
    serve_on-interleave (i ∷ is) ts us s m h fs = elim (call_at-Simulates i ts us s m h fs) [
      | inl (gs, k) ↦ let (js, ks, l) = serve_on-interleave is _ _ _ _ k gs in (i ∷ js, ks, l)
      | inr (gs, k) ↦ serve_on-interleave is _ _ _ _ k gs
    ]
