-- ===== src/Task/Alone.antt =====
-- One method of the engine, with no other in between, over any store that keeps the contract.
use nebula_token.Common.{ℕ, zero, suc, ◌≡◌, refl, sym, ap, ◌⊎◌, inl, inr}
use mathlib.Core.Path.{subst}
use nebula_token.Errors.{Error, Result, ok, throws}
use nebula_token.Store.Rows.{TokenRecord}
use nebula_token.Store.{MemoryStore, insert}
use nebula_token.Store.Interface.{RefreshTokenStore, Answers, Inserts, IsConforming}
use nebula_token.Task.{
  Task, done, reject, ask_find, ask_insert, ask_mark_rotated, ask_revoke_if_active,
  ask_revoke_family, ask_revoke_user, run,
}
use nebula_token.Task.Schedule.{advance, run-advance, resume_insert}

-- What follows an awaited call, unless it was rejected.
abbrev pub after_call : {A B S : Type 0} → Result B × S → (B → S → Result A × S) → Result A × S
after_call (ok b, s) k = k b s
after_call (throws e, s) k = (throws e, s)

unfoldable pub run_on : {S A : Type 0} → RefreshTokenStore S → Task A → S → Result A × S
run_on store (done a) s = (ok a, s)
run_on store (reject e) s = (throws e, s)
run_on store (ask_find selector k) s =
    after_call (store.find_by_selector selector s) (λ b. run_on store (k b))
run_on store (ask_insert r t) s = after_call (store.insert r s) (λ _. run_on store t)
run_on store (ask_mark_rotated selector from_status rotated_at replaced_by k) s =
    after_call (store.mark_rotated selector from_status rotated_at replaced_by s)
      (λ b. run_on store (k b))
run_on store (ask_revoke_if_active selector k) s =
    after_call (store.revoke_if_active selector s) (λ b. run_on store (k b))
run_on store (ask_revoke_family family_id k) s =
    after_call (store.revoke_family family_id s) (λ n. run_on store (k n))
run_on store (ask_revoke_user user_id k) s =
    after_call (store.revoke_user user_id s) (λ n. run_on store (k n))

-- The memory store after the first calls of a method.
unfoldable pub reached : {A : Type 0} → ℕ → Task A → MemoryStore → MemoryStore
reached zero t m = m
reached (suc n) t m = reached n (advance t m).0 (advance t m).1

module _ {S : Type 0} (Stands : S → MemoryStore → Type 0) {A : Type 0} where
  -- The method ends as it does on the memory store, or it rejects, and what stands is what some
  -- of its calls have left there.
  abbrev pub FailsClosed : Task A → MemoryStore → Result A × S → Type 0
  FailsClosed t m p =
      ((p.0 ≡ (run t m).0) × Stands p.1 (run t m).1)
      ⊎ ((e : Error) × (p.0 ≡ throws e) × (n : ℕ) × Stands p.1 (reached n t m))

  later :
      (t : Task A) (m : MemoryStore) (p : Result A × S)
      → FailsClosed (advance t m).0 (advance t m).1 p
      → FailsClosed t m p
  unfolding reached
  later t m p (inl (same, h)) =
      inl (subst (λ x. (p.0 ≡ x.0) × Stands p.1 x.1) (run-advance t m) (same, h))
  later t m p (inr (e, same, n, h)) = inr (e, same, suc n, h)

  settled :
      {B : Type 0} (k : B → Task A) (f : B → S → Result A × S) (t : Task A) (m : MemoryStore)
      (p : B × MemoryStore) (answer : Result B × S)
      → advance t m ≡ (k p.0, p.1)
      → ((b : B) (s : S) (m : MemoryStore) → Stands s m → FailsClosed (k b) m (f b s))
      → Answers Stands m p answer
      → FailsClosed t m (after_call answer f)
  unfolding reached
  settled k f t m p (ok b, s) step rest (same, h) = later t m _ (
      subst (λ x. FailsClosed x.0 x.1 (f b s)) (sym step)
        (subst (λ c. FailsClosed (k c) p.1 (f b s)) same (rest b s p.1 h)))
  settled k f t m p (throws e, s) step rest (inl h) = inr (e, refl, 0, h)
  settled k f t m p (throws e, s) step rest (inr h) =
      inr (e, refl, 1, subst (Stands s) (ap (λ x. x.1) (sym step)) h)

  stored :
      (r : TokenRecord) (t : Task A) (f : S → Result A × S) (m : MemoryStore)
      (answer : Result (Unit {0}) × S)
      → ((s : S) (m : MemoryStore) → Stands s m → FailsClosed t m (f s))
      → Inserts Stands m r answer
      → FailsClosed (ask_insert r t) m (after_call answer (λ _. f))
  unfolding reached advance
  stored r t f m (ok _, s) rest (same, h) = later (ask_insert r t) m _ (
      subst (λ x. FailsClosed (resume_insert x t) (insert r m).1 (f s)) (sym same)
        (rest s (insert r m).1 h))
  stored r t f m (throws e, s) rest (inl h) = inr (e, refl, 0, h)
  stored r t f m (throws e, s) rest (inr h) = inr (e, refl, 1, h)

  pub run_on-FailsClosed :
      (store : RefreshTokenStore S)
      → IsConforming Stands store
      → (t : Task A) (s : S) (m : MemoryStore) → Stands s m
      → FailsClosed t m (run_on store t s)
  unfolding run_on advance run
  run_on-FailsClosed store c (done a) s m h = inl (refl, h)
  run_on-FailsClosed store c (reject e) s m h = inl (refl, h)
  run_on-FailsClosed store c (ask_find selector k) s m h =
      settled k _ _ m _ _ refl (λ b. run_on-FailsClosed store c (k b)) (c.finds selector h)
  run_on-FailsClosed store c (ask_insert r t) s m h =
      stored r t _ m _ (run_on-FailsClosed store c t) (c.inserts r h)
  run_on-FailsClosed store c (ask_mark_rotated selector from_status rotated_at replaced_by k) s m
        h =
      settled k _ _ m _ _ refl (λ b. run_on-FailsClosed store c (k b))
        (c.marks selector from_status rotated_at replaced_by h)
  run_on-FailsClosed store c (ask_revoke_if_active selector k) s m h =
      settled k _ _ m _ _ refl (λ b. run_on-FailsClosed store c (k b)) (c.revokes selector h)
  run_on-FailsClosed store c (ask_revoke_family family_id k) s m h =
      settled k _ _ m _ _ refl (λ b. run_on-FailsClosed store c (k b))
        (c.revokes_family family_id h)
  run_on-FailsClosed store c (ask_revoke_user user_id k) s m h =
      settled k _ _ m _ _ refl (λ b. run_on-FailsClosed store c (k b)) (c.revokes_user user_id h)
