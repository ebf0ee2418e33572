-- ===== src/Task.antt =====
-- An `async` method of `NebulaEngine` as the calls of the store that it awaits: between two of them
-- other methods may run. `run` carries a task out with no other in between, on the memory store.
pub mod Schedule
pub mod Conforming
pub mod Alone
use nebula_token.Common.{ℕ, Bool, Option, Text}
use nebula_token.Errors.{Error, Result, ok, throws}
use nebula_token.Store.Rows.{TokenStatus, TokenRecord}
use nebula_token.Store.{
  MemoryStore, find_by_selector, insert, mark_rotated, revoke_if_active, revoke_family, revoke_user,
}

-- `done` resolves the promise and `reject` rejects it.
pub data Task (A : Type 0) : Type 0 where
  done : A → Task A
  reject : Error → Task A
  ask_find : Text → (Option TokenRecord → Task A) → Task A
  ask_insert : TokenRecord → Task A → Task A
  ask_mark_rotated : Text → TokenStatus → ℕ → Text → (Bool → Task A) → Task A
  ask_revoke_if_active : Text → (Bool → Task A) → Task A
  ask_revoke_family : Text → (ℕ → Task A) → Task A
  ask_revoke_user : Text → (ℕ → Task A) → Task A

-- A synchronous step that may throw.
abbrev pub attempt : {A B : Type 0} → Result A → (A → Task B) → Task B
attempt (ok a) k = k a
attempt (throws e) k = reject e

-- The rejection of `insert` propagates: nothing after it runs.
abbrev pub after_insert {ℓ} :
    {B : Type ℓ}
    → Result (Unit {0}) × MemoryStore
    → (MemoryStore → Result B × MemoryStore)
    → Result B × MemoryStore
after_insert (ok _, s) k = k s
after_insert (throws e, s) k = (throws e, s)

unfoldable pub run : {A : Type 0} → Task A → MemoryStore → Result A × MemoryStore
run (done a) s = (ok a, s)
run (reject e) s = (throws e, s)
run (ask_find selector k) s = run (k (find_by_selector selector s)) s
run (ask_insert r t) s = after_insert (insert r s) (run t)
run (ask_mark_rotated selector from_status rotated_at replaced_by k) s =
    let (won, s') = mark_rotated selector from_status rotated_at replaced_by s in run (k won) s'
run (ask_revoke_if_active selector k) s =
    let (won, s') = revoke_if_active selector s in run (k won) s'
run (ask_revoke_family family_id k) s = let (n, s') = revoke_family family_id s in run (k n) s'
run (ask_revoke_user user_id k) s = let (n, s') = revoke_user user_id s in run (k n) s'
