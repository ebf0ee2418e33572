-- ===== src/Store/Interface.antt =====
-- `RefreshTokenStore` of packages/typescript/src/index.ts, the interface that a caller implements
-- over a database, and what the engine relies on. A call of a store may be rejected.
use nebula_token.Common.{ℕ, ◌≡◌, Bool, ◌⊎◌, Option, Text}
use nebula_token.Errors.{Result, ok, throws}
use nebula_token.Store.Rows.{TokenStatus, TokenRecord}
use nebula_token.Store.{
  MemoryStore, find_by_selector, insert, mark_rotated, revoke_if_active, revoke_family, revoke_user,
}

pub record RefreshTokenStore (S : Type 0) : Type 0 where
  pub find_by_selector : Text → S → Result (Option TokenRecord) × S
  pub insert : TokenRecord → S → Result (Unit {0}) × S
  pub mark_rotated : Text → TokenStatus → ℕ → Text → S → Result Bool × S
  pub revoke_if_active : Text → S → Result Bool × S
  pub revoke_family : Text → S → Result ℕ × S
  pub revoke_user : Text → S → Result ℕ × S

module _ {S : Type 0} (Stands : S → MemoryStore → Type 0) where
  -- A call answers as the memory store does and then stands for the store that this leaves, or it
  -- is rejected, and its write is applied or not.
  abbrev pub Answers : {A : Type 0} → MemoryStore → A × MemoryStore → Result A × S → Type 0
  Answers m p (ok a, s) = (a ≡ p.0) × Stands s p.1
  Answers m p (throws e, s) = Stands s m ⊎ Stands s p.1

  -- `insert` has nothing to answer, and is rejected at least where the memory store throws.
  abbrev pub Inserts : MemoryStore → TokenRecord → Result (Unit {0}) × S → Type 0
  Inserts m r (ok _, s) = ((insert r m).0 ≡ ok tt) × Stands s (insert r m).1
  Inserts m r (throws e, s) = Stands s m ⊎ Stands s (insert r m).1

  -- The contract of section 4 of SPECIFICATION.md: the selector is a primary key, `markRotated` and
  -- `revokeIfActive` compare and set, and the revoking methods revoke and count. `Stands s m` says which records the state `s` holds.
  pub record IsConforming (store : RefreshTokenStore S) : Type 0 where
    pub finds :
        (k : Text) {s : S} {m : MemoryStore}
        → Stands s m
        → Answers m (find_by_selector k m, m) (store.find_by_selector k s)
    pub inserts :
        (r : TokenRecord) {s : S} {m : MemoryStore} → Stands s m → Inserts m r (store.insert r s)
    pub marks :
        (k : Text) (from_status : TokenStatus) (rotated_at : ℕ) (next : Text) {s : S}
        {m : MemoryStore}
        → Stands s m
        → Answers m
            (mark_rotated k from_status rotated_at next m)
            (store.mark_rotated k from_status rotated_at next s)
    pub revokes :
        (k : Text) {s : S} {m : MemoryStore}
        → Stands s m
        → Answers m (revoke_if_active k m) (store.revoke_if_active k s)
    pub revokes_family :
        (id : Text) {s : S} {m : MemoryStore}
        → Stands s m
        → Answers m (revoke_family id m) (store.revoke_family id s)
    pub revokes_user :
        (id : Text) {s : S} {m : MemoryStore}
        → Stands s m
        → Answers m (revoke_user id m) (store.revoke_user id s)

-- `MemoryRefreshTokenStore implements RefreshTokenStore`
abbrev pub memory_store : RefreshTokenStore MemoryStore
memory_store = record {
  find_by_selector = λ k s. (ok (find_by_selector k s), s);
  insert = insert;
  mark_rotated = λ k from_status rotated_at next s.
      let p = mark_rotated k from_status rotated_at next s in (ok p.0, p.1);
  revoke_if_active = λ k s. let p = revoke_if_active k s in (ok p.0, p.1);
  revoke_family = λ id s. let p = revoke_family id s in (ok p.0, p.1);
  revoke_user = λ id s. let p = revoke_user id s in (ok p.0, p.1);
}
