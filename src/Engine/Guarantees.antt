-- ===== src/Engine/Guarantees.antt =====
-- What follows from the specification of `refresh` for a refusal: who may change the store, and what
-- each code says.
use nebula_token.Common.{ℕ, ◌≡◌, refl, sym, ap, ◌∙◌, ◌⊎◌, inl, inr, Option, none, some, Text}
use mathlib.Core.Path.{subst}
use nebula_token.Errors.{Result, ok}
use nebula_token.Digest.{Hmac}
use nebula_token.Config.{NebulaEngine}
use nebula_token.Store.Rows.{TokenRecord}
use nebula_token.Store.{MemoryStore, find_by_selector, revoke_family}
use nebula_token.Store.Invariant.{IsSound}
use nebula_token.Store.Family.{
  FamilyRevoked, IsSwept, of_family, revoke_family-Revokes, revoke_family-FamilyRevoked,
}
use nebula_token.Task.{run}
use nebula_token.Engine.Mint.{Draw, selector_text}
use nebula_token.Engine.Results.{
  ErrorCode, malformed, unknown_kid, not_found, verifier_mismatch, reuse_detected, revoked_token,
  expired_absolute, expired_idle, device_mismatch, conflict, RefreshResult, RefreshFailure, failure,
  unattributed, fail,
}
use nebula_token.Engine.Outcome.{Names, Proves, unresolved, quiet, burned, advanced, retried}
use nebula_token.Engine.Outcome
use nebula_token.Engine.Outcome.Proof.{refresh-Outcome}
use nebula_token.Engine.{refresh}

failure_injective :
    {f g : RefreshFailure}
    → ◌≡◌ {A = Result RefreshResult} (ok (failure f)) (ok (failure g))
    → f ≡ g
failure_injective h = cc

module _ (hmac : Hmac) (e : NebulaEngine) (token : Text) (s : MemoryStore) (draw : Draw)
    (device : Option Text) (now : ℕ) where
  abbrev Met : Result RefreshResult × MemoryStore → Type 0
  Met = Outcome.Outcome hmac e token s draw device now

  -- The call changes the store only for a token that proves the verifier of a record.
  Met-authenticated :
      {p : Result RefreshResult × MemoryStore}
      → Met p
      → (p.1 ≡ s) ⊎ ((r : TokenRecord) × (pepper : Text) × Proves hmac e token s r pepper)
  Met-authenticated (unresolved code u h) = inl (ap (λ x. x.1) h)
  Met-authenticated (quiet r code n q h) = inl (ap (λ x. x.1) h)
  Met-authenticated (burned r pepper code pr b h) = inr (r, pepper, pr)
  Met-authenticated (advanced r pepper b pr st a i d nb h rot) = inr (r, pepper, pr)
  Met-authenticated (retried r q pepper t b pr st g d nb h rot) = inr (r, pepper, pr)

  -- What a failure says, by its code.
  abbrev pub IsAttributed : RefreshFailure → Type 0
  IsAttributed f =
      (r : TokenRecord) × Names hmac e token s r
      × (f.user_id ≡ some r.user_id)
      × (f.family_id ≡ some r.family_id)

  -- The family is revoked, and the records of other families are as they were.
  abbrev pub IsBurned : RefreshFailure → MemoryStore → Type 0
  IsBurned f s' =
      (id : Text) × (f.family_id ≡ some id) × FamilyRevoked id s' × IsSwept (of_family id) s s'

  abbrev pub Refused : ErrorCode → RefreshFailure → MemoryStore → Type 0
  Refused malformed f s' = (s' ≡ s) × (f.user_id ≡ none) × (f.family_id ≡ none)
  Refused unknown_kid f s' = (s' ≡ s) × (f.user_id ≡ none) × (f.family_id ≡ none)
  Refused not_found f s' = (s' ≡ s) × (f.user_id ≡ none) × (f.family_id ≡ none)
  Refused verifier_mismatch f s' = (s' ≡ s) × IsAttributed f
  Refused revoked_token f s' = (s' ≡ s) × IsAttributed f
  Refused reuse_detected f s' = IsBurned f s' × IsAttributed f
  Refused expired_absolute f s' = IsBurned f s' × IsAttributed f
  Refused expired_idle f s' = IsBurned f s' × IsAttributed f
  Refused device_mismatch f s' = IsBurned f s' × IsAttributed f
  Refused conflict f s' = ⊥

  unresolved-Refused :
      (code : ErrorCode)
      → Outcome.UnresolvedReason hmac e token s code
      → Refused code (unattributed code) s
  unresolved-Refused malformed u = (refl, refl, refl)
  unresolved-Refused unknown_kid u = (refl, refl, refl)
  unresolved-Refused not_found u = (refl, refl, refl)
  unresolved-Refused code u = absurd u

  quiet-Refused :
      (r : TokenRecord) (code : ErrorCode)
      → Names hmac e token s r
      → Outcome.QuietReason hmac e token s draw device now r code
      → Refused code (fail code r) s
  quiet-Refused r verifier_mismatch n q = (refl, (r, n, refl, refl))
  quiet-Refused r revoked_token n q = (refl, (r, n, refl, refl))
  quiet-Refused r code n q = absurd q

  family-IsBurned :
      (r : TokenRecord) (code : ErrorCode) → IsBurned (fail code r) (revoke_family r.family_id s).1
  family-IsBurned r code = (
    r.family_id,
    refl,
    revoke_family-FamilyRevoked r.family_id s,
    (revoke_family-Revokes r.family_id s).0,
  )

  burned-Refused :
      (r : TokenRecord) (pepper : Text) (code : ErrorCode)
      → Names hmac e token s r
      → Outcome.BurnReason hmac e token s draw device now r pepper code
      → Refused code (fail code r) (revoke_family r.family_id s).1
  burned-Refused r pepper reuse_detected n b =
      (family-IsBurned r reuse_detected, (r, n, refl, refl))
  burned-Refused r pepper expired_absolute n b =
      (family-IsBurned r expired_absolute, (r, n, refl, refl))
  burned-Refused r pepper expired_idle n b = (family-IsBurned r expired_idle, (r, n, refl, refl))
  burned-Refused r pepper device_mismatch n b =
      (family-IsBurned r device_mismatch, (r, n, refl, refl))
  burned-Refused r pepper code n b = absurd b

  carry :
      (f g : RefreshFailure) (s' : MemoryStore) (p : Result RefreshResult × MemoryStore)
      → p ≡ (ok (failure g), s')
      → p.0 ≡ ok (failure f)
      → Refused g.error g s'
      → Refused f.error f p.1
  carry f g s' p e h k =
      let same : g ≡ f = failure_injective (sym (ap (λ x. x.0) e) ∙ h) in
      rw (ap (λ x. x.1) e) (subst (λ x. Refused x.error x s') same k)

  Met-Refused :
      (f : RefreshFailure) {p : Result RefreshResult × MemoryStore}
      → Met p
      → p.0 ≡ ok (failure f)
      → Refused f.error f p.1
  Met-Refused f {p} (unresolved code u e) h = carry f _ _ p e h (unresolved-Refused code u)
  Met-Refused f {p} (quiet r code n q e) h = carry f _ _ p e h (quiet-Refused r code n q)
  Met-Refused f {p} (burned r pepper code pr b e) h =
      carry f _ _ p e h (burned-Refused r pepper code pr.names b)
  Met-Refused f (advanced r pepper b pr st a i d nb e rot) h = cc
  Met-Refused f (retried r q pepper t b pr st g d nb e rot) h = cc

-- `refresh`, run alone on a sound store with a new selector, changes the store only if the token
-- proves the verifier of a stored record: the selector alone costs nobody a session.
pub refresh-authenticated :
    (hmac : Hmac) (e : NebulaEngine) (token : Text) (s : MemoryStore) (draw : Draw)
    (device : Option Text) (now : ℕ)
    → IsSound s
    → find_by_selector (selector_text draw) s ≡ none
    → ((run (refresh hmac e draw token device now) s).1 ≡ s)
      ⊎ ((r : TokenRecord) × (pepper : Text) × Proves hmac e token s r pepper)
refresh-authenticated hmac e token s draw device now sound fresh =
    Met-authenticated hmac e token s draw device now
      (refresh-Outcome hmac e token s draw device now sound fresh)

-- A refusal by `refresh`, by its code. With MALFORMED, UNKNOWN_KID and NOT_FOUND the store is as it
-- was and the failure names nobody; with VERIFIER_MISMATCH and REVOKED the store is as it was, and
-- with REUSE_DETECTED, EXPIRED_ABSOLUTE, EXPIRED_IDLE and DEVICE_MISMATCH every record of the
-- family is revoked and no other record is changed; in these six cases the failure names the user
-- and the family of the record that the token names. CONFLICT does not occur. (The call runs
-- alone, on a sound store, with a new selector.)
pub refresh-Refused :
    (hmac : Hmac) (e : NebulaEngine) (token : Text) (s : MemoryStore) (draw : Draw)
    (device : Option Text) (now : ℕ) (f : RefreshFailure)
    → IsSound s
    → find_by_selector (selector_text draw) s ≡ none
    → (run (refresh hmac e draw token device now) s).0 ≡ ok (failure f)
    → Refused hmac e token s draw device now f.error f
        (run (refresh hmac e draw token device now) s).1
refresh-Refused hmac e token s draw device now f sound fresh h =
    Met-Refused hmac e token s draw device now f
      (refresh-Outcome hmac e token s draw device now sound fresh) h
