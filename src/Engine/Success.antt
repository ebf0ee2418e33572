-- ===== src/Engine/Success.antt =====
-- What follows from the specification of `refresh` for a success.
use nebula_token.Common.{
  ℕ, ◌+◌, ◌≤◌, ◌<◌, ◌≡◌, refl, sym, ap, ◌∙◌, false, Option, none, some, some-ne-none, same_text,
  same_text_iff, same_text_refl, arith, Text,
}
use mathlib.Core.Path.{subst}
use nebula_token.Errors.{Result, ok}
use nebula_token.Digest.{Hmac}
use nebula_token.Config.{NebulaEngine}
use nebula_token.Store.Rows.{active, TokenRecord}
use nebula_token.Store.{MemoryStore, find_by_selector, revoke_if_active, rotate_row}
use nebula_token.Store.Invariant.{IsSound}
use nebula_token.Task.{run}
use nebula_token.Engine.Mint.{Draw, selector_text, mint}
use nebula_token.Engine.Results.{IssueResult, RefreshResult, success}
use nebula_token.Engine.Rotation.{minted, issued, IsRotation}
use nebula_token.Engine.Outcome.{Names, Proves, unresolved, quiet, burned, advanced, retried}
use nebula_token.Engine.Outcome
use nebula_token.Engine.Outcome.Proof.{refresh-Outcome}
use nebula_token.Engine.{refresh, device_refused}

pub success_injective :
    {a b : IssueResult} → ◌≡◌ {A = Result RefreshResult} (ok (success a)) (ok (success b)) → a ≡ b
success_injective h = cc

module _ (hmac : Hmac) (e : NebulaEngine) (token : Text) (s : MemoryStore) (draw : Draw)
    (device : Option Text) (now : ℕ) where
  abbrev Met : Result RefreshResult × MemoryStore → Type 0
  Met = Outcome.Outcome hmac e token s draw device now

  -- What a success has checked, and what it leaves: the presented record is rotated in favour of
  -- the new one, which is active, in the same family, one generation on, and bounded by the
  -- family's deadline.
  pub record Succeeded (result : IssueResult) (s' : MemoryStore) : Type 0 where
    pub old : TokenRecord
    pub pepper : Text
    pub proved : Proves hmac e token s old pepper
    pub alive : now < old.family_expires_at
    pub bound : device_refused hmac e old pepper device ≡ ok false
    pub next : TokenRecord
    pub rotated_at : ℕ
    pub spent : find_by_selector old.selector s' ≡ some (rotate_row rotated_at next.selector old)
    pub stored : find_by_selector next.selector s' ≡ some next
    pub is_active : next.status ≡ active
    pub fresh_selector : next.selector ≡ selector_text draw
    pub same_family : (next.family_id ≡ old.family_id) × (result.family_id ≡ old.family_id)
    pub same_user : (next.user_id ≡ old.user_id) × (result.user_id ≡ old.user_id)
    pub one_on : (next.generation ≡ old.generation + 1) × (result.generation ≡ next.generation)
    pub same_deadline :
        (next.family_expires_at ≡ old.family_expires_at)
        × (result.expires_at ≡ old.family_expires_at)
    pub idle_bounded :
        (result.idle_expires_at ≤ result.expires_at)
        × (result.idle_expires_at ≤ now + e.idle_ttl)
        × (next.idle_expires_at ≡ result.idle_expires_at)

  module _ (fresh : find_by_selector (selector_text draw) s ≡ none) (sound : IsSound s)
      (r : TokenRecord) (pepper : Text) (rotated_at : ℕ) (binding : Option Text)
      (u s' : MemoryStore) (proved : Proves hmac e token s r pepper)
      (alive : now < r.family_expires_at) (good : device_refused hmac e r pepper device ≡ ok false)
      (rot : IsRotation r rotated_at (minted hmac e draw r binding now).1 u s') where
    abbrev new_record : TokenRecord
    new_record = (minted hmac e draw r binding now).1

    new_selector : new_record.selector ≡ selector_text draw
    unfolding mint
    new_selector = refl

    not_old : same_text r.selector new_record.selector ≡ false
    not_old = ground (
      arith,
      same_text_iff r.selector new_record.selector,
      λ (same : r.selector ≡ new_record.selector). some-ne-none (
          sym proved.names.found
          ∙ ap (λ k. find_by_selector k s)
              (sym (sound proved.names.parsed.selector r proved.names.found).keyed
                ∙ same
                ∙ new_selector)
          ∙ fresh),
    )

    Succeeded-minted : Succeeded (issued (minted hmac e draw r binding now) r) s'
    unfolding mint
    Succeeded-minted = record {
      old = r;
      pepper = pepper;
      proved = proved;
      alive = alive;
      bound = good;
      next = new_record;
      rotated_at = rotated_at;
      spent = rot r.selector ∙ rw (same_text_refl r.selector);
      stored = rot new_record.selector ∙ rw (not_old, same_text_refl new_record.selector);
      is_active = refl;
      fresh_selector = refl;
      same_family = (refl, refl);
      same_user = (refl, refl);
      one_on = (refl, refl);
      same_deadline = (refl, refl);
      idle_bounded = (omega arith, omega arith, refl);
    }

  Met-Succeeded :
      (result : IssueResult) (p : Result RefreshResult × MemoryStore)
      → find_by_selector (selector_text draw) s ≡ none
      → IsSound s
      → Met p
      → p.0 ≡ ok (success result)
      → Succeeded result p.1
  Met-Succeeded result p fresh sound (unresolved code u e) h = cc
  Met-Succeeded result p fresh sound (quiet r code n q e) h = cc
  Met-Succeeded result p fresh sound (burned r pepper code pr b e) h = cc
  Met-Succeeded result p fresh sound (advanced r pepper b pr st a i d nb res rot) h =
      subst (λ x. Succeeded x p.1) (success_injective (sym res ∙ h))
        (Succeeded-minted fresh sound r pepper now b s p.1 pr a d rot)
  Met-Succeeded result p fresh sound (retried r q pepper t b pr st g d nb res rot) h =
      subst (λ x. Succeeded x p.1) (success_injective (sym res ∙ h))
        (Succeeded-minted fresh sound r pepper t b (revoke_if_active q.selector s).1 p.1 pr
          g.family_open d rot)

-- A success of `refresh`, run alone on a sound store with a new selector: the token proved the
-- verifier of a stored record before its family's deadline and passed its device binding; that
-- record is now rotated in favour of the new record, which is stored, active, in the same family,
-- of the same user and one generation on; and the deadline of the family is passed on unchanged and
-- bounds the idle deadline, which is at most the idle time from now.
pub refresh-Succeeded :
    (hmac : Hmac) (e : NebulaEngine) (token : Text) (s : MemoryStore) (draw : Draw)
    (device : Option Text) (now : ℕ) (result : IssueResult)
    → IsSound s
    → find_by_selector (selector_text draw) s ≡ none
    → (run (refresh hmac e draw token device now) s).0 ≡ ok (success result)
    → Succeeded hmac e token s draw device now result
        (run (refresh hmac e draw token device now) s).1
refresh-Succeeded hmac e token s draw device now result sound fresh h =
    Met-Succeeded hmac e token s draw device now result _ fresh sound
      (refresh-Outcome hmac e token s draw device now sound fresh) h
