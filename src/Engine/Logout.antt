-- ===== src/Engine/Logout.antt =====
-- Logging out: `revokeToken`, and what a refresh is answered after it.
use nebula_token.Common.{ℕ, ◌≡◌, refl, sym, ap, ◌∙◌, Option, some, Text, same_text_iff}
use mathlib.Core.Path.{subst}
use nebula_token.Errors.{Result, ok}
use nebula_token.Digest.{Hmac}
use nebula_token.Config.{NebulaEngine}
use nebula_token.Store.Rows.{TokenRecord}
use nebula_token.Store.{MemoryStore, find_by_selector, revoke_family, revoke_row}
use nebula_token.Store.Family.{FamilyRevoked, revoke_family-FamilyRevoked}
use nebula_token.Store.Laws.{find-revoke_family}
use nebula_token.Task.{Task, run}
use nebula_token.Engine.Mint.{Draw}
use nebula_token.Engine.Results.{
  ErrorCode, verifier_mismatch, revoked_token, failure, RevokeResult, revoked_family,
  revoke_failure, unattributed, fail,
}
use nebula_token.Engine.Outcome.{UnresolvedReason, Names, Proves}
use nebula_token.Engine.Session.{refresh-run}
use nebula_token.Engine.{revoke_token, revoke_found, refresh, refresh_proved}

module _ (hmac : Hmac) (e : NebulaEngine) (token : Text) (s : MemoryStore) where
  -- What `revokeToken` may do, and why.
  pub data LogoutOutcome (p : Result RevokeResult × MemoryStore) : Type 0 where
    unresolved :
        (code : ErrorCode)
        → UnresolvedReason hmac e token s code
        → p ≡ (ok (revoke_failure (unattributed code)), s)
        → LogoutOutcome p
    unproved :
        (r : TokenRecord)
        → Names hmac e token s r
        → ((pepper : Text) → ¬ Proves hmac e token s r pepper)
        → p ≡ (ok (revoke_failure (fail verifier_mismatch r)), s)
        → LogoutOutcome p
    logged_out :
        (r : TokenRecord) (pepper : Text)
        → Proves hmac e token s r pepper
        → p ≡ (
          ok (revoked_family r.user_id r.family_id (revoke_family r.family_id s).0),
          (revoke_family r.family_id s).1,
        )
        → LogoutOutcome p

module _ (hmac : Hmac) (e : NebulaEngine) (token : Text) (s : MemoryStore) (r : TokenRecord)
    (pepper : Text) (proved : Proves hmac e token s r pepper) where
  found_task :
      revoke_found hmac e proved.names.parsed (some r)
      ≡ Task.ask_revoke_family r.family_id (λ n. Task.done (revoked_family r.user_id r.family_id n))
  unfolding revoke_found
  found_task = rw (proved.has_pepper, proved.matches, revoke_found)

  revoke_task :
      revoke_token hmac e token
      ≡ Task.ask_find proved.names.parsed.selector (revoke_found hmac e proved.names.parsed)
  unfolding revoke_token
  revoke_task = rw (proved.names.parses, proved.names.known_kid, revoke_token)

  find_run :
      run (Task.ask_find proved.names.parsed.selector (revoke_found hmac e proved.names.parsed)) s
      ≡ run (revoke_found hmac e proved.names.parsed (some r)) s
  unfolding run
  find_run = ap (λ o. run (revoke_found hmac e proved.names.parsed o) s) proved.names.found

  revoke_run :
      run
        (Task.ask_revoke_family r.family_id
          (λ n. Task.done (revoked_family r.user_id r.family_id n)))
        s
      ≡ (
        ok (revoked_family r.user_id r.family_id (revoke_family r.family_id s).0),
        (revoke_family r.family_id s).1,
      )
  unfolding run
  revoke_run = refl

  logout-run : run (revoke_token hmac e token) s ≡ (
    ok (revoked_family r.user_id r.family_id (revoke_family r.family_id s).0),
    (revoke_family r.family_id s).1,
  )
  logout-run = ap (λ t. run t s) revoke_task ∙ find_run ∙ ap (λ t. run t s) found_task ∙ revoke_run

  found_revoked :
      find_by_selector proved.names.parsed.selector (revoke_family r.family_id s).1
      ≡ some (revoke_row r)
  found_revoked =
      find-revoke_family proved.names.parsed.selector r.family_id s
      ∙ rw (proved.names.found) (rw ((same_text_iff r.family_id r.family_id).1 refl) refl)

  refused :
      (draw : Draw) (device : Option Text) (now : ℕ)
      → run (refresh hmac e draw token device now) (revoke_family r.family_id s).1
        ≡ (ok (failure (fail revoked_token r)), (revoke_family r.family_id s).1)
  unfolding run refresh_proved
  refused draw device now =
      refresh-run hmac e token (revoke_family r.family_id s).1 draw device now proved.names.parsed
        (revoke_row r) pepper proved.names.parses proved.names.known_kid found_revoked
        proved.has_pepper proved.matches

-- A token that proves the verifier of a record, whatever that record's status, logs its session
-- out: `revokeToken` revokes every record of the family and returns the number that it changed,
-- and a refresh with the same token after it, on any device and at any time, is answered by REVOKED
-- and leaves the store as it is.
pub logout-refresh :
    (hmac : Hmac) (e : NebulaEngine) (token : Text) (s : MemoryStore) (r : TokenRecord)
    (pepper : Text) (draw : Draw) (device : Option Text) (now : ℕ)
    → Proves hmac e token s r pepper
    → ((run (revoke_token hmac e token) s).0
        ≡ ok (revoked_family r.user_id r.family_id (revoke_family r.family_id s).0))
      × FamilyRevoked r.family_id (run (revoke_token hmac e token) s).1
      × (run (refresh hmac e draw token device now) (run (revoke_token hmac e token) s).1
          ≡ (ok (failure (fail revoked_token r)), (run (revoke_token hmac e token) s).1))
logout-refresh hmac e token s r pepper draw device now proved =
    let out = logout-run hmac e token s r pepper proved in
    (
      ap (λ x. x.0) out,
      subst (λ x. FamilyRevoked r.family_id x.1) (sym out)
          (revoke_family-FamilyRevoked r.family_id s),
      subst
          (λ x.
            run (refresh hmac e draw token device now) x.1
            ≡ (ok (failure (fail revoked_token r)), x.1))
          (sym out) (refused hmac e token s r pepper proved draw device now),
    )
