-- ===== src/Engine/Session.antt =====
-- Two calls in a row: a token that is refreshed twice, and one that is issued and then refreshed.
use nebula_token.Common.{ℕ, ◌≡◌, refl, sym, ap, ◌∙◌, true, Option, none, some, Text}
use mathlib.Core.Path.{subst}
use nebula_token.Errors.{ok}
use nebula_token.Digest.{Hmac, hash_verifier, constant_time_equal_hex}
use nebula_token.Token.{ParsedToken, str, parse_token}
use nebula_token.Config.{NebulaEngine}
use nebula_token.Store.Rows.{rotated, TokenRecord, get, has}
use nebula_token.Store.{MemoryStore, find_by_selector, revoke_family, rotate_row}
use nebula_token.Store.Invariant.{IsSound}
use nebula_token.Store.Family.{FamilyRevoked, revoke_family-FamilyRevoked}
use nebula_token.Task.{run, ask_find}
use nebula_token.Engine.Mint.{Draw, selector_text}
use nebula_token.Engine.Results.{
  reuse_detected, IssueResult, RefreshFailure, success, failure, fail,
}
use nebula_token.Engine.Success.{refresh-Succeeded}
use nebula_token.Engine.{
  refresh, refresh_found, refresh_proved, handle_reuse, within_grace, revoke_and_fail,
}

module _ (hmac : Hmac) (e : NebulaEngine) (token : Text) (s : MemoryStore) (draw : Draw)
    (device : Option Text) (now : ℕ) (parsed : ParsedToken) (r : TokenRecord) (pepper : Text)
    (parses : parse_token (str token) ≡ some parsed) (known : has parsed.kid e.peppers ≡ true)
    (found : find_by_selector parsed.selector s ≡ some r)
    (has_pepper : get r.kid e.peppers ≡ some pepper)
    (matches : constant_time_equal_hex (hash_verifier hmac pepper parsed.verifier) r.verifier_hash
      ≡ true) where
  found_task :
      refresh_found hmac e draw parsed device now (some r)
      ≡ refresh_proved hmac e r.status draw r pepper device now
  unfolding refresh_found
  found_task = rw (has_pepper, matches, refresh_found)

  refresh_task :
      refresh hmac e draw token device now
      ≡ ask_find parsed.selector (refresh_found hmac e draw parsed device now)
  unfolding refresh
  refresh_task = rw (parses, known, refresh)

  find_run :
      run (ask_find parsed.selector (refresh_found hmac e draw parsed device now)) s
      ≡ run (refresh_proved hmac e r.status draw r pepper device now) s
  unfolding run
  find_run =
      ap (λ o. run (refresh_found hmac e draw parsed device now o) s) found
      ∙ ap (λ t. run t s) found_task

  -- A token that proves the verifier of a record is judged by the record's status.
  pub refresh-run :
      run (refresh hmac e draw token device now) s
      ≡ run (refresh_proved hmac e r.status draw r pepper device now) s
  refresh-run = ap (λ t. run t s) refresh_task ∙ find_run

  strict_task :
      e.reuse_grace ≡ 0
      → handle_reuse hmac e draw r pepper device now ≡ revoke_and_fail hmac e reuse_detected r
  unfolding handle_reuse within_grace
  strict_task strict = rw (strict, handle_reuse)

  -- With no grace, a rotated record is a replay.
  pub refresh-rotated :
      e.reuse_grace ≡ 0
      → r.status ≡ rotated
      → run (refresh hmac e draw token device now) s
        ≡ (ok (failure (fail reuse_detected r)), (revoke_family r.family_id s).1)
  unfolding refresh_proved run
  refresh-rotated strict st =
      refresh-run
      ∙ ap (λ status. run (refresh_proved hmac e status draw r pepper device now) s) st
      ∙ ap (λ t. run t s) (strict_task strict)

-- Refreshing a token a second time, on the store that a first successful refresh left and with no
-- reuse grace, is answered by REUSE_DETECTED, whatever the device and the time; it revokes every
-- record of the family, the successor that the first call issued included. (The calls run one
-- after the other, the first on a sound store and with a new selector.)
pub refresh_twice :
    (hmac : Hmac) (e : NebulaEngine) (token : Text) (s : MemoryStore) (draw draw' : Draw)
    (device device' : Option Text) (now now' : ℕ) (result : IssueResult)
    → e.reuse_grace ≡ 0
    → IsSound s
    → find_by_selector (selector_text draw) s ≡ none
    → (run (refresh hmac e draw token device now) s).0 ≡ ok (success result)
    → (f : RefreshFailure) × ((run
          (refresh hmac e draw' token device' now')
          (run (refresh hmac e draw token device now) s).1).0
        ≡ ok (failure f))
      × (f.error ≡ reuse_detected)
      × (f.family_id ≡ some result.family_id)
      × FamilyRevoked result.family_id
          (run
            (refresh hmac e draw' token device' now')
            (run (refresh hmac e draw token device now) s).1).1
refresh_twice hmac e token s draw draw' device device' now now' result strict sound fresh h =
    let first = refresh-Succeeded hmac e token s draw device now result sound fresh h in
    let old = rotate_row first.rotated_at first.next.selector first.old in
    let n = first.proved.names in
    let key = (sound n.parsed.selector first.old n.found).keyed in
    let again =
      refresh-rotated hmac e token (run (refresh hmac e draw token device now) s).1 draw' device'
        now' n.parsed old first.pepper n.parses n.known_kid
        (subst (λ k. find_by_selector k (run (refresh hmac e draw token device now) s).1 ≡ some old)
          key first.spent)
        first.proved.has_pepper first.proved.matches strict refl in
    let s1 = (run (refresh hmac e draw token device now) s).1 in
    let burned = subst (FamilyRevoked result.family_id) (sym (ap (λ x. x.1) again)) (
      subst (λ id. FamilyRevoked result.family_id (revoke_family id s1).1) first.same_family.1
        (revoke_family-FamilyRevoked result.family_id s1)) in
    (fail reuse_detected old, ap (λ x. x.0) again, refl, ap some (sym first.same_family.1), burned)
