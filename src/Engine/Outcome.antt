-- ===== src/Engine/Outcome.antt =====
-- The algorithm of `refresh` as a specification: which outcomes a call may have, why, and what each
-- does to the store; and that `refresh`, run with no other call in between, has one of them.
pub mod Proof
use nebula_token.Common.{
  ℕ, ◌+◌, ◌≤◌, ◌<◌, ◌≡◌, ◌≢◌, ◌↔◌, refl, sym, ap, ◌∙◌, ◌⊎◌, inl, inr, Bool, true, false, not, leb,
  ltb, if◌then◌else◌, Option-cases, Bool-cases, Option, none, some, some_injective, same_text,
  same_text_iff, same_text_refl, arith, Text, min, leb→le,
}
use mathlib.Core.Path.{subst, ap₂}
use nebula_token.Errors.{Result, ok, throws}
use nebula_token.Digest.{Hmac, hash_verifier, constant_time_equal_hex}
use nebula_token.Token.{ParsedToken, str, parse_token}
use nebula_token.Config.{NebulaEngine}
use nebula_token.Store.Rows.{
  TokenStatus, active, rotated, revoked, TokenRecord, same_status, get, has,
}
use nebula_token.Store.{
  MemoryStore, find_by_selector, revoke_if_active, revoke_family, compare_and_set, revoke_row,
}
use nebula_token.Store.Laws.{compare_and_set-applied, same_status_iff, same_status-ne}
use nebula_token.Store.Invariant.{IsSound, IsRow}
use nebula_token.Task.{Task, run, attempt, ask_revoke_if_active, done}
use nebula_token.Engine.Mint.{Draw, selector_text}
use nebula_token.Engine.Results.{
  ErrorCode, malformed, unknown_kid, not_found, verifier_mismatch, reuse_detected, revoked_token,
  expired_absolute, expired_idle, device_mismatch, conflict, RefreshResult, success, failure,
  unattributed, fail,
}
use nebula_token.Engine.Rotation.{
  device_refused-ok, next_binding-ok, minted, issued, IsRotation, rotate-run,
}
use nebula_token.Engine.{
  device_refused, next_binding, within_grace, retry_in_grace, reuse_found, handle_reuse,
  refresh_active, refresh_proved, refresh_found, refresh, rotate,
}

module _ (hmac : Hmac) (e : NebulaEngine) (token : Text) (s : MemoryStore) where
  -- The token names the record.
  pub record Names (r : TokenRecord) : Type 0 where
    pub parsed : ParsedToken
    pub parses : parse_token (str token) ≡ some parsed
    pub known_kid : has parsed.kid e.peppers ≡ true
    pub found : find_by_selector parsed.selector s ≡ some r

  -- Why a call resolves no record that it could check the token against.
  abbrev pub UnresolvedReason : ErrorCode → Type 0
  UnresolvedReason malformed = parse_token (str token) ≡ none
  UnresolvedReason unknown_kid =
      ((parsed : ParsedToken) × (parse_token (str token) ≡ some parsed)
        × (has parsed.kid e.peppers ≡ false))
      ⊎ ((r : TokenRecord) × Names r × (get r.kid e.peppers ≡ none))
  UnresolvedReason not_found =
      (parsed : ParsedToken) × (parse_token (str token) ≡ some parsed)
      × (has parsed.kid e.peppers ≡ true)
      × (find_by_selector parsed.selector s ≡ none)
  UnresolvedReason _ = ⊥

  -- And it proves the record's verifier, under the pepper of the record's kid.
  pub record Proves (r : TokenRecord) (pepper : Text) : Type 0 where
    pub names : Names r
    pub has_pepper : get r.kid e.peppers ≡ some pepper
    pub matches :
        constant_time_equal_hex (hash_verifier hmac pepper names.parsed.verifier) r.verifier_hash
        ≡ true

  module _ (draw : Draw) (device : Option Text) (now : ℕ) where
    -- Why a call is refused with the store left alone.
    abbrev pub QuietReason : TokenRecord → ErrorCode → Type 0
    QuietReason r verifier_mismatch =
        (pepper : Text) → get r.kid e.peppers ≡ some pepper → ¬ Proves r pepper
    QuietReason r revoked_token = r.status ≡ revoked
    QuietReason r _ = ⊥

    -- A grace period is configured and still runs for the record, rotated at that time, whose
    -- successor is stored and has not been used.
    pub record GraceOpen (r q : TokenRecord) (rotated_at : ℕ) : Type 0 where
      pub configured : 0 < e.reuse_grace
      pub moment : r.rotated_at ≡ some rotated_at
      pub window : now ≤ rotated_at + e.reuse_grace
      pub family_open : now < r.family_expires_at
      pub successor : r.replaced_by_selector ≡ some q.selector
      pub stored : find_by_selector q.selector s ≡ some q
      pub unused : q.status ≡ active

    -- The device decides: an active record in time, or a rotated one in its grace period.
    abbrev pub IsDue : TokenRecord → Type 0
    IsDue r =
        ((r.status ≡ active) × (now < r.family_expires_at) × (now < r.idle_expires_at))
        ⊎ ((q : TokenRecord) × (rotated_at : ℕ) × (r.status ≡ rotated) × GraceOpen r q rotated_at)

    -- Why a call costs the family its session.
    abbrev pub BurnReason : TokenRecord → Text → ErrorCode → Type 0
    BurnReason r pepper reuse_detected =
        (r.status ≡ rotated) × ((q : TokenRecord) (rotated_at : ℕ) → ¬ GraceOpen r q rotated_at)
    BurnReason r pepper expired_absolute = (r.status ≡ active) × (r.family_expires_at ≤ now)
    BurnReason r pepper expired_idle =
        (r.status ≡ active) × (r.idle_expires_at ≤ now) × (now < r.family_expires_at)
    BurnReason r pepper device_mismatch =
        IsDue r × (device_refused hmac e r pepper device ≡ ok true)
    BurnReason r pepper _ = ⊥

    pub data Outcome (p : Result RefreshResult × MemoryStore) : Type 0 where
      unresolved :
          (code : ErrorCode)
          → UnresolvedReason code
          → p ≡ (ok (failure (unattributed code)), s)
          → Outcome p
      quiet :
          (r : TokenRecord) (code : ErrorCode)
          → Names r
          → QuietReason r code
          → p ≡ (ok (failure (fail code r)), s)
          → Outcome p
      burned :
          (r : TokenRecord) (pepper : Text) (code : ErrorCode)
          → Proves r pepper
          → BurnReason r pepper code
          → p ≡ (ok (failure (fail code r)), (revoke_family r.family_id s).1)
          → Outcome p
      advanced :
          (r : TokenRecord) (pepper : Text) (binding : Option Text)
          → Proves r pepper
          → r.status ≡ active
          → now < r.family_expires_at
          → now < r.idle_expires_at
          → device_refused hmac e r pepper device ≡ ok false
          → next_binding hmac e r device ≡ ok binding
          → p.0 ≡ ok (success (issued (minted hmac e draw r binding now) r))
          → IsRotation r now (minted hmac e draw r binding now).1 s p.1
          → Outcome p
      retried :
          (r q : TokenRecord) (pepper : Text) (rotated_at : ℕ) (binding : Option Text)
          → Proves r pepper
          → r.status ≡ rotated
          → GraceOpen r q rotated_at
          → device_refused hmac e r pepper device ≡ ok false
          → next_binding hmac e r device ≡ ok binding
          → p.0 ≡ ok (success (issued (minted hmac e draw r binding now) r))
          → IsRotation r rotated_at
              (minted hmac e draw r binding now).1
              (revoke_if_active q.selector s).1
              p.1
          → Outcome p
