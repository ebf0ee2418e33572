-- ===== src/Engine.antt =====
-- The methods of `NebulaEngine` in packages/typescript/src/index.ts. HMAC-SHA-256, the engine and,
-- for each call, the clock's reading and the random bytes are arguments; the store is reached
-- through the awaited calls of `Task`.
pub mod Results
pub mod Mint
pub mod Discipline
pub mod Contends
pub mod Race
pub mod Winner
pub mod Rotation
pub mod Outcome
pub mod Guarantees
pub mod Success
pub mod Session
pub mod Login
pub mod Logout
pub mod Requests
pub mod AnyStore
pub mod Lasting
use nebula_token.Common.{
  ℕ, ◌+◌, ◌-◌, ◌≡◌, Bool, true, false, not, Option, none, some, ltb, leb, if◌then◌else◌, Text,
  ◌>>=◌, ◌>>◌, guard, List,
}
use nebula_token.Errors.{Result, ok, throws, device_id_not_unicode}
use nebula_token.Errors
use nebula_token.Digest.{Hmac, hash_verifier, hash_device_id, constant_time_equal_hex}
use nebula_token.Codec.Utf8.{is_well_formed_unicode}
use nebula_token.Token.{ParsedToken, str, parse_token}
use nebula_token.Store.Rows.{
  TokenStatus, active, rotated, revoked, same_status, TokenRecord, get, has,
}
use nebula_token.Config.{NebulaEngine}
use nebula_token.Task.{
  Task, done, reject, ask_find, ask_insert, ask_mark_rotated, ask_revoke_if_active,
  ask_revoke_family, ask_revoke_user, attempt,
}
use Results.{
  ErrorCode, malformed, unknown_kid, not_found, verifier_mismatch, reuse_detected, revoked_token,
  expired_absolute, expired_idle, device_mismatch, conflict, IssueResult, RefreshResult, success,
  failure, RevokeResult, revoked_family, revoke_failure, unattributed, fail,
}
use Mint.{Draw, MintArgs, mint, active_pepper, family_text}

module _ (hmac : Hmac) (e : NebulaEngine) where
  -- `#deviceMatches`
  unfoldable pub device_matches : TokenRecord → Text → Option Text → Result Bool
  device_matches r pepper none = ok false
  device_matches r pepper (some device_id) = elim r.device_id_hash [
    | none ↦ ok false
    | some bound ↦
        if not (is_well_formed_unicode device_id)
        then ok false
        else Errors.◌>>=◌ (hash_device_id hmac pepper device_id)
            λ h. ok (constant_time_equal_hex h bound)
  ]

  -- `record.deviceIdHash !== null && !this.#deviceMatches(…)`
  unfoldable pub device_refused : TokenRecord → Text → Option Text → Result Bool
  device_refused r pepper device = elim r.device_id_hash [
    | none ↦ ok false
    | some bound ↦ Errors.◌>>=◌ (device_matches r pepper device) λ b. ok (not b)
  ]

  -- `await this.store.revokeFamily(record.familyId); return this.#fail(code, record);`
  abbrev pub revoke_and_fail : ErrorCode → TokenRecord → Task RefreshResult
  revoke_and_fail code r = ask_revoke_family r.family_id λ _. done (failure (fail code r))

  -- The `deviceIdHash` of a successor, under the active pepper.
  unfoldable pub next_binding : TokenRecord → Option Text → Result (Option Text)
  next_binding r device = elim r.device_id_hash [
    | none ↦ ok none
    | some bound ↦ elim device [
      | none ↦ ok (some bound)
      | some device_id ↦
          Errors.◌>>=◌ (hash_device_id hmac (active_pepper e) device_id) λ h. ok (some h)
    ]
  ]

  -- `#rotate` after its `markRotated`.
  unfoldable pub finish_rotation : TokenRecord → Text × TokenRecord → Bool → Task RefreshResult
  finish_rotation r (token, next) applied =
      if not applied
      then ask_revoke_if_active next.selector (λ _. done (failure (fail conflict r)))
      else done (
          success (record {
            token = token;
            user_id = r.user_id;
            family_id = r.family_id;
            generation = next.generation;
            expires_at = next.family_expires_at;
            idle_expires_at = next.idle_expires_at;
          }))

  -- What `#rotate` passes to `#mint`.
  abbrev pub successor_args : TokenRecord → Option Text → ℕ → MintArgs
  successor_args r binding now = record {
    user_id = r.user_id;
    family_id = r.family_id;
    generation = r.generation + 1;
    device_id_hash = binding;
    family_expires_at = r.family_expires_at;
    now = now;
  }

  -- `#rotate`
  unfoldable pub rotate :
      Draw → TokenRecord → Option Text → ℕ → TokenStatus → ℕ → Task RefreshResult
  rotate draw r device now from_status rotated_at = attempt (next_binding r device) λ binding.
      let minted = mint hmac e draw (successor_args r binding now) in
      ask_insert minted.1 (
        ask_mark_rotated r.selector from_status rotated_at minted.1.selector
          (finish_rotation r minted))

  -- `withinGrace`, with the two values that it finds not to be null.
  unfoldable pub within_grace : TokenRecord → ℕ → Option (ℕ × Text)
  within_grace r now = do
    guard (ltb 0 e.reuse_grace)
    rotated_at ← r.rotated_at
    guard (leb (now - rotated_at) e.reuse_grace)
    replaced_by ← r.replaced_by_selector
    guard (ltb now r.family_expires_at)
    some (rotated_at, replaced_by)

  -- `#handleReuse` where a grace retry consumes the unused successor.
  unfoldable pub retry_in_grace :
      Draw → TokenRecord → Text → Option Text → ℕ → ℕ → TokenRecord → Task RefreshResult
  retry_in_grace draw r pepper device now rotated_at successor =
      attempt (device_refused r pepper device) λ refused.
        if refused
        then revoke_and_fail device_mismatch r
        else ask_revoke_if_active successor.selector λ won.
          if not won
          then done (failure (fail conflict r))
          else rotate draw r device now rotated rotated_at

  -- `successor?.status === 'active'`
  unfoldable pub reuse_found :
      Draw → TokenRecord → Text → Option Text → ℕ → ℕ → Option TokenRecord → Task RefreshResult
  reuse_found draw r pepper device now rotated_at none = revoke_and_fail reuse_detected r
  reuse_found draw r pepper device now rotated_at (some successor) =
      if same_status successor.status active
      then retry_in_grace draw r pepper device now rotated_at successor
      else revoke_and_fail reuse_detected r

  -- `#handleReuse`
  unfoldable pub handle_reuse : Draw → TokenRecord → Text → Option Text → ℕ → Task RefreshResult
  handle_reuse draw r pepper device now = elim (within_grace r now) [
    | none ↦ revoke_and_fail reuse_detected r
    | some (rotated_at, replaced_by) ↦
        ask_find replaced_by (reuse_found draw r pepper device now rotated_at)
  ]

  -- Steps 7 to 10 of `refresh`, on an active record.
  unfoldable pub refresh_active : Draw → TokenRecord → Text → Option Text → ℕ → Task RefreshResult
  refresh_active draw r pepper device now =
      if leb r.family_expires_at now
      then revoke_and_fail expired_absolute r
      else if leb r.idle_expires_at now
      then revoke_and_fail expired_idle r
      else attempt (device_refused r pepper device) λ refused.
        if refused then revoke_and_fail device_mismatch r else rotate draw r device now active now

  -- Steps 5 and 6: what the status decides.
  unfoldable pub refresh_proved :
      TokenStatus → Draw → TokenRecord → Text → Option Text → ℕ → Task RefreshResult
  refresh_proved rotated draw r pepper device now = handle_reuse draw r pepper device now
  refresh_proved revoked draw r pepper device now = done (failure (fail revoked_token r))
  refresh_proved active draw r pepper device now = refresh_active draw r pepper device now

  -- Step 4: the proof of the verifier, under the pepper of the record's kid.
  unfoldable pub refresh_found :
      Draw → ParsedToken → Option Text → ℕ → Option TokenRecord → Task RefreshResult
  refresh_found draw parsed device now none = done (failure (unattributed not_found))
  refresh_found draw parsed device now (some r) = elim (get r.kid e.peppers) [
    | none ↦ done (failure (unattributed unknown_kid))
    | some pepper ↦
        if not (constant_time_equal_hex (hash_verifier hmac pepper parsed.verifier) r.verifier_hash)
        then done (failure (fail verifier_mismatch r))
        else refresh_proved r.status draw r pepper device now
  ]

  -- `refresh`
  unfoldable pub refresh : Draw → Text → Option Text → ℕ → Task RefreshResult
  refresh draw token device now = elim (parse_token (str token)) [
    | none ↦ done (failure (unattributed malformed))
    | some parsed ↦
        if not (has parsed.kid e.peppers)
        then done (failure (unattributed unknown_kid))
        else ask_find parsed.selector (refresh_found draw parsed device now)
  ]

  unfoldable pub revoke_found : ParsedToken → Option TokenRecord → Task RevokeResult
  revoke_found parsed none = done (revoke_failure (unattributed not_found))
  revoke_found parsed (some r) = elim (get r.kid e.peppers) [
    | none ↦ done (revoke_failure (unattributed unknown_kid))
    | some pepper ↦
        if not (constant_time_equal_hex (hash_verifier hmac pepper parsed.verifier) r.verifier_hash)
        then done (revoke_failure (fail verifier_mismatch r))
        else ask_revoke_family r.family_id λ n. done (revoked_family r.user_id r.family_id n)
  ]

  -- `revokeToken`
  unfoldable pub revoke_token : Text → Task RevokeResult
  revoke_token token = elim (parse_token (str token)) [
    | none ↦ done (revoke_failure (unattributed malformed))
    | some parsed ↦
        if not (has parsed.kid e.peppers)
        then done (revoke_failure (unattributed unknown_kid))
        else ask_find parsed.selector (revoke_found parsed)
  ]

  -- The check of the device in `issue`, and
  -- `deviceId !== undefined ? hashDeviceId(this.#activePepper(), deviceId) : null`.
  unfoldable pub first_binding : Option Text → Result (Option Text)
  first_binding none = ok none
  first_binding (some device_id) =
      if not (is_well_formed_unicode device_id)
      then throws device_id_not_unicode
      else Errors.◌>>=◌ (hash_device_id hmac (active_pepper e) device_id) λ h. ok (some h)

  -- `issue`; `family_bytes` are the 16 random bytes of the family's identifier.
  unfoldable pub issue : Draw → List ℕ → Text → Option Text → ℕ → Task IssueResult
  issue draw family_bytes user_id device now = attempt (first_binding device) λ binding.
      let minted = mint hmac e draw (record {
        user_id = user_id;
        family_id = family_text family_bytes;
        generation = 0;
        device_id_hash = binding;
        family_expires_at = now + e.absolute_ttl;
        now = now;
      }) in
      ask_insert minted.1 (
        done (record {
          token = minted.0;
          user_id = user_id;
          family_id = family_text family_bytes;
          generation = 0;
          expires_at = now + e.absolute_ttl;
          idle_expires_at = minted.1.idle_expires_at;
        }))

-- `revokeFamily` and `revokeAllForUser`
unfoldable pub revoke_family_by_id : Text → Task ℕ
revoke_family_by_id family_id = ask_revoke_family family_id done

unfoldable pub revoke_all_for_user : Text → Task ℕ
revoke_all_for_user user_id = ask_revoke_user user_id done
