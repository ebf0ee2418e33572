-- ===== src/Engine/Discipline.antt =====
-- The methods of `NebulaEngine` keep the store sound under every interleaving.
use nebula_token.Common.{
  ℕ, ◌≢◌, refl, Bool, true, false, not, leb, if◌then◌else◌, Option-cases, inl, inr, Option, none,
  some, List, arith, Text,
}
use nebula_token.Errors.{Result, ok, throws}
use nebula_token.Digest.{Hmac, hash_verifier, constant_time_equal_hex}
use nebula_token.Token.{ParsedToken, str, parse_token}
use nebula_token.Config.{NebulaEngine}
use nebula_token.Store.Rows.{
  TokenStatus, active, rotated, revoked, TokenRecord, same_status, get, has,
}
use nebula_token.Store.Invariant.{IsRow}
use nebula_token.Task.{Task, attempt}
use nebula_token.Task.Schedule.{Disciplined}
use nebula_token.Engine.Mint.{Draw, MintArgs, mint}
use nebula_token.Engine.{
  rotate, finish_rotation, next_binding, device_refused, within_grace, retry_in_grace, reuse_found,
  handle_reuse, refresh_active, refresh_proved, refresh_found, refresh, issue, first_binding,
}

attempt-Disciplined :
    {A B : Type 0} (r : Result A) (k : A → Task B)
    → ((a : A) → Disciplined (k a))
    → Disciplined (attempt r k)
attempt-Disciplined (ok a) k h = h a
attempt-Disciplined (throws e) k h = tt

pub if-Disciplined :
    {A : Type 0} (b : Bool) (t u : Task A)
    → Disciplined t
    → Disciplined u
    → Disciplined (if b then t else u)
if-Disciplined true t u h k = h
if-Disciplined false t u h k = k

module _ (hmac : Hmac) (e : NebulaEngine) where
  mint-IsRow :
      (draw : Draw) (args : MintArgs)
      → IsRow (mint hmac e draw args).1.selector (mint hmac e draw args).1
  unfolding mint
  mint-IsRow draw args = record {
    keyed = refl;
    rotated_has = λ h. cc;
    active_lacks = λ h. (refl, refl);
    bounded = omega arith;
  }

  finish_rotation-Disciplined :
      (r : TokenRecord) (minted : Text × TokenRecord) (applied : Bool)
      → Disciplined (finish_rotation hmac e r minted applied)
  unfolding finish_rotation
  finish_rotation-Disciplined r minted true = tt
  finish_rotation-Disciplined r minted false = λ b. tt

  rotate-Disciplined :
      (draw : Draw) (r : TokenRecord) (device : Option Text) (now : ℕ) (from_status : TokenStatus)
      (rotated_at : ℕ)
      → from_status ≢ revoked
      → Disciplined (rotate hmac e draw r device now from_status rotated_at)
  unfolding rotate
  rotate-Disciplined draw r device now from_status rotated_at ne =
      attempt-Disciplined (next_binding hmac e r device) _
        λ binding. (mint-IsRow draw _, (ne, λ b. finish_rotation-Disciplined r _ b))

  retry_in_grace-Disciplined :
      (draw : Draw) (r : TokenRecord) (pepper : Text) (device : Option Text) (now rotated_at : ℕ)
      (successor : TokenRecord)
      → Disciplined (retry_in_grace hmac e draw r pepper device now rotated_at successor)
  unfolding retry_in_grace
  retry_in_grace-Disciplined draw r pepper device now rotated_at successor =
      attempt-Disciplined (device_refused hmac e r pepper device) _ λ refused.
        if-Disciplined refused _ _ (λ n. tt)
          (λ won.
            if-Disciplined (not won) _ _ tt
              (rotate-Disciplined draw r device now rotated rotated_at (λ h. cc)))

  reuse_found-Disciplined :
      (draw : Draw) (r : TokenRecord) (pepper : Text) (device : Option Text) (now rotated_at : ℕ)
      (found : Option TokenRecord)
      → Disciplined (reuse_found hmac e draw r pepper device now rotated_at found)
  unfolding reuse_found
  reuse_found-Disciplined draw r pepper device now rotated_at none = λ n. tt
  reuse_found-Disciplined draw r pepper device now rotated_at (some q) =
      if-Disciplined (same_status q.status active) _ _
        (retry_in_grace-Disciplined draw r pepper device now rotated_at q) (λ n. tt)

  handle_reuse-Disciplined :
      (draw : Draw) (r : TokenRecord) (pepper : Text) (device : Option Text) (now : ℕ)
      → Disciplined (handle_reuse hmac e draw r pepper device now)
  unfolding handle_reuse
  handle_reuse-Disciplined draw r pepper device now =
      elim (Option-cases (within_grace hmac e r now)) [
        | inl h ↦ rw (h, Disciplined) (λ n. tt)
        | inr ((rotated_at, replaced_by), h) ↦
            rw (h, Disciplined) (λ o. reuse_found-Disciplined draw r pepper device now rotated_at o)
      ]

  refresh_proved-Disciplined :
      (status : TokenStatus) (draw : Draw) (r : TokenRecord) (pepper : Text) (device : Option Text)
      (now : ℕ)
      → Disciplined (refresh_proved hmac e status draw r pepper device now)
  unfolding refresh_proved refresh_active
  refresh_proved-Disciplined rotated draw r pepper device now =
      handle_reuse-Disciplined draw r pepper device now
  refresh_proved-Disciplined revoked draw r pepper device now = tt
  refresh_proved-Disciplined active draw r pepper device now =
      if-Disciplined (leb r.family_expires_at now) _ _ (λ n. tt)
        (if-Disciplined (leb r.idle_expires_at now) _ _ (λ n. tt)
          (attempt-Disciplined (device_refused hmac e r pepper device) _ λ refused.
            if-Disciplined refused _ _ (λ n. tt)
              (rotate-Disciplined draw r device now active now (λ h. cc))))

  refresh_found-Disciplined :
      (draw : Draw) (parsed : ParsedToken) (device : Option Text) (now : ℕ)
      (found : Option TokenRecord)
      → Disciplined (refresh_found hmac e draw parsed device now found)
  unfolding refresh_found
  refresh_found-Disciplined draw parsed device now none = tt
  refresh_found-Disciplined draw parsed device now (some r) =
      elim (Option-cases (get r.kid e.peppers)) [
        | inl h ↦ rw (h, Disciplined) tt
        | inr (pepper, h) ↦
            rw (h, Disciplined)
              (if-Disciplined
                (not (
                  constant_time_equal_hex (hash_verifier hmac pepper parsed.verifier)
                    r.verifier_hash))
                _ _ tt (refresh_proved-Disciplined r.status draw r pepper device now))
      ]

  -- Whatever its token, device, time and random bytes, `refresh` is disciplined.
  pub refresh-Disciplined :
      (draw : Draw) (token : Text) (device : Option Text) (now : ℕ)
      → Disciplined (refresh hmac e draw token device now)
  unfolding refresh
  refresh-Disciplined draw token device now = elim (Option-cases (parse_token (str token))) [
    | inl h ↦ rw (h, Disciplined) tt
    | inr (parsed, h) ↦
        rw (h, Disciplined)
          (if-Disciplined (not (has parsed.kid e.peppers)) _ _ tt
            (λ o. refresh_found-Disciplined draw parsed device now o))
  ]

  pub issue-Disciplined :
      (draw : Draw) (family_bytes : List ℕ) (user_id : Text) (device : Option Text) (now : ℕ)
      → Disciplined (issue hmac e draw family_bytes user_id device now)
  unfolding issue
  issue-Disciplined draw family_bytes user_id device now =
      attempt-Disciplined (first_binding hmac e device) _ λ binding. (mint-IsRow draw _, tt)
