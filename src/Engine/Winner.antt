-- ===== src/Engine/Winner.antt =====
-- Concurrent refreshes that present one token: at most one of them succeeds.
use nebula_token.Common.{
  ℕ, ◌≤◌, ◌≡◌, refl, inl, inr, Bool, true, false, not, leb, if◌then◌else◌, Option-cases, Option,
  none, some, List, [], ◌∷◌, arith, Text, All,
}
use nebula_token.Errors.{Result, ok, throws}
use nebula_token.Digest.{Hmac, hash_verifier, constant_time_equal_hex}
use nebula_token.Token.{ParsedToken, str, parse_token}
use nebula_token.Config.{NebulaEngine}
use nebula_token.Store.Rows.{TokenStatus, active, rotated, revoked, TokenRecord, get, has}
use nebula_token.Store.{MemoryStore}
use nebula_token.Store.Invariant.{IsSound}
use nebula_token.Task.{Task, attempt}
use nebula_token.Task.Schedule.{Disciplined}
use nebula_token.Engine.Mint.{Draw}
use nebula_token.Engine.Results.{RefreshResult}
use nebula_token.Engine.Discipline.{refresh-Disciplined}
use nebula_token.Engine.{
  rotate, finish_rotation, next_binding, device_refused, within_grace, handle_reuse, refresh_active,
  refresh_proved, refresh_found, refresh,
}
use nebula_token.Engine.Contends.{Contends}
use nebula_token.Engine.Race.{Reach, Reach-Holds, successes, successes-All, successes-AtMostOne}

attempt-Contends :
    {A : Type 0} (x : Text) (r : Result A) (k : A → Task RefreshResult)
    → ((a : A) → Contends x (k a))
    → Contends x (attempt r k)
attempt-Contends x (ok a) k h = h a
attempt-Contends x (throws e) k h = tt

if-Contends :
    (x : Text) (b : Bool) (t u : Task RefreshResult)
    → Contends x t
    → Contends x u
    → Contends x (if b then t else u)
if-Contends x true t u h k = h
if-Contends x false t u h k = k

module _ (hmac : Hmac) (e : NebulaEngine) (strict : e.reuse_grace ≡ 0) where
  within_grace-strict : (r : TokenRecord) (now : ℕ) → within_grace hmac e r now ≡ none
  unfolding within_grace
  within_grace-strict r now = rw strict

  refresh_proved-Contends :
      (x : Text) (status : TokenStatus) (draw : Draw) (r : TokenRecord) (pepper : Text)
      (device : Option Text) (now : ℕ)
      → r.selector ≡ x
      → Contends x (refresh_proved hmac e status draw r pepper device now)
  unfolding refresh_proved refresh_active handle_reuse rotate finish_rotation
  refresh_proved-Contends x rotated draw r pepper device now h =
      rw (within_grace-strict r now, Contends) (λ n. tt)
  refresh_proved-Contends x revoked draw r pepper device now h = tt
  refresh_proved-Contends x active draw r pepper device now h =
      if-Contends x (leb r.family_expires_at now) _ _ (λ n. tt)
        (if-Contends x (leb r.idle_expires_at now) _ _ (λ n. tt)
          (attempt-Contends x (device_refused hmac e r pepper device) _ λ refused.
            if-Contends x refused _ _ (λ n. tt)
              (attempt-Contends x (next_binding hmac e r device) _ λ binding. (h, refl, λ b. tt))))

  refresh_found-Contends :
      (draw : Draw) (parsed : ParsedToken) (device : Option Text) (now : ℕ)
      (found : Option TokenRecord)
      → ((r : TokenRecord) → found ≡ some r → r.selector ≡ parsed.selector)
      → Contends parsed.selector (refresh_found hmac e draw parsed device now found)
  unfolding refresh_found
  refresh_found-Contends draw parsed device now none h = tt
  refresh_found-Contends draw parsed device now (some r) h =
      elim (Option-cases (get r.kid e.peppers)) [
        | inl k ↦ rw (k, Contends) tt
        | inr (pepper, k) ↦
            rw (k, Contends)
              (if-Contends parsed.selector
                (not (
                  constant_time_equal_hex (hash_verifier hmac pepper parsed.verifier)
                    r.verifier_hash))
                _ _ tt
                (refresh_proved-Contends parsed.selector r.status draw r pepper device now
                  (h r refl)))
      ]

  -- The random bytes, the device and the clock's reading of one call of `refresh`.
  refresh-Contends :
      (token : Text) (parsed : ParsedToken)
      → parse_token (str token) ≡ some parsed
      → (draw : Draw) (device : Option Text) (now : ℕ)
      → Contends parsed.selector (refresh hmac e draw token device now)
  unfolding refresh
  refresh-Contends token parsed h draw device now =
      rw (h, Contends)
        (if-Contends parsed.selector (not (has parsed.kid e.peppers)) _ _ tt
          (λ o a. refresh_found-Contends draw parsed device now o a))

  refresh-malformed :
      (token : Text)
      → parse_token (str token) ≡ none
      → (draw : Draw) (device : Option Text) (now : ℕ)
      → Contends [] (refresh hmac e draw token device now)
  unfolding refresh
  refresh-malformed token h draw device now = rw (h, Contends) tt

-- One call of `refresh`: its random bytes, its device and the clock's reading.
pub record Call : Type 0 where
  pub draw : Draw
  pub device : Option Text
  pub now : ℕ

unfoldable pub refreshes : Hmac → NebulaEngine → Text → List Call → List (Task RefreshResult)
refreshes hmac e token [] = []
refreshes hmac e token (c ∷ cs) =
    refresh hmac e c.draw token c.device c.now ∷ refreshes hmac e token cs

module _ (hmac : Hmac) (e : NebulaEngine) (token : Text) where
  refreshes-Disciplined : (cs : List Call) → All Disciplined (refreshes hmac e token cs)
  unfolding refreshes
  refreshes-Disciplined [] = tt
  refreshes-Disciplined (c ∷ cs) =
      (refresh-Disciplined hmac e c.draw token c.device c.now, refreshes-Disciplined cs)

  refreshes-Contends :
      (x : Text)
      → ((draw : Draw) (device : Option Text) (now : ℕ)
          → Contends x (refresh hmac e draw token device now))
      → (cs : List Call) → All (Contends x) (refreshes hmac e token cs)
  unfolding refreshes
  refreshes-Contends x h [] = tt
  refreshes-Contends x h (c ∷ cs) = (h c.draw c.device c.now, refreshes-Contends x h cs)

  -- Where every refresh contends for one selector, at most one succeeds.
  at_most_one :
      (x : Text) (cs : List Call) {s : MemoryStore} {us : List (Task RefreshResult)}
      {u : MemoryStore}
      → IsSound s
      → All (Contends x) (refreshes hmac e token cs)
      → Reach (refreshes hmac e token cs) s us u
      → successes us ≤ 1
  at_most_one x cs {us} v c r =
      let end =
        Reach-Holds x (record { sound = v; disciplined = refreshes-Disciplined cs; race = inl c })
          r in
      elim end.race [
        | inl none_won ↦ omega (arith, successes-All x us none_won)
        | inr (m, _) ↦ successes-AtMostOne x us m
      ]

-- With no reuse grace, of any number of refreshes that present one token and start on a sound
-- store at most one succeeds:
-- whatever their order, their devices, times and random bytes, and whatever the rest of the
-- program does to the store in between, as long as that keeps the store's records.
pub refresh-at_most_one :
    (hmac : Hmac) (e : NebulaEngine) (token : Text) (cs : List Call) {s : MemoryStore}
    {us : List (Task RefreshResult)} {u : MemoryStore}
    → e.reuse_grace ≡ 0
    → IsSound s
    → Reach (refreshes hmac e token cs) s us u
    → successes us ≤ 1
refresh-at_most_one hmac e token cs strict v r = elim (Option-cases (parse_token (str token))) [
  | inl h ↦
      at_most_one hmac e token [] cs v
        (refreshes-Contends hmac e token [] (refresh-malformed hmac e strict token h) cs) r
  | inr (parsed, h) ↦
      at_most_one hmac e token parsed.selector cs v
        (refreshes-Contends hmac e token parsed.selector
          (refresh-Contends hmac e strict token parsed h) cs)
        r
]
