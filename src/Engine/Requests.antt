-- ===== src/Engine/Requests.antt =====
-- All the methods of one `NebulaEngine` at the same time: logins, refreshes, logouts and
-- administrative revocations, each at any of its awaited calls of the store.
use nebula_token.Common.{
  ℕ, not, Option, none, some, Option-cases, inl, inr, List, [], ◌∷◌, map, All, Text,
}
use nebula_token.Digest.{Hmac, hash_verifier, constant_time_equal_hex}
use nebula_token.Config.{NebulaEngine}
use nebula_token.Token.{ParsedToken, str, parse_token}
use nebula_token.Store.Rows.{TokenRecord, get, has}
use nebula_token.Store.{MemoryStore}
use nebula_token.Store.Invariant.{IsSound, Extends}
use nebula_token.Task.{
  Task, done, reject, ask_find, ask_insert, ask_mark_rotated, ask_revoke_if_active,
  ask_revoke_family, ask_revoke_user,
}
use nebula_token.Task.Schedule.{Disciplined, interleave, interleave-Keeps}
use nebula_token.Engine.Mint.{Draw}
use nebula_token.Engine.Results.{IssueResult, RefreshResult, RevokeResult}
use nebula_token.Engine.Discipline.{refresh-Disciplined, issue-Disciplined, if-Disciplined}
use nebula_token.Engine.{
  refresh, issue, revoke_token, revoke_found, revoke_family_by_id, revoke_all_for_user,
}

-- A call of a method, with the random bytes and the clock's reading that it will get.
pub data Request : Type 0 where
  issuing : Draw → List ℕ → Text → Option Text → ℕ → Request
  refreshing : Draw → Text → Option Text → ℕ → Request
  revoking_token : Text → Request
  revoking_family : Text → Request
  revoking_user : Text → Request

pub data Reply : Type 0 where
  issued : IssueResult → Reply
  refreshed : RefreshResult → Reply
  revoked_by_token : RevokeResult → Reply
  counted : ℕ → Reply

-- The same calls of the store, with the result put into the type of all replies.
unfoldable pub reply : {A B : Type 0} → (A → B) → Task A → Task B
reply f (done a) = done (f a)
reply f (reject e) = reject e
reply f (ask_find selector k) = ask_find selector λ o. reply f (k o)
reply f (ask_insert r t) = ask_insert r (reply f t)
reply f (ask_mark_rotated selector from_status rotated_at replaced_by k) =
    ask_mark_rotated selector from_status rotated_at replaced_by λ b. reply f (k b)
reply f (ask_revoke_if_active selector k) = ask_revoke_if_active selector λ b. reply f (k b)
reply f (ask_revoke_family family_id k) = ask_revoke_family family_id λ n. reply f (k n)
reply f (ask_revoke_user user_id k) = ask_revoke_user user_id λ n. reply f (k n)

reply-Disciplined :
    {A B : Type 0} (f : A → B) (t : Task A) → Disciplined t → Disciplined (reply f t)
unfolding reply
reply-Disciplined f (done a) d = tt
reply-Disciplined f (reject e) d = tt
reply-Disciplined f (ask_find selector k) d = λ o. reply-Disciplined f (k o) (d o)
reply-Disciplined f (ask_insert r t) d = (d.0, reply-Disciplined f t d.1)
reply-Disciplined f (ask_mark_rotated selector from_status rotated_at replaced_by k) d =
    (d.0, λ b. reply-Disciplined f (k b) (d.1 b))
reply-Disciplined f (ask_revoke_if_active selector k) d = λ b. reply-Disciplined f (k b) (d b)
reply-Disciplined f (ask_revoke_family family_id k) d = λ n. reply-Disciplined f (k n) (d n)
reply-Disciplined f (ask_revoke_user user_id k) d = λ n. reply-Disciplined f (k n) (d n)

module _ (hmac : Hmac) (e : NebulaEngine) where
  unfoldable pub serve : Request → Task Reply
  serve (issuing draw family_bytes user_id device now) =
      reply issued (issue hmac e draw family_bytes user_id device now)
  serve (refreshing draw token device now) = reply refreshed (refresh hmac e draw token device now)
  serve (revoking_token token) = reply revoked_by_token (revoke_token hmac e token)
  serve (revoking_family family_id) = reply counted (revoke_family_by_id family_id)
  serve (revoking_user user_id) = reply counted (revoke_all_for_user user_id)

  revoke_found-Disciplined :
      (parsed : ParsedToken) (found : Option TokenRecord)
      → Disciplined (revoke_found hmac e parsed found)
  unfolding revoke_found
  revoke_found-Disciplined parsed none = tt
  revoke_found-Disciplined parsed (some r) = elim (Option-cases (get r.kid e.peppers)) [
    | inl h ↦ rw (h, Disciplined) tt
    | inr (pepper, h) ↦
        rw (h, Disciplined)
          (if-Disciplined
            (not
              (constant_time_equal_hex (hash_verifier hmac pepper parsed.verifier) r.verifier_hash))
            _ _ tt (λ n. tt))
  ]

  revoke_token-Disciplined : (token : Text) → Disciplined (revoke_token hmac e token)
  unfolding revoke_token
  revoke_token-Disciplined token = elim (Option-cases (parse_token (str token))) [
    | inl h ↦ rw (h, Disciplined) tt
    | inr (parsed, h) ↦
        rw (h, Disciplined)
          (if-Disciplined (not (has parsed.kid e.peppers)) _ _ tt
            (λ o. revoke_found-Disciplined parsed o))
  ]

  pub serve-Disciplined : (q : Request) → Disciplined (serve q)
  unfolding serve revoke_family_by_id revoke_all_for_user
  serve-Disciplined (issuing draw family_bytes user_id device now) =
      reply-Disciplined issued _ (issue-Disciplined hmac e draw family_bytes user_id device now)
  serve-Disciplined (refreshing draw token device now) =
      reply-Disciplined refreshed _ (refresh-Disciplined hmac e draw token device now)
  serve-Disciplined (revoking_token token) =
      reply-Disciplined revoked_by_token _ (revoke_token-Disciplined token)
  serve-Disciplined (revoking_family family_id) =
      reply-Disciplined counted (revoke_family_by_id family_id) (λ n. tt)
  serve-Disciplined (revoking_user user_id) =
      reply-Disciplined counted (revoke_all_for_user user_id) (λ n. tt)

  serve-All : (qs : List Request) → All Disciplined (map serve qs)
  serve-All [] = tt
  serve-All (q ∷ qs) = (serve-Disciplined q, serve-All qs)

-- Whatever methods of the engine run at the same time on a sound store, and however their calls of
-- the store interleave, finished or not: the store stays sound, no record disappears, and every
-- record keeps its identity, hash, binding and deadlines while its status only moves from active
-- to rotated to revoked.
pub serve-Keeps :
    (hmac : Hmac) (e : NebulaEngine) (qs : List Request) (schedule : List ℕ) (s : MemoryStore)
    → IsSound s
    → IsSound (interleave schedule (map (serve hmac e) qs) s).1
      × Extends s (interleave schedule (map (serve hmac e) qs) s).1
serve-Keeps hmac e qs schedule s sound =
    interleave-Keeps schedule (map (serve hmac e) qs) s (serve-All hmac e qs) sound
