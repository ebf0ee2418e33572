-- ===== src/Engine/Lasting.antt =====
-- A whole session: a login, and a client that goes on refreshing the latest token it was given.
use nebula_token.Common.{
  ℕ, ◌+◌, ◌≤◌, ◌<◌, ◌≡◌, ◌≢◌, refl, ap, ◌∙◌, none, Option, List, [], ◌∷◌, arith, Text, All, length,
  min,
}
use nebula_token.Errors.{Result, ok, throws}
use nebula_token.Digest.{Hmac, IsSha256}
use nebula_token.Config.{NebulaEngine}
use nebula_token.Config.Ready.{IsReady}
use nebula_token.Store.{MemoryStore, find_by_selector}
use nebula_token.Task.{run}
use nebula_token.Engine.Mint.{Draw, IsDraw, selector_text}
use nebula_token.Engine.Results.{IssueResult, RefreshResult, success, failure}
use nebula_token.Engine.Success.{success_injective}
use nebula_token.Engine.Login.{
  IsDevice, Resumable, Renews, resolves, renewed, lacks, issue-Resumable, issue-lacks,
}
use nebula_token.Engine.{refresh, issue}

-- One refresh of a session: the random bytes that it draws and the clock's reading.
pub record Turn : Type 0 where
  pub draw : Draw
  pub now : ℕ

-- The client goes on with the token that a success returned.
abbrev pub go_on :
    Result RefreshResult × MemoryStore
    → (IssueResult → MemoryStore → Result RefreshResult × MemoryStore)
    → Result RefreshResult × MemoryStore
go_on (ok (success l), s) k = k l s
go_on p k = p

-- The refreshes of a session, each with the token of the one before.
unfoldable pub session :
    Hmac
    → NebulaEngine
    → Option Text
    → List Turn
    → IssueResult
    → MemoryStore
    → Result RefreshResult × MemoryStore
session hmac e device [] l s = (ok (success l), s)
session hmac e device (t ∷ ts) l s =
    go_on (run (refresh hmac e t.draw l.token device t.now) s) (session hmac e device ts)

-- Each refresh comes within the idle time after the one before, and before the deadline.
abbrev pub OnTime : NebulaEngine → ℕ → ℕ → List Turn → Type 0
OnTime e deadline last [] = Unit
OnTime e deadline last (t ∷ ts) =
    (t.now < last + e.idle_ttl) × (t.now < deadline) × OnTime e deadline t.now ts

-- The selectors are new to the store, and differ from each other.
abbrev pub AreNew : MemoryStore → List Draw → Type 0
AreNew s [] = Unit
AreNew s (d ∷ ds) =
    (find_by_selector (selector_text d) s ≡ none)
    × All (λ c. selector_text d ≢ selector_text c) ds
    × AreNew s ds

abbrev pub draws : List Turn → List Draw
draws [] = []
draws (t ∷ ts) = t.draw ∷ draws ts

AreNew-next :
    (d : Draw) (s s' : MemoryStore) (ds : List Draw)
    → ((k : Text)
        → find_by_selector k s ≡ none
        → selector_text d ≢ k
        → find_by_selector k s' ≡ none)
    → All (λ c. selector_text d ≢ selector_text c) ds
    → AreNew s ds
    → AreNew s' ds
AreNew-next d s s' [] step apart fresh = tt
AreNew-next d s s' (c ∷ cs) step (a, apart) (f, others, fresh) =
    (step (selector_text c) f a, others, AreNew-next d s s' cs step apart fresh)

-- What a session of some refreshes comes to.
pub record Lasts (l l' : IssueResult) (turns : ℕ) : Type 0 where
  pub same_family : l'.family_id ≡ l.family_id
  pub same_user : l'.user_id ≡ l.user_id
  pub turns_on : l'.generation ≡ l.generation + turns
  pub same_deadline : l'.expires_at ≡ l.expires_at
  pub idle_bounded : l'.idle_expires_at ≤ l'.expires_at

Lasts-after :
    (hmac : Hmac) (e : NebulaEngine) (l m l' : IssueResult) (n k : ℕ)
    → k ≡ n + 1
    → Renews hmac e l m
    → Lasts m l' n
    → Lasts l l' k
Lasts-after hmac e l m l' n k one a b = ground (arith, one, a, b)

before_both : (now a b : ℕ) → now < a → now < b → now < min a b
before_both now a b h k = omega (arith, h, k)

go_on-success :
    (p : Result RefreshResult × MemoryStore)
    (k : IssueResult → MemoryStore → Result RefreshResult × MemoryStore) (a : IssueResult)
    → p.0 ≡ ok (success a)
    → go_on p k ≡ k a p.1
go_on-success (ok (success b), s) k a h = ap (λ x. k x s) (success_injective h)
go_on-success (ok (failure f), s) k a h = cc
go_on-success (throws e, s) k a h = cc

module _ (hmac : Hmac) (e : NebulaEngine) (sha : IsSha256 hmac) (ready : IsReady e)
    (device : Option Text) (known_device : IsDevice device) (deadline : ℕ) where
  resumed-Lasts :
      (ts : List Turn) (last : ℕ) (l : IssueResult) (s : MemoryStore)
      → Resumable hmac e device deadline last l s
      → All IsDraw (draws ts)
      → AreNew s (draws ts)
      → OnTime e deadline last ts
      → (l' : IssueResult) × ((session hmac e device ts l s).0 ≡ ok (success l'))
        × Lasts l l' (length ts)
  unfolding session
  resumed-Lasts [] last l s r fair fresh early = (
    l,
    refl,
    record {
      same_family = refl;
      same_user = refl;
      turns_on = omega arith;
      same_deadline = refl;
      idle_bounded = omega (arith, r.idle, r.expires);
    },
  )
  resumed-Lasts (t ∷ ts) last l s r (fair, fairs) (new, apart, fresh) (soon, alive, early) =
      let in_time = before_both t.now (last + e.idle_ttl) deadline soon alive in
      let won =
        resolves hmac e sha ready device known_device deadline last l s r t.draw t.now new
          in_time in
      let left =
        lacks hmac e sha ready device known_device deadline last l s r t.draw t.now new in_time in
      let (r', step) =
        renewed hmac e sha ready device known_device deadline last l s r t.draw t.now new in_time
          fair in
      let (l', ends, so_far) =
        resumed-Lasts ts t.now _ _ r' fairs (AreNew-next t.draw s _ (draws ts) left apart fresh)
          early in
      (
        l',
        ap (λ p. p.0) (go_on-success _ (session hmac e device ts) _ won) ∙ ends,
        Lasts-after hmac e l _ l' (length ts) (length (t ∷ ts)) (omega arith) step so_far,
      )

-- A session lasts as long as its client is in time: for an engine that the constructor accepts, a
-- device that is valid Unicode or none, and random bytes whose selectors are new and distinct, a
-- login followed by any number of refreshes, each with the token of the one before and each within
-- the idle time after the one before and the absolute lifetime after the login, ends in a success,
-- of the same family and user, as many generations on as there were refreshes, and with the
-- deadline that the login set, which bounds the idle deadline.
pub session-Lasts :
    (hmac : Hmac) (e : NebulaEngine) (draw : Draw) (family_bytes : List ℕ) (user_id : Text)
    (device : Option Text) (now : ℕ) (s : MemoryStore) (login : IssueResult) (turns : List Turn)
    → IsSha256 hmac
    → IsReady e
    → IsDevice device
    → All IsDraw (draw ∷ draws turns)
    → AreNew s (draw ∷ draws turns)
    → OnTime e (now + e.absolute_ttl) now turns
    → (run (issue hmac e draw family_bytes user_id device now) s).0 ≡ ok login
    → (l : IssueResult) × ((session hmac e device turns login
          (run (issue hmac e draw family_bytes user_id device now) s).1).0
        ≡ ok (success l))
      × Lasts login l (length turns)
      × (l.expires_at ≡ now + e.absolute_ttl)
session-Lasts hmac e draw family_bytes user_id device now s login turns sha ready known_device
      (fair, fairs) (new, apart, fresh) early won =
    let start =
      issue-Resumable hmac e draw family_bytes user_id device now s login sha ready fair
        known_device new won in
    let left =
      issue-lacks hmac e sha ready draw fair family_bytes user_id device now s known_device new in
    let (l, ends, so_far) =
      resumed-Lasts hmac e sha ready device known_device (now + e.absolute_ttl) turns now login _
        start fairs (AreNew-next draw s _ (draws turns) left apart fresh) early in
    (l, ends, so_far, so_far.same_deadline ∙ start.expires)
