-- ===== src/Engine/AnyStore.antt =====
-- The engine of packages/typescript/src/index.ts over any store that keeps the contract of the
-- interface, a database for example, whose calls may be rejected.
use nebula_token.Common.{
  ℕ, zero, suc, ◌≤◌, ◌≡◌, sym, ap, ◌∙◌, ◌⊎◌, inl, inr, Option, none, List, [], ◌∷◌, map, arith,
  Text, if◌then◌else◌,
}
use nebula_token.Errors.{Error, ok, throws}
use nebula_token.Digest.{Hmac}
use nebula_token.Config.{NebulaEngine}
use nebula_token.Store.{MemoryStore, find_by_selector}
use nebula_token.Store.Invariant.{IsSound, Extends, Keeps}
use nebula_token.Store.Interface.{RefreshTokenStore, IsConforming}
use nebula_token.Task.{Task, run}
use nebula_token.Task.Schedule.{
  advance-Keeps, Disciplined, interleave, Keeps-refl, Keeps-trans, run-Keeps,
}
use nebula_token.Task.Conforming.{
  serve_on, serve_on-interleave, Follows, FollowsAll, FollowsAll-refl,
}
use nebula_token.Task.Alone.{run_on, reached, run_on-FailsClosed}
use nebula_token.Engine.Mint.{Draw, selector_text}
use nebula_token.Engine.Results.{IssueResult, RefreshResult, success}
use nebula_token.Engine.Success.{Succeeded, refresh-Succeeded}
use nebula_token.Engine.Requests.{Request, serve, serve-Disciplined, serve-Keeps}
use nebula_token.Engine.Race.{Reach, start, own, successes, is_success}
use nebula_token.Engine.Winner.{Call, refreshes, refresh-at_most_one}
use nebula_token.Engine.{refresh}

reached-Keeps :
    {A : Type 0} (n : ℕ) (t : Task A) (m : MemoryStore) → Disciplined t → Keeps m (reached n t m)
unfolding reached
reached-Keeps zero t m d = Keeps-refl m
reached-Keeps (suc n) t m d =
    let (k, d') = advance-Keeps t m d in Keeps-trans m _ _ k (reached-Keeps n _ _ d')

success-follows :
    (t u : Task RefreshResult)
    → Follows t u
    → (if is_success t then 1 else 0) ≤ (if is_success u then 1 else 0)
unfolding is_success
success-follows t u (inl same) = rw same (omega arith)
success-follows t u (inr (e, same)) = rw same (omega arith)

successes-FollowsAll :
    (ts us : List (Task RefreshResult)) → FollowsAll ts us → successes ts ≤ successes us
unfolding successes
successes-FollowsAll [] [] f = omega arith
successes-FollowsAll [] (u ∷ us) f = absurd f
successes-FollowsAll (t ∷ ts) [] f = absurd f
successes-FollowsAll (t ∷ ts) (u ∷ us) (f, fs) =
    omega (arith, success-follows t u f, successes-FollowsAll ts us fs)

interleave-Reach :
    (is : List ℕ) (ts us : List (Task RefreshResult)) (m u : MemoryStore)
    → Reach ts m us u
    → Reach ts m (interleave is us u).0 (interleave is us u).1
unfolding interleave
interleave-Reach [] ts us m u r = r
interleave-Reach (i ∷ is) ts us m u r = interleave-Reach is ts _ m _ (own i r)

-- A method of the engine that runs alone over a store which keeps the contract and stands for a
-- sound memory store fails closed: it ends as it does on the memory store, with the same result and
-- standing for the memory store that this leaves, or it rejects; and either way the store then
-- stands for a sound memory store in which no record is lost and every record has only moved
-- forward.
pub serve-FailsClosed :
    {S : Type 0} (Stands : S → MemoryStore → Type 0) (store : RefreshTokenStore S) (hmac : Hmac)
    (e : NebulaEngine) (q : Request) (s : S) (m : MemoryStore)
    → IsConforming Stands store
    → Stands s m
    → IsSound m
    → (m' : MemoryStore) × Stands (run_on store (serve hmac e q) s).1 m'
      × IsSound m'
      × Extends m m'
      × ((((run_on store (serve hmac e q) s).0, m') ≡ run (serve hmac e q) m)
          ⊎ ((err : Error) × ((run_on store (serve hmac e q) s).0 ≡ throws err)))
serve-FailsClosed Stands store hmac e q s m conforms h sound =
    elim (run_on-FailsClosed Stands store conforms (serve hmac e q) s m h) [
      | inl (same, k) ↦
          let kept = run-Keeps (serve hmac e q) (serve-Disciplined hmac e q) m in
          (
            _,
            k,
            kept.sound sound,
            kept.extends sound,
            inl (ap (λ r. (r, (run (serve hmac e q) m).1)) same),
          )
      | inr (err, rejects, n, k) ↦
          let kept = reached-Keeps n (serve hmac e q) m (serve-Disciplined hmac e q) in
          (_, k, kept.sound sound, kept.extends sound, inr (err, rejects))
    ]

not_thrown : {a : RefreshResult} {err : Error} → ok a ≡ throws err → ⊥
not_thrown h = cc

-- A success of `refresh`, run alone over a store which keeps the contract and stands for a sound
-- memory store without the new selector, means what it means on the memory store: the token was
-- proved, the presented record is rotated, and the new record is stored and active.
pub refresh_on-Succeeded :
    {S : Type 0} (Stands : S → MemoryStore → Type 0) (store : RefreshTokenStore S) (hmac : Hmac)
    (e : NebulaEngine) (token : Text) (s : S) (m : MemoryStore) (draw : Draw) (device : Option Text)
    (now : ℕ) (result : IssueResult)
    → IsConforming Stands store
    → Stands s m
    → IsSound m
    → find_by_selector (selector_text draw) m ≡ none
    → (run_on store (refresh hmac e draw token device now) s).0 ≡ ok (success result)
    → (m' : MemoryStore) × Stands (run_on store (refresh hmac e draw token device now) s).1 m'
      × Succeeded hmac e token m draw device now result m'
refresh_on-Succeeded Stands store hmac e token s m draw device now result conforms h sound fresh
      won =
    elim (run_on-FailsClosed Stands store conforms (refresh hmac e draw token device now) s m h) [
      | inl (same, k) ↦ (
        _,
        k,
        refresh-Succeeded hmac e token m draw device now result sound fresh (sym same ∙ won),
      )
      | inr (err, rejects, n, k) ↦ absurd (not_thrown (sym won ∙ rejects))
    ]

-- Whatever methods run at the same time over such a store, however their calls interleave, and
-- whichever of the calls are rejected, the store stands for a sound memory store in which no
-- record is lost and every record has only moved forward.
pub serve_on-Keeps :
    {S : Type 0} (Stands : S → MemoryStore → Type 0) (store : RefreshTokenStore S) (hmac : Hmac)
    (e : NebulaEngine) (qs : List Request) (schedule : List ℕ) (s : S) (m : MemoryStore)
    → IsConforming Stands store
    → Stands s m
    → IsSound m
    → (m' : MemoryStore) × Stands (serve_on store schedule (map (serve hmac e) qs) s).1 m'
      × IsSound m'
      × Extends m m'
serve_on-Keeps Stands store hmac e qs schedule s m conforms h sound =
    let (calls, _, k) =
      serve_on-interleave Stands store conforms schedule _ _ s m h
        (FollowsAll-refl (map (serve hmac e) qs)) in
    let (sound', evolved) = serve-Keeps hmac e qs calls m sound in (_, k, sound', evolved)

-- With no reuse grace, of any number of refreshes that present one token at the same time over a
-- store which keeps the contract and stands for a sound memory store at most one succeeds, however
-- their calls interleave and whichever of the calls are rejected.
pub refresh_on-at_most_one :
    {S : Type 0} (Stands : S → MemoryStore → Type 0) (store : RefreshTokenStore S) (hmac : Hmac)
    (e : NebulaEngine) (token : Text) (cs : List Call) (schedule : List ℕ) (s : S) (m : MemoryStore)
    → IsConforming Stands store
    → Stands s m
    → IsSound m
    → e.reuse_grace ≡ 0
    → successes (serve_on store schedule (refreshes hmac e token cs) s).0 ≤ 1
refresh_on-at_most_one Stands store hmac e token cs schedule s m conforms h sound strict =
    let ts = refreshes hmac e token cs in
    let (calls, follows, _) =
      serve_on-interleave Stands store conforms schedule ts ts s m h (FollowsAll-refl ts) in
    omega (
      arith,
      successes-FollowsAll _ _ follows,
      refresh-at_most_one hmac e token cs strict sound (interleave-Reach calls ts ts m m start),
    )
