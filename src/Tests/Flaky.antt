-- ===== src/Tests/Flaky.antt =====
-- Witnesses of the theorems on any store that keeps the contract: a store over the memory store
-- whose connection breaks after some calls, when the write is applied and its answer is lost.
use nebula_token.Common.{ℕ, zero, suc, ◌≤◌, ◌≡◌, refl, sym, ap, ◌⊎◌, inr, [], ◌∷◌, map}
use mathlib.Core.Path.{subst}
use nebula_token.Errors.{Error, Result, ok, throws, store_error}
use nebula_token.Store.Rows.{TokenRecord}
use nebula_token.Store.{
  MemoryStore, find_by_selector, insert, mark_rotated, revoke_if_active, revoke_family, revoke_user,
}
use nebula_token.Store.Invariant.{IsSound, Extends}
use nebula_token.Store.Interface.{RefreshTokenStore, Answers, Inserts, IsConforming}
use nebula_token.Task.{run}
use nebula_token.Task.Conforming.{serve_on}
use nebula_token.Task.Alone.{run_on}
use nebula_token.Token.{token_text}
use nebula_token.Codec.Base64Url.{encode}
use nebula_token.Engine.Results.{IssueResult, success}
use nebula_token.Engine.Success.{Succeeded}
use nebula_token.Engine.Race.{successes}
use nebula_token.Engine.Requests.{refreshing, serve}
use nebula_token.Engine.Winner.{refreshes}
use nebula_token.Engine.AnyStore.{
  serve-FailsClosed, refresh_on-Succeeded, serve_on-Keeps, refresh_on-at_most_one,
}
use nebula_token.Engine.{refresh}
use nebula_token.Tests.Fixture.{
  copies, toy_hmac, engine, draw, device, user_id, kid, logged_in, login, logged_in-IsSound,
}
use nebula_token.Tests.Sessions.{engine_runs, fresh_second}
use nebula_token.Tests.Races.{calls, requests}

-- The number of calls that are still answered, and the records.
abbrev Flaky : Type 0
Flaky = ℕ × MemoryStore

abbrev answer : {A : Type 0} → ℕ → A × MemoryStore → Result A × Flaky
answer zero p = (throws (store_error []), (0, p.1))
answer (suc n) p = (ok p.0, (n, p.1))

abbrev answer_insert : ℕ → Result (Unit {0}) × MemoryStore → Result (Unit {0}) × Flaky
answer_insert zero p = (throws (store_error []), (0, p.1))
answer_insert (suc n) p = (p.0, (n, p.1))

abbrev flaky_store : RefreshTokenStore Flaky
flaky_store = record {
  find_by_selector = λ k s. answer s.0 (find_by_selector k s.1, s.1);
  insert = λ r s. answer_insert s.0 (insert r s.1);
  mark_rotated = λ k from_status rotated_at next s.
      answer s.0 (mark_rotated k from_status rotated_at next s.1);
  revoke_if_active = λ k s. answer s.0 (revoke_if_active k s.1);
  revoke_family = λ id s. answer s.0 (revoke_family id s.1);
  revoke_user = λ id s. answer s.0 (revoke_user id s.1);
}

abbrev Stands : Flaky → MemoryStore → Type 0
Stands s m = s.1 ≡ m

answer-Answers :
    {A : Type 0} (op : MemoryStore → A × MemoryStore) (n : ℕ) {s m : MemoryStore}
    → s ≡ m
    → Answers Stands m (op m) (answer n (op s))
answer-Answers op zero h = inr (ap (λ s. (op s).1) h)
answer-Answers op (suc n) h = (ap (λ s. (op s).0) h, ap (λ s. (op s).1) h)

inserted-Inserts :
    (r : TokenRecord) (n : ℕ) (m : MemoryStore) (p : Result (Unit {0}) × MemoryStore)
    → insert r m ≡ p
    → Inserts Stands m r (answer_insert n p)
inserted-Inserts r zero m p h = inr (ap (λ x. x.1) (sym h))
inserted-Inserts r (suc n) m (ok _, s) h = (ap (λ x. x.0) h, ap (λ x. x.1) (sym h))
inserted-Inserts r (suc n) m (throws e, s) h = inr (ap (λ x. x.1) (sym h))

flaky-IsConforming : IsConforming Stands flaky_store
flaky-IsConforming = record {
  finds = λ k {s} h. answer-Answers (λ m. (find_by_selector k m, m)) s.0 h;
  inserts = λ r {s} {m} h.
      subst (λ m. Inserts Stands m r (answer_insert s.0 (insert r s.1))) h
        (inserted-Inserts r s.0 s.1 (insert r s.1) refl);
  marks = λ k from_status rotated_at next {s} h.
      answer-Answers (mark_rotated k from_status rotated_at next) s.0 h;
  revokes = λ k {s} h. answer-Answers (revoke_if_active k) s.0 h;
  revokes_family = λ id {s} h. answer-Answers (revoke_family id) s.0 h;
  revokes_user = λ id {s} h. answer-Answers (revoke_user id) s.0 h;
}

-- The connection breaks at `markRotated`.
serve-FailsClosed_example :
    (m : MemoryStore) × Stands
      (run_on flaky_store
        (serve toy_hmac engine (refreshing (draw 2) login.token device 5050))
        (2, logged_in.1)).1
      m
    × IsSound m
    × Extends logged_in.1 m
    × (((
      (run_on flaky_store
          (serve toy_hmac engine (refreshing (draw 2) login.token device 5050))
          (2, logged_in.1)).0,
      m,
    )
          ≡ run (serve toy_hmac engine (refreshing (draw 2) login.token device 5050)) logged_in.1)
        ⊎ ((e : Error) × ((run_on flaky_store
                (serve toy_hmac engine (refreshing (draw 2) login.token device 5050))
                (2, logged_in.1)).0
              ≡ throws e)))
serve-FailsClosed_example =
    serve-FailsClosed Stands flaky_store toy_hmac engine
      (refreshing (draw 2) login.token device 5050) (2, logged_in.1) logged_in.1 flaky-IsConforming
      refl logged_in-IsSound

abbrev refreshed : IssueResult
refreshed = record {
  token = token_text kid (encode (copies 16 2)) (copies 32 2);
  user_id = user_id;
  family_id = login.family_id;
  generation = 1;
  expires_at = 6000;
  idle_expires_at = 5150;
}

refresh_on-resolves :
    (run_on flaky_store
      (refresh toy_hmac engine (draw 2) login.token device 5050)
      (3, logged_in.1)).0
    ≡ ok (success refreshed)
unfolding engine_runs run_on
refresh_on-resolves = refl

refresh_on-Succeeded_example :
    (m : MemoryStore) × Stands
      (run_on flaky_store
        (refresh toy_hmac engine (draw 2) login.token device 5050)
        (3, logged_in.1)).1
      m
    × Succeeded toy_hmac engine login.token logged_in.1 (draw 2) device 5050 refreshed m
refresh_on-Succeeded_example =
    refresh_on-Succeeded Stands flaky_store toy_hmac engine login.token (3, logged_in.1) logged_in.1
      (draw 2) device 5050 refreshed flaky-IsConforming refl logged_in-IsSound fresh_second
      refresh_on-resolves

serve_on-Keeps_example :
    (m : MemoryStore) × Stands
      (serve_on flaky_store
        (0 ∷ 1 ∷ 2 ∷ 1 ∷ 3 ∷ 1 ∷ 2 ∷ [])
        (map (serve toy_hmac engine) requests)
        (4, logged_in.1)).1
      m
    × IsSound m
    × Extends logged_in.1 m
serve_on-Keeps_example =
    serve_on-Keeps Stands flaky_store toy_hmac engine requests (0 ∷ 1 ∷ 2 ∷ 1 ∷ 3 ∷ 1 ∷ 2 ∷ [])
      (4, logged_in.1) logged_in.1 flaky-IsConforming refl logged_in-IsSound

refresh_on-at_most_one_example :
    successes
      (serve_on flaky_store
        (0 ∷ 1 ∷ 0 ∷ 1 ∷ 0 ∷ 1 ∷ [])
        (refreshes toy_hmac engine login.token calls)
        (5, logged_in.1)).0
    ≤ 1
refresh_on-at_most_one_example =
    refresh_on-at_most_one Stands flaky_store toy_hmac engine login.token calls
      (0 ∷ 1 ∷ 0 ∷ 1 ∷ 0 ∷ 1 ∷ []) (5, logged_in.1) logged_in.1 flaky-IsConforming refl
      logged_in-IsSound refl
