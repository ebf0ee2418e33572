-- ===== src/Engine/Login.antt =====
-- A session from its first token: what `issue` returns can be refreshed.
mod Minted
mod Renewal
mod Started
use nebula_token.Common.{
  ℕ, ◌+◌, ◌<◌, ◌≡◌, ◌≢◌, refl, sym, ap, ◌∙◌, Option, none, some, same_text_refl, Text, List,
}
use mathlib.Core.Path.{subst, ap₂}
use nebula_token.Errors.{ok}
use nebula_token.Digest.{Hmac, IsSha256}
use nebula_token.Config.{NebulaEngine}
use nebula_token.Config.Ready.{IsReady}
use nebula_token.Store.Rows.{TokenRecord}
use nebula_token.Store.{MemoryStore, find_by_selector, insert}
use nebula_token.Store.Laws.{insert_new, find-insert}
use nebula_token.Task.{run, ask_insert, done}
use nebula_token.Engine.Mint.{
  Draw, IsDraw, MintArgs, selector_text, mint, family_text, active_pepper,
}
use nebula_token.Engine.Results.{IssueResult, success}
use nebula_token.Engine.Rotation.{after_insert-ok}
use nebula_token.Engine.{refresh, issue}
pub use Minted.{IsDevice}
use Minted.{first_binding-ok, active_pepper-eq}
pub use Started.{StartsFamily}
pub use Renewal.{Resumable, Renews, renewal, resolves, renewed, lacks}
use Renewal.{same_text-ne}

module _ (hmac : Hmac) (e : NebulaEngine) (sha : IsSha256 hmac) (ready : IsReady e) (draw : Draw)
    (fair : IsDraw draw) where
  module _ (family_bytes : List ℕ) (user_id : Text) (device : Option Text) (now : ℕ)
      (s : MemoryStore) (known_device : IsDevice device)
      (fresh : find_by_selector (selector_text draw) s ≡ none) where
    abbrev binding : Option Text
    binding = (first_binding-ok hmac e device known_device).0

    abbrev first_args : MintArgs
    first_args = record {
      user_id = user_id;
      family_id = family_text family_bytes;
      generation = 0;
      device_id_hash = binding;
      family_expires_at = now + e.absolute_ttl;
      now = now;
    }

    abbrev first : Text × TokenRecord
    first = mint hmac e draw first_args

    abbrev logged_in : MemoryStore
    logged_in = (insert first.1 s).1

    abbrev first_result : IssueResult
    first_result = record {
      token = first.0;
      user_id = user_id;
      family_id = family_text family_bytes;
      generation = 0;
      expires_at = now + e.absolute_ttl;
      idle_expires_at = first.1.idle_expires_at;
    }

    first-fresh : find_by_selector first.1.selector s ≡ none
    unfolding mint
    first-fresh = fresh

    issue_task :
        issue hmac e draw family_bytes user_id device now ≡ ask_insert first.1 (done first_result)
    unfolding issue
    issue_task = rw ((first_binding-ok hmac e device known_device).1)

    issue-run :
        run (issue hmac e draw family_bytes user_id device now) s ≡ (ok first_result, logged_in)
    unfolding run
    issue-run =
        ap (λ t. run t s) issue_task
        ∙ after_insert-ok (insert first.1 s) _ (insert_new first.1 s first-fresh)

    stored : find_by_selector (selector_text draw) logged_in ≡ some first.1
    unfolding mint
    stored =
        find-insert first.1 s (selector_text draw) first-fresh
        ∙ rw (same_text_refl (selector_text draw))

    -- What `issue` returned can be refreshed.
    first-Resumable : Resumable hmac e device (now + e.absolute_ttl) now first_result logged_in
    unfolding mint
    first-Resumable = record {
      row = first.1;
      draw = draw;
      fair = fair;
      token = refl;
      stored = stored;
      keyed = refl;
      hash = refl;
      kid = refl;
      is_active = refl;
      bound = (first_binding-ok hmac e device known_device).2;
      row_deadline = refl;
      row_idle = refl;
      family = refl;
      user = refl;
      generation = refl;
      expires = refl;
      idle = refl;
    }

    -- Of the selectors that the store lacked, it still lacks all but the new one.
    pub issue-lacks :
        (k : Text)
        → find_by_selector k s ≡ none
        → selector_text draw ≢ k
        → find_by_selector k (run (issue hmac e draw family_bytes user_id device now) s).1 ≡ none
    unfolding mint
    issue-lacks k none_there other =
        ap (λ p. find_by_selector k p.1) issue-run
        ∙ find-insert first.1 s k first-fresh
        ∙ rw (same_text-ne (selector_text draw) k other) none_there

    first-StartsFamily :
        StartsFamily hmac e draw family_bytes user_id device now s first_result logged_in
    unfolding mint
    first-StartsFamily = record {
      token = refl;
      user = refl;
      family = refl;
      generation = refl;
      expires = refl;
      idle = refl;
      row = first.1;
      stored = stored;
      others = λ k other.
          find-insert first.1 s k first-fresh ∙ rw (same_text-ne (selector_text draw) k other) refl;
      row_selector = refl;
      row_status = refl;
      row_kid = refl;
      pepper = active_pepper e;
      has_pepper = active_pepper-eq e ready;
      row_hash = refl;
      row_device = (first_binding-ok hmac e device known_device).2;
      row_owner = (refl, refl, refl);
      row_created = refl;
      row_deadlines = (refl, refl);
      row_unused = (refl, refl);
    }

ok_injective : (a b : IssueResult) → ok a ≡ ok b → a ≡ b
ok_injective a b h = cc

-- Where `issue` resolved, its result can be refreshed on the store that it left.
pub issue-Resumable :
    (hmac : Hmac) (e : NebulaEngine) (draw : Draw) (family_bytes : List ℕ) (user_id : Text)
    (device : Option Text) (now : ℕ) (s : MemoryStore) (login : IssueResult)
    → IsSha256 hmac
    → IsReady e
    → IsDraw draw
    → IsDevice device
    → find_by_selector (selector_text draw) s ≡ none
    → (run (issue hmac e draw family_bytes user_id device now) s).0 ≡ ok login
    → Resumable hmac e device
        (now + e.absolute_ttl)
        now
        login
        (run (issue hmac e draw family_bytes user_id device now) s).1
issue-Resumable hmac e draw family_bytes user_id device now s login sha ready fair known_device
      fresh won =
    let r =
      issue-run hmac e sha ready draw fair family_bytes user_id device now s known_device fresh in
    subst
      (λ (p : IssueResult × MemoryStore).
        Resumable hmac e device (now + e.absolute_ttl) now p.0 p.1)
      (ap₂ (λ a b. (a, b)) (sym (ok_injective _ _ (sym won ∙ ap (λ x. x.0) r)))
        (ap (λ x. x.1) (sym r)))
      (first-Resumable hmac e sha ready draw fair family_bytes user_id device now s known_device
        fresh)

-- Logging in starts a family: for an engine that the constructor accepts, a device that is valid
-- Unicode or none, and a selector that is new to the store, `issue` resolves. Its result has the
-- token of the drawn selector and verifier under the active kid, the user, the family of the drawn
-- bytes, generation 0, and the two deadlines from the lifetimes of the engine, the idle one capped.
-- The store it leaves has under that selector one active record with the same data, created now,
-- with the verifier and the device hashed under the active pepper, and every other lookup as it was.
pub issue-resolves :
    (hmac : Hmac) (e : NebulaEngine) (draw : Draw) (family_bytes : List ℕ) (user_id : Text)
    (device : Option Text) (now : ℕ) (s : MemoryStore)
    → IsSha256 hmac
    → IsReady e
    → IsDraw draw
    → IsDevice device
    → find_by_selector (selector_text draw) s ≡ none
    → (result : IssueResult) × ((run (issue hmac e draw family_bytes user_id device now) s).0
        ≡ ok result)
      × StartsFamily hmac e draw family_bytes user_id device now s result
          (run (issue hmac e draw family_bytes user_id device now) s).1
issue-resolves hmac e draw family_bytes user_id device now s sha ready fair known_device fresh =
    let r =
      issue-run hmac e sha ready draw fair family_bytes user_id device now s known_device fresh in
    let result =
      first_result hmac e sha ready draw fair family_bytes user_id device now s known_device
        fresh in
    (
      result,
      ap (λ x. x.0) r,
      subst (λ x. StartsFamily hmac e draw family_bytes user_id device now s result x.1) (sym r)
          (first-StartsFamily hmac e sha ready draw fair family_bytes user_id device now s
            known_device fresh),
    )

-- Refreshing in time works: where `issue` resolved to a result, for an engine that the constructor
-- accepts, a device that is valid Unicode or none, and new selectors, a `refresh` on the store that
-- `issue` left, with the token of that result, the same device and a time before the idle deadline
-- of that result, resolves to a success.
pub issue-refresh :
    (hmac : Hmac) (e : NebulaEngine) (draw draw' : Draw) (family_bytes : List ℕ) (user_id : Text)
    (device : Option Text) (now now' : ℕ) (s : MemoryStore) (login : IssueResult)
    → IsSha256 hmac
    → IsReady e
    → IsDraw draw
    → IsDevice device
    → find_by_selector (selector_text draw) s ≡ none
    → (run (issue hmac e draw family_bytes user_id device now) s).0 ≡ ok login
    → find_by_selector
        (selector_text draw')
        (run (issue hmac e draw family_bytes user_id device now) s).1
      ≡ none
    → now' < login.idle_expires_at
    → (result : IssueResult) × ((run
          (refresh hmac e draw' login.token device now')
          (run (issue hmac e draw family_bytes user_id device now) s).1).0
        ≡ ok (success result))
issue-refresh hmac e draw draw' family_bytes user_id device now now' s login sha ready fair
      known_device fresh won fresh' in_time =
    let start =
      issue-Resumable hmac e draw family_bytes user_id device now s login sha ready fair
        known_device fresh won in
    let early = subst (λ t. now' < t) start.idle in_time in
    (
      renewal hmac e sha ready device known_device _ now login _ start draw' now' fresh' early,
      resolves hmac e sha ready device known_device _ now login _ start draw' now' fresh' early,
    )
