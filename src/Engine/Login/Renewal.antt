-- ===== src/Engine/Login/Renewal.antt =====
-- A token that its client can refresh, and that the token which a refresh returns is one again.
use nebula_token.Common.{
  ℕ, ◌+◌, ◌<◌, ◌≡◌, ◌≢◌, refl, sym, ap, ◌∙◌, false, true, Option, none, some, some-ne-none,
  same_text, same_text_iff, same_text_refl, arith, Text, min,
}
use mathlib.Core.Path.{subst}
use nebula_token.Errors.{ok}
use nebula_token.Digest.{
  Hmac, IsSha256, hash_verifier, hash_verifier_matches, constant_time_equal_hex,
}
use nebula_token.Token.{str, parse_token, token_text}
use nebula_token.Config.{NebulaEngine}
use nebula_token.Config.Ready.{IsReady}
use nebula_token.Store.Rows.{active, TokenRecord, get}
use nebula_token.Store.{MemoryStore, find_by_selector}
use nebula_token.Task.{run}
use nebula_token.Engine.Mint.{Draw, IsDraw, selector_text, mint, active_pepper}
use nebula_token.Engine.Results.{IssueResult, success}
use nebula_token.Engine.Session.{refresh-run}
use nebula_token.Engine.Rotation.{rotate-run, issued, minted, IsRotation}
use nebula_token.Engine.Login.Minted.{
  IsDevice, IsBinding, active_pepper-eq, minted_token, minted-parses, device-passes, active_task,
}
use nebula_token.Engine.{refresh, refresh_proved, next_binding, device_refused, rotate}

pub same_text-ne : (a b : Text) → a ≢ b → same_text a b ≡ false
same_text-ne a b h = ground (arith, same_text_iff a b)

module _ (hmac : Hmac) (e : NebulaEngine) where
  -- The token of `l` is the latest of a session that was last renewed at `last`, with `row` its
  -- active record in the store and `draw` the random bytes that it was made of.
  pub record Resumable (device : Option Text) (deadline last : ℕ) (l : IssueResult)
      (s : MemoryStore) : Type 0 where
    pub row : TokenRecord
    pub draw : Draw
    pub fair : IsDraw draw
    pub token : l.token ≡ token_text e.active_kid (selector_text draw) draw.verifier
    pub stored : find_by_selector (selector_text draw) s ≡ some row
    pub keyed : row.selector ≡ selector_text draw
    pub hash : row.verifier_hash ≡ hash_verifier hmac (active_pepper e) draw.verifier
    pub kid : row.kid ≡ e.active_kid
    pub is_active : row.status ≡ active
    pub bound : IsBinding hmac e device row.device_id_hash
    pub row_deadline : row.family_expires_at ≡ deadline
    pub row_idle : row.idle_expires_at ≡ min (last + e.idle_ttl) deadline
    pub family : row.family_id ≡ l.family_id
    pub user : row.user_id ≡ l.user_id
    pub generation : row.generation ≡ l.generation
    pub expires : l.expires_at ≡ deadline
    pub idle : l.idle_expires_at ≡ min (last + e.idle_ttl) deadline

  -- A successor is bound to the same device as the record that it replaces.
  next_binding-IsBinding :
      (r : TokenRecord) (device : Option Text)
      → IsBinding hmac e device r.device_id_hash
      → next_binding hmac e r device ≡ ok r.device_id_hash
  unfolding next_binding
  next_binding-IsBinding r none b = rw b refl
  next_binding-IsBinding r (some d) (h, eh, b) = rw (b, eh) refl

  -- What a refresh hands on from one result of a session to the next.
  pub record Renews (l l' : IssueResult) : Type 0 where
    pub same_family : l'.family_id ≡ l.family_id
    pub same_user : l'.user_id ≡ l.user_id
    pub one_on : l'.generation ≡ l.generation + 1
    pub same_deadline : l'.expires_at ≡ l.expires_at

  module _ (sha : IsSha256 hmac) (ready : IsReady e) (device : Option Text)
      (known_device : IsDevice device) (deadline last : ℕ) (l : IssueResult) (s : MemoryStore)
      (resumable : Resumable device deadline last l s) (draw' : Draw) (now : ℕ)
      (fresh : find_by_selector (selector_text draw') s ≡ none)
      (in_time : now < min (last + e.idle_ttl) deadline) where
    open resumable use {row, draw}

    abbrev next : Text × TokenRecord
    next = minted hmac e draw' row row.device_id_hash now

    row-passes : device_refused hmac e row (active_pepper e) device ≡ ok false
    row-passes = device-passes hmac e sha row device known_device resumable.bound

    judged :
        run (refresh hmac e draw' l.token device now) s
        ≡ run (refresh_proved hmac e row.status draw' row (active_pepper e) device now) s
    judged =
        refresh-run hmac e l.token s draw' device now (minted_token e draw) row (active_pepper e)
          (ap (λ t. parse_token (str t)) resumable.token
            ∙ minted-parses e ready draw resumable.fair)
          ready.active_present resumable.stored
          (ap (λ k. get k e.peppers) resumable.kid ∙ active_pepper-eq e ready)
          (subst
            (λ h.
              constant_time_equal_hex (hash_verifier hmac (active_pepper e) draw.verifier) h ≡ true)
            (sym resumable.hash) (hash_verifier_matches hmac sha (active_pepper e) draw.verifier))

    rotates :
        run (refresh hmac e draw' l.token device now) s
        ≡ run (rotate hmac e draw' row device now active now) s
    unfolding refresh_proved
    rotates =
        judged
        ∙ ap (λ st. run (refresh_proved hmac e st draw' row (active_pepper e) device now) s)
            resumable.is_active
        ∙ ap (λ t. run t s)
            (active_task hmac e draw' row device now
              (omega (arith, in_time, resumable.row_deadline))
              (omega (arith, in_time, resumable.row_idle)) row-passes)

    rotated_store :
        ((run (rotate hmac e draw' row device now active now) s).0 ≡ ok (success (issued next row)))
        × IsRotation row now next.1 s (run (rotate hmac e draw' row device now active now) s).1
    rotated_store =
        rotate-run hmac e draw' row device now active now row.device_id_hash s
          (ap (λ k. find_by_selector k s) resumable.keyed ∙ resumable.stored) resumable.is_active
          fresh (next_binding-IsBinding row device resumable.bound)

    -- The store that the refresh leaves, by its lookups.
    abbrev renewed_store : MemoryStore
    renewed_store = (run (refresh hmac e draw' l.token device now) s).1

    rotation : IsRotation row now next.1 s renewed_store
    rotation = subst (λ p. IsRotation row now next.1 s p.1) (sym rotates) rotated_store.1

    pub renewal : IssueResult
    renewal = issued next row

    pub resolves : (run (refresh hmac e draw' l.token device now) s).0 ≡ ok (success renewal)
    unfolding renewal
    resolves = ap (λ p. p.0) rotates ∙ rotated_store.0

    not_row : (k : Text) → find_by_selector k s ≡ none → same_text row.selector k ≡ false
    not_row k none_there = ground (
      arith,
      same_text_iff row.selector k,
      λ (same : row.selector ≡ k). some-ne-none (
          sym resumable.stored
          ∙ ap (λ k. find_by_selector k s) (sym resumable.keyed ∙ same)
          ∙ none_there),
    )

    pub lacks :
        (k : Text)
        → find_by_selector k s ≡ none
        → selector_text draw' ≢ k
        → find_by_selector k renewed_store ≡ none
    unfolding mint
    lacks k none_there other =
        rotation k
        ∙ rw (not_row k none_there, same_text-ne (selector_text draw') k other) none_there

    pub renewed :
        IsDraw draw' → Resumable device deadline now renewal renewed_store × Renews l renewal
    unfolding renewal mint
    renewed fair' = (
      record {
        row = next.1;
        draw = draw';
        fair = fair';
        token = refl;
        stored =
            rotation (selector_text draw')
            ∙ rw (not_row (selector_text draw') fresh, same_text_refl (selector_text draw'));
        keyed = refl;
        hash = refl;
        kid = refl;
        is_active = refl;
        bound = resumable.bound;
        row_deadline = resumable.row_deadline;
        row_idle = ap (min (now + e.idle_ttl)) resumable.row_deadline;
        family = refl;
        user = refl;
        generation = refl;
        expires = resumable.row_deadline;
        idle = ap (min (now + e.idle_ttl)) resumable.row_deadline;
      },
      record {
        same_family = resumable.family;
        same_user = resumable.user;
        one_on = ap (λ n. n + 1) resumable.generation;
        same_deadline = resumable.row_deadline ∙ sym resumable.expires;
      },
    )
