-- ===== src/Engine/Outcome/Proof.antt =====
-- That `refresh` meets its specification.
use nebula_token.Common.{
  ℕ, ◌<◌, ◌≡◌, refl, sym, ap, ◌∙◌, inl, inr, Bool, true, false, not, leb, if◌then◌else◌,
  Option-cases, Option, none, some, some-ne-none, some_injective, same_text, same_text_iff, arith,
  Text, leb→le,
}
use mathlib.Core.Path.{subst, ap₂}
use nebula_token.Errors.{Result, ok}
use nebula_token.Digest.{Hmac, hash_verifier, constant_time_equal_hex}
use nebula_token.Token.{ParsedToken, str, parse_token}
use nebula_token.Config.{NebulaEngine}
use nebula_token.Store.Rows.{
  TokenStatus, active, rotated, revoked, TokenRecord, same_status, get, has,
}
use nebula_token.Store.{MemoryStore, find_by_selector, revoke_if_active, revoke_row}
use nebula_token.Store.Laws.{compare_and_set-applied, same_status_iff}
use nebula_token.Store.Invariant.{IsSound}
use nebula_token.Task.{Task, run, attempt, ask_revoke_if_active, done}
use nebula_token.Engine.Mint.{Draw, selector_text}
use nebula_token.Engine.Results.{
  malformed, unknown_kid, not_found, verifier_mismatch, reuse_detected, revoked_token,
  expired_absolute, expired_idle, device_mismatch, conflict, RefreshResult, failure, fail,
}
use nebula_token.Engine.Rotation.{device_refused-ok, next_binding-ok, rotate-run}
use nebula_token.Engine.{
  device_refused, within_grace, retry_in_grace, reuse_found, handle_reuse, refresh_active,
  refresh_proved, refresh_found, refresh, rotate,
}
use nebula_token.Engine.Outcome.{
  Names, Proves, QuietReason, BurnReason, unresolved, quiet, burned, advanced, retried,
}
use nebula_token.Engine.Outcome

apart : {q r : TokenRecord} → some q ≡ some r → q.status ≡ active → r.status ≡ rotated → ⊥
apart h a b = cc (some_injective h)

run-revoked :
    {A : Type 0} (selector : Text) (k : Bool → Task A) (s : MemoryStore)
    → (revoke_if_active selector s).0 ≡ true
    → run (ask_revoke_if_active selector k) s ≡ run (k true) (revoke_if_active selector s).1
unfolding run
run-revoked selector k s h = ap (λ b. run (k b) (revoke_if_active selector s).1) h

-- Where the pepper of the record's kid does not confirm the verifier, none does.
module _ (hmac : Hmac) (e : NebulaEngine) (token : Text) (s : MemoryStore) where
  pub mismatch :
      (parsed : ParsedToken) (r : TokenRecord) (pepper : Text)
      → parse_token (str token) ≡ some parsed
      → get r.kid e.peppers ≡ some pepper
      → constant_time_equal_hex (hash_verifier hmac pepper parsed.verifier) r.verifier_hash ≡ false
      → (pepper' : Text) → get r.kid e.peppers ≡ some pepper'
      → ¬ Proves hmac e token s r pepper'
  mismatch parsed r pepper h n bad pepper' n' proved =
      let same_pepper : pepper ≡ pepper' = some_injective (sym n ∙ n') in
      let same_token : parsed ≡ proved.names.parsed =
        some_injective (sym h ∙ proved.names.parses) in
      cc (
        proved.matches,
        bad,
        ap₂ (λ x y. constant_time_equal_hex (hash_verifier hmac x y.verifier) r.verifier_hash)
            same_pepper same_token,
      )

module _ (hmac : Hmac) (e : NebulaEngine) (token : Text) (s : MemoryStore) (draw : Draw)
    (device : Option Text) (now : ℕ) where
  abbrev Proved : TokenRecord → Text → Type 0
  Proved = Proves hmac e token s

  abbrev Meets : Result RefreshResult × MemoryStore → Type 0
  Meets = Outcome.Outcome hmac e token s draw device now

  if-Outcome :
      (b : Bool) (t u : Task RefreshResult)
      → (b ≡ true → Meets (run t s))
      → (b ≡ false → Meets (run u s))
      → Meets (run (if b then t else u) s)
  if-Outcome true t u h k = h refl
  if-Outcome false t u h k = k refl

  abbrev Grace : TokenRecord → TokenRecord → ℕ → Type 0
  Grace = Outcome.GraceOpen hmac e token s draw device now

  within_grace-GraceOpen :
      (r q : TokenRecord) (t : ℕ) → Grace r q t → within_grace hmac e r now ≡ some (t, q.selector)
  unfolding within_grace
  within_grace-GraceOpen r q t g =
      ground (arith, g.configured, g.moment, g.window, g.family_open, g.successor)

  within_grace-some :
      (r q : TokenRecord) (t : ℕ)
      → within_grace hmac e r now ≡ some (t, q.selector)
      → find_by_selector q.selector s ≡ some q
      → q.status ≡ active
      → Grace r q t
  unfolding within_grace
  within_grace-some r q t h found unused = record {
    configured = ground arith;
    moment = ground arith;
    window = ground arith;
    family_open = ground arith;
    successor = ground arith;
    stored = found;
    unused = unused;
  }

  check_with :
      (r : TokenRecord) (pepper : Text) (t u : Task RefreshResult) (b : Bool)
      → device_refused hmac e r pepper device ≡ ok b
      → (device_refused hmac e r pepper device ≡ ok true → Meets (run t s))
      → (device_refused hmac e r pepper device ≡ ok false → Meets (run u s))
      → Meets (run (attempt (device_refused hmac e r pepper device) (λ c. if c then t else u)) s)
  check_with r pepper t u true eb h k = rw eb (h eb)
  check_with r pepper t u false eb h k = rw eb (k eb)

  -- The device check decides between two continuations, and never throws.
  check-Outcome :
      (r : TokenRecord) (pepper : Text) (t u : Task RefreshResult)
      → (device_refused hmac e r pepper device ≡ ok true → Meets (run t s))
      → (device_refused hmac e r pepper device ≡ ok false → Meets (run u s))
      → Meets (run (attempt (device_refused hmac e r pepper device) (λ c. if c then t else u)) s)
  check-Outcome r pepper t u h k =
      let (b, eb) = device_refused-ok hmac e r pepper device in check_with r pepper t u b eb h k

  module _ (sound : IsSound s) (fresh : find_by_selector (selector_text draw) s ≡ none) where
    own_key : (r : TokenRecord) → Names hmac e token s r → find_by_selector r.selector s ≡ some r
    own_key r n =
        subst (λ k. find_by_selector k s ≡ some r) (sym (sound n.parsed.selector r n.found).keyed)
          n.found

    rotate_active :
        (r : TokenRecord) (pepper : Text)
        → Proved r pepper
        → r.status ≡ active
        → now < r.family_expires_at
        → now < r.idle_expires_at
        → device_refused hmac e r pepper device ≡ ok false
        → Meets (run (rotate hmac e draw r device now active now) s)
    rotate_active r pepper proved st alive fit good =
        let (b, eb, _) = next_binding-ok hmac e r pepper device good in
        let (res, rot) =
          rotate-run hmac e draw r device now active now b s (own_key r proved.names) st fresh eb in
        advanced r pepper b proved st alive fit good eb res rot

    refresh_active-Outcome :
        (r : TokenRecord) (pepper : Text)
        → Proved r pepper
        → r.status ≡ active
        → Meets (run (refresh_active hmac e draw r pepper device now) s)
    unfolding refresh_active run
    refresh_active-Outcome r pepper proved st =
        if-Outcome (leb r.family_expires_at now) _ _
          (λ over. burned r pepper expired_absolute proved (st, leb→le _ _ over) refl)
          (λ alive.
            if-Outcome (leb r.idle_expires_at now) _ _
              (λ over. burned r pepper expired_idle proved (st, leb→le _ _ over, ground arith) refl)
              (λ fit.
                check-Outcome r pepper _ _
                  (λ bad.
                    burned r pepper device_mismatch proved
                      (inl (st, ground arith, ground arith), bad) refl)
                  (λ good. rotate_active r pepper proved st (ground arith) (ground arith) good)))

    -- A grace retry, once its successor has been revoked.
    module _ (r q : TokenRecord) (pepper : Text) (rotated_at : ℕ) (proved : Proved r pepper)
        (st : r.status ≡ rotated) (grace : Grace r q rotated_at) where
      found : find_by_selector q.selector s ≡ some q
      found = grace.stored

      unused : q.status ≡ active
      unused = grace.unused

      abbrev taken : MemoryStore
      taken = (revoke_if_active q.selector s).1

      taken-find :
          (k : Text)
          → ((revoke_if_active q.selector s).0 ≡ true)
            × (find_by_selector k taken
                ≡ (if same_text q.selector k then some (revoke_row q) else find_by_selector k s))
      unfolding revoke_if_active
      taken-find k = compare_and_set-applied q.selector active revoke_row s q found unused k

      not_itself : same_text q.selector r.selector ≡ false
      not_itself = ground (
        arith,
        same_text_iff q.selector r.selector,
        λ (same : q.selector ≡ r.selector).
            apart (sym found ∙ ap (λ k. find_by_selector k s) same ∙ own_key r proved.names) unused
              st,
      )

      not_new : same_text q.selector (selector_text draw) ≡ false
      not_new = ground (
        arith,
        same_text_iff q.selector (selector_text draw),
        λ (same : q.selector ≡ selector_text draw).
            some-ne-none (sym found ∙ ap (λ k. find_by_selector k s) same ∙ fresh),
      )

      retry-Outcome : Meets (run (retry_in_grace hmac e draw r pepper device now rotated_at q) s)
      unfolding retry_in_grace run
      retry-Outcome =
          check-Outcome r pepper _ _
            (λ bad.
              burned r pepper device_mismatch proved (inr (q, rotated_at, st, grace), bad) refl)
            (λ good.
              let (b, eb, _) = next_binding-ok hmac e r pepper device good in
              let (res, rot) =
                rotate-run hmac e draw r device now rotated rotated_at b taken
                  ((taken-find r.selector).1 ∙ rw not_itself (own_key r proved.names)) st
                  ((taken-find (selector_text draw)).1 ∙ rw not_new fresh) eb in
              subst Meets
                (sym (
                  run-revoked q.selector
                    (λ won.
                      if not won
                      then done (failure (fail conflict r))
                      else rotate hmac e draw r device now rotated rotated_at)
                    s (taken-find q.selector).0))
                (retried r q pepper rotated_at b proved st grace good eb res rot))

    named :
        (r q : TokenRecord) (t : ℕ)
        → Grace r q t
        → {t' : ℕ} {x : Text} → within_grace hmac e r now ≡ some (t', x)
        → q.selector ≡ x
    named r q t g h = ap (λ p. p.1) (some_injective (sym (within_grace-GraceOpen r q t g) ∙ h))

    still_used :
        (q q' : TokenRecord)
        → some q ≡ some q'
        → same_status q.status active ≡ false
        → q'.status ≡ active
        → ⊥
    still_used q q' same used unused =
        ground (arith, same_status_iff q.status active, ap (λ x. x.status) (some_injective same))

    handle_reuse-Outcome :
        (r : TokenRecord) (pepper : Text)
        → Proved r pepper
        → r.status ≡ rotated
        → Meets (run (handle_reuse hmac e draw r pepper device now) s)
    unfolding handle_reuse reuse_found run
    handle_reuse-Outcome r pepper proved st = elim (Option-cases (within_grace hmac e r now)) [
      | inl h ↦
          rw (h, run)
            (burned r pepper reuse_detected proved
              (st, λ q t g. some-ne-none (sym (within_grace-GraceOpen r q t g) ∙ h)) refl)
      | inr ((rotated_at, replaced_by), h) ↦
          rw (h, run)
            (elim (Option-cases (find_by_selector replaced_by s)) [
              | inl k ↦
                  rw (k, run)
                    (burned r pepper reuse_detected proved
                      (
                        st,
                        λ q t g.
                            some-ne-none
                              (sym g.stored ∙ ap (λ x. find_by_selector x s) (named r q t g h) ∙ k),
                      )
                      refl)
              | inr (q, k) ↦
                  rw (k, run)
                    (if-Outcome (same_status q.status active) _ _
                      (λ a.
                        let key = (sound replaced_by q k).keyed in
                        retry-Outcome r q pepper rotated_at proved st (
                          within_grace-some r q rotated_at
                            (h ∙ ap (λ x. some (rotated_at, x)) (sym key))
                            (subst (λ x. find_by_selector x s ≡ some q) (sym key) k)
                            ((same_status_iff q.status active).0 a)))
                      (λ used.
                        burned r pepper reuse_detected proved
                          (
                            st,
                            λ q' t g.
                                still_used q q'
                                  (sym k
                                    ∙ ap (λ x. find_by_selector x s) (sym (named r q' t g h))
                                    ∙ g.stored)
                                  used g.unused,
                          )
                          refl))
            ])
    ]

    refresh_proved-Outcome :
        (status : TokenStatus) (r : TokenRecord) (pepper : Text)
        → Proved r pepper
        → r.status ≡ status
        → Meets (run (refresh_proved hmac e status draw r pepper device now) s)
    unfolding refresh_proved run
    refresh_proved-Outcome active r pepper proved st = refresh_active-Outcome r pepper proved st
    refresh_proved-Outcome rotated r pepper proved st = handle_reuse-Outcome r pepper proved st
    refresh_proved-Outcome revoked r pepper proved st = quiet r revoked_token proved.names st refl

    refresh_found-Outcome :
        (parsed : ParsedToken) (found : Option TokenRecord)
        → parse_token (str token) ≡ some parsed
        → has parsed.kid e.peppers ≡ true
        → find_by_selector parsed.selector s ≡ found
        → Meets (run (refresh_found hmac e draw parsed device now found) s)
    unfolding refresh_found run
    refresh_found-Outcome parsed none h known k = unresolved not_found (parsed, h, known, k) refl
    refresh_found-Outcome parsed (some r) h known k = elim (Option-cases (get r.kid e.peppers)) [
      | inl n ↦
          rw (n, run)
            (unresolved unknown_kid
              (inr (r, record { parsed = parsed; parses = h; known_kid = known; found = k }, n))
              refl)
      | inr (pepper, n) ↦
          rw (n, run)
            (if-Outcome
              (not (
                constant_time_equal_hex (hash_verifier hmac pepper parsed.verifier)
                  r.verifier_hash))
              _ _
              (λ bad.
                quiet r verifier_mismatch
                  (record { parsed = parsed; parses = h; known_kid = known; found = k })
                  (mismatch hmac e token s parsed r pepper h n (ground arith)) refl)
              (λ good.
                refresh_proved-Outcome r.status r pepper
                  (record {
                    names = record { parsed = parsed; parses = h; known_kid = known; found = k };
                    has_pepper = n;
                    matches = ground arith;
                  })
                  refl))
    ]

    refresh-Meets : Meets (run (refresh hmac e draw token device now) s)
    unfolding refresh run
    refresh-Meets = elim (Option-cases (parse_token (str token))) [
      | inl h ↦ rw (h, run) (unresolved malformed h refl)
      | inr (parsed, h) ↦
          rw (h, run)
            (if-Outcome (not (has parsed.kid e.peppers)) _ _
              (λ unknown. unresolved unknown_kid (inl (parsed, h, ground arith)) refl)
              (λ known. refresh_found-Outcome parsed _ h (ground arith) refl))
    ]

pub refresh-Outcome :
    (hmac : Hmac) (e : NebulaEngine) (token : Text) (s : MemoryStore) (draw : Draw)
    (device : Option Text) (now : ℕ)
    → IsSound s
    → find_by_selector (selector_text draw) s ≡ none
    → Outcome.Outcome hmac e token s draw device now (run (refresh hmac e draw token device now) s)
refresh-Outcome hmac e token s draw device now sound fresh =
    refresh-Meets hmac e token s draw device now sound fresh
