-- ===== src/Engine/Rotation.antt =====
-- `#rotate` on a store where nothing else runs: it inserts the successor and marks the record.
use nebula_token.Common.{
  ℕ, ◌≡◌, ◌↔◌, refl, sym, ap, ◌∙◌, ◌⊎◌, inl, inr, Bool, true, false, not, if◌then◌else◌,
  Option-cases, Bool-cases, Option, none, some, same_text, same_text_iff, arith, Text,
}
use nebula_token.Errors.{Result, ok, throws}
use nebula_token.Digest.{Hmac, hash_device_id-ok, constant_time_equal_hex}
use nebula_token.Codec.Utf8.{is_well_formed_unicode}
use nebula_token.Config.{NebulaEngine}
use nebula_token.Store.Rows.{TokenStatus, TokenRecord}
use nebula_token.Store.{MemoryStore, find_by_selector, insert, mark_rotated, rotate_row}
use nebula_token.Store.Laws.{insert_new, find-insert, compare_and_set-applied}
use nebula_token.Task.{run, after_insert}
use nebula_token.Engine.Mint.{Draw, MintArgs, mint, selector_text, active_pepper}
use nebula_token.Engine.Results.{IssueResult, success}
use nebula_token.Engine.{
  device_matches, device_refused, next_binding, successor_args, rotate, finish_rotation,
}

abbrev pub issued : Text × TokenRecord → TokenRecord → IssueResult
issued (token, next) r = record {
  token = token;
  user_id = r.user_id;
  family_id = r.family_id;
  generation = next.generation;
  expires_at = next.family_expires_at;
  idle_expires_at = next.idle_expires_at;
}

-- A record on its way from `u` to `u'`: rotated in favour of `next`, which is new.
abbrev pub IsRotation : TokenRecord → ℕ → TokenRecord → MemoryStore → MemoryStore → Type 0
IsRotation r rotated_at next u u' =
    (k : Text)
    → find_by_selector k u' ≡ (
        if same_text r.selector k
        then some (rotate_row rotated_at next.selector r)
        else if same_text next.selector k
        then some next
        else find_by_selector k u)

pub after_insert-ok :
    {B : Type 0} (p : Result (Unit {0}) × MemoryStore) (k : MemoryStore → Result B × MemoryStore)
    → p.0 ≡ ok tt
    → after_insert p k ≡ k p.1
after_insert-ok (ok x, s) k h = refl
after_insert-ok (throws e, s) k h = cc

module _ (hmac : Hmac) (e : NebulaEngine) where
  -- The device check never throws: what `hashDeviceId` would refuse is refused before it.
  pub device_matches-ok :
      (r : TokenRecord) (pepper : Text) (device : Option Text)
      → (b : Bool) × (device_matches hmac e r pepper device ≡ ok b)
  unfolding device_matches
  device_matches-ok r pepper none = (false, refl)
  device_matches-ok r pepper (some d) = elim (Option-cases r.device_id_hash) [
    | inl n ↦ (false, rw n)
    | inr (bound, n) ↦ elim (Bool-cases (is_well_formed_unicode d)) [
      | inr bad ↦ (false, rw (n, bad))
      | inl good ↦
          let (h, eh) = hash_device_id-ok hmac pepper d good in
          (constant_time_equal_hex h bound, rw (n, good, eh))
    ]
  ]

  -- What a device check that passes has established of a bound record.
  device_matches-true :
      (r : TokenRecord) (pepper : Text) (device : Option Text)
      → device_matches hmac e r pepper device ≡ ok true
      → (d : Text) × (device ≡ some d) × (is_well_formed_unicode d ≡ true)
  unfolding device_matches
  device_matches-true r pepper none h = cc
  device_matches-true r pepper (some d) h = (d, refl, ground arith)

  pub device_refused-ok :
      (r : TokenRecord) (pepper : Text) (device : Option Text)
      → (b : Bool) × (device_refused hmac e r pepper device ≡ ok b)
  unfolding device_refused
  device_refused-ok r pepper device = elim (Option-cases r.device_id_hash) [
    | inl n ↦ (false, rw n)
    | inr (bound, n) ↦
        let (b, eb) = device_matches-ok r pepper device in (not b, ground (arith, n, eb))
  ]

  -- A check that passes: the record is bound to no device, or to the one that is presented.
  pub device_passes :
      (r : TokenRecord) (pepper : Text) (device : Option Text)
      → device_refused hmac e r pepper device ≡ ok false
      → (r.device_id_hash ≡ none) ⊎ (device_matches hmac e r pepper device ≡ ok true)
  unfolding device_refused
  device_passes r pepper device h =
      let (b, eb) = device_matches-ok r pepper device in ground (arith, eb)

  -- The binding of the successor can then be hashed, and is absent just where the record's is.
  pub next_binding-ok :
      (r : TokenRecord) (pepper : Text) (device : Option Text)
      → device_refused hmac e r pepper device ≡ ok false
      → (b : Option Text) × (next_binding hmac e r device ≡ ok b)
        × ((b ≡ none) ↔ (r.device_id_hash ≡ none))
  unfolding next_binding
  next_binding-ok r pepper device h = elim (device_passes r pepper device h) [
    | inl n ↦ (none, rw n, (λ _. n, λ _. refl))
    | inr m ↦ elim (Option-cases r.device_id_hash) [
      | inl n ↦ (none, rw n, (λ _. n, λ _. refl))
      | inr (bound, n) ↦
          let (d, ed, good) = device_matches-true r pepper device m in
          let (x, ex) = hash_device_id-ok hmac (active_pepper e) d good in
          (some x, rw (n, ed, ex), (λ bad. cc, λ bad. cc))
    ]
  ]

  -- The successor that `#rotate` mints, and what it returns.
  abbrev pub minted : Draw → TokenRecord → Option Text → ℕ → Text × TokenRecord
  minted draw r binding now = mint hmac e draw (successor_args hmac e r binding now)

  mint-selector :
      (draw : Draw) (args : MintArgs) → (mint hmac e draw args).1.selector ≡ selector_text draw
  unfolding mint
  mint-selector draw args = refl

  clash : {r : TokenRecord} → none ≡ some r → ⊥
  clash h = cc

  module _ (draw : Draw) (r : TokenRecord) (device : Option Text) (now : ℕ)
      (from_status : TokenStatus) (rotated_at : ℕ) (binding : Option Text) (u : MemoryStore)
      (here : find_by_selector r.selector u ≡ some r) (status : r.status ≡ from_status)
      (fresh : find_by_selector (selector_text draw) u ≡ none)
      (bound : next_binding hmac e r device ≡ ok binding) where
    abbrev next : TokenRecord
    next = (minted draw r binding now).1

    abbrev inserted : MemoryStore
    inserted = (insert next u).1

    next-fresh : find_by_selector next.selector u ≡ none
    next-fresh = rw (mint-selector draw (successor_args hmac e r binding now)) fresh

    distinct : same_text next.selector r.selector ≡ false
    distinct = ground (
      arith,
      same_text_iff next.selector r.selector,
      λ (same : next.selector ≡ r.selector).
          clash (sym next-fresh ∙ ap (λ k. find_by_selector k u) same ∙ here),
    )

    still_here : find_by_selector r.selector inserted ≡ some r
    still_here = find-insert next u r.selector next-fresh ∙ rw distinct here

    marked :
        (k : Text)
        → ((mark_rotated r.selector from_status rotated_at next.selector inserted).0 ≡ true)
          × (find_by_selector k
                (mark_rotated r.selector from_status rotated_at next.selector inserted).1
              ≡ (if same_text r.selector k
                  then some (rotate_row rotated_at next.selector r)
                  else find_by_selector k inserted))
    unfolding mark_rotated
    marked k =
        compare_and_set-applied r.selector from_status (rotate_row rotated_at next.selector)
          inserted r still_here status k

    rotate-run_eq : run (rotate hmac e draw r device now from_status rotated_at) u ≡ (
      ok (success (issued (minted draw r binding now) r)),
      (mark_rotated r.selector from_status rotated_at next.selector inserted).1,
    )
    unfolding rotate run finish_rotation
    rotate-run_eq = rw (bound) (
        after_insert-ok (insert next u) _ (insert_new next u next-fresh)
        ∙ rw ((marked r.selector).0))

    pub rotate-run :
        ((run (rotate hmac e draw r device now from_status rotated_at) u).0
          ≡ ok (success (issued (minted draw r binding now) r)))
        × IsRotation r rotated_at next u
            (run (rotate hmac e draw r device now from_status rotated_at) u).1
    rotate-run = rw rotate-run_eq (
      refl,
      λ k.
          (marked k).1
          ∙ ap
              (λ x.
                if same_text r.selector k then some (rotate_row rotated_at next.selector r) else x)
              (find-insert next u k next-fresh),
    )
