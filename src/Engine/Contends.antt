-- ===== src/Engine/Contends.antt =====
-- A refresh that can succeed only by winning the compare-and-set of `markRotated` on one record.
use nebula_token.Common.{
  ℕ, ◌≡◌, ◌≢◌, sym, ◌∙◌, ◌⊎◌, inl, inr, Bool, false, Option-cases, Bool-cases, Option, some,
  some_injective, same_text_refl, arith, Text,
}
use nebula_token.Errors.{Result, ok, throws}
use nebula_token.Store.Rows.{active, TokenRecord, same_status}
use nebula_token.Store.{MemoryStore, find_by_selector, insert, mark_rotated, rotate_row}
use nebula_token.Store.Laws.{
  compare_and_set-applied, compare_and_set-refused, compare_and_set-absent, same_status_iff,
  same_status-ne,
}
use nebula_token.Store.Invariant.{IsSound, Extends}
use nebula_token.Task.{
  Task, done, reject, ask_find, ask_insert, ask_mark_rotated, ask_revoke_if_active,
  ask_revoke_family, ask_revoke_user,
}
use nebula_token.Task.Schedule.{advance, resume_insert}
use nebula_token.Engine.Results.{RefreshResult, success, failure}

abbrev pub IsRefused : RefreshResult → Type 0
IsRefused (success r) = ⊥
IsRefused (failure f) = Unit

abbrev pub Answers : Text → Option TokenRecord → Type 0
Answers selector o = (r : TokenRecord) → o ≡ some r → r.selector ≡ selector

-- A task that can succeed only by rotating the active record of the selector.
abbrev pub Contends : Text → Task RefreshResult → Type 0
Contends x (done result) = IsRefused result
Contends x (reject e) = Unit
Contends x (ask_find selector k) = (o : Option TokenRecord) → Answers selector o → Contends x (k o)
Contends x (ask_insert r t) = Contends x t
Contends x (ask_mark_rotated selector from_status rotated_at replaced_by k) =
    (selector ≡ x) × (from_status ≡ active) × Contends x (k false)
Contends x (ask_revoke_if_active selector k) = (b : Bool) → Contends x (k b)
Contends x (ask_revoke_family family_id k) = (n : ℕ) → Contends x (k n)
Contends x (ask_revoke_user user_id k) = (n : ℕ) → Contends x (k n)

-- The record of the selector is there and active; it is there and no longer active.
abbrev pub IsActive : Text → MemoryStore → Type 0
IsActive x s = (r : TokenRecord) × (find_by_selector x s ≡ some r) × (r.status ≡ active)

abbrev pub IsSpent : Text → MemoryStore → Type 0
IsSpent x s = (r : TokenRecord) × (find_by_selector x s ≡ some r) × (r.status ≢ active)

pub not_both : (x : Text) (s : MemoryStore) → IsActive x s → IsSpent x s → ⊥
not_both x s (r, h, a) (q, k, n) = n (sym (cc (some_injective (sym h ∙ k))) ∙ a)

pub IsSpent-Extends : (x : Text) (s s' : MemoryStore) → Extends s s' → IsSpent x s → IsSpent x s'
IsSpent-Extends x s s' ext (r, h, n) =
    let (q, k, ev) = ext x r h in (q, k, ground (arith, ev.forward))

resume_insert-Contends :
    (x : Text) (r : Result (Unit {0})) (t : Task RefreshResult)
    → Contends x t
    → Contends x (resume_insert r t)
resume_insert-Contends x (ok _) t c = c
resume_insert-Contends x (throws e) t c = tt

module _ (x : Text) (rotated_at : ℕ) (replaced_by : Text) (k : Bool → Task RefreshResult)
    (s : MemoryStore) where
  race :
      Contends x (k false)
      → Contends x (advance (ask_mark_rotated x active rotated_at replaced_by k) s).0
        ⊎ (IsActive x s
            × IsSpent x (advance (ask_mark_rotated x active rotated_at replaced_by k) s).1)
  unfolding advance mark_rotated
  race c = elim (Option-cases (find_by_selector x s)) [
    | inl h ↦ inl (rw (compare_and_set-absent x active (rotate_row rotated_at replaced_by) s h) c)
    | inr (r, h) ↦ elim (Bool-cases (same_status r.status active)) [
      | inl a ↦
          let act = (same_status_iff r.status active).0 a in
          inr (
            (r, h, act),
            (
              rotate_row rotated_at replaced_by r,
              (compare_and_set-applied x active (rotate_row rotated_at replaced_by) s r h act x).1
                  ∙ rw (same_text_refl x),
              λ bad. cc,
            ),
          )
      | inr n ↦ inl (
          rw
            (compare_and_set-refused x active (rotate_row rotated_at replaced_by) s r h
              (same_status-ne r.status active n))
            c)
    ]
  ]

pub advance-Contends :
    (x : Text) (t : Task RefreshResult) (s : MemoryStore)
    → IsSound s
    → Contends x t
    → Contends x (advance t s).0 ⊎ (IsActive x s × IsSpent x (advance t s).1)
advance-Contends x (done result) s v c = unfold advance in inl c
advance-Contends x (reject e) s v c = unfold advance in inl tt
advance-Contends x (ask_find selector k) s v c =
    unfold advance in inl (c (find_by_selector selector s) (λ r h. (v selector r h).keyed))
advance-Contends x (ask_insert r t) s v c =
    unfold advance in inl (resume_insert-Contends x (insert r s).0 t c)
advance-Contends x (ask_mark_rotated selector from_status rotated_at replaced_by k) s v (e, a, c) =
    rw (e, a) (race x rotated_at replaced_by k s c)
advance-Contends x (ask_revoke_if_active selector k) s v c = unfold advance in inl (c _)
advance-Contends x (ask_revoke_family family_id k) s v c = unfold advance in inl (c _)
advance-Contends x (ask_revoke_user user_id k) s v c = unfold advance in inl (c _)
