-- ===== src/Store/Contract.antt =====
-- What section 4 of SPECIFICATION.md asks of a store's writes, by lookups alone, and that the memory
-- store does it: a selector is a primary key, and `markRotated` and `revokeIfActive` compare and set.
use nebula_token.Common.{
  ℕ, ◌≡◌, ◌≢◌, ◌⊎◌, sym, ◌∙◌, inl, inr, Bool, true, false, Bool-cases, Option-cases, none, some,
  some_injective, some-ne-none, if◌then◌else◌, Text, same_text, ap,
}
use nebula_token.Errors.{ok, throws, duplicate_selector}
use nebula_token.Store.Rows.{TokenStatus, active, rotated, revoked, TokenRecord, same_status}
use nebula_token.Store.{
  MemoryStore, find_by_selector, insert, mark_rotated, revoke_if_active, revoke_row, rotate_row,
  compare_and_set,
}
use nebula_token.Store.Laws.{
  insert_new, insert_duplicate, find-insert, compare_and_set-applied, compare_and_set-refused,
  compare_and_set-absent, same_status_iff, same_status-ne,
}

-- The record is found under the selector, and every other lookup is as it was.
abbrev pub Stored : Text → TokenRecord → MemoryStore → MemoryStore → Type 0
Stored k r s s' =
    (j : Text) → find_by_selector j s' ≡ (if same_text k j then some r else find_by_selector j s)

-- A compare-and-set: it answers true just where a record is there with that status, and then has
-- stored the new one; else nothing changes.
abbrev pub ComparesAndSets :
    Text → TokenStatus → (TokenRecord → TokenRecord) → MemoryStore → Bool × MemoryStore → Type 0
ComparesAndSets k from_status write s p =
    ((r : TokenRecord) × (find_by_selector k s ≡ some r)
      × (r.status ≡ from_status)
      × (p.0 ≡ true)
      × Stored k (write r) s p.1)
    ⊎ (((r : TokenRecord) → find_by_selector k s ≡ some r → r.status ≢ from_status)
        × (p ≡ (false, s)))

pub record KeepsContract (s : MemoryStore) : Type 0 where
  pub inserts :
      (r : TokenRecord)
      → ((find_by_selector r.selector s ≡ none)
          × ((insert r s).0 ≡ ok tt)
          × Stored r.selector r s (insert r s).1)
        ⊎ ((find_by_selector r.selector s ≢ none)
            × (insert r s ≡ (throws (duplicate_selector r.selector), s)))
  pub marks :
      (k : Text) (from_status : TokenStatus) (rotated_at : ℕ) (next : Text)
      → ComparesAndSets k from_status
          (λ r. record r {
            status = rotated;
            rotated_at = some rotated_at;
            replaced_by_selector = some next;
          })
          s
          (mark_rotated k from_status rotated_at next s)
  pub revokes :
      (k : Text)
      → ComparesAndSets k active (λ r. record r { status = revoked }) s (revoke_if_active k s)

compare_and_set-ComparesAndSets :
    (k : Text) (from_status : TokenStatus) (write : TokenRecord → TokenRecord) (s : MemoryStore)
    → ComparesAndSets k from_status write s (compare_and_set k from_status write s)
compare_and_set-ComparesAndSets k from_status write s = elim (Option-cases (find_by_selector k s)) [
  | inl n ↦
      inr (λ r h. absurd (some-ne-none (sym h ∙ n)), compare_and_set-absent k from_status write s n)
  | inr (r, h) ↦ elim (Bool-cases (same_status r.status from_status)) [
    | inl hit ↦
        let e = (same_status_iff r.status from_status).0 hit in
        let applied = compare_and_set-applied k from_status write s r h e in
        inl (r, h, e, (applied k).0, λ j. (applied j).1)
    | inr miss ↦
        let apart = same_status-ne r.status from_status miss in
        inr (
          λ q f e. apart (ap (λ x. x.status) (some_injective (sym h ∙ f)) ∙ e),
          compare_and_set-refused k from_status write s r h apart,
        )
  ]
]

insertion :
    (r : TokenRecord) (s : MemoryStore)
    → ((find_by_selector r.selector s ≡ none)
        × ((insert r s).0 ≡ ok tt)
        × Stored r.selector r s (insert r s).1)
      ⊎ ((find_by_selector r.selector s ≢ none)
          × (insert r s ≡ (throws (duplicate_selector r.selector), s)))
insertion r s = elim (Option-cases (find_by_selector r.selector s)) [
  | inl n ↦ inl (n, insert_new r s n, λ j. find-insert r s j n)
  | inr (q, h) ↦ inr (λ n. some-ne-none (sym h ∙ n), insert_duplicate r s h)
]

-- The writes of the memory store, on any store. `insert` stores the record where its selector is new,
-- and else throws and changes nothing. `markRotated` answers true just where a record is stored
-- with the selector and the expected status, and has then rotated it, with the time and the
-- successor that it was given; else it answers false and changes nothing. `revokeIfActive` does so
-- for an active record, and revokes it. No other lookup changes.
pub memory-KeepsContract : (s : MemoryStore) → KeepsContract s
unfolding mark_rotated revoke_if_active
memory-KeepsContract s = record {
  inserts = λ r. insertion r s;
  marks = λ k from_status rotated_at next.
      compare_and_set-ComparesAndSets k from_status (rotate_row rotated_at next) s;
  revokes = λ k. compare_and_set-ComparesAndSets k active revoke_row s;
}
