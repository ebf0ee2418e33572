-- ===== src/Store/Laws.antt =====
-- What each method of the memory store does to every lookup.
use mathlib.Core.Option
use nebula_token.Common.{
  ◌≡◌, ◌≢◌, refl, ◌↔◌, Bool, true, false, none, some, List, [], ◌∷◌, arith, if◌then◌else◌, Text,
  same_text,
}
use nebula_token.Errors.{ok, throws, duplicate_selector}
use nebula_token.Store.Rows.{
  TokenStatus, active, rotated, revoked, same_status, TokenRecord, get, get-put, get-append_new,
}
use nebula_token.Store.{
  MemoryStore, find_by_selector, insert, revoke_row, compare_and_set, sweep, revoke_family,
  revoke_user,
}

pub same_status_iff : (a b : TokenStatus) → (same_status a b ≡ true) ↔ (a ≡ b)
same_status_iff active b = ground arith
same_status_iff rotated b = ground arith
same_status_iff revoked b = ground arith

pub same_status-ne : (a b : TokenStatus) → same_status a b ≡ false → a ≢ b
same_status-ne a b h e = cc (h, (same_status_iff a b).1 e)

module _ (r : TokenRecord) (s : MemoryStore) where
  pub insert_new : find_by_selector r.selector s ≡ none → (insert r s).0 ≡ ok tt
  unfolding find_by_selector insert
  insert_new h = ground arith

  pub insert_duplicate :
      {q : TokenRecord}
      → find_by_selector r.selector s ≡ some q
      → insert r s ≡ (throws (duplicate_selector r.selector), s)
  unfolding find_by_selector insert
  insert_duplicate h = ground arith

  -- A lookup after the insertion of a fresh record.
  pub find-insert :
      (k : Text)
      → find_by_selector r.selector s ≡ none
      → find_by_selector k (insert r s).1
        ≡ (if same_text r.selector k then some r else find_by_selector k s)
  unfolding find_by_selector insert
  find-insert k h = ground (arith, get-append_new r.selector k r s.rows h)

module _ (selector : Text) (from_status : TokenStatus) (write : TokenRecord → TokenRecord)
    (s : MemoryStore) where
  -- The write is applied exactly if the record is there and has the status.
  pub compare_and_set-applied :
      (r : TokenRecord)
      → find_by_selector selector s ≡ some r
      → r.status ≡ from_status
      → (k : Text)
      → ((compare_and_set selector from_status write s).0 ≡ true)
        × (find_by_selector k (compare_and_set selector from_status write s).1
            ≡ (if same_text selector k then some (write r) else find_by_selector k s))
  unfolding find_by_selector compare_and_set
  compare_and_set-applied r h e k =
      ground
        (arith, (same_status_iff r.status from_status).1 e, get-put selector k (write r) r s.rows h)

  pub compare_and_set-refused :
      (r : TokenRecord)
      → find_by_selector selector s ≡ some r
      → r.status ≢ from_status
      → compare_and_set selector from_status write s ≡ (false, s)
  unfolding find_by_selector compare_and_set
  compare_and_set-refused r h e = ground (arith, same_status_iff r.status from_status)

  pub compare_and_set-absent :
      find_by_selector selector s ≡ none → compare_and_set selector from_status write s ≡ (false, s)
  unfolding find_by_selector compare_and_set
  compare_and_set-absent h = ground arith

-- What a sweep does to one record.
abbrev pub revoke_if : (TokenRecord → Bool) → TokenRecord → TokenRecord
revoke_if chosen r = if chosen r then revoke_row r else r

revoke_row-revoked : (r : TokenRecord) → r.status ≡ revoked → r ≡ revoke_row r
revoke_row-revoked r h = λ i. record r { status = h i }

get-sweep :
    (chosen : TokenRecord → Bool) (rows : List (Text × TokenRecord)) (k : Text)
    → get k (sweep chosen rows).0 ≡ Option.map (revoke_if chosen) (get k rows)
unfolding get sweep
get-sweep chosen [] k = refl
get-sweep chosen ((j, r) ∷ rows) k =
    ground (arith, get-sweep chosen rows k, same_status_iff r.status revoked, revoke_row-revoked r)

module _ (k id : Text) (s : MemoryStore) where
  -- A lookup after `revokeFamily`: the family's records are revoked, all others are as they were.
  pub find-revoke_family :
      find_by_selector k (revoke_family id s).1
      ≡ Option.map (revoke_if (λ r. same_text r.family_id id)) (find_by_selector k s)
  unfolding find_by_selector revoke_family
  find-revoke_family = get-sweep _ s.rows k

  pub find-revoke_user :
      find_by_selector k (revoke_user id s).1
      ≡ Option.map (revoke_if (λ r. same_text r.user_id id)) (find_by_selector k s)
  unfolding find_by_selector revoke_user
  find-revoke_user = get-sweep _ s.rows k
