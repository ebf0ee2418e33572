-- ===== src/Store/Invariant.antt =====
-- The invariant of the memory store, and the direction in which its records may change.
use mathlib.Core.Option
use mathlib.Core.Path.{subst}
use nebula_token.Common.{
  ℕ, ◌≤◌, ◌≡◌, ◌≢◌, refl, sym, ◌∙◌, inl, inr, Bool, none, some, arith, Text, same_text,
  same_text_iff, Bool-cases, Option-cases, some_injective,
}
use nebula_token.Store.Rows.{TokenStatus, active, rotated, revoked, same_status, TokenRecord}
use nebula_token.Store.{
  MemoryStore, find_by_selector, insert, rotate_row, revoke_row, compare_and_set, mark_rotated,
  revoke_if_active, revoke_family, revoke_user,
}
use nebula_token.Store.Laws.{
  same_status_iff, revoke_if, find-revoke_family, find-revoke_user, find-insert, insert_duplicate,
  compare_and_set-applied, compare_and_set-refused, compare_and_set-absent,
}

-- A record stands under its selector; it has a successor and a time of rotation if it is rotated,
-- and neither if it is active; it does not outlive its family.
pub record IsRow (k : Text) (r : TokenRecord) : Type 0 where
  pub keyed : r.selector ≡ k
  pub rotated_has : r.status ≡ rotated → (r.rotated_at ≢ none) × (r.replaced_by_selector ≢ none)
  pub active_lacks : r.status ≡ active → (r.rotated_at ≡ none) × (r.replaced_by_selector ≡ none)
  pub bounded : r.idle_expires_at ≤ r.family_expires_at

abbrev pub IsSound : MemoryStore → Type 0
IsSound s = (k : Text) (r : TokenRecord) → find_by_selector k s ≡ some r → IsRow k r

-- What may become of a record: its status only moves from active to rotated to revoked, and all
-- but the status and the rotation's two fields stay.
abbrev pub rank : TokenStatus → ℕ
rank active = 0
rank rotated = 1
rank revoked = 2

pub record Evolves (r q : TokenRecord) : Type 0 where
  pub forward : rank r.status ≤ rank q.status
  pub selector : q.selector ≡ r.selector
  pub verifier_hash : q.verifier_hash ≡ r.verifier_hash
  pub kid : q.kid ≡ r.kid
  pub family_id : q.family_id ≡ r.family_id
  pub generation : q.generation ≡ r.generation
  pub user_id : q.user_id ≡ r.user_id
  pub device_id_hash : q.device_id_hash ≡ r.device_id_hash
  pub created_at : q.created_at ≡ r.created_at
  pub family_expires_at : q.family_expires_at ≡ r.family_expires_at
  pub idle_expires_at : q.idle_expires_at ≡ r.idle_expires_at

pub Evolves-refl : (r : TokenRecord) → Evolves r r
Evolves-refl r = ground arith

pub Evolves-trans : (p q r : TokenRecord) → Evolves p q → Evolves q r → Evolves p r
Evolves-trans p q r a b = ground arith

-- No record disappears, and each evolves.
abbrev pub Extends : MemoryStore → MemoryStore → Type 0
Extends s s' =
    (k : Text) (r : TokenRecord)
    → find_by_selector k s ≡ some r
    → (q : TokenRecord) × (find_by_selector k s' ≡ some q) × Evolves r q

pub Extends-refl : (s : MemoryStore) → Extends s s
Extends-refl s k r h = (r, h, Evolves-refl r)

pub Extends-trans : (s t u : MemoryStore) → Extends s t → Extends t u → Extends s u
Extends-trans s t u a b k r h =
    let (q, hq, eq) = a k r h in let (p, hp, ep) = b k q hq in (p, hp, Evolves-trans r q p eq ep)

-- Both at once, as one step of the store has to establish them.
pub record Keeps (s s' : MemoryStore) : Type 0 where
  pub sound : IsSound s → IsSound s'
  pub extends : IsSound s → Extends s s'

-- What a step does to the lookup of one key.
data Change (k : Text) (s s' : MemoryStore) : Type 0 where
  same : find_by_selector k s' ≡ find_by_selector k s → Change k s s'
  edit :
      (r q : TokenRecord)
      → find_by_selector k s ≡ some r
      → find_by_selector k s' ≡ some q
      → Evolves r q
      → (IsRow k r → IsRow k q)
      → Change k s s'
  create :
      (q : TokenRecord)
      → find_by_selector k s ≡ none
      → find_by_selector k s' ≡ some q
      → IsRow k q
      → Change k s s'

module _ {k : Text} {s s' : MemoryStore} where
  Change-sound :
      Change k s s' → IsSound s → (r : TokenRecord) → find_by_selector k s' ≡ some r → IsRow k r
  Change-sound (same e) v r h = v k r (sym e ∙ h)
  Change-sound (edit q q' old new ev keep) v r h =
      subst (IsRow k) (some_injective (sym new ∙ h)) (keep (v k q old))
  Change-sound (create q old new row) v r h = subst (IsRow k) (some_injective (sym new ∙ h)) row

  Change-extends :
      Change k s s'
      → (r : TokenRecord) → find_by_selector k s ≡ some r
      → (q : TokenRecord) × (find_by_selector k s' ≡ some q) × Evolves r q
  Change-extends (same e) r h = (r, e ∙ h, Evolves-refl r)
  Change-extends (edit q q' old new ev keep) r h =
      (q', new, subst (λ x. Evolves x q') (some_injective (sym old ∙ h)) ev)
  Change-extends (create q old new row) r h = cc

Keeps-of : {s s' : MemoryStore} → ((k : Text) → Change k s s') → Keeps s s'
Keeps-of c = record {
  sound = λ v k r h. Change-sound (c k) v r h;
  extends = λ v k r h. Change-extends (c k) r h;
}

insert-new :
    (r : TokenRecord) (s : MemoryStore)
    → IsRow r.selector r
    → find_by_selector r.selector s ≡ none
    → (k : Text) → Change k s (insert r s).1
insert-new r s row e k = elim (Bool-cases (same_text r.selector k)) [
  | inl hit ↦
      let here : r.selector ≡ k = (same_text_iff r.selector k).0 hit in
      create r (subst (λ x. find_by_selector x s ≡ none) here e) (find-insert r s k e ∙ rw hit)
        (subst (λ x. IsRow x r) here row)
  | inr miss ↦ same (find-insert r s k e ∙ rw miss)
]

pub insert-Keeps : (r : TokenRecord) (s : MemoryStore) → IsRow r.selector r → Keeps s (insert r s).1
insert-Keeps r s row = elim (Option-cases (find_by_selector r.selector s)) [
  | inr (q, e) ↦ rw (insert_duplicate r s e) (Keeps-of (λ k. same refl))
  | inl e ↦ Keeps-of (insert-new r s row e)
]

-- A compare-and-set whose write takes a record of the old status forward.
module _ (selector : Text) (from_status : TokenStatus) (write : TokenRecord → TokenRecord)
    (ev : (r : TokenRecord) → r.status ≡ from_status → Evolves r (write r))
    (keep : (k : Text) (r : TokenRecord) → IsRow k r → IsRow k (write r)) (s : MemoryStore) where
  applied-Change :
      (r : TokenRecord)
      → find_by_selector selector s ≡ some r
      → r.status ≡ from_status
      → (k : Text) → Change k s (compare_and_set selector from_status write s).1
  applied-Change r h e k = elim (Bool-cases (same_text selector k)) [
    | inl hit ↦
        edit r (write r)
          (subst (λ x. find_by_selector x s ≡ some r) ((same_text_iff selector k).0 hit) h)
          ((compare_and_set-applied selector from_status write s r h e k).1 ∙ rw hit) (ev r e)
          (keep k r)
    | inr miss ↦ same ((compare_and_set-applied selector from_status write s r h e k).1 ∙ rw miss)
  ]

  compare_and_set-Change : (k : Text) → Change k s (compare_and_set selector from_status write s).1
  compare_and_set-Change k = elim (Option-cases (find_by_selector selector s)) [
    | inl e ↦ rw (compare_and_set-absent selector from_status write s e) (same refl)
    | inr (r, h) ↦ elim (Bool-cases (same_status r.status from_status)) [
      | inl e ↦ applied-Change r h ((same_status_iff r.status from_status).0 e) k
      | inr ne ↦
          rw
            (compare_and_set-refused selector from_status write s r h
              (λ e. cc (ne, (same_status_iff r.status from_status).1 e)))
            (same refl)
    ]
  ]

rotate_row-Evolves :
    (rotated_at : ℕ) (replaced_by : Text) (r : TokenRecord)
    → r.status ≢ revoked
    → Evolves r (rotate_row rotated_at replaced_by r)
rotate_row-Evolves rotated_at replaced_by r ne = ground arith

rotate_row-IsRow :
    (rotated_at : ℕ) (replaced_by : Text) (k : Text) (r : TokenRecord)
    → IsRow k r
    → IsRow k (rotate_row rotated_at replaced_by r)
rotate_row-IsRow rotated_at replaced_by k r v = ground arith

revoke_row-Evolves : (r : TokenRecord) → Evolves r (revoke_row r)
revoke_row-Evolves r = ground arith

revoke_row-IsRow : (k : Text) (r : TokenRecord) → IsRow k r → IsRow k (revoke_row r)
revoke_row-IsRow k r v = ground arith

pub mark_rotated-Keeps :
    (selector : Text) (from_status : TokenStatus) (rotated_at : ℕ) (replaced_by : Text)
    (s : MemoryStore)
    → from_status ≢ revoked
    → Keeps s (mark_rotated selector from_status rotated_at replaced_by s).1
unfolding mark_rotated
mark_rotated-Keeps selector from_status rotated_at replaced_by s ne = Keeps-of (
    compare_and_set-Change selector from_status (rotate_row rotated_at replaced_by)
      (λ r e. rotate_row-Evolves rotated_at replaced_by r (λ h. ne (sym e ∙ h)))
      (rotate_row-IsRow rotated_at replaced_by) s)

pub revoke_if_active-Keeps :
    (selector : Text) (s : MemoryStore) → Keeps s (revoke_if_active selector s).1
unfolding revoke_if_active
revoke_if_active-Keeps selector s = Keeps-of (
    compare_and_set-Change selector active revoke_row (λ r e. revoke_row-Evolves r) revoke_row-IsRow
      s)

swept-Change :
    (chosen : TokenRecord → Bool) (k : Text) (s s' : MemoryStore)
    → find_by_selector k s' ≡ Option.map (revoke_if chosen) (find_by_selector k s)
    → Change k s s'
swept-Change chosen k s s' h = elim (Option-cases (find_by_selector k s)) [
  | inl e ↦ same (h ∙ rw e)
  | inr (r, e) ↦ elim (Bool-cases (chosen r)) [
    | inl hit ↦
        edit r (revoke_row r) e (h ∙ rw (e, hit)) (revoke_row-Evolves r) (revoke_row-IsRow k r)
    | inr miss ↦ same (h ∙ rw (e, miss))
  ]
]

pub revoke_family-Keeps : (id : Text) (s : MemoryStore) → Keeps s (revoke_family id s).1
revoke_family-Keeps id s = Keeps-of (λ k. swept-Change _ k s _ (find-revoke_family k id s))

pub revoke_user-Keeps : (id : Text) (s : MemoryStore) → Keeps s (revoke_user id s).1
revoke_user-Keeps id s = Keeps-of (λ k. swept-Change _ k s _ (find-revoke_user k id s))
