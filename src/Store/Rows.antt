-- ===== src/Store/Rows.antt =====
-- `TokenStatus`, `TokenRecord` and the `Map` of packages/typescript/src/index.ts.
use nebula_token.Common.{
  ℕ, ◌≡◌, refl, Bool, true, false, Option, none, some, List, [], ◌∷◌, ◌++◌, arith, if◌then◌else◌,
  Text, same_text, same_text_iff,
}

pub data TokenStatus : Type 0 where
  active rotated revoked : TokenStatus

-- `===` on statuses.
abbrev pub same_status : TokenStatus → TokenStatus → Bool
same_status active active = true
same_status rotated rotated = true
same_status revoked revoked = true
same_status _ _ = false

pub record TokenRecord : Type 0 where
  pub selector : Text
  pub verifier_hash : Text
  pub kid : Text
  pub family_id : Text
  pub generation : ℕ
  pub user_id : Text
  pub device_id_hash : Option Text
  pub created_at : ℕ
  pub family_expires_at : ℕ
  pub idle_expires_at : ℕ
  pub status : TokenStatus
  pub rotated_at : Option ℕ
  pub replaced_by_selector : Option Text

-- The rows of a `Map<string, V>`.
module _ {ℓ} {V : Type ℓ} where
  unfoldable pub get : Text → List (Text × V) → Option V
  get k [] = none
  get k ((j, v) ∷ rows) = if same_text j k then some v else get k rows

  -- `set` at a key that is present; the row keeps its place.
  unfoldable pub put : Text → V → List (Text × V) → List (Text × V)
  put k v [] = []
  put k v ((j, w) ∷ rows) = if same_text j k then (j, v) ∷ rows else (j, w) ∷ put k v rows

  abbrev pub has : Text → List (Text × V) → Bool
  has k rows = elim (get k rows) [ none ↦ false | some v ↦ true ]

  pub get-put :
      (k j : Text) (v w : V) (rows : List (Text × V))
      → get k rows ≡ some w
      → get j (put k v rows) ≡ (if same_text k j then some v else get j rows)
  unfolding get put
  get-put k j v w [] h = cc
  get-put k j v w ((i, x) ∷ rows) h =
      ground (arith, same_text_iff i k, same_text_iff i j, same_text_iff k j, get-put k j v w rows)

  pub get-append_new :
      (k j : Text) (v : V) (rows : List (Text × V))
      → get k rows ≡ none
      → get j (rows ++ ((k, v) ∷ [])) ≡ (if same_text k j then some v else get j rows)
  unfolding get
  get-append_new k j v [] h = refl
  get-append_new k j v ((i, x) ∷ rows) h =
      ground
        (arith, same_text_iff i k, same_text_iff i j, same_text_iff k j, get-append_new k j v rows)
