-- ===== src/Engine/Race.antt =====
-- Several refreshes of one token at the same time, and whatever else the program does meanwhile.
use nebula_token.Common.{
  ℕ, zero, suc, ◌+◌, ◌≤◌, ◌≡◌, refl, ◌⊎◌, inl, inr, Bool, true, false, if◌then◌else◌, List, [], ◌∷◌,
  arith, Text, All,
}
use nebula_token.Store.{MemoryStore}
use nebula_token.Store.Invariant.{IsSound, Keeps, Extends}
use nebula_token.Task.{Task, done}
use nebula_token.Task.Schedule.{Disciplined, advance, advance_at, advance_at-Keeps}
use nebula_token.Engine.Results.{RefreshResult, success, failure}
use nebula_token.Engine.Contends.{Contends, IsSpent, not_both, IsSpent-Extends, advance-Contends}

-- At most one task of the list may have stopped contending.
abbrev pub AtMostOne : Text → List (Task RefreshResult) → Type 0
AtMostOne x [] = Unit
AtMostOne x (t ∷ ts) = (Contends x t × AtMostOne x ts) ⊎ All (Contends x) ts

abbrev pub Race : Text → List (Task RefreshResult) → MemoryStore → Type 0
Race x ts s = All (Contends x) ts ⊎ (AtMostOne x ts × IsSpent x s)

-- Once the record is spent, a task that contends goes on contending.
advance-Spent :
    (x : Text) (t : Task RefreshResult) (s : MemoryStore)
    → IsSound s
    → IsSpent x s
    → Contends x t
    → Contends x (advance t s).0
advance-Spent x t s v spent c = elim (advance-Contends x t s v c) [
  | inl c' ↦ c'
  | inr (a, _) ↦ absurd (not_both x s a spent)
]

advance_at-Spent-All :
    (x : Text) (i : ℕ) (ts : List (Task RefreshResult)) (s : MemoryStore)
    → IsSound s
    → IsSpent x s
    → All (Contends x) ts
    → All (Contends x) (advance_at i ts s).0
unfolding advance_at
advance_at-Spent-All x i [] s v spent cs = tt
advance_at-Spent-All x zero (t ∷ ts) s v spent (c, cs) = (advance-Spent x t s v spent c, cs)
advance_at-Spent-All x (suc i) (t ∷ ts) s v spent (c, cs) =
    (c, advance_at-Spent-All x i ts s v spent cs)

advance_at-Spent :
    (x : Text) (i : ℕ) (ts : List (Task RefreshResult)) (s : MemoryStore)
    → IsSound s
    → IsSpent x s
    → AtMostOne x ts
    → AtMostOne x (advance_at i ts s).0
unfolding advance_at
advance_at-Spent x i [] s v spent m = tt
advance_at-Spent x zero (t ∷ ts) s v spent (inl (c, m)) = inl (advance-Spent x t s v spent c, m)
advance_at-Spent x zero (t ∷ ts) s v spent (inr cs) = inr cs
advance_at-Spent x (suc i) (t ∷ ts) s v spent (inl (c, m)) =
    inl (c, advance_at-Spent x i ts s v spent m)
advance_at-Spent x (suc i) (t ∷ ts) s v spent (inr cs) =
    inr (advance_at-Spent-All x i ts s v spent cs)

All-AtMostOne : (x : Text) (ts : List (Task RefreshResult)) → All (Contends x) ts → AtMostOne x ts
All-AtMostOne x [] cs = tt
All-AtMostOne x (t ∷ ts) (c, cs) = inr cs

-- The step on which the active record is rotated leaves one winner.
advance_at-All :
    (x : Text) (i : ℕ) (ts : List (Task RefreshResult)) (s : MemoryStore)
    → IsSound s
    → All (Contends x) ts
    → Race x (advance_at i ts s).0 (advance_at i ts s).1
unfolding advance_at
advance_at-All x i [] s v cs = inl tt
advance_at-All x zero (t ∷ ts) s v (c, cs) = elim (advance-Contends x t s v c) [
  | inl c' ↦ inl (c', cs)
  | inr (_, spent) ↦ inr (inr cs, spent)
]
advance_at-All x (suc i) (t ∷ ts) s v (c, cs) = elim (advance_at-All x i ts s v cs) [
  | inl cs' ↦ inl (c, cs')
  | inr (m, spent) ↦ inr (inl (c, m), spent)
]

-- The states that the tasks and the store may reach from `ts` and `s`: a task of the list makes
-- its next call, or the rest of the program makes one that keeps the store.
pub data Reach (ts : List (Task RefreshResult)) (s : MemoryStore)
    : List (Task RefreshResult) → MemoryStore → Type 0 where
  start : Reach ts s ts s
  own :
      {us : List (Task RefreshResult)} {u : MemoryStore} (i : ℕ)
      → Reach ts s us u
      → Reach ts s (advance_at i us u).0 (advance_at i us u).1
  other :
      {us : List (Task RefreshResult)} {u : MemoryStore} (w : MemoryStore)
      → Reach ts s us u
      → Keeps u w
      → Reach ts s us w

pub record Holds (x : Text) (us : List (Task RefreshResult)) (u : MemoryStore) : Type 0 where
  pub sound : IsSound u
  pub disciplined : All Disciplined us
  pub race : Race x us u

Race-step :
    (x : Text) (i : ℕ) (us : List (Task RefreshResult)) (u : MemoryStore)
    → IsSound u
    → Extends u (advance_at i us u).1
    → Race x us u
    → Race x (advance_at i us u).0 (advance_at i us u).1
Race-step x i us u v ext (inl cs) = advance_at-All x i us u v cs
Race-step x i us u v ext (inr (m, spent)) =
    inr (advance_at-Spent x i us u v spent m, IsSpent-Extends x u _ ext spent)

Race-other :
    (x : Text) (us : List (Task RefreshResult)) (u w : MemoryStore)
    → Extends u w
    → Race x us u
    → Race x us w
Race-other x us u w ext (inl cs) = inl cs
Race-other x us u w ext (inr (m, spent)) = inr (m, IsSpent-Extends x u w ext spent)

pub Reach-Holds :
    (x : Text) {ts : List (Task RefreshResult)} {s : MemoryStore} {us : List (Task RefreshResult)}
    {u : MemoryStore}
    → Holds x ts s
    → Reach ts s us u
    → Holds x us u
Reach-Holds x h start = h
Reach-Holds x h (own {us} {u} i r) =
    let before = Reach-Holds x h r in
    let (k, d) = advance_at-Keeps i us u before.disciplined in
    record {
      sound = k.sound before.sound;
      disciplined = d;
      race = Race-step x i us u before.sound (k.extends before.sound) before.race;
    }
Reach-Holds x h (other {us} {u} w r k) =
    let before = Reach-Holds x h r in
    record {
      sound = k.sound before.sound;
      disciplined = before.disciplined;
      race = Race-other x us u w (k.extends before.sound) before.race;
    }

-- How many of the tasks have resolved to a new token.
unfoldable pub is_success : Task RefreshResult → Bool
is_success (done (success r)) = true
is_success _ = false

unfoldable pub successes : List (Task RefreshResult) → ℕ
successes [] = 0
successes (t ∷ ts) = successes ts + (if is_success t then 1 else 0)

Contends-no_success : (x : Text) (t : Task RefreshResult) → Contends x t → is_success t ≡ false
unfolding is_success
Contends-no_success x (done (success r)) c = absurd c
Contends-no_success x (done (failure f)) c = refl
Contends-no_success x t c = refl

pub successes-All :
    (x : Text) (ts : List (Task RefreshResult)) → All (Contends x) ts → successes ts ≡ 0
unfolding successes
successes-All x [] cs = refl
successes-All x (t ∷ ts) (c, cs) =
    rw (Contends-no_success x t c) (omega (arith, successes-All x ts cs))

one_more : (n : ℕ) (b : Bool) → n ≡ 0 → n + (if b then 1 else 0) ≤ 1
one_more n true h = omega arith
one_more n false h = omega arith

pub successes-AtMostOne :
    (x : Text) (ts : List (Task RefreshResult)) → AtMostOne x ts → successes ts ≤ 1
unfolding successes
successes-AtMostOne x [] m = omega arith
successes-AtMostOne x (t ∷ ts) (inl (c, m)) =
    rw (Contends-no_success x t c) (omega (arith, successes-AtMostOne x ts m))
successes-AtMostOne x (t ∷ ts) (inr cs) =
    one_more (successes ts) (is_success t) (successes-All x ts cs)
