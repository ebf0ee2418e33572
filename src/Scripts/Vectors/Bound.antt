-- ===== src/Scripts/Vectors/Bound.antt =====
-- What the check of the scenarios establishes: tokens are bound before they are used.
use nebula_token.Common.{
  ℕ, ◌+◌, ◌≡◌, refl, sym, ◌∙◌, ap, ap₂, ◌⊎◌, inl, inr, Bool, Bool-cases, true, false, Option, none,
  some, Option-cases, some_injective, List, [], ◌∷◌, ◌++◌, All, Text, append-eq-empty,
}
use nebula_token.Scripts.Regex.{text}
use nebula_token.Scripts.Texts.{contains, truthy}
use nebula_token.Scripts.Members.{IsIn, contains_iff}
use nebula_token.Scripts.Vectors.{Step}
use nebula_token.Scripts.Vectors.Scenarios.{
  to_list, named, refs_of, ref_problems, expects_failure, bind_problems, kids_of, kid_problems,
  includes_kid, reconfigure_problems, check_step, check_steps,
}

-- The tokens that are bound after some steps.
abbrev pub bound_after : List Text → List Step → List Text
bound_after bound [] = bound
bound_after bound (step ∷ steps) = bound_after (named step.bind ++ bound) steps

-- Where a `reconfigure` names a key, it has a pepper for it.
abbrev pub IsConfigured : Step → Type 0
IsConfigured step =
    (contains step.op (text "reconfigure" ∷ []) ≡ false)
    ⊎ ((kid : Text) × (peppers : List Text) × (step.active_kid ≡ some kid)
        × (step.peppers ≡ some peppers)
        × IsIn kid peppers)

-- A step that can be run: the tokens that it names are bound, the one that it binds is new and not
-- the result of a failure, and its keys are known.
pub record IsRunnable (kids bound : List Text) (step : Step) : Type 0 where
  pub refs : All (λ r. IsIn r bound) (refs_of step)
  pub fresh : All (λ n. ¬ IsIn n bound) (named step.bind)
  pub succeeds : (named step.bind ≡ []) ⊎ (expects_failure step.expect ≡ false)
  pub keys : All (λ k. IsIn k kids) (kids_of step)
  pub configured : IsConfigured step

ref_problems-All :
    (id : Text) (i : ℕ) (bound names : List Text)
    → ref_problems id i bound names ≡ []
    → All (λ r. IsIn r bound) names
unfolding ref_problems
ref_problems-All id i bound [] h = tt
ref_problems-All id i bound (name ∷ names) h = elim (Bool-cases (contains name bound)) [
  | inl k ↦ ((contains_iff _ _).0 k, ref_problems-All id i bound names (rw k at h))
  | inr k ↦ cc (rw k at h)
]

kid_problems-All :
    (id : Text) (i : ℕ) (known kids : List Text)
    → kid_problems id i known kids ≡ []
    → All (λ k. IsIn k known) kids
unfolding kid_problems
kid_problems-All id i known [] h = tt
kid_problems-All id i known (kid ∷ kids) h = elim (Bool-cases (contains kid known)) [
  | inl k ↦ ((contains_iff _ _).0 k, kid_problems-All id i known kids (rw k at h))
  | inr k ↦ cc (rw k at h)
]

-- What `bind_problems` leaves, and what it establishes.
bind_problems-none :
    (id : Text) (i : ℕ) (bound : List Text) (fails : Bool) (o : Option Text) (after : List Text)
    → bind_problems id i bound fails o ≡ ([], after)
    → (after ≡ to_list o ++ bound)
      × All (λ n. ¬ IsIn n bound) (to_list o)
      × ((to_list o ≡ []) ⊎ (fails ≡ false))
unfolding bind_problems
bind_problems-none id i bound fails none after h = (sym (ap (λ x. x.1) h), tt, inl refl)
bind_problems-none id i bound true (some name) after h = elim (Bool-cases (contains name bound)) [
  | inl k ↦ cc (rw k at h)
  | inr k ↦ cc (rw k at h)
]
bind_problems-none id i bound false (some name) after h = elim (Bool-cases (contains name bound)) [
  | inl k ↦ cc (rw k at h)
  | inr k ↦ (sym (ap (λ x. x.1) h), (λ j. cc (k, (contains_iff name bound).1 j), tt), inr refl)
]

includes_kid-some :
    (o : Option Text) (peppers : List Text)
    → includes_kid o peppers ≡ true
    → (kid : Text) × (o ≡ some kid) × IsIn kid peppers
includes_kid-some none peppers h = cc
includes_kid-some (some kid) peppers h = (kid, refl, (contains_iff kid peppers).0 h)

reconfigure_problems-IsConfigured :
    (id : Text) (i : ℕ) (step : Step) → reconfigure_problems id i step ≡ some [] → IsConfigured step
unfolding reconfigure_problems
reconfigure_problems-IsConfigured id i step h =
    elim (Bool-cases (contains step.op (text "reconfigure" ∷ []))) [
      | inr k ↦ inl k
      | inl k ↦ elim (Option-cases step.peppers) [
        | inl n ↦ cc (rw (k, n) at h)
        | inr (peppers, e) ↦ elim (Bool-cases (includes_kid step.active_kid peppers)) [
          | inr miss ↦ cc (rw (k, e, miss) at h)
          | inl found ↦
              let (kid, active, inside) = includes_kid-some step.active_kid peppers found in
              inr (kid, peppers, active, e, inside)
        ]
      ]
    ]

check_step-IsRunnable :
    (kids : List Text) (id : Text) (i : ℕ) (bound : List Text) (step : Step) (after : List Text)
    → check_step kids id i bound step ≡ some ([], after)
    → IsRunnable kids bound step × (after ≡ named step.bind ++ bound)
unfolding check_step
check_step-IsRunnable kids id i bound step after h =
    elim (Option-cases (reconfigure_problems id i step)) [
      | inl n ↦ cc (rw n at h)
      | inr (unconfigured, e) ↦
          let both = some_injective (rw e at h) in
          let (refs, rest) = append-eq-empty _ _ (ap (λ x. x.0) both) in
          let (binding, keys) = append-eq-empty _ _ rest in
          let (known, none_left) = append-eq-empty _ unconfigured keys in
          let fails = expects_failure step.expect in
          let (shape, fresh, succeeds) =
            bind_problems-none id i bound fails (truthy step.bind) after
              (ap₂ (λ x y. (x, y)) binding (ap (λ x. x.1) both)) in
          (
            record {
              refs = ref_problems-All id i bound (refs_of step) refs;
              fresh = fresh;
              succeeds = succeeds;
              keys = kid_problems-All id i kids (kids_of step) known;
              configured = reconfigure_problems-IsConfigured id i step (e ∙ ap some none_left);
            },
            shape,
          )
    ]

check_steps-cons :
    (kids : List Text) (id : Text) (i : ℕ) (bound : List Text) (step : Step) (steps : List Step)
    → check_steps kids id i bound (step ∷ steps) ≡ some []
    → IsRunnable kids bound step
      × (check_steps kids id (i + 1) (named step.bind ++ bound) steps ≡ some [])
unfolding check_steps
check_steps-cons kids id i bound step steps h =
    elim (Option-cases (check_step kids id i bound step)) [
      | inl n ↦ cc (rw n at h)
      | inr ((problems, after), e) ↦ elim (Option-cases (check_steps kids id (i + 1) after steps)) [
        | inl n ↦ cc (rw (e, n) at h)
        | inr (rest, r) ↦
            let (p, q) = append-eq-empty problems rest (some_injective (rw (e, r) at h)) in
            let (runs, shape) =
              check_step-IsRunnable kids id i bound step after (e ∙ ap (λ x. some (x, after)) p) in
            (runs, ap (λ b. check_steps kids id (i + 1) b steps) (sym shape) ∙ r ∙ ap some q)
      ]
    ]

pub check_steps-IsRunnable :
    (kids : List Text) (id : Text) (i : ℕ) (bound : List Text) (before : List Step) (step : Step)
    (after : List Step)
    → check_steps kids id i bound (before ++ (step ∷ after)) ≡ some []
    → IsRunnable kids (bound_after bound before) step
check_steps-IsRunnable kids id i bound [] step after h =
    (check_steps-cons kids id i bound step after h).0
check_steps-IsRunnable kids id i bound (st ∷ before) step after h =
    check_steps-IsRunnable kids id (i + 1) (named st.bind ++ bound) before step after
      (check_steps-cons kids id i bound st (before ++ (step ∷ after)) h).1
