-- ===== src/Errors.antt =====
-- Exceptions of packages/typescript/src/index.ts as values: `NebulaConfigError` with a constructor
-- for each message, the error of the memory store, and what another store rejects with, by its
-- message. A rejected promise is a `throws`.
use nebula_token.Common.{Bool, true, false, Text}

pub data Error : Type 0 where
  bad_kid : Text → Error
  pepper_not_unicode : Text → Error
  pepper_too_short : Text → Error
  active_kid_missing : Text → Error
  bad_absolute_ttl : Error
  bad_idle_ttl : Error
  bad_reuse_grace : Error
  device_id_not_unicode : Error
  duplicate_selector : Text → Error
  store_error : Text → Error

-- A value, or what was thrown in its place.
pub data Result {ℓ} (Value : Type ℓ) : Type ℓ where
  ok : Value → Result Value
  throws : Error → Result Value

-- Nothing after a `throw` runs.
infixl 5 ◌>>=◌ ◌>>◌
abbrev pub ◌>>=◌ {ℓ κ} :
    {Value : Type ℓ} {Next : Type κ} → Result Value → (Value → Result Next) → Result Next
throws error >>= then_do = throws error
ok value >>= then_do = then_do value

abbrev pub ◌>>◌ {κ} : {Next : Type κ} → Result (Unit {0}) → Result Next → Result Next
check >> next = check >>= λ _. next

-- `if (b) throw e;`
abbrev pub throw_if : Bool → Error → Result (Unit {0})
throw_if true e = throws e
throw_if false e = ok tt
