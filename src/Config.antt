-- ===== src/Config.antt =====
-- `NebulaConfig` and the constructor of `NebulaEngine` in packages/typescript/src/index.ts. The
-- store and the clock are arguments of the operations that use them.
pub mod Ready
use nebula_token.Common.{
  ℕ, ◌≡◌, Bool, true, false, not, ◌||◌, Option, none, some, List, [], ◌∷◌, ◌++◌, ltb, leb,
  if◌then◌else◌, is_empty, Text,
}
use nebula_token.Errors.{
  Error, Result, ok, throws, throw_if, ◌>>=◌, ◌>>◌, bad_kid, pepper_not_unicode, pepper_too_short,
  active_kid_missing, bad_absolute_ttl, bad_idle_ttl, bad_reuse_grace,
}
use nebula_token.Codec.Base64Url.{b64url_test}
use nebula_token.Codec.Utf8.{byte_length, is_well_formed_unicode}
use nebula_token.Token.{
  Unknown, str, other, max_kid_length, min_pepper_length, default_absolute_ttl, default_idle_ttl,
  default_reuse_grace,
}
use nebula_token.Store.Rows.{get, put, has}

-- A JavaScript number: `negative n` is -(n + 1), and `no_integer` a fraction, an infinity or NaN.
pub data Number : Type 0 where
  natural : ℕ → Number
  negative : ℕ → Number
  no_integer : Number

-- `peppers` in the order of `Object.entries`; a secret may be no string.
pub record NebulaConfig : Type 0 where
  pub peppers : List (Text × Unknown)
  pub active_kid : Text
  pub absolute_ttl_seconds : Option Number
  pub idle_ttl_seconds : Option Number
  pub reuse_grace_seconds : Option Number

pub record NebulaEngine : Type 0 where
  pub peppers : List (Text × Text)
  pub active_kid : Text
  pub absolute_ttl : ℕ
  pub idle_ttl : ℕ
  pub reuse_grace : ℕ

-- `Map.set`
unfoldable pub map_set : Text → Text → List (Text × Text) → List (Text × Text)
map_set k v rows = if has k rows then put k v rows else rows ++ ((k, v) ∷ [])

-- `typeof secret !== 'string' || !isWellFormedUnicode(secret)`
secret_text : Text → Unknown → Result Text
secret_text kid other = throws (pepper_not_unicode kid)
secret_text kid (str secret) =
    if not (is_well_formed_unicode secret) then throws (pepper_not_unicode kid) else ok secret

-- The checks on one entry of `peppers`, in the order of the source.
check_pepper : Text → Unknown → Result Text
check_pepper kid value = do
  throw_if (is_empty kid || (not (b64url_test kid) || ltb max_kid_length (byte_length kid)))
      (bad_kid kid)
  secret ← secret_text kid value
  throw_if (ltb (byte_length secret) min_pepper_length) (pepper_too_short kid)
  ok secret

-- The loop over `Object.entries(config.peppers)`.
load_peppers : List (Text × Text) → List (Text × Unknown) → Result (List (Text × Text))
load_peppers peppers [] = ok peppers
load_peppers peppers ((kid, value) ∷ entries) = do
  secret ← check_pepper kid value
  load_peppers (map_set kid secret peppers) entries

-- `!Number.isInteger(n) || n <= 0`
positive : Error → Number → Result ℕ
positive e (natural n) = if ltb 0 n then ok n else throws e
positive e (negative n) = throws e
positive e no_integer = throws e

-- `!Number.isInteger(n) || n < 0`
non_negative : Error → Number → Result ℕ
non_negative e (natural n) = ok n
non_negative e (negative n) = throws e
non_negative e no_integer = throws e

-- `??`
or_default : Option Number → ℕ → Number
or_default none n = natural n
or_default (some m) n = m

-- The constructor after its loop over the peppers.
with_peppers : NebulaConfig → List (Text × Text) → Result NebulaEngine
with_peppers config peppers = do
  throw_if (not (has config.active_kid peppers)) (active_kid_missing config.active_kid)
  absolute_ttl ←
      positive bad_absolute_ttl (or_default config.absolute_ttl_seconds default_absolute_ttl)
  idle_ttl ← positive bad_idle_ttl (or_default config.idle_ttl_seconds default_idle_ttl)
  reuse_grace ←
      non_negative bad_reuse_grace (or_default config.reuse_grace_seconds default_reuse_grace)
  ok (record {
    peppers = peppers;
    active_kid = config.active_kid;
    absolute_ttl = absolute_ttl;
    idle_ttl = idle_ttl;
    reuse_grace = reuse_grace;
  })

unfoldable pub new_engine : NebulaConfig → Result NebulaEngine
unfolding with_peppers load_peppers check_pepper secret_text positive non_negative or_default
new_engine config = do peppers ← load_peppers [] config.peppers; with_peppers config peppers
