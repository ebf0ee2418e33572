-- ===== src/Config/Ready.antt =====
-- What the constructor of `NebulaEngine` guarantees of an engine that it accepts.
use nebula_token.Common.{
  ◌≤◌, ◌<◌, ◌≡◌, refl, sym, true, List, [], ◌∷◌, arith, All, All-append, Text, same_text,
  same_text_iff, inl, inr, Bool-cases,
}
use mathlib.Core.Path.{subst}
use nebula_token.Errors.{Result, ok, throws, ◌>>=◌}
use nebula_token.Codec.Base64Url.{b64url_test}
use nebula_token.Codec.Utf8.{byte_length, is_well_formed_unicode}
use nebula_token.Token.{Unknown, str, other}
use nebula_token.Store.Rows.{put, has}
use nebula_token.Config.{
  NebulaConfig, NebulaEngine, map_set, check_pepper, secret_text, load_peppers, with_peppers,
  positive, non_negative, new_engine,
}

-- One accepted pepper.
pub record IsPepper (row : Text × Text) : Type 0 where
  pub kid_class : b64url_test row.0 ≡ true
  pub kid_bytes : byte_length row.0 ≤ 64
  pub unicode : is_well_formed_unicode row.1 ≡ true
  pub long_enough : 32 ≤ byte_length row.1

pub record IsReady (e : NebulaEngine) : Type 0 where
  pub peppers : All IsPepper e.peppers
  pub active_present : has e.active_kid e.peppers ≡ true
  pub absolute_positive : 0 < e.absolute_ttl
  pub idle_positive : 0 < e.idle_ttl

check_pepper-IsPepper :
    (kid : Text) (value : Unknown) (secret : Text)
    → check_pepper kid value ≡ ok secret
    → IsPepper (kid, secret)
unfolding check_pepper secret_text
check_pepper-IsPepper kid other secret h = ground arith
check_pepper-IsPepper kid (str t) secret h = ground arith

put-All :
    (k v : Text) (rows : List (Text × Text))
    → IsPepper (k, v)
    → All IsPepper rows
    → All IsPepper (put k v rows)
unfolding put
put-All k v [] p h = tt
put-All k v ((j, w) ∷ rows) p (q, h) = elim (Bool-cases (same_text j k)) [
  | inl hit ↦ rw hit (rw ((same_text_iff j k).0 hit) p, h)
  | inr miss ↦ rw miss (q, put-All k v rows p h)
]

map_set-All :
    (k v : Text) (rows : List (Text × Text))
    → IsPepper (k, v)
    → All IsPepper rows
    → All IsPepper (map_set k v rows)
unfolding map_set
map_set-All k v rows p h = elim (Bool-cases (has k rows)) [
  | inl old ↦ rw old (put-All k v rows p h)
  | inr new ↦ rw new (All-append IsPepper rows ((k, v) ∷ []) h (p, tt))
]

-- What goes on to a result went through a value.
>>=-eq-ok :
    {A B : Type 0} {out : B} (step : Result A) (rest : A → Result B)
    → step >>= rest ≡ ok out
    → (got : A) × (ok got ≡ step) × (rest got ≡ ok out)
>>=-eq-ok (throws error) rest went = cc
>>=-eq-ok (ok got) rest went = (got, refl, went)

load_peppers-All :
    (peppers : List (Text × Text)) (entries : List (Text × Unknown)) (loaded : List (Text × Text))
    → All IsPepper peppers
    → load_peppers peppers entries ≡ ok loaded
    → All IsPepper loaded
unfolding load_peppers
load_peppers-All peppers [] loaded h e = ground arith
load_peppers-All peppers ((kid, value) ∷ entries) loaded h e =
    let (secret, checked, rest) = >>=-eq-ok (check_pepper kid value) _ e in
    load_peppers-All (map_set kid secret peppers) entries loaded
      (map_set-All kid secret peppers (check_pepper-IsPepper kid value secret (sym checked)) h) rest

-- The checks after the loop.
with_peppers-eq_ok :
    (config : NebulaConfig) (peppers : List (Text × Text)) (e : NebulaEngine)
    → with_peppers config peppers ≡ ok e
    → (e.peppers ≡ peppers)
      × (e.active_kid ≡ config.active_kid)
      × (has config.active_kid peppers ≡ true)
      × (0 < e.absolute_ttl)
      × (0 < e.idle_ttl)
unfolding with_peppers positive non_negative
with_peppers-eq_ok config peppers e h = ground arith

-- Every engine that the constructor returns has an active pepper, positive lifetimes, and only
-- peppers of at least 32 bytes that are valid Unicode, under kids that a token can carry.
pub new_engine-IsReady :
    (config : NebulaConfig) (e : NebulaEngine) → new_engine config ≡ ok e → IsReady e
unfolding new_engine
new_engine-IsReady config e h =
    let (peppers, loaded, rest) =
      >>=-eq-ok (load_peppers [] config.peppers) (with_peppers config) h in
    let (same, kid, present, pa, pi) = with_peppers-eq_ok config peppers e rest in
    record {
      peppers =
          subst (All IsPepper) (sym same)
            (load_peppers-All [] config.peppers peppers tt (sym loaded));
      active_present =
          subst (λ k. has k e.peppers ≡ true) (sym kid)
            (subst (λ rows. has config.active_kid rows ≡ true) (sym same) present);
      absolute_positive = pa;
      idle_positive = pi;
    }
