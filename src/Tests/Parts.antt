-- ===== src/Tests/Parts.antt =====
-- Witnesses of the theorems on the parts: codecs, the token's format, digests, the configuration.
use nebula_token.Common.{
  ℕ, ◌+◌, ◌≡◌, ◌↔◌, refl, true, none, some, [], ◌∷◌, same_text, Text, All, arith, length,
}
use nebula_token.Errors.{ok}
use nebula_token.Codec.Base64Url.{encode, b64url_test, is_b64url_char}
use nebula_token.Codec.Hex.{lower_hex_64_test}
use nebula_token.Codec.Utf8.{byte_length, unit_length, is_high, is_low, is_well_formed_unicode}
use nebula_token.Token.{str, ParsedToken}
use nebula_token.Digest.{constant_time_equal_hex, constant_time_equal_hex_iff}
use nebula_token.Config.{natural, NebulaConfig, new_engine, map_set}
use nebula_token.Config.Ready.{IsReady, new_engine-IsReady}
use nebula_token.Store.Rows.{get, put, TokenRecord, revoked}
use nebula_token.Scripts.Regex.{text}
use nebula_token.Store.Expiry.{IsUnexpired, delete_expired_lem, find-delete_expired}
use nebula_token.Store.{MemoryStore, find_by_selector, delete_expired, revoke_family, revoke_user}
use nebula_token.Store.Contract.{KeepsContract, memory-KeepsContract}
use nebula_token.Store.Family.{Revokes, of_family, of_user, revoke_all-Revokes}
use nebula_token.Tests.Fixture.{copies, pepper, kid, engine, login, logged_in, user_id}

abbrev parsed : ParsedToken
parsed = record { kid = kid; selector = encode (copies 16 1); verifier = copies 32 1 }

constant_time_equal_hex_iff_example :
    (constant_time_equal_hex (copies 64 b'a') (copies 64 b'A') ≡ true)
    ↔ ((lower_hex_64_test (copies 64 b'a') ≡ true) × (copies 64 b'a' ≡ copies 64 b'A'))
constant_time_equal_hex_iff_example = constant_time_equal_hex_iff (copies 64 b'a') (copies 64 b'A')

abbrev config : NebulaConfig
config = record {
  peppers = (kid, str pepper) ∷ [];
  active_kid = kid;
  absolute_ttl_seconds = some (natural 1000);
  idle_ttl_seconds = some (natural 100);
  reuse_grace_seconds = none;
}

config-accepted : new_engine config ≡ ok engine
unfolding new_engine map_set get put same_text b64url_test is_b64url_char byte_length unit_length
    is_high is_low is_well_formed_unicode
config-accepted = refl

new_engine-IsReady_example : IsReady engine
new_engine-IsReady_example = new_engine-IsReady config engine config-accepted

revoke_all-Revokes_example :
    Revokes (of_family login.family_id) logged_in.1 (revoke_family login.family_id logged_in.1)
    × Revokes (of_user login.family_id) logged_in.1 (revoke_user login.family_id logged_in.1)
revoke_all-Revokes_example = revoke_all-Revokes login.family_id logged_in.1

abbrev pub row : Text → ℕ → TokenRecord
row selector deadline = record {
  selector = selector;
  verifier_hash = [];
  kid = kid;
  family_id = [];
  generation = 0;
  user_id = user_id;
  device_id_hash = none;
  created_at = 0;
  family_expires_at = deadline;
  idle_expires_at = deadline;
  status = revoked;
  rotated_at = none;
  replaced_by_selector = none;
}

-- Two records, of which one has outlived its family at time 6000.
abbrev pub aged : MemoryStore
aged = record {
  rows = (text "old", row (text "old") 5999) ∷ (text "new", row (text "new") 6001) ∷ [];
}

memory-KeepsContract_example : KeepsContract aged
memory-KeepsContract_example = memory-KeepsContract aged

delete_expired_lem_example :
    All (IsUnexpired 6000) (delete_expired 6000 aged).1.rows
    × ((delete_expired 6000 aged).0 + length (delete_expired 6000 aged).1.rows ≡ 2)
delete_expired_lem_example = delete_expired_lem 6000 aged

new-found : find_by_selector (text "new") aged ≡ some (row (text "new") 6001)
unfolding find_by_selector get same_text
new-found = refl

find-delete_expired_example :
    find_by_selector (text "new") (delete_expired 6000 aged).1 ≡ some (row (text "new") 6001)
find-delete_expired_example =
    find-delete_expired 6000 (text "new") (row (text "new") 6001) aged new-found (omega arith)
