-- ===== src/Tests/Sessions.antt =====
-- Witnesses of the theorems on sessions: a login, its refresh, a replay of the spent token, and a
-- logout.
use nebula_token.Common.{◌≡◌, ◌⊎◌, refl, none, some, [], ◌∷◌, arith, Text, same_text, ◌++◌}
use nebula_token.Errors.{Result, ok}
use nebula_token.Codec.Base64Url.{b64url_test, is_b64url_char, encode, decode}
use nebula_token.Codec.Hex
use nebula_token.Codec.Hex.{lower_hex_64_test}
use nebula_token.Codec.Split.{split}
use nebula_token.Codec.Utf8.{
  byte_length, unit_length, is_high, is_low, is_well_formed_unicode, utf8, encode_point, pair_point,
  unit_point,
}
use nebula_token.Token.{parse_token, parse_parts, check_parts, token_text}
use nebula_token.Digest.{device_prefix, hash_verifier, hash_device_id, constant_time_equal_hex}
use nebula_token.Store.Rows.{get, put, TokenRecord, active}
use nebula_token.Store.{
  MemoryStore, find_by_selector, insert, mark_rotated, revoke_if_active, revoke_family,
  compare_and_set, sweep,
}
use nebula_token.Store.Invariant.{IsSound}
use nebula_token.Store.Family.{FamilyRevoked}
use nebula_token.Task.{run}
use nebula_token.Task.Schedule.{run-Keeps}
use nebula_token.Engine.Mint.{selector_text, mint, active_pepper}
use nebula_token.Engine.Results.{
  IssueResult, RefreshResult, RefreshFailure, success, failure, fail, reuse_detected, revoked_token,
  RevokeResult, revoked_family,
}
use nebula_token.Engine.Discipline.{refresh-Disciplined}
use nebula_token.Engine.Outcome
use nebula_token.Engine.Outcome.{Proves}
use nebula_token.Engine.Guarantees.{Refused, refresh-authenticated, refresh-Refused}
use nebula_token.Engine.Success.{Succeeded, refresh-Succeeded}
use nebula_token.Engine.Session.{refresh_twice}
use nebula_token.Engine.Login.{StartsFamily, issue-resolves, issue-refresh}
use nebula_token.Engine.Logout.{logout-refresh}
use nebula_token.Engine.{
  refresh, issue, revoke_token, first_binding, refresh_found, refresh_proved, refresh_active,
  rotate, finish_rotation, next_binding, device_refused, device_matches, handle_reuse, within_grace,
  retry_in_grace, reuse_found, revoke_found,
}
use nebula_token.Tests.Fixture.{
  copies, toy_hmac, toy_hmac-IsSha256, engine, engine-IsReady, draw, draw-IsDraw, user_id, device,
  device-IsDevice, empty, pepper, kid, empty-lacks, logged_in, login, login-resolves,
  logged_in-IsSound,
}

-- What runs the engine.
unfoldable pub engine_runs : Unit {0}
unfolding run issue refresh revoke_token first_binding refresh_found refresh_proved refresh_active
    rotate finish_rotation next_binding device_refused device_matches handle_reuse within_grace
    retry_in_grace reuse_found revoke_found active_pepper mint selector_text hash_verifier
    hash_device_id constant_time_equal_hex find_by_selector insert mark_rotated revoke_if_active
    revoke_family compare_and_set sweep get put parse_token parse_parts check_parts token_text split
    byte_length unit_length is_high is_low is_well_formed_unicode utf8 encode_point pair_point
    unit_point b64url_test is_b64url_char encode decode Hex.encode Hex.decode Hex.hex_digit
    Hex.is_lower_hex lower_hex_64_test same_text
engine_runs = tt

issue-resolves_example :
    (l : IssueResult) × ((run
        (issue toy_hmac engine (draw 1) (copies 16 9) user_id device 5000)
        empty).0
      ≡ ok l)
    × StartsFamily toy_hmac engine (draw 1) (copies 16 9) user_id device 5000 empty l logged_in.1
issue-resolves_example =
    issue-resolves toy_hmac engine (draw 1) (copies 16 9) user_id device 5000 empty
      toy_hmac-IsSha256 engine-IsReady (draw-IsDraw 1 (omega arith)) device-IsDevice
      (empty-lacks (selector_text (draw 1)))

pub fresh_second : find_by_selector (selector_text (draw 2)) logged_in.1 ≡ none
unfolding engine_runs
fresh_second = refl

-- The refresh at time 5050.
abbrev second : Result RefreshResult × MemoryStore
second = run (refresh toy_hmac engine (draw 2) login.token device 5050) logged_in.1

abbrev resolved : (l : IssueResult) × (second.0 ≡ ok (success l))
resolved =
    issue-refresh toy_hmac engine (draw 1) (draw 2) (copies 16 9) user_id device 5000 5050 empty
      login toy_hmac-IsSha256 engine-IsReady (draw-IsDraw 1 (omega arith)) device-IsDevice
      (empty-lacks (selector_text (draw 1))) login-resolves fresh_second (omega arith)

refresh-Succeeded_example :
    Succeeded toy_hmac engine login.token logged_in.1 (draw 2) device 5050 resolved.0 second.1
refresh-Succeeded_example =
    refresh-Succeeded toy_hmac engine login.token logged_in.1 (draw 2) device 5050 resolved.0
      logged_in-IsSound fresh_second resolved.1

refresh-authenticated_example :
    (second.1 ≡ logged_in.1)
    ⊎ ((r : TokenRecord) × (pepper : Text) × Proves toy_hmac engine login.token logged_in.1 r
          pepper)
refresh-authenticated_example =
    refresh-authenticated toy_hmac engine login.token logged_in.1 (draw 2) device 5050
      logged_in-IsSound fresh_second

-- The replay at time 5060, from no device.
abbrev replayed : Result RefreshResult × MemoryStore
replayed = run (refresh toy_hmac engine (draw 3) login.token none 5060) second.1

abbrev replay :
    (f : RefreshFailure) × (replayed.0 ≡ ok (failure f))
    × (f.error ≡ reuse_detected)
    × (f.family_id ≡ some resolved.0.family_id)
    × FamilyRevoked resolved.0.family_id replayed.1
replay =
    refresh_twice toy_hmac engine login.token logged_in.1 (draw 2) (draw 3) device none 5050 5060
      resolved.0 refl logged_in-IsSound fresh_second resolved.1

refresh_twice_example :
    (f : RefreshFailure) × (replayed.0 ≡ ok (failure f))
    × (f.error ≡ reuse_detected)
    × (f.family_id ≡ some resolved.0.family_id)
    × FamilyRevoked resolved.0.family_id replayed.1
refresh_twice_example =
    refresh_twice toy_hmac engine login.token logged_in.1 (draw 2) (draw 3) device none 5050 5060
      resolved.0 refl logged_in-IsSound fresh_second resolved.1

second-IsSound : IsSound second.1
second-IsSound =
    (run-Keeps (refresh toy_hmac engine (draw 2) login.token device 5050)
        (refresh-Disciplined toy_hmac engine (draw 2) login.token device 5050) logged_in.1).sound
      logged_in-IsSound

fresh_third : find_by_selector (selector_text (draw 3)) second.1 ≡ none
unfolding engine_runs
fresh_third = refl

refresh-Refused_example :
    Refused toy_hmac engine login.token second.1
      (draw 3)
      none
      5060
      replay.0.error
      replay.0
      replayed.1
refresh-Refused_example =
    refresh-Refused toy_hmac engine login.token second.1 (draw 3) none 5060 replay.0 second-IsSound
      fresh_third replay.1

abbrev row : TokenRecord
row = record {
  selector = encode (copies 16 1);
  verifier_hash = Hex.encode (toy_hmac pepper (copies 32 1));
  kid = kid;
  family_id = login.family_id;
  generation = 0;
  user_id = user_id;
  device_id_hash =
      some (Hex.encode (toy_hmac pepper (utf8 (device_prefix ++ (b'd' ∷ 0xd83d ∷ 0xde00 ∷ [])))));
  created_at = 5000;
  family_expires_at = 6000;
  idle_expires_at = 5100;
  status = active;
  rotated_at = none;
  replaced_by_selector = none;
}

login-Proves : Proves toy_hmac engine login.token logged_in.1 row pepper
unfolding engine_runs
login-Proves = record {
  names = record {
    parsed = record { kid = kid; selector = encode (copies 16 1); verifier = copies 32 1 };
    parses = refl;
    known_kid = refl;
    found = refl;
  };
  has_pepper = refl;
  matches = refl;
}

abbrev logged_out : Result RevokeResult × MemoryStore
logged_out = run (revoke_token toy_hmac engine login.token) logged_in.1

logout-refresh_example :
    (logged_out.0
      ≡ ok (revoked_family user_id login.family_id (revoke_family login.family_id logged_in.1).0))
    × FamilyRevoked login.family_id logged_out.1
    × (run (refresh toy_hmac engine (draw 2) login.token none 5050) logged_out.1
        ≡ (ok (failure (fail revoked_token row)), logged_out.1))
logout-refresh_example =
    logout-refresh toy_hmac engine login.token logged_in.1 row pepper (draw 2) none 5050
      login-Proves
