-- ===== src/Tests/Fixture.antt =====
-- An engine, random bytes and a session for the tests. `toy_hmac` stands for HMAC-SHA-256: it has
-- the length and the bytes of a digest and depends on the key and the message.
use nebula_token.Common.{
  ℕ, zero, suc, ◌+◌, ◌%◌, ◌<◌, ◌≡◌, refl, Option, none, some, List, [], ◌∷◌, arith, Text, length,
  All, same_text,
}
use nebula_token.Errors.{Result, ok}
use nebula_token.Codec.Base64Url.{IsByte, b64url_test, is_b64url_char, encode}
use nebula_token.Codec.Utf8.{byte_length, is_well_formed_unicode, unit_length, is_high, is_low}
use nebula_token.Codec.Hex
use nebula_token.Token.{token_text}
use nebula_token.Digest.{Hmac, IsSha256, hash_verifier, hash_device_id}
use nebula_token.Config.{NebulaEngine}
use nebula_token.Config.Ready.{IsReady}
use nebula_token.Store.Rows.{get}
use nebula_token.Store.{MemoryStore, find_by_selector, insert}
use nebula_token.Store.Invariant.{IsSound}
use nebula_token.Task.{run}
use nebula_token.Task.Schedule.{run-Keeps}
use nebula_token.Engine.Mint.{Draw, IsDraw, selector_text, active_pepper, mint}
use nebula_token.Engine.Results.{IssueResult}
use nebula_token.Engine.Discipline.{issue-Disciplined}
use nebula_token.Engine.Login.{IsDevice}
use nebula_token.Engine.{issue, first_binding}

abbrev pub copies : ℕ → ℕ → List ℕ
copies zero x = []
copies (suc n) x = x ∷ copies n x

abbrev pub checksum : List ℕ → ℕ
checksum [] = 0
checksum (b ∷ bs) = b + checksum bs

abbrev pub toy_hmac : Hmac
toy_hmac key message = copies 32 ((checksum key + checksum message) % 256)

length-copies : (n x : ℕ) → length (copies n x) ≡ n
length-copies zero x = refl
length-copies (suc n) x = omega (arith, length-copies n x)

copies-IsByte : (n x : ℕ) → x < 256 → All IsByte (copies n x)
copies-IsByte zero x h = tt
copies-IsByte (suc n) x h = (h, copies-IsByte n x h)

pub toy_hmac-IsSha256 : IsSha256 toy_hmac
toy_hmac-IsSha256 key message = (
  length-copies 32 ((checksum key + checksum message) % 256),
  copies-IsByte 32 ((checksum key + checksum message) % 256) (omega arith),
)

-- A pepper of 32 letters, a lifetime of 1000 seconds and an idle time of 100.
abbrev pub pepper : Text
pepper = copies 32 b'p'

abbrev pub kid : Text
kid = b'k' ∷ b'1' ∷ []

abbrev pub engine : NebulaEngine
engine = record {
  peppers = (kid, pepper) ∷ [];
  active_kid = kid;
  absolute_ttl = 1000;
  idle_ttl = 100;
  reuse_grace = 0;
}

pub engine-IsReady : IsReady engine
unfolding get b64url_test is_b64url_char byte_length unit_length is_well_formed_unicode is_high
    is_low same_text
engine-IsReady = record {
  peppers = (
    record { kid_class = refl; kid_bytes = omega arith; unicode = refl; long_enough = omega arith },
    tt,
  );
  active_present = refl;
  absolute_positive = omega arith;
  idle_positive = omega arith;
}

abbrev pub draw : ℕ → Draw
draw b = record { selector = copies 16 b; verifier = copies 32 b }

pub draw-IsDraw : (b : ℕ) → b < 256 → IsDraw (draw b)
draw-IsDraw b h = record {
  selector_length = length-copies 16 b;
  selector_bytes = copies-IsByte 16 b h;
  verifier_length = length-copies 32 b;
  verifier_bytes = copies-IsByte 32 b h;
}

abbrev pub user_id : Text
user_id = b'a' ∷ b'n' ∷ b'n' ∷ []

-- The session is bound to a device with a character beyond the basic plane.
abbrev pub device : Option Text
device = some (b'd' ∷ 0xd83d ∷ 0xde00 ∷ [])

pub device-IsDevice : IsDevice device
unfolding is_well_formed_unicode is_high is_low
device-IsDevice = refl

abbrev pub empty : MemoryStore
empty = record { rows = [] }

pub empty-lacks : (k : Text) → find_by_selector k empty ≡ none
unfolding find_by_selector get
empty-lacks k = refl

pub empty-IsSound : IsSound empty
unfolding find_by_selector get
empty-IsSound k r h = cc

-- The store after one login at time 5000, its result, and that it is sound.
abbrev pub logged_in : Result IssueResult × MemoryStore
logged_in = run (issue toy_hmac engine (draw 1) (copies 16 9) user_id device 5000) empty

abbrev pub login : IssueResult
login = record {
  token = token_text kid (encode (copies 16 1)) (copies 32 1);
  user_id = user_id;
  family_id = Hex.encode (copies 16 9);
  generation = 0;
  expires_at = 6000;
  idle_expires_at = 5100;
}

pub login-resolves : logged_in.0 ≡ ok login
unfolding run issue first_binding hash_device_id hash_verifier active_pepper mint selector_text
    insert get same_text is_well_formed_unicode is_high is_low
login-resolves = refl

pub logged_in-IsSound : IsSound logged_in.1
logged_in-IsSound =
    (run-Keeps (issue toy_hmac engine (draw 1) (copies 16 9) user_id device 5000)
        (issue-Disciplined toy_hmac engine (draw 1) (copies 16 9) user_id device 5000) empty).sound
      empty-IsSound
