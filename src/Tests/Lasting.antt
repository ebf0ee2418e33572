-- ===== src/Tests/Lasting.antt =====
-- Witness of the theorem on whole sessions: a login and three refreshes.
use nebula_token.Common.{
  ◌≡◌, ◌≢◌, refl, false, Text, same_text, same_text_iff, List, [], ◌∷◌, arith, length, All,
}
use nebula_token.Errors.{ok}
use nebula_token.Engine.Mint.{IsDraw, selector_text}
use nebula_token.Engine.Results.{IssueResult, success}
use nebula_token.Engine.Lasting.{Turn, session, AreNew, draws, Lasts, session-Lasts}
use nebula_token.Tests.Fixture.{
  copies, toy_hmac, toy_hmac-IsSha256, engine, engine-IsReady, draw, draw-IsDraw, user_id, device,
  device-IsDevice, empty, empty-lacks, logged_in, login, login-resolves,
}
use nebula_token.Tests.Sessions.{engine_runs}

abbrev turns : List Turn
turns =
    record { draw = draw 2; now = 5050 }
    ∷ record { draw = draw 3; now = 5140 }
    ∷ record { draw = draw 4; now = 5141 }
    ∷ []

turns-IsDraw : All IsDraw (draw 1 ∷ draws turns)
turns-IsDraw = (
  draw-IsDraw 1 (omega arith),
  (draw-IsDraw 2 (omega arith), (draw-IsDraw 3 (omega arith), (draw-IsDraw 4 (omega arith), tt))),
)

different : (a b : Text) → same_text a b ≡ false → a ≢ b
different a b h e = cc (h, (same_text_iff a b).1 e)

turns-AreNew : AreNew empty (draw 1 ∷ draws turns)
unfolding engine_runs
turns-AreNew = (
  empty-lacks (selector_text (draw 1)),
  (different _ _ refl, (different _ _ refl, (different _ _ refl, tt))),
  (
    empty-lacks (selector_text (draw 2)),
    (different _ _ refl, (different _ _ refl, tt)),
    (
      empty-lacks (selector_text (draw 3)),
      (different _ _ refl, tt),
      (empty-lacks (selector_text (draw 4)), tt, tt),
    ),
  ),
)

session-Lasts_example :
    (l : IssueResult) × ((session toy_hmac engine device turns login logged_in.1).0
      ≡ ok (success l))
    × Lasts login l (length turns)
    × (l.expires_at ≡ 6000)
session-Lasts_example =
    session-Lasts toy_hmac engine (draw 1) (copies 16 9) user_id device 5000 empty login turns
      toy_hmac-IsSha256 engine-IsReady device-IsDevice turns-IsDraw turns-AreNew
      (omega arith, omega arith, (omega arith, omega arith, (omega arith, omega arith, tt)))
      login-resolves
