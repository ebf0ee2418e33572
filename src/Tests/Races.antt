-- ===== src/Tests/Races.antt =====
-- Witnesses of the theorems on calls at the same time: two refreshes of one token, and a mix of
-- requests.
use nebula_token.Common.{◌≤◌, refl, none, List, [], ◌∷◌, map}
use nebula_token.Store.{MemoryStore}
use nebula_token.Store.Invariant.{IsSound, Extends}
use nebula_token.Task.{Task}
use nebula_token.Task.Schedule.{interleave}
use nebula_token.Engine.Results.{RefreshResult}
use nebula_token.Engine.Race.{Reach, start, own, successes}
use nebula_token.Engine.Requests.{
  Request, issuing, refreshing, revoking_token, revoking_user, serve, serve-Keeps,
}
use nebula_token.Engine.Winner.{Call, refreshes, refresh-at_most_one}
use nebula_token.Tests.Fixture.{
  copies, toy_hmac, engine, draw, user_id, device, logged_in, login, logged_in-IsSound,
}

-- Two refreshes of one token whose calls alternate.
abbrev pub calls : List Call
calls =
    record { draw = draw 2; device = device; now = 5050 }
    ∷ record { draw = draw 3; device = device; now = 5051 }
    ∷ []

abbrev racers : List (Task RefreshResult)
racers = refreshes toy_hmac engine login.token calls

abbrev raced : List (Task RefreshResult) × MemoryStore
raced = interleave (0 ∷ 1 ∷ 0 ∷ 1 ∷ 0 ∷ 1 ∷ 1 ∷ []) racers logged_in.1

raced-Reach : Reach racers logged_in.1 raced.0 raced.1
unfolding interleave
raced-Reach = own 1 (own 1 (own 0 (own 1 (own 0 (own 1 (own 0 start))))))

refresh-at_most_one_example : successes raced.0 ≤ 1
refresh-at_most_one_example =
    refresh-at_most_one toy_hmac engine login.token calls refl logged_in-IsSound raced-Reach

-- A login, a refresh, a logout and the revocation of a user at the same time.
abbrev pub requests : List Request
requests =
    issuing (draw 4) (copies 16 8) user_id none 5040
    ∷ refreshing (draw 2) login.token device 5050
    ∷ revoking_token login.token
    ∷ revoking_user user_id
    ∷ []

serve-Keeps_example :
    IsSound
      (interleave
        (0 ∷ 1 ∷ 2 ∷ 1 ∷ 3 ∷ 1 ∷ 2 ∷ [])
        (map (serve toy_hmac engine) requests)
        logged_in.1).1
    × Extends logged_in.1
        (interleave
          (0 ∷ 1 ∷ 2 ∷ 1 ∷ 3 ∷ 1 ∷ 2 ∷ [])
          (map (serve toy_hmac engine) requests)
          logged_in.1).1
serve-Keeps_example =
    serve-Keeps toy_hmac engine requests (0 ∷ 1 ∷ 2 ∷ 1 ∷ 3 ∷ 1 ∷ 2 ∷ []) logged_in.1
      logged_in-IsSound
