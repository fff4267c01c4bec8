-- ===== src/Rpc/Tests.antt =====
-- The theorems on requests at small ones.
use widuino.Base.{ℕ, ◌≤◌, List, [], ◌∷◌, Option, none, some, true, ◌≡◌, ◌≢◌, refl}
use widuino.Gears.{RfMessage, SensorInfo, Request, Reply}
use widuino.Database.Failure.{DbError, not_found}
use widuino.Database.Messages.{no_message}
use widuino.Database.Sensors.{no_info}
use widuino.Rpc.{handle_request}
use widuino.Rpc.Client.{empty_request}
use widuino.Rpc.Replies.{handle_request-one_reply}

-- A database with no descriptions.
abbrev get_info : List ℕ → SensorInfo × Option DbError
get_info name = (no_info, some not_found)

abbrev message : RfMessage
message = record no_message { group = 212; node = 3; kind = 4; payload = 1 ∷ [] }

abbrev question : Request
question = record empty_request { si = some (b't' ∷ []); reply = some 1 }

handle_request-one_reply_example :
    (rep : Reply) × ((handle_request get_info (λ c r. true) (some question)).fatal ≡ none)
    × ((handle_request get_info (λ c r. true) (some question)).replied ≡ some (1, rep))
    × (rep.code ≤ 2)
    × (rep.code ≢ 0 → (handle_request get_info (λ c r. true) (some question)).effects ≡ [])
handle_request-one_reply_example =
    handle_request-one_reply get_info (λ c r. true) question 1 refl (λ r. refl)
