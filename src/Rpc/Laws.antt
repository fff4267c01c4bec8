-- ===== src/Rpc/Laws.antt =====
-- gears/chancli.go against hub/chansrv.go: client and server together.
use widuino.Base.{ℕ, List, ◌++◌, Option, none, some, true}
use widuino.Gears.{SensorInfo, Request, Reply}
use widuino.Database.Failure.{DbError}
use widuino.Rpc.{Effect, handle_request}
use widuino.Rpc.Client.{Answer, no_reply, replied}

abbrev as_answer : Option (ℕ × Reply) → Answer
as_answer none = no_reply
as_answer (some (c, rep)) = replied rep

module _ (get_info : List ℕ → SensorInfo × Option DbError) where
  -- A connection that delivers: the server's effects so far are its state.
  abbrev pub served : Request → List Effect → Answer × List Effect
  served req done =
      let out = handle_request get_info (λ c rep. true) (some req) in
      (as_answer out.replied, done ++ out.effects)
