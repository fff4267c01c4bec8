-- ===== src/Rpc/Connection/Pipelined.antt =====
-- hub/chansrv.go and gears/chancli.go: a connection over which requests are pipelined, and one on which
-- the client only pings.
use widuino.Base.{ℕ, zero, suc, List, [], ◌∷◌, ◌++◌, Option, none, some, true}
use widuino.Base.{◌≡◌, refl, ap, ◌∙◌, append-nil}
use widuino.Gears.{SensorInfo, Request, Reply}
use widuino.Database.Failure.{DbError}
use widuino.Rpc.{Effect, missing_reply_channel, handle_request, handle_echo_request, choose}
use widuino.Rpc.Client.{do_echo}
use widuino.Rpc.Laws.{served}
use widuino.Rpc.Connection.{
  by_request, and_next, request_loop, connected, dial, running, ping_again, pinger,
}

abbrev pub requests : List (ℕ × Request) → List (Option Request)
requests [] = []
requests ((c, req) ∷ rs) = some (record req { reply = some c }) ∷ requests rs

module _ (get_info : List ℕ → SensorInfo × Option DbError) where
  abbrev pub chosen : ℕ → Request → Reply × List Effect
  chosen c req = choose get_info (record req { reply = some c })

  abbrev pub replies_of : List (ℕ × Request) → List (ℕ × Reply)
  replies_of [] = []
  replies_of ((c, req) ∷ rs) = (c, (chosen c req).0) ∷ replies_of rs

  abbrev pub effects_of : List (ℕ × Request) → List Effect
  effects_of [] = []
  effects_of ((c, req) ∷ rs) = (chosen c req).1 ++ effects_of rs

  -- Requests that the client sends without waiting are handled and replied to in their order, each on
  -- its own channel, where replies can be sent, and errors of the handlers close nothing. A request
  -- without a reply channel closes the connection: it has no effect, and nothing behind it is handled.
  pub request_loop-pipelined :
      (rs : List (ℕ × Request)) (bad : Request) (more : List (Option Request))
      → bad.reply ≡ none
      → request_loop get_info (λ c rep. true) (requests rs ++ (some bad ∷ more)) ≡ record {
        effects = effects_of rs;
        replies = replies_of rs;
        closing = some (by_request missing_reply_channel);
      }
  unfolding request_loop handle_request
  request_loop-pipelined [] bad more e = rw e refl
  request_loop-pipelined ((c, req) ∷ rs) bad more e =
      ap (and_next (chosen c req).1 ((c, (chosen c req).0) ∷ []) none)
        (request_loop-pipelined rs bad more e)

  do_echo-served :
      (c : ℕ) (done : List Effect) → do_echo (served get_info) c done ≡ (some none, done)
  unfolding do_echo handle_request choose handle_echo_request
  do_echo-served c done = ap (λ d. (some none, d)) (append-nil done)

  -- With the hub serving, the client's Dial succeeds, and as often as it pings the connection stays
  -- open and nothing is done at the hub.
  dial-pinger :
      (c n : ℕ) (done : List Effect)
      → (dial (served get_info) c connected done
          ≡ (some (record { error = none; conn_open = true; pinging = true }), done))
        × (pinger (served get_info) c n done ≡ (running, done))
  unfolding dial pinger
  dial-pinger c zero done = (rw (do_echo-served c done) refl, refl)
  dial-pinger c (suc n) done = (
    rw (do_echo-served c done) refl,
    ap (ping_again (served get_info) c (pinger (served get_info) c n)) (do_echo-served c done)
        ∙ (dial-pinger c n done).1,
  )
