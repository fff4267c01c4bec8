-- ===== src/Rpc/Client.antt =====
-- gears/chancli.go: what a client makes of the reply to a request. The transport is third-party: a
-- function over its state, from a request to whether it was sent and to the reply that came back.
use widuino.Base.{ℕ, List, [], ◌∷◌, Option, none, some, not, ◌==◌, if◌then◌else◌}
use widuino.Base.Int.{ℤ}
use widuino.Base.Dict.{bytes_same}
use widuino.Gears.{RfMessage, SensorInfo, Request, Reply, ErrorText}
use widuino.Gears.{code_ok, code_client_error, code_server_error, code_ack_timeout}
use widuino.Database.Messages.{no_message}

pub data Answer : Type 0 where
  not_sent no_reply : Answer
  replied : Reply → Answer

-- The errors; `send_failed` and `receive_failed` are the transport's.
pub data ClientError : Type 0 where
  send_failed receive_failed ack_timeout bad_echo : ClientError
  client_error server_error unknown_error echo_error : ErrorText → ClientError

abbrev pub empty_request : Request
empty_request = record {
  er = none;
  rfs = none;
  rf = none;
  si = none;
  sd = none;
  sr = none;
  ss = none;
  pp = none;
  pg = none;
  reply = none;
}

-- The switch on the reply's code.
abbrev by_code : Reply → Option ClientError
by_code r =
    if r.code == code_ok
    then none
    else if r.code == code_client_error
    then some (client_error r.error)
    else if r.code == code_server_error
    then some (server_error r.error)
    else if r.code == code_ack_timeout
    then some ack_timeout
    else some (unknown_error r.error)

abbrev read_answer : Answer → Option ClientError
read_answer not_sent = some send_failed
read_answer no_reply = some receive_failed
read_answer (replied r) = by_code r

-- The result of an echo: `*reply.ER` panics on nil, here the outer `none`.
abbrev echoed : List ℕ → Option (List ℕ) → Option (Option ClientError)
echoed txt none = none
echoed txt (some back) = some (if bytes_same back txt then none else some bad_echo)

abbrev read_echo : List ℕ → Answer → Option (Option ClientError)
read_echo txt not_sent = some (some send_failed)
read_echo txt no_reply = some (some receive_failed)
read_echo txt (replied r) =
    if not (r.code == code_ok) then some (some (echo_error r.error)) else echoed txt r.er

-- "Hello world!".
abbrev pub hello : List ℕ
hello = b'H' ∷ b'e' ∷ b'l' ∷ b'l' ∷ b'o' ∷ b' ' ∷ b'w' ∷ b'o' ∷ b'r' ∷ b'l' ∷ b'd' ∷ b'!' ∷ []

-- `c` is the number of the pipe made for the reply.
module _ {T : Type 0} (call : Request → T → Answer × T) (c : ℕ) where
  unfoldable pub do_request : Request → T → Option ClientError × T
  do_request req t =
      let (answer, t') = call (record req { reply = some c }) t in (read_answer answer, t')

  unfoldable pub rf_send : RfMessage → T → Option ClientError × T
  rf_send msg t = do_request (record empty_request { rf = some msg }) t

  -- The subscriptions return a channel, `sub`, if there is no error.
  unfoldable pub rf_subscribe : ℕ → ℤ → T → Option ClientError × T
  rf_subscribe sub start t =
      do_request
        (record empty_request {
          rfs = some (record { start_at = start; match_on = no_message; messages = some sub });
        })
        t

  unfoldable pub sensor_subscribe : ℕ → List ℕ → ℤ → T → Option ClientError × T
  sensor_subscribe sub name start t =
      do_request
        (record empty_request {
          ss = some (record { name = name; start_at = start; values = some sub });
        })
        t

  unfoldable pub sensor_read : ℕ → List ℕ → ℤ → ℤ → ℤ → T → Option ClientError × T
  sensor_read values name start end step t =
      do_request
        (record empty_request {
          sr = some (record {
            name = name;
            start_at = start;
            end_at = end;
            step = step;
            values = some values;
          });
        })
        t

  unfoldable pub sensor_send_data : ℕ → List ℕ → SensorInfo → T → Option ClientError × T
  sensor_send_data values name info t =
      do_request
        (record empty_request {
          sd = some (record { name = name; info = info; values = some values });
        })
        t

  unfoldable pub do_echo : T → Option (Option ClientError) × T
  do_echo t =
      let (answer, t') = call (record empty_request { er = some hello; reply = some c }) t in
      (read_echo hello answer, t')
