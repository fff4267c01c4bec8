-- ===== src/Rpc.antt =====
-- hub/chansrv.go and hub/chanhandlers.go: the server of the clients' requests. What a handler does to
-- the hub is a list of effects; the goroutines that it starts to copy a channel are one effect each.
pub mod Client
pub mod Streams
pub mod Upload
pub mod Connection
pub mod Laws
pub mod Replies
mod Tests
use widuino.Base.{ℕ, List, [], ◌∷◌, Option, none, some, Bool, true, false}
use widuino.Base.Int.{ℤ}
use widuino.Gears.{
  RfMessage, SensorInfo, RfSubRequest, SensorDataRequest, SensorReadRequest, SensorSubRequest,
}
use widuino.Gears.{
  ParamPutRequest, Request, Reply, ErrorText, blank, messages_is_nil, values_is_nil,
}
use widuino.Gears.{
  unknown_request, not_yet_implemented, of_database, code_ok, code_client_error, code_server_error,
}
use widuino.Database.Failure.{DbError}

pub data Effect : Type 0 where
  -- db.RFSubscribe from a time on, copied to a channel.
  rf_subscribed : ℤ → ℕ → Effect
  -- A message for the transmitter.
  transmitted : RfMessage → Effect
  -- db.SensorSubscribe to a name from a time on, copied to a channel.
  sensor_subscribed : List ℕ → ℤ → ℕ → Effect
  -- db.PutSensorValue under a name of what comes on a channel.
  values_stored : List ℕ → ℕ → Effect

abbrev pub fine : Reply
fine = record { code = code_ok; error = blank; er = none; pg = none; si = none }

abbrev pub failed : ℕ → ErrorText → Reply
failed code error = record { code = code; error = error; er = none; pg = none; si = none }

abbrev pub Handled : Type 0
Handled = Reply × List Effect

unfoldable pub handle_echo_request : List ℕ → Handled
handle_echo_request req = (record fine { er = some req }, [])

abbrev pub subscribed : ℤ → Option ℕ → Handled
subscribed start none = (failed code_client_error messages_is_nil, [])
subscribed start (some c) = (fine, rf_subscribed start c ∷ [])

unfoldable pub handle_rf_sub_request : RfSubRequest → Handled
handle_rf_sub_request req = subscribed req.start_at req.messages

unfoldable pub handle_rf_send_request : RfMessage → Handled
handle_rf_send_request req = (fine, transmitted req ∷ [])

-- What db.GetSensorInfo returned.
abbrev pub described : SensorInfo × Option DbError → Handled
described (info, some e) = (failed code_client_error (of_database e), [])
described (info, none) = (record fine { si = some info }, [])

unfoldable pub handle_sensor_info_request :
    (List ℕ → SensorInfo × Option DbError) → List ℕ → Handled
handle_sensor_info_request get_info name = described (get_info name)

abbrev pub sensor_watched : List ℕ → ℤ → Option ℕ → Handled
sensor_watched name start none = (failed code_client_error values_is_nil, [])
sensor_watched name start (some c) = (fine, sensor_subscribed name start c ∷ [])

unfoldable pub handle_sensor_sub_request : SensorSubRequest → Handled
handle_sensor_sub_request req = sensor_watched req.name req.start_at req.values

abbrev pub sensor_fed : List ℕ → Option ℕ → Handled
sensor_fed name none = (failed code_client_error values_is_nil, [])
sensor_fed name (some c) = (fine, values_stored name c ∷ [])

unfoldable pub handle_sensor_data_request : SensorDataRequest → Handled
handle_sensor_data_request req = sensor_fed req.name req.values

unfoldable pub handle_sensor_read_request : SensorReadRequest → Handled
handle_sensor_read_request req = (failed code_server_error not_yet_implemented, [])

unfoldable pub handle_param_put_request : ParamPutRequest → Handled
handle_param_put_request req = (failed code_server_error not_yet_implemented, [])

unfoldable pub handle_param_get_request : List ℕ → Handled
handle_param_get_request req = (failed code_server_error not_yet_implemented, [])

-- One case of the switch, in front of those behind it.
abbrev pub case_of {ℓ} : {R : Type ℓ} → Option R → (R → Handled) → Handled → Handled
case_of none handle rest = rest
case_of (some req) handle rest = handle req

-- The switch: the first field that is set chooses the handler.
unfoldable pub choose : (List ℕ → SensorInfo × Option DbError) → Request → Handled
choose get_info req = case_of req.er handle_echo_request (
    case_of req.rfs handle_rf_sub_request (
      case_of req.rf handle_rf_send_request (
        case_of req.si (handle_sensor_info_request get_info) (
          case_of req.sd handle_sensor_data_request (
            case_of req.sr handle_sensor_read_request (
              case_of req.ss handle_sensor_sub_request (
                case_of req.pp handle_param_put_request (
                  case_of req.pg handle_param_get_request
                    (failed code_client_error unknown_request, [])))))))))

-- What one request comes to: the error that closes the connection, what was done, and the reply on
-- its way, with its channel.
pub data Fatal : Type 0 where
  not_received missing_reply_channel cannot_send_reply : Fatal

pub record Outcome : Type 0 where
  pub fatal : Option Fatal
  pub effects : List Effect
  pub replied : Option (ℕ × Reply)

abbrev reply_on : (ℕ → Reply → Bool) → ℕ → Handled → Bool → Outcome
reply_on send c (rep, effects) true = record {
  fatal = none;
  effects = effects;
  replied = some (c, rep);
}
reply_on send c (rep, effects) false = record {
  fatal = some cannot_send_reply;
  effects = effects;
  replied = none;
}

abbrev pub handle_received :
    (List ℕ → SensorInfo × Option DbError) → (ℕ → Reply → Bool) → Request → Option ℕ → Outcome
handle_received get_info send req none = record {
  fatal = some missing_reply_channel;
  effects = [];
  replied = none;
}
handle_received get_info send req (some c) =
    reply_on send c (choose get_info req) (send c (choose get_info req).0)

-- `send` says whether a reply can be sent on a channel.
unfoldable pub handle_request :
    (List ℕ → SensorInfo × Option DbError) → (ℕ → Reply → Bool) → Option Request → Outcome
handle_request get_info send none = record {
  fatal = some not_received;
  effects = [];
  replied = none;
}
handle_request get_info send (some req) = handle_received get_info send req req.reply
