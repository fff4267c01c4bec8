-- ===== src/Gears.antt =====
-- gears/chancmd.go: the messages that the parts of the hub and its clients exchange. A string is
-- the list of its bytes.
use widuino.Base.{ℕ, List, Bool, Option}
use widuino.Database.Failure.{DbError}
use widuino.Base.Int.{ℤ}

pub record RfMessage : Type 0 where
  pub at : ℤ
  pub group : ℕ
  pub node : ℕ
  pub do_ack : Bool
  pub kind : ℕ
  pub payload : List ℕ

-- The value of a sensor, a floating-point number there.
pub record SensorDataValue (F : Type 0) : Type 0 where
  pub at : ℤ
  pub value : F

pub record SensorInfo : Type 0 where
  pub unit : List ℕ
  pub rate : Bool

-- The requests, with the channels in them as numbers; `none` is a nil pointer or channel.
pub record RfSubRequest : Type 0 where
  pub start_at : ℤ
  pub match_on : RfMessage
  pub messages : Option ℕ

pub record SensorDataRequest : Type 0 where
  pub name : List ℕ
  pub info : SensorInfo
  pub values : Option ℕ

pub record SensorReadRequest : Type 0 where
  pub name : List ℕ
  pub start_at : ℤ
  pub end_at : ℤ
  pub step : ℤ
  pub values : Option ℕ

pub record SensorSubRequest : Type 0 where
  pub name : List ℕ
  pub start_at : ℤ
  pub values : Option ℕ

pub record ParamPutRequest : Type 0 where
  pub name : List ℕ
  pub value : List ℕ

-- The requests of a name alone are the name, and an echo is its text.
pub record Request : Type 0 where
  pub er : Option (List ℕ)
  pub rfs : Option RfSubRequest
  pub rf : Option RfMessage
  pub si : Option (List ℕ)
  pub sd : Option SensorDataRequest
  pub sr : Option SensorReadRequest
  pub ss : Option SensorSubRequest
  pub pp : Option ParamPutRequest
  pub pg : Option (List ℕ)
  pub reply : Option ℕ

-- What the text of a reply's error says.
pub data ErrorText : Type 0 where
  blank messages_is_nil values_is_nil unknown_request not_yet_implemented : ErrorText
  of_database : DbError → ErrorText

pub record Reply : Type 0 where
  pub code : ℕ
  pub error : ErrorText
  pub er : Option (List ℕ)
  pub pg : Option (List ℕ)
  pub si : Option SensorInfo

abbrev pub code_ok : ℕ
code_ok = 0

abbrev pub code_client_error : ℕ
code_client_error = 1

abbrev pub code_server_error : ℕ
code_server_error = 2

abbrev pub code_ack_timeout : ℕ
code_ack_timeout = 3
