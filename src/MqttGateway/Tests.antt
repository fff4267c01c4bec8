-- ===== src/MqttGateway/Tests.antt =====
-- The older gateway with one network of nodes, over payloads that are the data behind its kind.
use widuino.Base.{ℕ, List, [], ◌∷◌, Option, none, some, true, ◌≡◌, refl, arith, if◌then◌else◌, leb}
use widuino.Base.Dict.{lookup, nat_key}
use widuino.Gateway.{UdpAddr}
use widuino.MqttGateway.{
  RfMessage, Payloads, MqttGateway, Incoming, udp_packet, mqtt_message, encode, run,
}
use widuino.MqttGateway.Topics.{tx_topic}
use widuino.MqttGateway.Groups.{last_source, packet_for, encode-run}
use widuino.MqttGateway.Subscriptions.{IsSubscribed, run-IsSubscribed}

abbrev unmarshalled : List ℕ → Option RfMessage
unmarshalled [] = none
unmarshalled (k ∷ text) = some (record { as_of = 0; kind = []; base64 = text })

abbrev plain : Payloads
plain = record { marshal = λ m. 0 ∷ m.base64; unmarshal = unmarshalled }

abbrev gateway_addr : UdpAddr
gateway_addr = record { ip = 10 ∷ 0 ∷ 0 ∷ 7 ∷ []; port = 9999 }

abbrev idle : MqttGateway
idle = record { networks = []; sent = []; subscribed = []; published = [] }

abbrev day : List Incoming
day =
    udp_packet 5 gateway_addr (1 ∷ 212 ∷ 3 ∷ 7 ∷ 8 ∷ [])
    ∷ mqtt_message true (tx_topic 212 3 b'x') (0 ∷ 9 ∷ [])
    ∷ []

encode-run_example :
    encode plain (run plain day idle).networks true (tx_topic 212 3 b'x') (0 ∷ 9 ∷ []) ≡ (
      if leb 3 30
      then packet_for 212 3 b'x' true (last_source 212 none day) (unmarshalled (0 ∷ 9 ∷ []))
      else [])
unfolding lookup
encode-run_example =
    encode-run plain day idle true 212 3 b'x' (0 ∷ 9 ∷ []) (omega arith) (omega arith) (λ e. cc)

sent_as :
    packet_for 212 3 b'x' true (last_source 212 none day) (unmarshalled (0 ∷ 9 ∷ []))
    ≡ record { dest = gateway_addr; bytes = 3 ∷ 212 ∷ 3 ∷ 9 ∷ [] } ∷ []
sent_as = refl

run-IsSubscribed_example : IsSubscribed (run plain day idle)
run-IsSubscribed_example = run-IsSubscribed plain day idle (refl, tt)
