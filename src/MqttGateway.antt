-- ===== src/MqttGateway.antt =====
-- udp-gw/udpgw.go: the older gateway between UDP and MQTT. A topic is a list of characters, a
-- datagram a list of bytes; what is sent and published comes back in lists.
pub mod TxTopic
pub mod Topics
pub mod Groups
pub mod Subscriptions
mod Tests
use widuino.Base.{ℕ, zero, suc, ◌+◌, ◌-◌, ◌%◌, ◌^◌, List, [], ◌∷◌, ◌++◌, Option, none, some}
use widuino.Base.{
  Bool, true, false, not, ◌&&◌, ◌||◌, ◌==◌, ltb, leb, if◌then◌else◌, length, get_or, drop,
}
use widuino.Base.Dict.{Dict, lookup, insert, nat_key, bytes_same}
use widuino.Gateway.{UdpAddr, Datagram}
use widuino.Base.Decimal.{atoi, decimal}
use mathlib.Core.Option
use TxTopic.{Submatch, find_string_submatch}

abbrev pub Networks : Type 0
Networks = Dict ℕ UdpAddr

-- RFMessage; of its base64 text, the bytes that it stands for.
pub record RfMessage : Type 0 where
  pub as_of : ℕ
  pub kind : List ℕ
  pub base64 : List ℕ

-- The JSON text of a message, by encoding/json and encoding/base64.
pub record Payloads : Type 0 where
  pub marshal : RfMessage → List ℕ
  pub unmarshal : List ℕ → Option RfMessage

pub record Publish : Type 0 where
  pub qos_level : ℕ
  pub topic_name : List ℕ
  pub payload : List ℕ

unfoldable pub map_group_to_addr : Networks → ℕ → Option UdpAddr
map_group_to_addr networks group_id = lookup group_id networks

abbrev pub is_new : Option UdpAddr → Bool
is_new none = true
is_new (some addr) = false

-- The new map, and whether the group is new.
unfoldable pub save_group_to_addr : Networks → ℕ → UdpAddr → Networks × Bool
save_group_to_addr networks group_id addr =
    (insert group_id addr networks, is_new (lookup group_id networks))

-- The number that Atoi returns for digits, with its error left aside: the greatest int64 where they
-- are out of range.
abbrev pub atoi_value : Option (Bool × ℕ) → ℕ
atoi_value none = 2 ^ 63 - 1
atoi_value (some (negative, n)) = n

abbrev pub is_unicast : ℕ → Bool
is_unicast node_id = ltb 0 node_id && ltb node_id 31

-- The type code; a combination that fits no case leaves it at 0.
abbrev pub type_code : Bool → List ℕ → Bool → Bool → ℕ
type_code boot kind ack unicast =
    if boot && (bytes_same kind (b'b' ∷ b'o' ∷ b'o' ∷ b't' ∷ []) && unicast)
    then 7
    else if not boot && (ack && unicast)
    then 3
    else if not boot && (ack && not unicast)
    then 1
    else if not boot && (not ack && unicast)
    then 2
    else if not boot && (not ack && not unicast)
    then 0
    else 0

abbrev pub as_datagram : ℕ → ℕ → Bool → Bool → UdpAddr → Option RfMessage → List Datagram
as_datagram group_id node_id boot ack addr none = []
as_datagram group_id node_id boot ack addr (some msg) =
    record {
      dest = addr;
      bytes =
          type_code boot msg.kind ack (is_unicast node_id)
          ∷ (group_id % 256)
          ∷ (node_id % 256)
          ∷ msg.base64;
    }
    ∷ []

abbrev pub if_known : (UdpAddr → List Datagram) → Option UdpAddr → List Datagram
if_known rest none = []
if_known rest (some addr) = rest addr

module _ (payloads : Payloads) where
  abbrev pub encode_parts : Networks → Bool → List ℕ → Option Submatch → List Datagram
  encode_parts networks ack payload none = []
  encode_parts networks ack payload (some tt) =
      let group_id = atoi_value (atoi tt.group) in
      let node_id = atoi_value (atoi tt.node) in
      let boot = bytes_same tt.kind (b't' ∷ b'b' ∷ []) in
      if not (is_unicast node_id) && not (node_id == 0)
      then []
      else if_known
          (λ addr. as_datagram group_id node_id boot ack addr (payloads.unmarshal payload))
          (map_group_to_addr networks (group_id % 256))

  unfoldable pub encode : Networks → Bool → List ℕ → List ℕ → List Datagram
  encode networks ack topic payload = encode_parts networks ack payload (find_string_submatch topic)

-- "/rf/<group>/+/tx" and "/rf/<group>/+/tb".
abbrev pub sub_topics : ℕ → List (List ℕ)
sub_topics group_id =
    (b'/' ∷ b'r' ∷ b'f' ∷ b'/' ∷ (decimal group_id ++ (b'/' ∷ b'+' ∷ b'/' ∷ b't' ∷ b'x' ∷ [])))
    ∷ (b'/' ∷ b'r' ∷ b'f' ∷ b'/' ∷ (decimal group_id ++ (b'/' ∷ b'+' ∷ b'/' ∷ b't' ∷ b'b' ∷ [])))
    ∷ []

-- "rb" for the boot protocol, and "rx".
abbrev pub rxrb : ℕ → List ℕ
rxrb code = b'r' ∷ (if code == 8 || code == 5 then b'b' else b'x') ∷ []

abbrev pub kind_of : ℕ → List ℕ
kind_of code =
    if code == 8
    then b'p' ∷ b'a' ∷ b'i' ∷ b'r' ∷ b'i' ∷ b'n' ∷ b'g' ∷ []
    else if code == 5
    then b'b' ∷ b'o' ∷ b'o' ∷ b't' ∷ []
    else []

-- The node that a packet comes from: 0 for the codes that carry none.
abbrev pub source_node : ℕ → ℕ → ℕ
source_node code node_id =
    if code == 2 || (code == 3 || (code == 6 || (code == 7 || code == 9))) then 0 else node_id

abbrev pub rx_topic : ℕ → ℕ → ℕ → List ℕ
rx_topic code group_id node_id =
    b'/'
    ∷ b'r'
    ∷ b'f'
    ∷ b'/'
    ∷ (decimal group_id ++ (b'/' ∷ (decimal node_id ++ (b'/' ∷ rxrb code))))

-- The map of groups, and what has been sent on UDP, and subscribed to and published on MQTT.
pub record MqttGateway : Type 0 where
  pub networks : Networks
  pub sent : List Datagram
  pub subscribed : List (List ℕ)
  pub published : List Publish

-- What comes in: a UDP packet and when, or an MQTT message and whether its quality of service asks
-- for an acknowledgement.
pub data Incoming : Type 0 where
  udp_packet : ℕ → UdpAddr → List ℕ → Incoming
  mqtt_message : Bool → List ℕ → List ℕ → Incoming

module _ (payloads : Payloads) where
  abbrev pub publish_packet : ℕ → ℕ → ℕ → ℕ → List ℕ → List Publish
  publish_packet now code group_id node_id data' =
      if ltb 9 code
      then []
      else record {
        qos_level = 0;
        topic_name = rx_topic code group_id (source_node code node_id);
        payload = payloads.marshal (record { as_of = now; kind = kind_of code; base64 = data' });
      }
        ∷ []

  unfoldable pub decode : ℕ → UdpAddr → List ℕ → MqttGateway → MqttGateway
  decode now src (code ∷ group_id ∷ flags ∷ data') u =
      let (networks, new_group) = save_group_to_addr u.networks group_id src in
      record u {
        networks = networks;
        subscribed = u.subscribed ++ (if new_group then sub_topics group_id else []);
        published = u.published ++ publish_packet now code group_id (flags % 32) data';
      }
  decode now src _ u = u

  unfoldable pub udp_server : ℕ → UdpAddr → List ℕ → MqttGateway → MqttGateway
  udp_server now src pkt u = if ltb (length pkt) 4 then u else decode now src pkt u

  unfoldable pub mqtt_server : Bool → List ℕ → List ℕ → MqttGateway → MqttGateway
  mqtt_server ack topic payload u = record u {
    sent = u.sent ++ encode payloads u.networks ack topic payload;
  }

  abbrev pub come_in : Incoming → MqttGateway → MqttGateway
  come_in (udp_packet now src pkt) u = udp_server now src pkt u
  come_in (mqtt_message ack topic payload) u = mqtt_server ack topic payload u

  unfoldable pub run : List Incoming → MqttGateway → MqttGateway
  run [] u = u
  run (e ∷ es) u = run es (come_in e u)
