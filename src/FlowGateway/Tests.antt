-- ===== src/FlowGateway/Tests.antt =====
-- The theorems on the older gateway at small packets.
use widuino.Base.{ℕ, List, [], ◌∷◌, ◌++◌, map, none, some, ◌≡◌, refl, arith}
use widuino.Gateway.{UdpAddr, Packet}
use widuino.Gateway.Receive.{datagram}
use widuino.Gateway.Groups.{last_sender}
use widuino.FlowGateway.{
  oob_info, oob, recv, see, flow_gateway, packet_map, bytes, transmit, receive, receive_all,
}
use widuino.FlowGateway.Seen.{messages, receive-messages}
use widuino.FlowGateway.Overwritten.{receive-overwritten}
use widuino.FlowGateway.Replies.{transmit-ready}
use widuino.FlowGateway.Answers.{transmit-boot_packet}

abbrev relay : UdpAddr
relay = record { ip = 10 ∷ 0 ∷ 0 ∷ 7 ∷ []; port = 9999 }

-- A reading of node 3 that asks for an acknowledgement, a boot packet of node 35, a short packet.
abbrev reading : Packet
reading = record { now = 5; src = relay; bytes = 1 ∷ 212 ∷ 3 ∷ b'h' ∷ b'i' ∷ [] }

abbrev boot_request : Packet
boot_request = record { now = 6; src = relay; bytes = 8 ∷ 212 ∷ 35 ∷ 1 ∷ 2 ∷ [] }

abbrev short : Packet
short = record { now = 7; src = relay; bytes = 9 ∷ 212 ∷ [] }

receive-messages_example :
    let u' = receive flow_gateway reading in
    map (see u'.buffer) u'.outputs ≡ map (see u'.buffer) [] ++ messages 5 reading.bytes
receive-messages_example = receive-messages flow_gateway reading refl

receive-overwritten_example :
    let q : Packet = record { now = 8; src = relay; bytes = 0 ∷ 212 ∷ 4 ∷ b'y' ∷ b'o' ∷ [] } in
    let u' = receive (receive flow_gateway reading) q in
    map (see u'.buffer) u'.outputs
    ≡ recv (packet_map 5 1 212 3 (4 ∷ b'y' ∷ b'o' ∷ []))
      ∷ recv (packet_map 8 0 212 4 (4 ∷ b'y' ∷ b'o' ∷ []))
      ∷ []
receive-overwritten_example =
    receive-overwritten flow_gateway 5 8 relay relay 1 212 3 0 212 4 (b'h' ∷ b'i' ∷ [])
      (b'y' ∷ b'o' ∷ []) refl refl refl refl refl refl (omega arith) (omega arith)

transmit-ready_example :
    let u = receive_all flow_gateway (short ∷ boot_request ∷ []) in
    (a : UdpAddr) × (last_sender u.group none (short ∷ boot_request ∷ []) ≡ some a)
    × (transmit u (bytes (99 ∷ 7 ∷ [])) ≡ some (datagram a (3 ∷ u.group ∷ 3 ∷ 7 ∷ []) ∷ []))
transmit-ready_example = transmit-ready (short ∷ boot_request ∷ []) 99 (7 ∷ []) refl

transmit-boot_packet_example :
    let u' = receive flow_gateway boot_request in
    (m : List ℕ) × (map (see u'.buffer) u'.outputs
      ≡ map (see u'.buffer) [] ++ (oob_info 35 ∷ oob m ∷ []))
    × (transmit u' (bytes m) ≡ some (datagram relay (0 ∷ 212 ∷ 3 ∷ 1 ∷ 2 ∷ []) ∷ []))
unfolding receive widuino.FlowGateway.read_from_udp widuino.Gateway.save_group_to_addr
    widuino.Base.Dict.lookup
transmit-boot_packet_example =
    transmit-boot_packet flow_gateway boot_request 8 212 35 (1 ∷ 2 ∷ []) refl refl (omega arith)
      refl refl
