-- ===== src/Gateway/Tests.antt =====
-- The gateway's theorems at small packets, with the `booter` behind it.
use widuino.Base.{List, [], ◌∷◌, none, some, true, ◌≡◌, ◌⊎◌, refl, inl, arith}
use widuino.Base.Dict.{lookup, insert, nat_key}
use widuino.Base.Int.{pos}
use widuino.Gears.{RfMessage}
use widuino.Boot.Wire.{UpgradeReply, write_upgrade_reply}
use widuino.Boot.Wire.Layout.{upgrade_request_bytes}
use widuino.Boot.Server.{Booter, find_software, upgrade, cached_software}
use widuino.Boot.Server.Tests.{files, small, request}
use widuino.Gateway.{UdpAddr, Packet, Gateway, BootServer, receive, receive_all, dispatch, transmit}
use widuino.Gateway.{save_group_to_addr, data_message, map_group_to_addr}
use widuino.Gateway.Receive.{datagram, message_in, IsBootRound, receive-data, receive-boot}
use widuino.Gateway.Groups.{last_sender, transmit-receive_all}
use widuino.Gateway.Boots.{booter_server, packet, replied, receive-upgrade}

abbrev pub relay : UdpAddr
relay = record { ip = 192 ∷ 168 ∷ 0 ∷ 9 ∷ []; port = 9999 }

abbrev other : UdpAddr
other = record { ip = 192 ∷ 168 ∷ 0 ∷ 8 ∷ []; port = 9999 }

abbrev pub server : BootServer Booter
server = booter_server files none

abbrev pub idle : Gateway Booter
idle = record { groups = (212, other) ∷ []; server = small; sent = []; recv = [] }

receive-data_example :
    receive server idle (record { now = 5000; src = relay; bytes = 1 ∷ 212 ∷ 3 ∷ 4 ∷ 71 ∷ 69 ∷ [] })
    ≡ some (record idle {
      groups = insert 212 relay ((212, other) ∷ []);
      sent = datagram relay (6 ∷ 212 ∷ 3 ∷ []) ∷ [];
      recv = message_in 5000 212 3 (4 ∷ 71 ∷ 69 ∷ []) ∷ [];
    })
receive-data_example =
    receive-data server idle 5000 relay 1 212 3 (4 ∷ 71 ∷ 69 ∷ []) (omega arith) (omega arith)

abbrev short : Packet
short = record { now = 5000; src = relay; bytes = 1 ∷ 212 ∷ [] }

upgraded : (r : UpgradeReply) × (server.upgrade small request ≡ some (small, some r))
unfolding upgrade find_software cached_software lookup
upgraded = (_, refl)

receive-upgrade_example :
    receive server idle (packet server idle 5000 212 3 relay 5 (upgrade_request_bytes request))
    ≡ some (replied server idle 5000 212 3 relay small 7 (write_upgrade_reply upgraded.0))
receive-upgrade_example =
    receive-upgrade server idle 5000 212 3 relay request small upgraded.0 upgraded.1

receive-boot_example :
    IsBootRound server idle
      (replied server idle 5000 212 3 relay small 7 (write_upgrade_reply upgraded.0))
      relay
      212
      3
receive-boot_example =
    receive-boot server idle
      (replied server idle 5000 212 3 relay small 7 (write_upgrade_reply upgraded.0)) 5000 relay 5
      212 3 (upgrade_request_bytes request) (inl refl) (unfold upgrade_request_bytes in omega arith)
      (receive-upgrade server idle 5000 212 3 relay request small upgraded.0 upgraded.1)

abbrev two_packets : List Packet
two_packets =
    record { now = 5000; src = relay; bytes = 0 ∷ 212 ∷ 3 ∷ 4 ∷ 71 ∷ [] }
    ∷ record { now = 5001; src = other; bytes = 0 ∷ 7 ∷ [] }
    ∷ []

survived : (u : Gateway Booter) × (receive_all server idle two_packets ≡ some u)
unfolding receive_all receive dispatch save_group_to_addr data_message lookup insert
survived = (_, refl)

abbrev message : RfMessage
message = record {
  at = pos 0;
  group = 212;
  node = 3;
  do_ack = true;
  kind = 4;
  payload = 1 ∷ 2 ∷ [];
}

transmit-receive_all_example :
    let to = last_sender 212 (map_group_to_addr idle.groups 212) two_packets in
    ((to ≡ none) × (transmit survived.0.groups message ≡ []))
    ⊎ ((a : UdpAddr) × (to ≡ some a)
        × (transmit survived.0.groups message ≡ datagram a (3 ∷ 212 ∷ 3 ∷ 4 ∷ 1 ∷ 2 ∷ []) ∷ []))
transmit-receive_all_example =
    transmit-receive_all server idle survived.0 two_packets message survived.1
