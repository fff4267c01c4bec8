-- ===== src/Gateway.antt =====
-- hub/udpgw.go: the gateway between the UDP/RF nodes and the hub. A datagram is the list of its
-- bytes; the boot server is an argument, the clock's reading comes with each packet, and the
-- channels are the lists of what is sent on them.
pub mod Receive
pub mod Groups
pub mod Boots
pub mod Tests
use widuino.Base.{
  ℕ, zero, suc, ◌+◌, ◌%◌, List, [], ◌∷◌, ◌++◌, Option, none, some, Bool, true, false, not,
}
use widuino.Base.{◌&&◌, ◌||◌, ◌==◌, ltb, if◌then◌else◌, length, get_or, take, drop}
use widuino.Base.Dict.{Dict, lookup, insert, nat_key}
use widuino.Base.Int.{ℤ, pos}
use widuino.Gears.{RfMessage}
use widuino.Boot.Wire.{
  PairingRequest, PairingReply, UpgradeRequest, UpgradeReply, DownloadRequest, DownloadReply,
}
use widuino.Boot.Wire.{pairing_request_len, upgrade_request_len, download_request_len}
use widuino.Boot.Wire.{read_pairing_request, read_upgrade_request, read_download_request}
use widuino.Boot.Wire.{write_pairing_reply, write_upgrade_reply, write_download_reply}
use mathlib.Core.Option

pub record UdpAddr : Type 0 where
  pub ip : List ℕ
  pub port : ℕ

abbrev pub GroupMap : Type 0
GroupMap = Dict ℕ UdpAddr

unfoldable pub map_group_to_addr : GroupMap → ℕ → Option UdpAddr
map_group_to_addr gm group_id = lookup group_id gm

abbrev is_nil : Option UdpAddr → Bool
is_nil none = true
is_nil (some a) = false

-- The new map, and whether the group is new.
unfoldable pub save_group_to_addr : GroupMap → ℕ → UdpAddr → GroupMap × Bool
save_group_to_addr gm group_id addr = (insert group_id addr gm, is_nil (lookup group_id gm))

pub record Datagram : Type 0 where
  pub dest : UdpAddr
  pub bytes : List ℕ

-- The datagram, if the group's gateway is known.
unfoldable pub send_packet : GroupMap → ℕ → ℕ → ℕ → List ℕ → List Datagram
send_packet gm group node flags payload = elim (map_group_to_addr gm group) [
  | none ↦ []
  | some addr ↦ record { dest = addr; bytes = flags ∷ group ∷ node ∷ payload } ∷ []
]

-- One round of the transmitter.
unfoldable pub transmit : GroupMap → RfMessage → List Datagram
transmit gm m = send_packet gm m.group m.node (if m.node == 0 then 0 else 3) (m.kind ∷ m.payload)

-- The interface of the boot server, over its state. The outer `none` is a panic, the inner one a
-- nil reply.
pub record BootServer (S : Type 0) : Type 0 where
  pub pair : S → PairingRequest → Option (S × Option PairingReply)
  pub upgrade : S → UpgradeRequest → Option (S × Option UpgradeReply)
  pub download : S → DownloadRequest → Option (S × Option DownloadReply)

-- A packet as it comes in: when, from where, and its bytes.
pub record Packet : Type 0 where
  pub now : ℕ
  pub src : UdpAddr
  pub bytes : List ℕ

-- The state of the receiver, with what it has sent to the network and passed on to the hub so far.
pub record Gateway (S : Type 0) : Type 0 where
  pub groups : GroupMap
  pub server : S
  pub sent : List Datagram
  pub recv : List RfMessage

-- The message of a data packet. The test for an even length reads the new message's data, which
-- is nil.
unfoldable pub data_message : ℕ → ℕ → ℕ → List ℕ → RfMessage
data_message now group node bytes =
    let m : RfMessage = record {
      at = pos now;
      group = group;
      node = node;
      do_ack = false;
      kind = 0;
      payload = [];
    } in
    if node == 31 && length m.payload % 2 == 0
    then record m { kind = 8; payload = drop 3 bytes }
    else if ltb 3 (length bytes)
    then record m { kind = get_or bytes 3 0; payload = drop 4 bytes }
    else record m { payload = drop 3 bytes }

-- "GW " in front of a debug message of the gateway itself.
unfoldable pub debug_message : ℕ → ℕ → ℕ → List ℕ → RfMessage
debug_message now group node bytes = record {
  at = pos now;
  group = group;
  node = node;
  do_ack = false;
  kind = 2;
  payload = b'G' ∷ b'W' ∷ b' ' ∷ drop 3 bytes;
}

module _ {S : Type 0} where
  abbrev pub send : ℕ → ℕ → ℕ → List ℕ → Gateway S → Gateway S
  send group node flags payload u = record u {
    sent = u.sent ++ send_packet u.groups group node flags payload;
  }

  -- The server's answer: its new state, and a datagram if there is a reply.
  abbrev pub answer {ℓ} :
      {R : Type ℓ}
      → (R → List ℕ)
      → ℕ
      → ℕ
      → ℕ
      → Gateway S
      → Option (S × Option R)
      → Option (Gateway S)
  answer write group node flags u none = none
  answer write group node flags u (some (s, none)) = some (record u { server = s })
  answer write group node flags u (some (s, some reply)) =
      some (send group node flags (write reply) (record u { server = s }))

  abbrev pub pass_on : RfMessage → Gateway S → Gateway S
  pass_on m u = record u { recv = u.recv ++ (m ∷ []) }

  -- A handler behind the decoding of its request: a packet that cannot be decoded is dropped.
  abbrev pub serve {ℓ κ} :
      {Q : Type ℓ} {R : Type κ}
      → (R → List ℕ)
      → ℕ
      → ℕ
      → ℕ
      → Gateway S
      → (Q → Option (S × Option R))
      → Option Q
      → Option (Gateway S)
  serve write group node flags u ask none = some u
  serve write group node flags u ask (some req) = answer write group node flags u (ask req)

module _ {S : Type 0} (boot : BootServer S) where
  -- The handlers of boot packets; `bytes` is the whole packet, and `none` a panic.
  unfoldable pub handle_pairing_request : Gateway S → ℕ → ℕ → List ℕ → Option (Gateway S)
  handle_pairing_request u group node bytes =
      if not (length bytes == pairing_request_len + 3)
      then some u
      else serve write_pairing_reply group node 8 u (boot.pair u.server)
          (read_pairing_request (drop 3 bytes))

  unfoldable pub handle_upgrade_request : Gateway S → ℕ → ℕ → List ℕ → Option (Gateway S)
  handle_upgrade_request u group node bytes =
      serve write_upgrade_reply group node 7 u (boot.upgrade u.server)
        (read_upgrade_request (drop 3 bytes))

  unfoldable pub handle_download_request : Gateway S → ℕ → ℕ → List ℕ → Option (Gateway S)
  handle_download_request u group node bytes =
      serve write_download_reply group node 7 u (boot.download u.server)
        (read_download_request (drop 3 bytes))

  -- The switch on the packet's type, behind the update of the group map.
  unfoldable pub dispatch : ℕ → ℕ → ℕ → ℕ → List ℕ → Gateway S → Option (Gateway S)
  dispatch now flags group node bytes u =
      if flags == 8
      then handle_pairing_request u group node bytes
      else if flags == 5
      then (if length bytes == upgrade_request_len + 3
          then handle_upgrade_request u group node bytes
          else if length bytes == download_request_len + 3
          then handle_download_request u group node bytes
          else some u)
      else if flags == 9
      then some (pass_on (debug_message now group node bytes) u)
      else if flags == 0 || flags == 1
      then some (
          pass_on (data_message now group node bytes)
            (if flags % 2 == 0 then u else send group node 6 [] u))
      else some u

  -- One round of the receiver.
  unfoldable pub receive : Gateway S → Packet → Option (Gateway S)
  receive u p =
      let n = length p.bytes in
      let flags = get_or p.bytes 0 0 in
      let group = get_or p.bytes 1 0 in
      let node = get_or p.bytes 2 0 in
      let (groups, is_new) = save_group_to_addr u.groups group p.src in
      if ltb n 3
      then some u
      else if ltb (66 + 3) n
      then some u
      else dispatch p.now flags group node p.bytes (record u { groups = groups })

  -- The receiver's loop over the packets that come in.
  unfoldable pub receive_all : Gateway S → List Packet → Option (Gateway S)
  receive_all u [] = some u
  receive_all u (p ∷ ps) = elim (receive u p) [ none ↦ none | some u' ↦ receive_all u' ps ]
