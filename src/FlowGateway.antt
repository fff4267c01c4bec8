-- ===== src/FlowGateway.antt =====
-- OLD/flow/gadgets/udpgw.go: the older gateway between the UDP/RF nodes and a circuit of gadgets.
-- A datagram is the list of its bytes; the outputs are the list of what has been sent on them. The
-- receiver reads every packet into the same buffer, and sends slices of it.
pub mod Seen
pub mod Overwritten
pub mod Replies
pub mod Answers
--pub mod Replies
mod Tests
use widuino.Base.{
  ℕ, suc, ◌+◌, ◌-◌, ◌*◌, ◌/◌, ◌%◌, bit_or, List, [], ◌∷◌, ◌++◌, Option, none, some, Bool,
}
use widuino.Base.{not, ◌||◌, ◌==◌, ltb, if◌then◌else◌, length, get_or, take, drop, replicate}
use widuino.Base.Words.{u8}
use widuino.Base.Decimal.{decimal}
use widuino.Gateway.{UdpAddr, GroupMap, Datagram, Packet}
use widuino.Gateway as Hub

-- The message of a data packet, with the bytes of "raw" of type B.
pub record PacketMap (B : Type 0) : Type 0 where
  pub rf12 : List ℕ
  pub group : ℕ
  pub band : ℕ
  pub node : ℕ
  pub flags : ℕ
  pub raw : B
  pub asof : ℕ

-- What is sent on the outputs Rej, Oob (two kinds of messages) and Recv.
pub data Sent (B : Type 0) : Type 0 where
  rej : B → Sent B
  oob_info : ℕ → Sent B
  oob : B → Sent B
  recv : PacketMap B → Sent B

-- A slice of the receiver's buffer.
pub record Slice : Type 0 where
  pub from : ℕ
  pub len : ℕ

-- What a gadget reads in a slice, and in a message, while the buffer is `buffer`.
abbrev pub read_slice : List ℕ → Slice → List ℕ
read_slice buffer s = take s.len (drop s.from buffer)

abbrev pub see : List ℕ → Sent Slice → Sent (List ℕ)
see buffer (rej s) = rej (read_slice buffer s)
see buffer (oob_info node) = oob_info node
see buffer (oob s) = oob (read_slice buffer s)
see buffer (recv m) = recv (record {
  rf12 = m.rf12;
  group = m.group;
  band = m.band;
  node = m.node;
  flags = m.flags;
  raw = read_slice buffer m.raw;
  asof = m.asof;
})

-- The state: the buffer, the group to send to, the map of groups, and what has been sent to the
-- network and on the outputs.
pub record FlowGateway : Type 0 where
  pub buffer : List ℕ
  pub group : ℕ
  pub networks : GroupMap
  pub sent : List Datagram
  pub outputs : List (Sent Slice)

abbrev pub buffer_len : ℕ
buffer_len = 1600

abbrev pub flow_gateway : FlowGateway
flow_gateway = record {
  buffer = replicate buffer_len 0;
  group = 0;
  networks = [];
  sent = [];
  outputs = [];
}

-- The map of groups and the sending of a packet are the same code in both gateways.
abbrev pub map_group_to_addr : GroupMap → ℕ → Option UdpAddr
map_group_to_addr = Hub.map_group_to_addr

abbrev pub save_group_to_addr : GroupMap → ℕ → UdpAddr → GroupMap × Bool
save_group_to_addr = Hub.save_group_to_addr

abbrev pub send_packet : GroupMap → ℕ → ℕ → ℕ → List ℕ → List Datagram
send_packet = Hub.send_packet

-- A message on the input Xmit.
pub data Xmit : Type 0 where
  text bytes : List ℕ → Xmit
  pulse : Xmit
  line : Bool → Xmit

-- One round of the transmitter; `none` is a panic.
unfoldable pub transmit : FlowGateway → Xmit → Option (List Datagram)
transmit u (bytes []) = none
transmit u (bytes (b ∷ bs)) = some (send_packet u.networks u.group (b % 32) (b / 32) bs)
transmit u m = some []

-- ReadFromUDP: the packet is copied over the front of the buffer, as far as it fits.
unfoldable pub read_from_udp : List ℕ → List ℕ → List ℕ × ℕ
read_from_udp buffer packet =
    let front = take (length buffer) packet in (front ++ drop (length front) buffer, length front)

abbrev pub put_output : Sent Slice → FlowGateway → FlowGateway
put_output m u = record u { outputs = u.outputs ++ (m ∷ []) }

-- `(flags << 5) | (node & 0x1f)` as a byte.
abbrev pub rf12_header : ℕ → ℕ → ℕ
rf12_header flags node = bit_or (u8 (flags * 32)) (node % 32)

-- Boot packets: the node, and the packet from its third byte on, with that byte overwritten.
abbrev pub boot_packet : ℕ → ℕ → ℕ → FlowGateway → FlowGateway
boot_packet flags node n u =
    let told = put_output (oob_info node) u in
    put_output (oob (record { from = 2; len = n - 2 }))
      (record told { buffer = take 2 u.buffer ++ (rf12_header flags node ∷ drop 3 u.buffer) })

-- "RFg%di%d".
abbrev pub rf12_name : ℕ → ℕ → List ℕ
rf12_name group node = b'R' ∷ b'F' ∷ b'g' ∷ (decimal group ++ (b'i' ∷ decimal node))

abbrev pub packet_map : {B : Type 0} → ℕ → ℕ → ℕ → ℕ → B → PacketMap B
packet_map now flags group node raw = record {
  rf12 = rf12_name group node;
  group = group;
  band = 9;
  node = node;
  flags = flags;
  raw = raw;
  asof = now;
}

-- All other packets, with an acknowledgement when one is asked for.
abbrev pub data_packet : ℕ → ℕ → ℕ → ℕ → ℕ → FlowGateway → FlowGateway
data_packet now flags group node n u =
    put_output (recv (packet_map now flags group node (record { from = 2; len = n - 2 }))) (
      if flags % 2 == 0
      then u
      else record u { sent = u.sent ++ send_packet u.networks group node 6 [] })

abbrev pub switch_flags : ℕ → ℕ → ℕ → ℕ → ℕ → FlowGateway → FlowGateway
switch_flags now flags group node n u =
    if flags == 5 || flags == 8
    then boot_packet flags node n u
    else if flags == 9
    then u
    else data_packet now flags group node n u

-- One round of the receiver.
unfoldable pub receive : FlowGateway → Packet → FlowGateway
receive u p =
    let (buffer, n) = read_from_udp u.buffer p.bytes in
    let flags = get_or buffer 0 0 in
    let group_id = get_or buffer 1 0 in
    let node_id = get_or buffer 2 0 in
    let (networks, new_group) = save_group_to_addr u.networks group_id p.src in
    let got = record u { buffer = buffer } in
    if ltb n 3 || ltb (66 + 3) n
    then put_output (rej (record { from = 0; len = n })) got
    else switch_flags p.now flags group_id node_id n
        (record got { networks = networks; group = if new_group then group_id else u.group })

-- The receiver's loop over the packets that come in.
unfoldable pub receive_all : FlowGateway → List Packet → FlowGateway
receive_all u [] = u
receive_all u (p ∷ ps) = receive_all (receive u p) ps
