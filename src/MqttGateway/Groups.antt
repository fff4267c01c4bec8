-- ===== src/MqttGateway/Groups.antt =====
-- udp-gw/udpgw.go: where a message for a group is sent, and which topics are subscribed to.
use widuino.Base.{ℕ, ◌%◌, ◌^◌, ◌≤◌, ◌<◌, List, [], ◌∷◌, Option, none, some, Bool, true, false}
use widuino.Base.{
  ◌≡◌, ◌≢◌, refl, ap, ◌∙◌, inl, inr, arith, Bool-cases, not, ◌&&◌, ◌==◌, ltb, leb, if◌then◌else◌,
  length,
}
use widuino.Base.Dict.{lookup, nat_key, bytes_same, lookup-insert_self, lookup-insert_ne}
use widuino.Base.Decimal.ReadBack.{atoi-decimal}
use widuino.Gateway.{UdpAddr, Datagram}
use widuino.MqttGateway.{
  Networks, RfMessage, Payloads, MqttGateway, Incoming, udp_packet, mqtt_message, is_unicast,
  type_code, as_datagram, if_known, encode, encode_parts,
}
use widuino.MqttGateway.{
  map_group_to_addr, save_group_to_addr, decode, udp_server, mqtt_server, run,
}
use widuino.MqttGateway.Topics.{tx_topic, find_string_submatch-tx_topic}

abbrev in_group : ℕ → List ℕ → Bool
in_group g (code ∷ group_id ∷ flags ∷ b ∷ more) = group_id == g
in_group g _ = false

-- The sender of the last packet of 4 bytes or more from the group, if there was one.
abbrev pub last_source : ℕ → Option UdpAddr → List Incoming → Option UdpAddr
last_source g o [] = o
last_source g o (udp_packet now src pkt ∷ es) =
    last_source g (if in_group g pkt then some src else o) es
last_source g o (mqtt_message ack topic payload ∷ es) = last_source g o es

-- The code of a packet to a node, 0 for all of the group's: a boot reply on the topic "tb", and data
-- with or without acknowledgement, to a node or to all, on any other.
abbrev pub tx_code : ℕ → ℕ → Bool → List ℕ → ℕ
tx_code n c ack kind =
    if c == b'b'
    then (if bytes_same kind (b'b' ∷ b'o' ∷ b'o' ∷ b't' ∷ []) && ltb 0 n then 7 else 0)
    else if ack
    then (if ltb 0 n then 3 else 1)
    else (if ltb 0 n then 2 else 0)

abbrev pub packet_for : ℕ → ℕ → ℕ → Bool → Option UdpAddr → Option RfMessage → List Datagram
packet_for g n c ack (some addr) (some msg) =
    record { dest = addr; bytes = tx_code n c ack msg.kind ∷ (g % 256) ∷ n ∷ msg.base64 } ∷ []
packet_for g n c ack to msg = []

type_code-tx_code :
    (n c : ℕ) (ack : Bool) (kind : List ℕ)
    → n ≤ 30
    → type_code (bytes_same (b't' ∷ c ∷ []) (b't' ∷ b'b' ∷ [])) kind ack (is_unicast n)
      ≡ tx_code n c ack kind
type_code-tx_code n c ack kind h =
    let below : ltb n 31 ≡ true = ground (arith, h) in
    elim (Bool-cases (bytes_same kind (b'b' ∷ b'o' ∷ b'o' ∷ b't' ∷ []))) [
      | inl boot ↦ ground (arith, boot, below)
      | inr data_kind ↦ ground (arith, data_kind, below)
    ]

too_high : (n : ℕ) → (not (is_unicast n) && not (n == 0)) ≡ not (leb n 30)
too_high n = ground arith

module _ (payloads : Payloads) where
  as_datagram-packet_for :
      (g n c : ℕ) (ack : Bool) (to : Option UdpAddr) (msg : Option RfMessage)
      → n ≤ 30
      → if_known
          (λ addr. as_datagram g n (bytes_same (b't' ∷ c ∷ []) (b't' ∷ b'b' ∷ [])) ack addr msg)
          to
        ≡ packet_for g n c ack to msg
  as_datagram-packet_for g n c ack none msg h = refl
  as_datagram-packet_for g n c ack (some addr) none h = refl
  as_datagram-packet_for g n c ack (some addr) (some msg) h =
      let small : n % 256 ≡ n = omega arith in rw (type_code-tx_code n c ack msg.kind h, small) refl

  encode-tx_topic :
      (networks : Networks) (ack : Bool) (g n c : ℕ) (payload : List ℕ)
      → g < 2 ^ 63
      → n < 2 ^ 63
      → c ≢ 10
      → encode payloads networks ack (tx_topic g n c) payload ≡ (
          if leb n 30
          then packet_for g n c ack (lookup (g % 256) networks) (payloads.unmarshal payload)
          else [])
  unfolding encode map_group_to_addr
  encode-tx_topic networks ack g n c payload hg hn hc =
      ap (encode_parts payloads networks ack payload) (find_string_submatch-tx_topic g n c hc)
      ∙ rw (atoi-decimal g hg, atoi-decimal n hn, too_high n)
          (elim (Bool-cases (leb n 30)) [
            | inl node ↦ rw node (
                as_datagram-packet_for g n c ack (lookup (g % 256) networks)
                  (payloads.unmarshal payload) (ground (arith, node)))
            | inr beyond ↦ rw beyond refl
          ])

  udp_server-addr :
      (now : ℕ) (src : UdpAddr) (pkt : List ℕ) (u : MqttGateway) (g : ℕ)
      → lookup g (udp_server payloads now src pkt u).networks
        ≡ (if in_group g pkt then some src else lookup g u.networks)
  unfolding udp_server decode save_group_to_addr
  udp_server-addr now src [] u g = refl
  udp_server-addr now src (code ∷ []) u g = refl
  udp_server-addr now src (code ∷ k ∷ []) u g = refl
  udp_server-addr now src (code ∷ k ∷ flags ∷ []) u g = refl
  udp_server-addr now src (code ∷ k ∷ flags ∷ b ∷ more) u g =
      let long : ltb (length (code ∷ k ∷ flags ∷ b ∷ more)) 4 ≡ false = ground arith in
      elim (Bool-cases (k == g)) [
        | inl own ↦
            let same : k ≡ g = ground (arith, own) in
            rw (long, own) (rw same (lookup-insert_self g src u.networks))
        | inr other ↦
            let apart : k ≢ g = λ e. ground (arith, other, e) in
            rw (long, other) (lookup-insert_ne k g src u.networks apart)
      ]

  run-addr :
      (es : List Incoming) (u : MqttGateway) (g : ℕ)
      → lookup g (run payloads es u).networks ≡ last_source g (lookup g u.networks) es
  unfolding run mqtt_server
  run-addr [] u g = refl
  run-addr (udp_packet now src pkt ∷ es) u g =
      run-addr es (udp_server payloads now src pkt u) g
      ∙ ap (λ o. last_source g o es) (udp_server-addr now src pkt u g)
  run-addr (mqtt_message ack topic payload ∷ es) u g =
      run-addr es (mqtt_server payloads ack topic payload u) g

  -- After any packets and messages, a message on a topic "/rf/<group>/<node>/t?", with numbers below
  -- 2^63 and a last character that is no newline, goes, as one packet, to the sender of the last packet of 4 bytes or more from the group, modulo 256, or to where the
  -- group was before. It carries the code, the group, the node and the message's data: the code is 7
  -- for a boot reply to a node, on "tb", and 0 for anything else on "tb"; on any other topic it says
  -- whether an acknowledgement is asked for (3 to a node, 1 to all) or not (2 and 0). A message to a
  -- node beyond 30, to an unknown group or with a payload that cannot be parsed is dropped.
  pub encode-run :
      (es : List Incoming) (u : MqttGateway) (ack : Bool) (g n c : ℕ) (payload : List ℕ)
      → g < 2 ^ 63
      → n < 2 ^ 63
      → c ≢ 10
      → encode payloads (run payloads es u).networks ack (tx_topic g n c) payload ≡ (
          if leb n 30
          then packet_for g n c ack
              (last_source (g % 256) (lookup (g % 256) u.networks) es)
              (payloads.unmarshal payload)
          else [])
  encode-run es u ack g n c payload hg hn hc =
      encode-tx_topic (run payloads es u).networks ack g n c payload hg hn hc
      ∙ ap (λ to. if leb n 30 then packet_for g n c ack to (payloads.unmarshal payload) else [])
          (run-addr es u (g % 256))
