-- ===== src/FlowGateway/Seen.antt =====
-- OLD/flow/gadgets/udpgw.go, `Receiver`: what the gadgets behind the gateway read in its messages.
use widuino.Base.{byte_lengths}
use widuino.Base.{
  ℕ, suc, ◌-◌, ◌%◌, ◌≤◌, List, [], ◌∷◌, ◌++◌, map, true, false, append_assoc, append-nil,
}
use widuino.Base.{◌≡◌, refl, sym, ap, ◌∙◌, inl, inr, arith, Bool-cases}
use widuino.Base.{
  ◌||◌, ◌==◌, ltb, if◌then◌else◌, length, get_or, take, drop, length-append, length-drop,
  length-take, take-all, take-append, map-append,
}
use widuino.Gateway.{UdpAddr, Packet}
use widuino.FlowGateway.{
  Sent, rej, oob_info, oob, recv, Slice, read_slice, see, FlowGateway, buffer_len,
  save_group_to_addr, read_from_udp, put_output, rf12_header, boot_packet, packet_map, data_packet,
  switch_flags, receive,
}

-- The messages of a packet of legal length.
abbrev pub legal_messages : ℕ → ℕ → ℕ → ℕ → List ℕ → List (Sent (List ℕ))
legal_messages now f g n d =
    if f == 5 || f == 8
    then oob_info n ∷ oob (rf12_header f n ∷ d) ∷ []
    else if f == 9
    then []
    else recv (packet_map now f g n (n ∷ d)) ∷ []

-- The messages of a packet, by its bytes.
abbrev pub messages : ℕ → List ℕ → List (Sent (List ℕ))
messages now (f ∷ g ∷ n ∷ d) =
    if ltb 66 (length d)
    then rej (take buffer_len (f ∷ g ∷ n ∷ d)) ∷ []
    else legal_messages now f g n d
messages now packet = rej packet ∷ []

pub read_from_udp-fits :
    (buffer packet : List ℕ)
    → length packet ≤ length buffer
    → read_from_udp buffer packet ≡ (packet ++ drop (length packet) buffer, length packet)
unfolding read_from_udp
read_from_udp-fits buffer packet h = rw (take-all (length buffer) packet h) refl

pub length-read_from_udp :
    (buffer packet : List ℕ) → length (read_from_udp buffer packet).0 ≡ length buffer
unfolding read_from_udp
length-read_from_udp buffer packet = omega byte_lengths

-- The state of a receiver that has accepted a packet, before the switch on its type.
abbrev pub accepted : FlowGateway → UdpAddr → ℕ → List ℕ → FlowGateway
accepted u src group packet = record u {
  buffer = packet ++ drop (length packet) u.buffer;
  networks = (save_group_to_addr u.networks group src).0;
  group = if (save_group_to_addr u.networks group src).1 then group else u.group;
}

pub receive-accepted :
    (u : FlowGateway) (now : ℕ) (src : UdpAddr) (f g n : ℕ) (d : List ℕ)
    → length u.buffer ≡ buffer_len
    → length d ≤ 66
    → receive u (record { now = now; src = src; bytes = f ∷ g ∷ n ∷ d })
      ≡ switch_flags now f g n (suc (suc (suc (length d)))) (accepted u src g (f ∷ g ∷ n ∷ d))
unfolding receive
receive-accepted u now src f g n d whole h =
    let fits = read_from_udp-fits u.buffer (f ∷ g ∷ n ∷ d) (omega arith) in
    let legal : (ltb (suc (suc (suc (length d)))) 3 || ltb 69 (suc (suc (suc (length d)))))
        ≡ false =
      ground arith in
    rw fits (rw legal refl)

tail_of :
    (f g n : ℕ) (d rest : List ℕ) (len : ℕ)
    → len ≡ suc (length d)
    → read_slice (f ∷ g ∷ n ∷ (d ++ rest)) (record { from = 2; len = len }) ≡ n ∷ d
tail_of f g n d rest len e = rw e (ap (◌∷◌ n) (take-append d rest))

-- What is added to the outputs, as it is read in a buffer.
abbrev Adds : List ℕ → List (Sent Slice) → List (Sent Slice) → List (Sent (List ℕ)) → Type 0
Adds buffer before after new = map (see buffer) after ≡ map (see buffer) before ++ new

boot_packet-messages :
    (u : FlowGateway) (f g n len : ℕ) (d rest : List ℕ)
    → u.buffer ≡ f ∷ g ∷ n ∷ (d ++ rest)
    → len ≡ suc (suc (suc (length d)))
    → let u' = boot_packet f n len u in
      Adds u'.buffer u.outputs u'.outputs (oob_info n ∷ oob (rf12_header f n ∷ d) ∷ [])
boot_packet-messages u f g n len d rest eb el =
    let b = take 2 u.buffer ++ (rf12_header f n ∷ drop 3 u.buffer) in
    let s : Slice = record { from = 2; len = len - 2 } in
    let got : read_slice b s ≡ rf12_header f n ∷ d =
      rw eb (tail_of f g (rf12_header f n) d rest (len - 2) (omega (arith, el))) in
    map-append (see b) (u.outputs ++ (oob_info n ∷ [])) (oob s ∷ [])
    ∙ ap (λ l. l ++ map (see b) (oob s ∷ [])) (map-append (see b) u.outputs (oob_info n ∷ []))
    ∙ append_assoc (map (see b) u.outputs) (oob_info n ∷ []) (oob (read_slice b s) ∷ [])
    ∙ ap (λ r. map (see b) u.outputs ++ (oob_info n ∷ oob r ∷ [])) got

data_packet-messages :
    (u : FlowGateway) (now f g n len : ℕ) (d rest : List ℕ)
    → u.buffer ≡ f ∷ g ∷ n ∷ (d ++ rest)
    → len ≡ suc (suc (suc (length d)))
    → let u' = data_packet now f g n len u in
      Adds u'.buffer u.outputs u'.outputs (recv (packet_map now f g n (n ∷ d)) ∷ [])
data_packet-messages u now f g n len d rest eb el =
    let s : Slice = record { from = 2; len = len - 2 } in
    let got : read_slice u.buffer s ≡ n ∷ d =
      rw eb (tail_of f g n d rest (len - 2) (omega (arith, el))) in
    let added =
      map-append (see u.buffer) u.outputs (recv (packet_map now f g n s) ∷ [])
      ∙ ap (λ r. map (see u.buffer) u.outputs ++ (recv (packet_map now f g n r) ∷ [])) got in
    elim (Bool-cases (f % 2 == 0)) [ inl even ↦ rw even added | inr odd ↦ rw odd added ]

switch_flags-messages :
    (u : FlowGateway) (now f g n len : ℕ) (d rest : List ℕ)
    → u.buffer ≡ f ∷ g ∷ n ∷ (d ++ rest)
    → len ≡ suc (suc (suc (length d)))
    → let u' = switch_flags now f g n len u in
      Adds u'.buffer u.outputs u'.outputs (legal_messages now f g n d)
switch_flags-messages u now f g n len d rest eb el = elim (Bool-cases (f == 5 || f == 8)) [
  | inl boot ↦ rw boot (boot_packet-messages u f g n len d rest eb el)
  | inr other ↦ elim (Bool-cases (f == 9)) [
    | inl log ↦ rw (other, log) (sym (append-nil (map (see u.buffer) u.outputs)))
    | inr plain ↦ rw (other, plain) (data_packet-messages u now f g n len d rest eb el)
  ]
]

-- A packet that is too short or too long.
pub receive-rejected :
    (u : FlowGateway) (p : Packet)
    → length u.buffer ≡ buffer_len
    → (ltb (length p.bytes) 3 || ltb 69 (length p.bytes)) ≡ true
    → receive u p
      ≡ put_output
          (rej (record { from = 0; len = length (take (length u.buffer) p.bytes) }))
          (record u { buffer = (read_from_udp u.buffer p.bytes).0 })
unfolding receive read_from_udp
receive-rejected u p whole off =
    let n = length (take (length u.buffer) p.bytes) in
    let still : (ltb n 3 || ltb 69 n) ≡ true =
      ground (arith, off, whole, length-take (length u.buffer) p.bytes) in
    rw still refl

rejected-messages :
    (u : FlowGateway) (packet : List ℕ)
    → length u.buffer ≡ buffer_len
    → let b = (read_from_udp u.buffer packet).0 in
      let s : Slice = record { from = 0; len = length (take (length u.buffer) packet) } in
      Adds b u.outputs (u.outputs ++ (rej s ∷ [])) (rej (take buffer_len packet) ∷ [])
unfolding read_from_udp
rejected-messages u packet whole =
    let front = take (length u.buffer) packet in
    let b = front ++ drop (length front) u.buffer in
    map-append (see b) u.outputs (rej (record { from = 0; len = length front }) ∷ [])
    ∙ ap (λ l. map (see b) u.outputs ++ (rej l ∷ []))
        (take-append front (drop (length front) u.buffer) ∙ ap (λ k. take k packet) whole)

of_packet :
    (u : FlowGateway) (now : ℕ) (src : UdpAddr) (packet : List ℕ)
    → length u.buffer ≡ buffer_len
    → let u' = receive u (record { now = now; src = src; bytes = packet }) in
      Adds u'.buffer u.outputs u'.outputs (messages now packet)
of_packet u now src [] whole =
    rw (receive-rejected u (record { now = now; src = src; bytes = [] }) whole refl)
      (rejected-messages u [] whole)
of_packet u now src (f ∷ []) whole =
    rw (receive-rejected u (record { now = now; src = src; bytes = f ∷ [] }) whole refl)
      (rejected-messages u (f ∷ []) whole)
of_packet u now src (f ∷ g ∷ []) whole =
    rw (receive-rejected u (record { now = now; src = src; bytes = f ∷ g ∷ [] }) whole refl)
      (rejected-messages u (f ∷ g ∷ []) whole)
of_packet u now src (f ∷ g ∷ n ∷ d) whole =
    let packet = f ∷ g ∷ n ∷ d in
    elim (Bool-cases (ltb 66 (length d))) [
      | inl long ↦
          rw
            (
              receive-rejected u (record { now = now; src = src; bytes = packet }) whole
                  (ground (arith, long)),
              long,
            )
            (rejected-messages u packet whole)
      | inr fits ↦
          rw (receive-accepted u now src f g n d whole (ground (arith, fits)), fits)
            (switch_flags-messages (accepted u src g packet) now f g n (suc (suc (suc (length d))))
              d (drop (length packet) u.buffer) refl refl)
    ]

switch_flags-length :
    (u : FlowGateway) (now f g n len : ℕ)
    → 3 ≤ length u.buffer
    → length (switch_flags now f g n len u).buffer ≡ length u.buffer
switch_flags-length u now f g n len h = ground (
  arith,
  length-append (take 2 u.buffer) (rf12_header f n ∷ drop 3 u.buffer),
  length-take 2 u.buffer,
  length-drop 3 u.buffer,
)

-- The buffer keeps its length.
pub receive-length :
    (u : FlowGateway) (p : Packet)
    → length u.buffer ≡ buffer_len
    → length (receive u p).buffer ≡ buffer_len
unfolding receive
receive-length u p whole =
    let b = (read_from_udp u.buffer p.bytes).0 in
    let n = (read_from_udp u.buffer p.bytes).1 in
    let (networks, new_group) = save_group_to_addr u.networks (get_or b 1 0) p.src in
    let v = record u {
      buffer = b;
      networks = networks;
      group = if new_group then get_or b 1 0 else u.group;
    } in
    let same = length-read_from_udp u.buffer p.bytes ∙ whole in
    elim (Bool-cases (ltb n 3 || ltb 69 n)) [
      | inl off ↦ rw off same
      | inr legal ↦ rw legal (
          switch_flags-length v p.now (get_or b 0 0) (get_or b 1 0) (get_or b 2 0) n
            (omega (arith, same))
          ∙ same)
    ]

-- With a buffer of 1600 bytes, a gadget that reads the messages of a packet before the next packet
-- comes reads: what is too short or too long for a packet, as far as the buffer goes; for a boot
-- packet, its node, and its data behind a header of type and node; nothing for a packet of type 9;
-- and the node and the data for any other, with its group, node and type. What was sent before is
-- still there, in front.
pub receive-messages :
    (u : FlowGateway) (p : Packet)
    → length u.buffer ≡ buffer_len
    → let u' = receive u p in
      map (see u'.buffer) u'.outputs ≡ map (see u'.buffer) u.outputs ++ messages p.now p.bytes
receive-messages u p whole = of_packet u p.now p.src p.bytes whole
