-- ===== src/FlowGateway/Replies.antt =====
-- OLD/flow/gadgets/udpgw.go, `Transmitter`: where the messages of a circuit are sent.
use widuino.Base.{ℕ, suc, ◌/◌, ◌%◌, List, [], ◌∷◌, none, some, Bool, true, false, ◌&&◌}
use widuino.Base.{◌≡◌, refl, sym, ap, ap₂, ◌∙◌, inl, inr, arith, Bool-cases}
use widuino.Base.{◌||◌, ◌==◌, leb, if◌then◌else◌, length, get_or}
use widuino.Base.Dict.{lookup, nat_key, lookup-insert_self, lookup-insert_ne}
use widuino.Gateway.{UdpAddr, Packet, map_group_to_addr, save_group_to_addr}
use widuino.Gateway.Receive.{datagram, send_packet-known}
use widuino.Gateway.Groups.{last_sender}
use widuino.FlowGateway.{
  FlowGateway, flow_gateway, buffer_len, switch_flags, bytes, transmit, receive, receive_all,
}
use widuino.FlowGateway.Seen.{accepted, receive-accepted, receive-rejected, receive-length}

abbrev pub is_legal : Packet → Bool
is_legal p = leb 3 (length p.bytes) && leb (length p.bytes) 69

-- Whether a packet has come that names a group.
abbrev pub any_legal : List Packet → Bool
any_legal [] = false
any_legal (p ∷ ps) = is_legal p || any_legal ps

switch_flags-groups :
    (u : FlowGateway) (now f g n len : ℕ)
    → let u' = switch_flags now f g n len u in (u'.networks ≡ u.networks) × (u'.group ≡ u.group)
switch_flags-groups u now f g n len = (ground arith, ground arith)

receive-legal :
    (u : FlowGateway) (now : ℕ) (src : UdpAddr) (packet : List ℕ)
    → length u.buffer ≡ buffer_len
    → is_legal (record { now = now; src = src; bytes = packet }) ≡ true
    → let u' = receive u (record { now = now; src = src; bytes = packet }) in
      let g = get_or packet 1 0 in
      (u'.networks ≡ (save_group_to_addr u.networks g src).0)
      × (u'.group ≡ (if (save_group_to_addr u.networks g src).1 then g else u.group))
receive-legal u now src [] whole legal = absurd (cc legal)
receive-legal u now src (f ∷ []) whole legal = absurd (cc legal)
receive-legal u now src (f ∷ g ∷ []) whole legal = absurd (cc legal)
receive-legal u now src (f ∷ g ∷ n ∷ d) whole legal =
    rw (receive-accepted u now src f g n d whole (ground (arith, legal))) (
      switch_flags-groups (accepted u src g (f ∷ g ∷ n ∷ d)) now f g n (suc (suc (suc (length d)))))

receive-illegal :
    (u : FlowGateway) (p : Packet)
    → length u.buffer ≡ buffer_len
    → is_legal p ≡ false
    → ((receive u p).networks ≡ u.networks) × ((receive u p).group ≡ u.group)
receive-illegal u p whole off = rw (receive-rejected u p whole (ground (arith, off))) (refl, refl)

receive-addr :
    (u : FlowGateway) (p : Packet) (g : ℕ)
    → length u.buffer ≡ buffer_len
    → lookup g (receive u p).networks
      ≡ (if is_legal p && get_or p.bytes 1 0 == g then some p.src else lookup g u.networks)
unfolding save_group_to_addr
receive-addr u p g whole = elim (Bool-cases (is_legal p)) [
  | inr off ↦ ap (lookup g) (receive-illegal u p whole off).0 ∙ rw off refl
  | inl legal ↦ elim (Bool-cases (get_or p.bytes 1 0 == g)) [
    | inl own ↦
        ap (lookup g) (receive-legal u p.now p.src p.bytes whole legal).0
        ∙ rw (legal, own)
            (ground (arith, own, lookup-insert_self (get_or p.bytes 1 0) p.src u.networks))
    | inr other ↦
        ap (lookup g) (receive-legal u p.now p.src p.bytes whole legal).0
        ∙ rw (legal, other)
            (ground (arith, other, lookup-insert_ne (get_or p.bytes 1 0) g p.src u.networks))
  ]
]

-- The group to send to has an address.
abbrev IsReady : FlowGateway → Type 0
IsReady u = (a : UdpAddr) × (lookup u.group u.networks ≡ some a)

receive_all-addr :
    (u : FlowGateway) (g : ℕ) (ps : List Packet)
    → length u.buffer ≡ buffer_len
    → lookup g (receive_all u ps).networks ≡ last_sender g (lookup g u.networks) ps
unfolding receive_all
receive_all-addr u g [] whole = refl
receive_all-addr u g (p ∷ ps) whole =
    receive_all-addr (receive u p) g ps (receive-length u p whole)
    ∙ ap (λ o. last_sender g o ps) (receive-addr u p g whole)

pub receive-own_group :
    (u : FlowGateway) (p : Packet)
    → length u.buffer ≡ buffer_len
    → is_legal p ≡ true
    → lookup (get_or p.bytes 1 0) (receive u p).networks ≡ some p.src
receive-own_group u p whole legal =
    receive-addr u p (get_or p.bytes 1 0) whole ∙ ground (arith, legal)

receive-IsReady :
    (u : FlowGateway) (p : Packet)
    → length u.buffer ≡ buffer_len
    → IsReady u
    → IsReady (receive u p)
receive-IsReady u p whole (a, e) = elim (Bool-cases (is_legal p)) [
  | inr off ↦
      (a, let same = receive-illegal u p whole off in ap₂ (λ g m. lookup g m) same.1 same.0 ∙ e)
  | inl legal ↦
      let was_new = (save_group_to_addr u.networks (get_or p.bytes 1 0) p.src).1 in
      let now = receive-legal u p.now p.src p.bytes whole legal in
      elim (Bool-cases was_new) [
        | inl new ↦ (
          p.src,
          ap (λ g. lookup g (receive u p).networks) (rw new at now.1)
              ∙ receive-own_group u p whole legal,
        )
        | inr old ↦
            let at : lookup (receive u p).group (receive u p).networks ≡ (
                if is_legal p && get_or p.bytes 1 0 == u.group
                then some p.src
                else lookup u.group u.networks) =
              ap (λ g. lookup g (receive u p).networks) (rw old at now.1)
              ∙ receive-addr u p u.group whole in
            elim (Bool-cases (is_legal p && get_or p.bytes 1 0 == u.group)) [
              | inl own ↦ (p.src, at ∙ rw own refl)
              | inr other ↦ (a, at ∙ rw other e)
            ]
      ]
]

receive_all-IsReady :
    (u : FlowGateway) (ps : List Packet)
    → length u.buffer ≡ buffer_len
    → IsReady u
    → IsReady (receive_all u ps)
unfolding receive_all
receive_all-IsReady u [] whole h = h
receive_all-IsReady u (p ∷ ps) whole h =
    receive_all-IsReady (receive u p) ps (receive-length u p whole) (receive-IsReady u p whole h)

-- The first legal packet names a new group.
first-IsReady :
    (u : FlowGateway) (ps : List Packet)
    → length u.buffer ≡ buffer_len
    → u.networks ≡ []
    → any_legal ps ≡ true
    → IsReady (receive_all u ps)
unfolding receive_all save_group_to_addr lookup
first-IsReady u [] whole empty some_legal = absurd (cc some_legal)
first-IsReady u (p ∷ ps) whole empty some_legal = elim (Bool-cases (is_legal p)) [
  | inr off ↦
      first-IsReady (receive u p) ps (receive-length u p whole)
        ((receive-illegal u p whole off).0 ∙ empty) (rw off at some_legal)
  | inl legal ↦
      let new : (save_group_to_addr u.networks (get_or p.bytes 1 0) p.src).1 ≡ true =
        rw empty refl in
      let now = (receive-legal u p.now p.src p.bytes whole legal).1 in
      receive_all-IsReady (receive u p) ps (receive-length u p whole) (
        p.src,
        ap (λ g. lookup g (receive u p).networks) (rw new at now)
            ∙ receive-own_group u p whole legal,
      )
]

-- From the start, as soon as one packet of 3 to 69 bytes has come, a message of bytes is sent: its
-- first byte holds the type and the node, and it goes to the last sender that named the group.
pub transmit-ready :
    (ps : List Packet) (b : ℕ) (bs : List ℕ)
    → any_legal ps ≡ true
    → let u = receive_all flow_gateway ps in
      (a : UdpAddr) × (last_sender u.group none ps ≡ some a)
      × (transmit u (bytes (b ∷ bs)) ≡ some (datagram a (b / 32 ∷ u.group ∷ b % 32 ∷ bs) ∷ []))
unfolding transmit map_group_to_addr lookup
transmit-ready ps b bs some_legal =
    let u = receive_all flow_gateway ps in
    let (a, e) = first-IsReady flow_gateway ps refl refl some_legal in
    (
      a,
      sym (receive_all-addr flow_gateway u.group ps refl) ∙ e,
      ap some (send_packet-known u.networks a u.group (b % 32) (b / 32) bs e),
    )
