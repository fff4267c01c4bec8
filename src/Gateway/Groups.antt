-- ===== src/Gateway/Groups.antt =====
-- hub/udpgw.go, `GroupMap` and `Transmitter`: where the packets for a group are sent.
use widuino.Base.{ℕ, List, [], ◌∷◌, Option, none, some, Bool}
use widuino.Base.{◌≡◌, ap, ◌∙◌, ◌⊎◌, inl, inr, arith, Bool-cases, Option-cases}
use widuino.Base.{◌&&◌, ◌==◌, leb, if◌then◌else◌, length, get_or, drop}
use widuino.Base.Dict.{lookup, insert, nat_key, lookup-insert_self, lookup-insert_ne}
use widuino.Gears.{RfMessage}
use widuino.Boot.Wire.{write_pairing_reply, write_upgrade_reply, write_download_reply}
use widuino.Boot.Wire.{read_pairing_request, read_upgrade_request, read_download_request}
use widuino.Gateway.{UdpAddr, GroupMap, BootServer, Packet, Gateway, map_group_to_addr}
use widuino.Gateway.{save_group_to_addr, send_packet, answer, serve, handle_pairing_request}
use widuino.Gateway.{
  handle_upgrade_request, handle_download_request, dispatch, receive, receive_all, transmit,
}
use widuino.Gateway.Receive.{datagram, send_packet-known}

-- The sender of the last packet of legal length that named the group, if there was one.
abbrev pub last_sender : ℕ → Option UdpAddr → List Packet → Option UdpAddr
last_sender g o [] = o
last_sender g o (p ∷ ps) =
    last_sender g
      (if leb 3 (length p.bytes) && leb (length p.bytes) 69 && get_or p.bytes 1 0 == g
        then some p.src
        else o)
      ps

send_packet-unknown :
    (gm : GroupMap) (g n f : ℕ) (payload : List ℕ)
    → map_group_to_addr gm g ≡ none
    → send_packet gm g n f payload ≡ []
unfolding send_packet
send_packet-unknown gm g n f payload e = ground (arith, e)

module _ {S : Type 0} (boot : BootServer S) where
  answer-groups {ℓ} :
      {R : Type ℓ} (write : R → List ℕ) (u u' : Gateway S) (g n f : ℕ) (o : Option (S × Option R))
      → answer write g n f u o ≡ some u'
      → u'.groups ≡ u.groups
  answer-groups write u u' g n f none e = cc
  answer-groups write u u' g n f (some (s, none)) e = cc
  answer-groups write u u' g n f (some (s, some r)) e = cc

  serve-groups {ℓ κ} :
      {Q : Type ℓ} {R : Type κ} (write : R → List ℕ) (u u' : Gateway S) (g n f : ℕ)
      (ask : Q → Option (S × Option R)) (o : Option Q)
      → serve write g n f u ask o ≡ some u'
      → u'.groups ≡ u.groups
  serve-groups write u u' g n f ask none e = cc
  serve-groups write u u' g n f ask (some q) e = answer-groups write u u' g n f (ask q) e

  pairing-groups :
      (u u' : Gateway S) (g n : ℕ) (bytes : List ℕ)
      → handle_pairing_request boot u g n bytes ≡ some u'
      → u'.groups ≡ u.groups
  unfolding handle_pairing_request
  pairing-groups u u' g n bytes e = elim (Bool-cases (length bytes == 25)) [
    | inr off ↦ cc (rw off at e)
    | inl fits ↦
        serve-groups write_pairing_reply u u' g n 8 (boot.pair u.server)
          (read_pairing_request (drop 3 bytes)) (rw fits at e)
  ]

  upgrade-groups :
      (u u' : Gateway S) (g n : ℕ) (bytes : List ℕ)
      → handle_upgrade_request boot u g n bytes ≡ some u'
      → u'.groups ≡ u.groups
  unfolding handle_upgrade_request
  upgrade-groups u u' g n bytes e =
      serve-groups write_upgrade_reply u u' g n 7 (boot.upgrade u.server)
        (read_upgrade_request (drop 3 bytes)) e

  download-groups :
      (u u' : Gateway S) (g n : ℕ) (bytes : List ℕ)
      → handle_download_request boot u g n bytes ≡ some u'
      → u'.groups ≡ u.groups
  unfolding handle_download_request
  download-groups u u' g n bytes e =
      serve-groups write_download_reply u u' g n 7 (boot.download u.server)
        (read_download_request (drop 3 bytes)) e

  dispatch-groups :
      (u u' : Gateway S) (now f g n : ℕ) (bytes : List ℕ)
      → dispatch boot now f g n bytes u ≡ some u'
      → u'.groups ≡ u.groups
  unfolding dispatch
  dispatch-groups u u' now f g n bytes e = ground (
    arith,
    pairing-groups u u' g n bytes,
    upgrade-groups u u' g n bytes,
    download-groups u u' g n bytes,
  )

  abbrev is_legal : Packet → Bool
  is_legal p = leb 3 (length p.bytes) && leb (length p.bytes) 69

  receive-groups :
      (u u' : Gateway S) (p : Packet)
      → receive boot u p ≡ some u'
      → u'.groups ≡ (if is_legal p then insert (get_or p.bytes 1 0) p.src u.groups else u.groups)
  unfolding receive save_group_to_addr
  receive-groups u u' p e = ground (
    arith,
    dispatch-groups (record u { groups = insert (get_or p.bytes 1 0) p.src u.groups }) u' p.now
        (get_or p.bytes 0 0) (get_or p.bytes 1 0) (get_or p.bytes 2 0) p.bytes,
  )

  receive-addr :
      (u u' : Gateway S) (p : Packet) (g : ℕ)
      → receive boot u p ≡ some u'
      → map_group_to_addr u'.groups g ≡ (
          if is_legal p && get_or p.bytes 1 0 == g
          then some p.src
          else map_group_to_addr u.groups g)
  unfolding map_group_to_addr
  receive-addr u u' p g e = elim (Bool-cases (is_legal p)) [
    | inr illegal ↦ ap (lookup g) (receive-groups u u' p e) ∙ rw illegal (ground (arith, illegal))
    | inl legal ↦ elim (Bool-cases (get_or p.bytes 1 0 == g)) [
      | inl own ↦
          ap (lookup g) (receive-groups u u' p e)
          ∙ rw legal
              (ground (arith, own, legal, lookup-insert_self (get_or p.bytes 1 0) p.src u.groups))
      | inr other ↦
          ap (lookup g) (receive-groups u u' p e)
          ∙ rw legal
              (ground (arith, other, legal, lookup-insert_ne (get_or p.bytes 1 0) g p.src u.groups))
    ]
  ]

  receive_all-addr :
      (u u' : Gateway S) (g : ℕ) (ps : List Packet)
      → receive_all boot u ps ≡ some u'
      → map_group_to_addr u'.groups g ≡ last_sender g (map_group_to_addr u.groups g) ps
  unfolding receive_all
  receive_all-addr u u' g [] e = cc
  receive_all-addr u u' g (p ∷ ps) e = elim (Option-cases (receive boot u p)) [
    | inl crash ↦ absurd (ground (arith, crash))
    | inr (mid, step) ↦
        receive_all-addr mid u' g ps (ground (arith, step))
        ∙ ap (λ o. last_sender g o ps) (receive-addr u mid p g step)
  ]

  -- After any packets that the receiver survives, a message for a group is sent to the sender of the
  -- last packet of 3 to 69 bytes that named the group, or where the group was before; if there is
  -- no such address, it is dropped. It goes as a broadcast (type 0) to node 0, and as a data
  -- request (type 3) to any other, behind its kind byte.
  pub transmit-receive_all :
      (u u' : Gateway S) (ps : List Packet) (m : RfMessage)
      → receive_all boot u ps ≡ some u'
      → let to = last_sender m.group (map_group_to_addr u.groups m.group) ps in
        let flags : ℕ = if m.node == 0 then 0 else 3 in
        ((to ≡ none) × (transmit u'.groups m ≡ []))
        ⊎ ((a : UdpAddr) × (to ≡ some a)
            × (transmit u'.groups m
                ≡ datagram a (flags ∷ m.group ∷ m.node ∷ m.kind ∷ m.payload) ∷ []))
  unfolding transmit
  transmit-receive_all u u' ps m e =
      let known = receive_all-addr u u' m.group ps e in
      elim (Option-cases (last_sender m.group (map_group_to_addr u.groups m.group) ps)) [
        | inl nowhere ↦ inl (
          nowhere,
          send_packet-unknown u'.groups m.group m.node (if m.node == 0 then 0 else 3)
              (m.kind ∷ m.payload) (known ∙ nowhere),
        )
        | inr (a, there) ↦ inr (
          a,
          there,
          send_packet-known u'.groups a m.group m.node (if m.node == 0 then 0 else 3)
              (m.kind ∷ m.payload) (known ∙ there),
        )
      ]
