-- ===== src/Gateway/Receive.antt =====
-- hub/udpgw.go, `Receiver`: what one packet does, for every length and type.
use widuino.Base.{ℕ, ◌≤◌, ◌<◌, List, [], ◌∷◌, ◌++◌, Option, none, some, false}
use widuino.Base.{◌≡◌, ◌≢◌, refl, sym, ap, subst, ◌∙◌, ◌⊎◌, inl, inr, arith, Bool-cases, append-nil}
use widuino.Base.{◌==◌, if◌then◌else◌, length, drop}
use widuino.Base.Dict.{insert, nat_key, lookup-insert_self}
use widuino.Base.Int.{pos}
use widuino.Gears.{RfMessage}
use widuino.Boot.Wire.{read_pairing_request, read_upgrade_request, read_download_request}
use widuino.Boot.Wire.{write_pairing_reply, write_upgrade_reply, write_download_reply}
use widuino.Gateway.{UdpAddr, GroupMap, Datagram, BootServer, Packet, Gateway, map_group_to_addr}
use widuino.Gateway.{save_group_to_addr, send_packet, send, answer, serve, handle_pairing_request}
use widuino.Gateway.{handle_upgrade_request, handle_download_request, data_message, debug_message}
use widuino.Gateway.{dispatch, receive}

abbrev pub datagram : UdpAddr → List ℕ → Datagram
datagram a bytes = record { dest = a; bytes = bytes }

pub send_packet-known :
    (gm : GroupMap) (a : UdpAddr) (group node flags : ℕ) (payload : List ℕ)
    → map_group_to_addr gm group ≡ some a
    → send_packet gm group node flags payload ≡ datagram a (flags ∷ group ∷ node ∷ payload) ∷ []
unfolding send_packet
send_packet-known gm a group node flags payload e = ground (arith, e)

pub send_packet-saved :
    (gm : GroupMap) (a : UdpAddr) (group node flags : ℕ) (payload : List ℕ)
    → send_packet (insert group a gm) group node flags payload
      ≡ datagram a (flags ∷ group ∷ node ∷ payload) ∷ []
send_packet-saved gm a group node flags payload =
    send_packet-known (insert group a gm) a group node flags payload
      (unfold map_group_to_addr in lookup-insert_self group a gm)

-- The message in a data packet behind the header: node 31 sends no kind byte.
abbrev pub message_in : ℕ → ℕ → ℕ → List ℕ → RfMessage
message_in now group node rest = if node == 31 then plain 8 rest else with_kind rest
  where
    plain : ℕ → List ℕ → RfMessage
    plain kind payload = record {
      at = pos now;
      group = group;
      node = node;
      do_ack = false;
      kind = kind;
      payload = payload;
    }

    with_kind : List ℕ → RfMessage
    with_kind [] = plain 0 []
    with_kind (k ∷ payload) = plain k payload

data_message-message_in :
    (now f g n : ℕ) (rest : List ℕ)
    → data_message now g n (f ∷ g ∷ n ∷ rest) ≡ message_in now g n rest
unfolding data_message
data_message-message_in now f g n [] = ground arith
data_message-message_in now f g n (k ∷ payload) = ground arith

-- Where a packet of legal length leaves the group map.
abbrev pub heard : {S : Type 0} → Gateway S → ℕ → UdpAddr → Gateway S
heard u group src = record u { groups = insert group src u.groups }

module _ {S : Type 0} (boot : BootServer S) where
  pub receive-dispatch :
      (u : Gateway S) (now : ℕ) (src : UdpAddr) (f g n : ℕ) (rest : List ℕ)
      → length rest ≤ 66
      → receive boot u (record { now = now; src = src; bytes = f ∷ g ∷ n ∷ rest })
        ≡ dispatch boot now f g n (f ∷ g ∷ n ∷ rest) (heard u g src)
  unfolding receive save_group_to_addr
  receive-dispatch u now src f g n rest short = ground arith

  -- A data packet of 3 to 69 bytes passes one message on, with the group and node of its header and
  -- the time it came. If it asks for an acknowledgement, one is sent where the packet came from;
  -- otherwise nothing is sent. The group map then leads to the sender.
  pub receive-data :
      (u : Gateway S) (now : ℕ) (src : UdpAddr) (f g n : ℕ) (rest : List ℕ)
      → f ≤ 1
      → length rest ≤ 66
      → receive boot u (record { now = now; src = src; bytes = f ∷ g ∷ n ∷ rest })
        ≡ some (record u {
          groups = insert g src u.groups;
          sent = u.sent ++ (if f == 1 then datagram src (6 ∷ g ∷ n ∷ []) ∷ [] else []);
          recv = u.recv ++ (message_in now g n rest ∷ []);
        })
  unfolding dispatch
  receive-data u now src f g n rest data_type short =
      receive-dispatch u now src f g n rest short
      ∙ ground (
        arith,
        data_message-message_in now f g n rest,
        send_packet-saved u.groups src g n 6 [],
        append-nil u.sent,
      )

  -- A packet that is too short or too long changes nothing, and neither the group map.
  receive-bad_length :
      (u : Gateway S) (p : Packet)
      → (length p.bytes < 3) ⊎ (69 < length p.bytes)
      → receive boot u p ≡ some u
  unfolding receive
  receive-bad_length u p h = ground arith

  -- What a boot packet may do: nothing is passed on to the hub, and at most one datagram is sent,
  -- to the sender, of type 7 or 8 and with the header of the packet.
  pub record IsBootRound (u u' : Gateway S) (src : UdpAddr) (g n : ℕ) : Type 0 where
    pub groups : u'.groups ≡ insert g src u.groups
    pub recv : u'.recv ≡ u.recv
    pub sent :
        (u'.sent ≡ u.sent)
        ⊎ ((f : ℕ) × (reply : List ℕ) × (7 ≤ f)
            × (f ≤ 8)
            × (u'.sent ≡ u.sent ++ (datagram src (f ∷ g ∷ n ∷ reply) ∷ [])))

  quiet-IsBootRound :
      (u u' : Gateway S) (src : UdpAddr) (g n : ℕ)
      → some (heard u g src) ≡ some u'
      → IsBootRound u u' src g n
  quiet-IsBootRound u u' src g n e =
      let same : heard u g src ≡ u' = cc e in
      subst (λ x. IsBootRound u x src g n) same
        (record { groups = refl; recv = refl; sent = inl refl })

  answer-IsBootRound {ℓ} :
      {R : Type ℓ} (write : R → List ℕ) (u u' : Gateway S) (src : UdpAddr) (g n f : ℕ)
      (o : Option (S × Option R))
      → 7 ≤ f
      → f ≤ 8
      → answer write g n f (heard u g src) o ≡ some u'
      → IsBootRound u u' src g n
  answer-IsBootRound write u u' src g n f none lo hi e = cc
  answer-IsBootRound write u u' src g n f (some (s, none)) lo hi e =
      let same : record (heard u g src) { server = s } ≡ u' = cc e in
      subst (λ x. IsBootRound u x src g n) same
        (record { groups = refl; recv = refl; sent = inl refl })
  answer-IsBootRound write u u' src g n f (some (s, some r)) lo hi e =
      let same : send g n f (write r) (record (heard u g src) { server = s }) ≡ u' = cc e in
      subst (λ x. IsBootRound u x src g n) same
        (record {
          groups = refl;
          recv = refl;
          sent = inr (
            f,
            write r,
            lo,
            hi,
            ap (◌++◌ u.sent) (send_packet-saved u.groups src g n f (write r)),
          );
        })

  serve-IsBootRound {ℓ κ} :
      {Q : Type ℓ} {R : Type κ} (write : R → List ℕ) (u u' : Gateway S) (src : UdpAddr) (g n f : ℕ)
      (ask : Q → Option (S × Option R)) (o : Option Q)
      → 7 ≤ f
      → f ≤ 8
      → serve write g n f (heard u g src) ask o ≡ some u'
      → IsBootRound u u' src g n
  serve-IsBootRound write u u' src g n f ask none lo hi e = quiet-IsBootRound u u' src g n e
  serve-IsBootRound write u u' src g n f ask (some q) lo hi e =
      answer-IsBootRound write u u' src g n f (ask q) lo hi e

  pairing-IsBootRound :
      (u u' : Gateway S) (src : UdpAddr) (g n : ℕ) (bytes : List ℕ)
      → handle_pairing_request boot (heard u g src) g n bytes ≡ some u'
      → IsBootRound u u' src g n
  unfolding handle_pairing_request
  pairing-IsBootRound u u' src g n bytes e = elim (Bool-cases (length bytes == 25)) [
    | inr off ↦ quiet-IsBootRound u u' src g n (rw off at e)
    | inl fits ↦
        serve-IsBootRound write_pairing_reply u u' src g n 8 (boot.pair u.server)
          (read_pairing_request (drop 3 bytes)) (omega arith) (omega arith) (rw fits at e)
  ]

  request-IsBootRound :
      (u u' : Gateway S) (now : ℕ) (src : UdpAddr) (g n : ℕ) (bytes : List ℕ)
      → dispatch boot now 5 g n bytes (heard u g src) ≡ some u'
      → IsBootRound u u' src g n
  unfolding dispatch handle_upgrade_request handle_download_request
  request-IsBootRound u u' now src g n bytes e = elim (Bool-cases (length bytes == 11)) [
    | inl upgrades ↦
        serve-IsBootRound write_upgrade_reply u u' src g n 7 (boot.upgrade u.server)
          (read_upgrade_request (drop 3 bytes)) (omega arith) (omega arith) (rw upgrades at e)
    | inr other ↦ elim (Bool-cases (length bytes == 7)) [
      | inl downloads ↦
          serve-IsBootRound write_download_reply u u' src g n 7 (boot.download u.server)
            (read_download_request (drop 3 bytes)) (omega arith) (omega arith)
            (rw (other, downloads) at e)
      | inr neither ↦ quiet-IsBootRound u u' src g n (rw (other, neither) at e)
    ]
  ]

  -- A boot packet, of type 5 or 8 and 3 to 69 bytes, that the boot server survives is kept from the
  -- hub, and is answered by at most one datagram, to its sender, of type 7 or 8 and with the group
  -- and node of the packet.
  pub receive-boot :
      (u u' : Gateway S) (now : ℕ) (src : UdpAddr) (f g n : ℕ) (rest : List ℕ)
      → (f ≡ 5) ⊎ (f ≡ 8)
      → length rest ≤ 66
      → receive boot u (record { now = now; src = src; bytes = f ∷ g ∷ n ∷ rest }) ≡ some u'
      → IsBootRound u u' src g n
  receive-boot u u' now src f g n rest (inl five) short e =
      request-IsBootRound u u' now src g n (f ∷ g ∷ n ∷ rest) (
        ap (λ t. dispatch boot now t g n (f ∷ g ∷ n ∷ rest) (heard u g src)) (sym five)
        ∙ sym (receive-dispatch u now src f g n rest short)
        ∙ e)
  receive-boot u u' now src f g n rest (inr eight) short e =
      pairing-IsBootRound u u' src g n (f ∷ g ∷ n ∷ rest) (
        unfold dispatch in
        (ap (λ t. dispatch boot now t g n (f ∷ g ∷ n ∷ rest) (heard u g src)) (sym eight)
          ∙ sym (receive-dispatch u now src f g n rest short)
          ∙ e))

  -- A packet of any other type leaves a trace in the group map only, but for the gateway's own
  -- debug packets, of type 9, which the hub gets as log messages.
  receive-other :
      (u : Gateway S) (now : ℕ) (src : UdpAddr) (f g n : ℕ) (rest : List ℕ)
      → 1 < f
      → f ≢ 5
      → f ≢ 8
      → length rest ≤ 66
      → receive boot u (record { now = now; src = src; bytes = f ∷ g ∷ n ∷ rest })
        ≡ some (record u {
          groups = insert g src u.groups;
          recv = u.recv ++ (if f == 9 then debug_message now g n (f ∷ g ∷ n ∷ rest) ∷ [] else []);
        })
  unfolding dispatch
  receive-other u now src f g n rest big no_request no_pairing short =
      receive-dispatch u now src f g n rest short ∙ ground (arith, append-nil u.recv)
