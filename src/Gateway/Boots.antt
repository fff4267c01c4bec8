-- ===== src/Gateway/Boots.antt =====
-- hub/udpgw.go with hub/boot_proto.go: a boot request is answered by the boot server.
use widuino.Base.{
  ℕ, ◌+◌, List, [], ◌∷◌, ◌++◌, Option, none, some, ◌≡◌, refl, ap, ◌∙◌, arith, length,
}
use widuino.Base.Dict.{insert, nat_key}
use widuino.Base.Outcome.{Outcome, ok, err, panic}
use widuino.Boot.Wire.{
  PairingRequest, PairingReply, UpgradeRequest, UpgradeReply, DownloadRequest, DownloadReply,
}
use widuino.Boot.Wire.{read_upgrade_request, read_download_request}
use widuino.Boot.Wire.{write_pairing_reply, write_upgrade_reply, write_download_reply}
use widuino.Boot.Wire.Layout.{
  pairing_request_bytes, upgrade_request_bytes, download_request_bytes, requests_read_back,
}
use widuino.Boot.Server
use widuino.Boot.Server.{Booter, Files, BootError}
use widuino.Gateway.{UdpAddr, BootServer, Packet, Gateway, answer, handle_pairing_request}
use widuino.Gateway.{handle_upgrade_request, handle_download_request, dispatch, receive}
use widuino.Gateway.Receive.{datagram, heard, receive-dispatch, send_packet-saved}

abbrev or_nil {ℓ} : {R : Type ℓ} → Booter × Outcome BootError R → Option (Booter × Option R)
or_nil (b, ok r) = some (b, some r)
or_nil (b, err e) = some (b, none)
or_nil (b, panic) = none

-- The `booter` as the gateway's boot server, over the files on disk and what the random source has.
abbrev pub booter_server : Files → Option (List ℕ) → BootServer Booter
booter_server files fresh = record {
  pair = λ b req. some (b, some (Server.pair fresh b req));
  upgrade = λ b req. or_nil (Server.upgrade files b req);
  download = λ b req. or_nil (Server.download files b req);
}

length-pairing_request_bytes :
    (req : PairingRequest) → length (pairing_request_bytes req) ≡ 6 + length req.hw_id
unfolding pairing_request_bytes
length-pairing_request_bytes req = omega arith

length-upgrade_request_bytes : (req : UpgradeRequest) → length (upgrade_request_bytes req) ≡ 8
unfolding upgrade_request_bytes
length-upgrade_request_bytes req = refl

length-download_request_bytes : (req : DownloadRequest) → length (download_request_bytes req) ≡ 4
unfolding download_request_bytes
length-download_request_bytes req = refl

read_upgrade_request-bytes :
    (req : UpgradeRequest) → read_upgrade_request (upgrade_request_bytes req) ≡ some req
unfolding read_upgrade_request upgrade_request_bytes
read_upgrade_request-bytes req = ground arith

read_download_request-bytes :
    (req : DownloadRequest) → read_download_request (download_request_bytes req) ≡ some req
unfolding read_download_request download_request_bytes
read_download_request-bytes req = ground arith

abbrev no_upgrade : UpgradeRequest
no_upgrade = record { node_type = 0; sw_id = 0; sw_size = 0; sw_check = 0 }

abbrev no_download : DownloadRequest
no_download = record { sw_id = 0; sw_index = 0 }

module _ {S : Type 0} (boot : BootServer S) (u : Gateway S) (now g n : ℕ) (src : UdpAddr) where
  -- The gateway after a round that sent a reply to the sender and passed nothing on.
  abbrev pub replied : S → ℕ → List ℕ → Gateway S
  replied s f reply = record u {
    groups = insert g src u.groups;
    server = s;
    sent = u.sent ++ (datagram src (f ∷ g ∷ n ∷ reply) ∷ []);
  }

  abbrev pub packet : ℕ → List ℕ → Packet
  packet f bytes = record { now = now; src = src; bytes = f ∷ g ∷ n ∷ bytes }

  answer-reply {ℓ} :
      {R : Type ℓ} (write : R → List ℕ) (f : ℕ) (s : S) (reply : R)
      → answer write g n f (heard u g src) (some (s, some reply)) ≡ some (replied s f (write reply))
  answer-reply write f s reply =
      ap (λ d. some (record u { groups = insert g src u.groups; server = s; sent = u.sent ++ d }))
        (send_packet-saved u.groups src g n f (write reply))

  -- A pairing request with its 16 bytes of hardware id, as a node lays it out, is handed to the boot
  -- server, and a reply of the server, written out, goes back to the sender as a packet of type 8.
  receive-pairing :
      (req : PairingRequest) (s : S) (reply : PairingReply)
      → length req.hw_id ≡ 16
      → boot.pair u.server req ≡ some (s, some reply)
      → receive boot u (packet 8 (pairing_request_bytes req))
        ≡ some (replied s 8 (write_pairing_reply reply))
  unfolding dispatch handle_pairing_request
  receive-pairing req s reply size e =
      receive-dispatch boot u now src 8 g n (pairing_request_bytes req)
        (omega (arith, length-pairing_request_bytes req))
      ∙ rw
          (
            length-pairing_request_bytes req,
            size,
            (requests_read_back req no_upgrade no_download [] size).0,
            e,
          )
          (answer-reply write_pairing_reply 8 s reply)

  -- An upgrade request, as a node lays it out, is handed to the boot server, and a reply of the
  -- server, written out, goes back to the sender as a packet of type 7.
  pub receive-upgrade :
      (req : UpgradeRequest) (s : S) (reply : UpgradeReply)
      → boot.upgrade u.server req ≡ some (s, some reply)
      → receive boot u (packet 5 (upgrade_request_bytes req))
        ≡ some (replied s 7 (write_upgrade_reply reply))
  unfolding dispatch handle_upgrade_request
  receive-upgrade req s reply e =
      receive-dispatch boot u now src 5 g n (upgrade_request_bytes req)
        (omega (arith, length-upgrade_request_bytes req))
      ∙ rw (length-upgrade_request_bytes req, read_upgrade_request-bytes req, e)
          (answer-reply write_upgrade_reply 7 s reply)

  -- A download request, as a node lays it out, is handed to the boot server, and a reply of the
  -- server, written out, goes back to the sender as a packet of type 7.
  receive-download :
      (req : DownloadRequest) (s : S) (reply : DownloadReply)
      → boot.download u.server req ≡ some (s, some reply)
      → receive boot u (packet 5 (download_request_bytes req))
        ≡ some (replied s 7 (write_download_reply reply))
  unfolding dispatch handle_download_request
  receive-download req s reply e =
      receive-dispatch boot u now src 5 g n (download_request_bytes req)
        (omega (arith, length-download_request_bytes req))
      ∙ rw (length-download_request_bytes req, read_download_request-bytes req, e)
          (answer-reply write_download_reply 7 s reply)
