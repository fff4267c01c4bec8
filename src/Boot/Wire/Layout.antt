-- ===== src/Boot/Wire/Layout.antt =====
-- The node's side of the messages, and that each message is read as it was written.
use widuino.Base.{ℕ, ◌/◌, ◌%◌, List, [], ◌∷◌, ◌++◌, Option, none, some}
use widuino.Base.{length, ◌≡◌, arith, take-all}
use widuino.Boot.Wire.{PairingRequest, PairingReply, UpgradeRequest, UpgradeReply, DownloadRequest}
use widuino.Boot.Wire.{DownloadReply, put_u16, u16_of, read_pairing_request, read_upgrade_request}
use widuino.Boot.Wire.{
  read_download_request, write_pairing_reply, write_upgrade_reply, write_download_reply,
}

-- How a node lays its requests out.
unfoldable pub pairing_request_bytes : PairingRequest → List ℕ
pairing_request_bytes r =
    put_u16 r.node_type ++ (r.group_id ∷ r.node_id ∷ (put_u16 r.check ++ r.hw_id))

unfoldable pub upgrade_request_bytes : UpgradeRequest → List ℕ
upgrade_request_bytes r =
    put_u16 r.node_type ++ (put_u16 r.sw_id ++ (put_u16 r.sw_size ++ put_u16 r.sw_check))

unfoldable pub download_request_bytes : DownloadRequest → List ℕ
download_request_bytes r = put_u16 r.sw_id ++ put_u16 r.sw_index

-- How a node reads the replies.
unfoldable pub upgrade_reply_of : List ℕ → Option UpgradeReply
upgrade_reply_of (t0 ∷ t1 ∷ i0 ∷ i1 ∷ s0 ∷ s1 ∷ c0 ∷ c1 ∷ []) = some (record {
  node_type = u16_of t0 t1;
  sw_id = u16_of i0 i1;
  sw_size = u16_of s0 s1;
  sw_check = u16_of c0 c1;
})
upgrade_reply_of _ = none

unfoldable pub download_reply_of : List ℕ → Option DownloadReply
download_reply_of (x0 ∷ x1 ∷ payload) =
    some (record { sw_id_xor_ix = u16_of x0 x1; payload = payload })
download_reply_of _ = none

u16_of_put : (w : ℕ) → u16_of (w % 256) (w / 256) ≡ w
u16_of_put w = omega arith

-- Each of a node's three requests is decoded to itself from its layout; behind an upgrade or a
-- download request more bytes may follow.
pub requests_read_back :
    (p : PairingRequest) (u : UpgradeRequest) (d : DownloadRequest) (rest : List ℕ)
    → length p.hw_id ≡ 16
    → (read_pairing_request (pairing_request_bytes p) ≡ some p)
      × (read_upgrade_request (upgrade_request_bytes u ++ rest) ≡ some u)
      × (read_download_request (download_request_bytes d ++ rest) ≡ some d)
unfolding read_pairing_request read_upgrade_request read_download_request pairing_request_bytes
    upgrade_request_bytes download_request_bytes
requests_read_back p u d rest h = (
  ground (arith, u16_of_put p.node_type, u16_of_put p.check, take-all 16 p.hw_id (omega arith)),
  ground arith,
  ground arith,
)

-- The two replies on software are read back by the node as they were sent, and the three replies
-- are 20, 8 and 66 bytes long when their arrays have their length.
replies_read_back :
    (p : PairingReply) (u : UpgradeReply) (d : DownloadReply)
    → length p.sh_key ≡ 16
    → length d.payload ≡ 64
    → (upgrade_reply_of (write_upgrade_reply u) ≡ some u)
      × (download_reply_of (write_download_reply d) ≡ some d)
      × (length (write_pairing_reply p) ≡ 20)
      × (length (write_upgrade_reply u) ≡ 8)
      × (length (write_download_reply d) ≡ 66)
unfolding upgrade_reply_of download_reply_of write_pairing_reply write_upgrade_reply
    write_download_reply
replies_read_back p u d hp hd = (ground arith, ground arith, omega arith, omega arith, omega arith)
