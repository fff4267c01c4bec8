-- ===== src/Boot/Server/Bounds.antt =====
-- hub/boot_proto.go, `Download`: where its uint16 arithmetic wraps.
use widuino.Base.{ℕ, ◌+◌, ◌*◌, ◌/◌, ◌%◌, List, ◌≡◌, arith}
use widuino.Base.{length, bit_xor}
use widuino.Base.Words.{u16}
use widuino.Base.Dict.{bytes_key, nat_key}
use widuino.Base.Outcome.{ok, err}
use widuino.Boot.Crc.{crc16}
use widuino.Boot.Wire.{UpgradeRequest, UpgradeReply, DownloadReply}
use widuino.Boot.Server.{Booter, Files, find_software, upgrade, chunk_reply}
use widuino.Boot.Server.{beyond_end}

-- An image of exactly 64 KB is announced with its size, and no chunk of it is ever sent: the length
-- is 0 as a uint16.
upgrade-full :
    (files : Files) (b b' : Booter) (req : UpgradeRequest) (sw : List ℕ)
    → find_software files b req.node_type ≡ (b', ok sw)
    → length sw ≡ 65536
    → ((up : UpgradeReply) × (upgrade files b req ≡ (b', ok up)) × (up.sw_size ≡ 4096))
      × ((ix : ℕ)
          → chunk_reply sw (record { sw_id = req.node_type; sw_index = ix }) ≡ err beyond_end)
unfolding upgrade chunk_reply
upgrade-full files b b' req sw found full = (
  (
    record {
      node_type = req.node_type;
      sw_id = req.node_type;
      sw_size = u16 (length sw / 16);
      sw_check = crc16 sw;
    },
    rw found,
    omega arith,
  ),
  λ ix. rw full (ground arith),
)

-- The offset wraps at 64 KB: the chunk 1024 further on has the payload of the chunk itself.
pub chunk_reply-wraps :
    (sw : List ℕ) (id ix : ℕ) (r : DownloadReply)
    → chunk_reply sw (record { sw_id = id; sw_index = ix }) ≡ ok r
    → chunk_reply sw (record { sw_id = id; sw_index = ix + 1024 })
      ≡ ok (record { sw_id_xor_ix = bit_xor id (ix + 1024); payload = r.payload })
unfolding chunk_reply
chunk_reply-wraps sw id ix r e =
    rw (let w : (ix + 1024) * 64 % 65536 ≡ ix * 64 % 65536 = omega arith in w) (ground arith)
