-- ===== src/Boot/Wire.antt =====
-- hub/boot_proto.go: the boot protocol's messages, and encoding/binary's little-endian layout of
-- them. A `uint16` is its low byte and its high byte; arrays are lists.
pub mod Layout
use widuino.Base.{
  ℕ, ◌+◌, ◌*◌, ◌/◌, ◌%◌, List, [], ◌∷◌, ◌++◌, Option, none, some, leb, if◌then◌else◌,
}
use widuino.Base.{length, take}

pub record PairingRequest : Type 0 where
  pub node_type : ℕ
  pub group_id : ℕ
  pub node_id : ℕ
  pub check : ℕ
  pub hw_id : List ℕ

pub record PairingReply : Type 0 where
  pub node_type : ℕ
  pub group_id : ℕ
  pub node_id : ℕ
  pub sh_key : List ℕ

pub record UpgradeRequest : Type 0 where
  pub node_type : ℕ
  pub sw_id : ℕ
  pub sw_size : ℕ
  pub sw_check : ℕ

pub record UpgradeReply : Type 0 where
  pub node_type : ℕ
  pub sw_id : ℕ
  pub sw_size : ℕ
  pub sw_check : ℕ

pub record DownloadRequest : Type 0 where
  pub sw_id : ℕ
  pub sw_index : ℕ

pub record DownloadReply : Type 0 where
  pub sw_id_xor_ix : ℕ
  pub payload : List ℕ

abbrev pub pairing_request_len : ℕ
pairing_request_len = 22

abbrev pub upgrade_request_len : ℕ
upgrade_request_len = 8

abbrev pub download_request_len : ℕ
download_request_len = 4

abbrev pub boot_data_max : ℕ
boot_data_max = 64

-- binary.Write of a uint16, and the value of its two bytes.
abbrev pub put_u16 : ℕ → List ℕ
put_u16 w = (w % 256) ∷ (w / 256) ∷ []

abbrev pub u16_of : ℕ → ℕ → ℕ
u16_of lo hi = lo + hi * 256

-- binary.Read into each request: `none` where the bytes do not suffice; more are not looked at.
unfoldable pub read_pairing_request : List ℕ → Option PairingRequest
read_pairing_request (t0 ∷ t1 ∷ g ∷ n ∷ c0 ∷ c1 ∷ rest) =
    if leb 16 (length rest)
    then some (record {
      node_type = u16_of t0 t1;
      group_id = g;
      node_id = n;
      check = u16_of c0 c1;
      hw_id = take 16 rest;
    })
    else none
read_pairing_request _ = none

unfoldable pub read_upgrade_request : List ℕ → Option UpgradeRequest
read_upgrade_request (t0 ∷ t1 ∷ i0 ∷ i1 ∷ s0 ∷ s1 ∷ c0 ∷ c1 ∷ rest) = some (record {
  node_type = u16_of t0 t1;
  sw_id = u16_of i0 i1;
  sw_size = u16_of s0 s1;
  sw_check = u16_of c0 c1;
})
read_upgrade_request _ = none

unfoldable pub read_download_request : List ℕ → Option DownloadRequest
read_download_request (i0 ∷ i1 ∷ x0 ∷ x1 ∷ rest) =
    some (record { sw_id = u16_of i0 i1; sw_index = u16_of x0 x1 })
read_download_request _ = none

-- binary.Write of each reply.
unfoldable pub write_pairing_reply : PairingReply → List ℕ
write_pairing_reply r = put_u16 r.node_type ++ (r.group_id ∷ r.node_id ∷ r.sh_key)

unfoldable pub write_upgrade_reply : UpgradeReply → List ℕ
write_upgrade_reply r =
    put_u16 r.node_type ++ (put_u16 r.sw_id ++ (put_u16 r.sw_size ++ put_u16 r.sw_check))

unfoldable pub write_download_reply : DownloadReply → List ℕ
write_download_reply r = put_u16 r.sw_id_xor_ix ++ r.payload
