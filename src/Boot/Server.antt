-- ===== src/Boot/Server.antt =====
-- hub/boot_data.go and hub/boot_proto.go: the `booter`. File names are byte strings. The files, the
-- random source and what encoding/json makes of the configuration are arguments; calls of the
-- file watcher, a third-party package, are kept as a list.
use widuino.Base.{
  ℕ, zero, suc, ◌+◌, ◌-◌, ◌*◌, ◌/◌, ◌%◌, ◌^◌, List, [], ◌∷◌, ◌++◌, Option, none, some,
}
pub mod Reload
pub mod Laws
pub mod Events
pub mod Transfer
pub mod Bounds
pub mod Tests
use widuino.Base.{
  Bool, true, false, not, ◌&&◌, ◌||◌, ◌==◌, ltb, leb, if◌then◌else◌, length, take, drop, replicate,
  map, bit_xor,
}
use widuino.Base.Words.{u8, u16}
use widuino.Base.Dict.{Dict, lookup, insert, bytes_same, bytes_key, nat_key}
use widuino.Base.Outcome.{Outcome, ok, err, panic, ◌>>=◌}
use widuino.Boot.Crc.{crc16}
use widuino.Boot.Whitening.{de_whiten}
use widuino.Boot.Hex.{HexError, read_hex}
use widuino.Boot.Wire.{
  PairingRequest, PairingReply, UpgradeRequest, UpgradeReply, DownloadRequest, DownloadReply,
  boot_data_max,
}
use widuino.Boot.FilePath.{join, dir}
use mathlib.Core.Option

abbrev pub FileName : Type 0
FileName = List ℕ

-- `[3]uint16`: node type, group, node.
abbrev pub PairingInfo : Type 0
PairingInfo = ℕ × ℕ × ℕ

pub data WatchCall : Type 0 where
  add : FileName → WatchCall
  remove : FileName → WatchCall

pub record Booter : Type 0 where
  pub config_file : FileName
  pub dir_name : FileName
  pub watcher : List WatchCall
  pub node_type : Dict (List ℕ) PairingInfo
  pub sketch : Dict ℕ FileName
  pub software : Dict FileName (List ℕ)

pub data BootError : Type 0 where
  no_sketch : BootError
  cannot_open : FileName → BootError
  bad_hex_file : HexError → BootError
  beyond_end : BootError
  cannot_read bad_pairing bad_sketches : BootError

-- os.Open and the reads from it: the contents, if the file can be opened.
abbrev pub Files : Type 0
Files = FileName → Option (List ℕ)

-- What the two `Decode` calls leave in their maps, and whether each succeeds.
pub record Config : Type 0 where
  pub pairing : Dict (List ℕ) PairingInfo
  pub pairing_read : Bool
  pub sketches : Dict (List ℕ) FileName
  pub sketches_read : Bool

abbrev pub watch : WatchCall → Booter → Booter
watch c b = record b { watcher = b.watcher ++ (c ∷ []) }

-- ===== Software =====

-- The result of `readHex` goes into the cache, or its error is returned.
abbrev pub store_software :
    FileName → Booter → Outcome HexError (List ℕ) → Booter × Outcome BootError (Unit {0})
store_software file b (ok sw) = (record b { software = insert file sw b.software }, ok tt)
store_software file b (err e) = (b, err (bad_hex_file e))
store_software file b panic = (b, panic)

abbrev pub read_opened : FileName → Booter → Option (List ℕ) → Booter × Outcome BootError (Unit {0})
read_opened file b none = (b, err (cannot_open file))
read_opened file b (some rd) = store_software file b (read_hex rd)

unfoldable pub read_hex_file : Files → Booter → FileName → Booter × Outcome BootError (Unit {0})
read_hex_file files b file = read_opened file (watch (add (dir file)) b) (files file)

-- The image in the cache, or else the file, read into the cache.
abbrev pub from_cache :
    Files → Booter → FileName → Option (List ℕ) → Booter × Outcome BootError (List ℕ)
from_cache files b file (some sw) = (b, ok sw)
from_cache files b file none =
    let (b', r) = read_hex_file files b file in
    (b', r >>= λ _. ok (Option.get_or (lookup file b'.software) []))

unfoldable pub cached_software : Files → Booter → FileName → Booter × Outcome BootError (List ℕ)
cached_software files b file = from_cache files b file (lookup file b.software)

-- `file[0]` panics on an empty name.
abbrev pub find_named : Files → Booter → Option FileName → Booter × Outcome BootError (List ℕ)
find_named files b none = (b, err no_sketch)
find_named files b (some []) = (b, panic)
find_named files b (some (c ∷ file)) =
    cached_software files b (if c == b'/' then c ∷ file else join b.dir_name (c ∷ file))

unfoldable pub find_software : Files → Booter → ℕ → Booter × Outcome BootError (List ℕ)
find_software files b id = find_named files b (lookup id b.sketch)

-- ===== The three requests =====

abbrev pub hw_id_is_zero : List ℕ → Bool
hw_id_is_zero [] = true
hw_id_is_zero (id ∷ rest) = id == 0 && hw_id_is_zero rest

abbrev low_digit : ℕ → ℕ
low_digit d = if ltb d 10 then b'0' + d else b'a' + d - 10

-- hex.EncodeToString: lower-case digits.
abbrev pub hex_string : List ℕ → List ℕ
hex_string [] = []
hex_string (b ∷ bs) = low_digit (b / 16) ∷ low_digit (b % 16) ∷ hex_string bs

-- 32 digits 0.
abbrev pub default_id : List ℕ
default_id = replicate 32 b'0'

-- `fresh` is what rand.Read puts into the first 8 bytes of the key, if it can.
abbrev pub fresh_key : Option (List ℕ) → List ℕ
fresh_key none = replicate 16 0
fresh_key (some r) = take 8 r ++ replicate (16 - length (take 8 r)) 0

unfoldable pub pair : Option (List ℕ) → Booter → PairingRequest → PairingReply
pair fresh b req =
    let sh_key = if hw_id_is_zero req.hw_id then fresh_key fresh else replicate 16 0 in
    let hw_id = if hw_id_is_zero req.hw_id then hex_string sh_key else hex_string req.hw_id in
    let info =
      Option.get_or (lookup hw_id b.node_type)
        (Option.get_or (lookup default_id b.node_type) (0, 0, 0)) in
    record { node_type = info.0; group_id = u8 info.1; node_id = u8 info.2; sh_key = sh_key }

-- An error stands for the nil reply and its warning in the log.
unfoldable pub upgrade : Files → Booter → UpgradeRequest → Booter × Outcome BootError UpgradeReply
upgrade files b req =
    let (b', found) = find_software files b req.node_type in
    (
      b',
      do
        sw ← found
        ok (record {
          node_type = req.node_type;
          sw_id = req.node_type;
          sw_size = u16 (length sw / 16);
          sw_check = crc16 sw;
        }),
    )

abbrev pub or_panic {ℓ} : {A : Type ℓ} → Option A → Outcome BootError A
or_panic none = panic
or_panic (some a) = ok a

-- The data array of a new reply.
unfoldable pub empty_payload : List ℕ
empty_payload = replicate boot_data_max 0

-- The chunk of `sw` that a request asks for; the product and the length are cut to a uint16.
unfoldable pub chunk_reply : List ℕ → DownloadRequest → Outcome BootError DownloadReply
chunk_reply sw req =
    let offset = u16 (req.sw_index * boot_data_max) in
    let bytes = take boot_data_max (drop offset sw) in
    if leb (u16 (length sw)) offset then err beyond_end else (do
      payload ← or_panic (de_whiten bytes empty_payload)
      ok (record { sw_id_xor_ix = bit_xor req.sw_id req.sw_index; payload = payload }))

unfoldable pub download :
    Files → Booter → DownloadRequest → Booter × Outcome BootError DownloadReply
download files b req =
    let (b', found) = find_software files b req.sw_id in (b', found >>= λ sw. chunk_reply sw req)
