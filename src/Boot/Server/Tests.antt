-- ===== src/Boot/Server/Tests.antt =====
-- The `booter`'s theorems at a small configuration.
use widuino.Base.{ℕ, ◌+◌, ◌*◌, ◌/◌, List, [], ◌∷◌, none, some, true, ◌≡◌, refl, arith}
use widuino.Base.{take, replicate, bit_xor}
use widuino.Base.Dict.{lookup, bytes_key, nat_key}
use widuino.Base.Outcome.{ok}
use widuino.Boot.Crc.{crc16}
use widuino.Boot.Whitening.{de_whiten, de_whiten_from}
use widuino.Boot.Hex.{read_hex}
use widuino.Boot.Hex.Writer.{as_text, data_lines, padded, joined}
use widuino.Boot.Hex.Laws.{IsSoftware}
use widuino.Boot.Tests.{two_records}
use widuino.Boot.Wire.{PairingRequest, UpgradeRequest, UpgradeReply, DownloadRequest, DownloadReply}
use widuino.Boot.Server.{Booter, FileName, Files, find_software}
use widuino.Boot.Server.{cached_software, upgrade, chunk_reply, empty_payload}
use widuino.Boot.Server.Laws.{IsServing, find_software-again}
use widuino.Boot.Server.Transfer.{fetch, fetch-upgrade}
use widuino.Boot.Server.Bounds.{chunk_reply-wraps}
use widuino.Boot.Server.Reload.{Event, handle_event}
use widuino.Boot.Server.Events.{served, refreshed, unless_panic, handle_event-refreshes}

-- "/c/b" and "/x".
abbrev config_name : FileName
config_name = b'/' ∷ b'c' ∷ b'/' ∷ b'b' ∷ []

abbrev hex_name : FileName
hex_name = b'/' ∷ b'x' ∷ []

-- A `booter` with one image in its cache.
abbrev serving : List ℕ → Booter
serving sw = record {
  config_file = config_name;
  dir_name = b'/' ∷ b'c' ∷ [];
  watcher = [];
  node_type = [];
  sketch = (100, hex_name) ∷ [];
  software = (hex_name, sw) ∷ [];
}

abbrev pub image : List ℕ
image = padded (joined two_records)

image-IsSoftware : IsSoftware image
image-IsSoftware = record { whole = refl; within = omega arith; bytes = ground arith }

abbrev pub small : Booter
small = serving image

pub small-IsServing : IsServing small
small-IsServing = (image-IsSoftware, tt)

pub small-finds : (files : Files) → find_software files small 100 ≡ (small, ok image)
unfolding find_software cached_software lookup
small-finds files = refl

-- The one file on disk.
abbrev pub files : Files
files name = some (as_text (data_lines 0 two_records))

abbrev pub request : UpgradeRequest
request = record { node_type = 100; sw_id = 0; sw_size = 0; sw_check = 0 }

fetch-upgrade_example :
    (up : UpgradeReply) × (got : List ℕ) × (upgrade files small request ≡ (small, ok up))
    × (up.sw_id ≡ 100)
    × (fetch files small up.sw_id 0 ((up.sw_size + 3) / 4) ≡ some got)
    × (take (up.sw_size * 16) got ≡ image)
    × (crc16 (take (up.sw_size * 16) got) ≡ up.sw_check)
fetch-upgrade_example =
    fetch-upgrade files small small request image small-IsServing (small-finds files) (omega arith)

find_software-again_example :
    IsSoftware image
    × IsServing small
    × ((others : Files) → find_software others small 100 ≡ (small, ok image))
find_software-again_example =
    find_software-again files small small 100 image small-IsServing (small-finds files)

first_chunk :
    (r : DownloadReply) × (chunk_reply image (record { sw_id = 100; sw_index = 0 }) ≡ ok r)
unfolding chunk_reply de_whiten de_whiten_from empty_payload
first_chunk = (_, refl)

chunk_reply-wraps_example :
    chunk_reply image (record { sw_id = 100; sw_index = 0 + 1024 })
    ≡ ok (record { sw_id_xor_ix = bit_xor 100 (0 + 1024); payload = first_chunk.0.payload })
chunk_reply-wraps_example = chunk_reply-wraps image 100 0 first_chunk.0 first_chunk.1

abbrev replaced : Event
replaced = record { name = hex_name; changed = true }

cached : lookup hex_name small.software ≡ some image
unfolding lookup
cached = refl

handle_event-refreshes_example :
    (served hex_name (handle_event files none small replaced)
      ≡ refreshed (some image) (read_hex (as_text (data_lines 0 two_records))))
    × (served (b'/' ∷ b'y' ∷ []) (handle_event files none small replaced)
        ≡ unless_panic
            (lookup (b'/' ∷ b'y' ∷ []) small.software)
            (read_hex (as_text (data_lines 0 two_records))))
handle_event-refreshes_example =
    handle_event-refreshes files none small replaced image (as_text (data_lines 0 two_records))
      (b'/' ∷ b'y' ∷ []) refl (ground arith) cached refl (ground arith)

abbrev zeros : List ℕ
zeros = replicate 16 0

abbrev pub pairing_request : PairingRequest
pairing_request = record { node_type = 100; group_id = 212; node_id = 3; check = 0; hw_id = zeros }

abbrev pub download_request : DownloadRequest
download_request = record { sw_id = 100; sw_index = 2 }
