-- ===== src/Boot/Tests.antt =====
-- The boot server's theorems at small inputs.
use widuino.Base.{ℕ, List, [], ◌∷◌, Bool, true, ◌&&◌, ltb, ◌≡◌, refl, arith}
use widuino.Base.{All}
use widuino.Base.Words.{IsByte}
use widuino.Base.Dict.{bytes_key, nat_key}
use widuino.Base.Outcome.{ok}
use widuino.Boot.Crc.{crc16, crc16_b}
use widuino.Boot.Crc.Laws.{crc16-reference}
use widuino.Boot.Hex.{read_hex}
use widuino.Boot.Hex.Writer.{as_text, data_lines, joined, padded, IsChunk}
use widuino.Boot.Hex.Laws.{IsSoftware, read_hex-IsSoftware}
use widuino.Boot.Hex.RoundTrip.{read_hex-as_text}

abbrev all_bytes : List ℕ → Bool
all_bytes [] = true
all_bytes (b ∷ bs) = ltb b 256 && all_bytes bs

all_bytes-All : (bs : List ℕ) → all_bytes bs ≡ true → All IsByte bs
all_bytes-All [] e = tt
all_bytes-All (b ∷ bs) e = ground (arith, all_bytes-All bs)

abbrev sketch : List ℕ
sketch = 12 ∷ 148 ∷ 52 ∷ 0 ∷ 255 ∷ []

crc16-reference_example : crc16 sketch ≡ crc16_b sketch
crc16-reference_example = crc16-reference sketch (all_bytes-All sketch refl)

abbrev pub two_records : List (List ℕ)
two_records = (12 ∷ 148 ∷ 52 ∷ []) ∷ (0 ∷ 255 ∷ []) ∷ []

pub two_records-IsChunk : All IsChunk two_records
two_records-IsChunk = (
  (omega arith, omega arith, all_bytes-All (12 ∷ 148 ∷ 52 ∷ []) refl),
  ((omega arith, omega arith, all_bytes-All (0 ∷ 255 ∷ []) refl), tt),
)

read_hex-as_text_example :
    read_hex (as_text (data_lines 0 two_records)) ≡ ok (padded (joined two_records))
read_hex-as_text_example = read_hex-as_text two_records two_records-IsChunk (omega arith)

read_hex-IsSoftware_example : IsSoftware (padded sketch)
read_hex-IsSoftware_example =
    read_hex-IsSoftware (as_text (data_lines 0 two_records)) (padded sketch)
      (read_hex-as_text two_records two_records-IsChunk (omega arith))
