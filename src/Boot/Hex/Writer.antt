-- ===== src/Boot/Hex/Writer.antt =====
-- An Intel hex writer: the specification that the reader of hub/boot_data.go is held to.
use widuino.Base.{ℕ, ◌+◌, ◌-◌, ◌/◌, ◌%◌, ◌≤◌, List, [], ◌∷◌, ◌++◌, if◌then◌else◌, ltb}
use widuino.Base.{length, All, replicate}
use widuino.Base.Words.{IsByte}
use widuino.Boot.Hex.{checksum, round_up}

abbrev pub to_hex_char : ℕ → ℕ
to_hex_char d = if ltb d 10 then b'0' + d else b'A' + d - 10

abbrev pub encode_string : List ℕ → List ℕ
encode_string [] = []
encode_string (b ∷ bs) = to_hex_char (b / 16) ∷ to_hex_char (b % 16) ∷ encode_string bs

abbrev pub record_head : ℕ → List ℕ → List ℕ
record_head addr bytes = length bytes ∷ (addr / 256) ∷ (addr % 256) ∷ 0 ∷ bytes

-- Length, address, record type, the bytes, and what brings the sum to 0.
unfoldable pub data_record : ℕ → List ℕ → List ℕ
data_record addr bytes =
    record_head addr bytes ++ ((256 - checksum 0 (record_head addr bytes)) % 256 ∷ [])

unfoldable pub data_line : ℕ → List ℕ → List ℕ
data_line addr bytes = b':' ∷ encode_string (data_record addr bytes)

-- The chunks one behind the other, the first at `addr`.
unfoldable pub data_lines : ℕ → List (List ℕ) → List (List ℕ)
data_lines addr [] = []
data_lines addr (c ∷ cs) = data_line addr c ∷ data_lines (addr + length c) cs

unfoldable pub as_text : List (List ℕ) → List ℕ
as_text [] = []
as_text (l ∷ ls) = l ++ (10 ∷ as_text ls)

abbrev pub joined : List (List ℕ) → List ℕ
joined [] = []
joined (c ∷ cs) = c ++ joined cs

-- A record that the reader takes as it stands: 2 to 255 bytes.
abbrev pub IsChunk : List ℕ → Type 0
IsChunk c = (2 ≤ length c) × (length c ≤ 255) × All IsByte c

-- The image with the zeros that round its length up.
abbrev pub padded : List ℕ → List ℕ
padded xs = xs ++ replicate (round_up (length xs) - length xs) 0
