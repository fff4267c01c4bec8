-- ===== src/Boot/Hex/Text.antt =====
-- The standard library's part of `readHex`: bufio's line scanner and hex.DecodeString.
use widuino.Base.{ℕ, ◌+◌, ◌-◌, ◌*◌, List, [], ◌∷◌, ◌++◌, Option, none, some}
use widuino.Base.{◌&&◌, ◌==◌, leb, if◌then◌else◌}

-- A line without the carriage return at its end.
unfoldable pub drop_cr : List ℕ → List ℕ
drop_cr [] = []
drop_cr (c ∷ []) = if c == 13 then [] else c ∷ []
drop_cr (c ∷ d ∷ l) = c ∷ drop_cr (d ∷ l)

-- The scanner stops for good at a line that fills its buffer of 64 KB.
abbrev pub max_token : ℕ
max_token = 64 * 1024

-- `cur` is the line so far, and `n` its length.
unfoldable pub scan_from : List ℕ → ℕ → List ℕ → List (List ℕ)
unfolding drop_cr
scan_from cur n [] = if n == 0 then [] else if leb max_token n then [] else drop_cr cur ∷ []
scan_from cur n (c ∷ rest) =
    let ends = drop_cr cur ∷ scan_from [] 0 rest in
    let goes_on = scan_from (cur ++ (c ∷ [])) (n + 1) rest in
    if leb max_token n then [] else if c == 10 then ends else goes_on

unfoldable pub scan_lines : List ℕ → List (List ℕ)
unfolding scan_from
scan_lines rd = scan_from [] 0 rd

-- The value of a hex digit of either case.
unfoldable pub from_hex_char : ℕ → Option ℕ
from_hex_char c =
    if leb b'0' c && leb c b'9'
    then some (c - b'0')
    else if leb b'a' c && leb c b'f'
    then some (c - b'a' + 10)
    else if leb b'A' c && leb c b'F'
    then some (c - b'A' + 10)
    else none

-- A byte from its two digits, in front of the bytes behind it.
abbrev pub pair_digits : Option ℕ → Option ℕ → Option (List ℕ) → Option (List ℕ)
pair_digits (some hi) (some lo) (some bs) = some ((hi * 16 + lo) ∷ bs)
pair_digits _ _ _ = none

-- `none` stands for both errors, an odd length and a byte that is no digit.
unfoldable pub decode_string : List ℕ → Option (List ℕ)
unfolding from_hex_char
decode_string [] = some []
decode_string (h ∷ []) = none
decode_string (h ∷ l ∷ rest) = pair_digits (from_hex_char h) (from_hex_char l) (decode_string rest)
