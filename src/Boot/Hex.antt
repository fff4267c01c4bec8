-- ===== src/Boot/Hex.antt =====
-- hub/boot_data.go, `readHex`: the Intel hex reader, with what it uses of bufio and encoding/hex.
-- A byte string is a list of numbers.
pub mod Text
pub mod Writer
pub mod TextLaws
pub mod Laws
pub mod RoundTrip
pub mod Damage
use widuino.Base.{
  ℕ, zero, suc, ◌+◌, ◌-◌, ◌*◌, ◌%◌, List, [], ◌∷◌, Option, none, some, Bool, true, false,
}
use widuino.Base.{not, ◌&&◌, ◌||◌, ◌==◌, ltb, leb, if◌then◌else◌, length, get_or, take, drop}
use widuino.Base.Words.{u8}
use widuino.Base.Outcome.{Outcome, ok, err, panic, ◌>>=◌, ◌>>◌, check, in_range, or_err}
use Text.{scan_lines, decode_string}

abbrev pub boot_size_round : ℕ
boot_size_round = 16

-- The capacity that `sw` is made with.
abbrev pub sw_cap : ℕ
sw_cap = 64 * 1024

-- The errors of `readHex`, with the numbers that the message prints.
pub data HexError : Type 0 where
  bad_digits : ℕ → HexError
  short_line : ℕ → ℕ → HexError
  -- The line number and the sum as a byte; the message prints the sum as an int8.
  bad_checksum : ℕ → ℕ → HexError
  -- The message's `%d`s get the length of the record and the length wanted; no line number.
  short_record : ℕ → ℕ → HexError

-- The slice `sw`: its length, and the array of `sw_cap` bytes behind it.
pub record Image : Type 0 where
  pub size : ℕ
  pub cells : ℕ → ℕ

abbrev pub blank : Image
blank = record { size = 0; cells = λ k. 0 }

-- `copy(sw[addr:], bytes)` into the array.
abbrev pub overwrite : (ℕ → ℕ) → ℕ → List ℕ → ℕ → ℕ
overwrite cells addr bytes k =
    if leb addr k && ltb k (addr + length bytes) then get_or bytes (k - addr) 0 else cells k

-- `sum += int8(v)` over a record, as the pattern of its byte.
unfoldable pub checksum : ℕ → List ℕ → ℕ
checksum sum [] = sum
checksum sum (v ∷ b) = checksum (u8 (sum + v)) b

-- A data record: `sw` grows if the record ends more than one byte behind it; the copy goes to
-- `sw[addr:addr+length]`, which may end behind `sw` but not behind the array.
unfoldable pub put_data : Image → ℕ → List ℕ → Outcome HexError Image
put_data sw addr bytes = do
  let grows = ltb (sw.size + 1) (addr + length bytes)
  in_range (leb (addr + length bytes) sw_cap)
  let size = if grows then addr + length bytes else sw.size
  ok (record { size = size; cells = overwrite sw.cells addr bytes })

-- The bytes of the record on line `i`.
unfoldable pub put_record : ℕ → Image → List ℕ → Outcome HexError Image
put_record i sw b = do
  check (leb 5 (length b)) (short_line i (length b))
  let sum = checksum 0 b
  check (sum == 0) (bad_checksum i sum)
  let len = get_or b 0 0
  check (leb (5 + len) (length b)) (short_record (length b) (5 + len))
  let addr = get_or b 2 0 + get_or b 1 0 * 256
  if get_or b 3 0 == 0 then put_data sw addr (take len (drop 4 b)) else ok sw

-- One line; those that do not begin with a colon are skipped.
unfoldable pub put_line : ℕ → Image → List ℕ → Outcome HexError Image
put_line i sw [] = ok sw
put_line i sw (c ∷ l) =
    if c == b':' then (do b ← or_err (decode_string l) (bad_digits i); put_record i sw b) else ok sw

-- The loop over the lines, `i` of which have been read.
unfoldable pub put_lines : ℕ → Image → List (List ℕ) → Outcome HexError Image
put_lines i sw [] = ok sw
put_lines i sw (l ∷ ls) = do sw' ← put_line (i + 1) sw l; put_lines (i + 1) sw' ls

-- `n` bytes of the array from `k` on.
abbrev pub read_cells : (ℕ → ℕ) → ℕ → ℕ → List ℕ
read_cells cells k zero = []
read_cells cells k (suc n) = cells k ∷ read_cells cells (suc k) n

abbrev pub round_up : ℕ → ℕ
round_up n =
    if not (n % boot_size_round == 0) then n + (boot_size_round - n % boot_size_round) else n

-- `sw2`: as long as `sw` rounded up, with the bytes of `sw` and then zeros.
unfoldable pub finish : Image → List ℕ
finish sw = read_cells (λ k. if ltb k sw.size then sw.cells k else 0) 0 (round_up sw.size)

unfoldable pub read_hex : List ℕ → Outcome HexError (List ℕ)
read_hex rd = do sw ← put_lines 0 blank (scan_lines rd); ok (finish sw)
