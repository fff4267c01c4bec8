-- ===== src/RfFormat.antt =====
-- gears/rfpp/rf_format.go: a message of a node as a line of text. The text of a voltage, a float32 with
-- three decimals, is an argument.
pub mod Line
mod Tests
use widuino.Base.{ℕ, suc, ◌+◌, ◌*◌, List, [], ◌∷◌, ◌++◌, Bool, true, false, not}
use widuino.Base.{◌&&◌, ◌==◌, ltb, if◌then◌else◌, length, get_or, drop}
use widuino.Base.Decimal.{decimal}
use widuino.Gears.{RfMessage}
use widuino.LogWriter.{spaced}

-- strings.TrimSuffix of a newline.
abbrev and_rest : ℕ → List ℕ → List ℕ → List ℕ
and_rest c [] trimmed = if c == 10 then [] else c ∷ []
and_rest c (d ∷ s) trimmed = c ∷ trimmed

unfoldable pub trim_newline : List ℕ → List ℕ
trim_newline [] = []
trim_newline (c ∷ s) = and_rest c s (trim_newline s)

-- " %dF" for every byte.
unfoldable pub temps_text : List ℕ → List ℕ
temps_text [] = []
temps_text (t ∷ ts) = b' ' ∷ (decimal t ++ (b'F' ∷ temps_text ts))

-- " i%d:%d/%d" for every pair of counts that is not zero, from place `i` on.
unfoldable pub counts_text : ℕ → List ℕ → List ℕ
counts_text i [] = []
counts_text i (a ∷ []) = []
counts_text i (a ∷ b ∷ bs) =
    let rest = counts_text (i + 2) bs in
    if a == 0 && b == 0
    then rest
    else b' ' ∷ b'i' ∷ (decimal i ++ (b':' ∷ (decimal a ++ (b'/' ∷ (decimal b ++ rest)))))

abbrev pub log_label : List ℕ
log_label = b'L' ∷ b'o' ∷ b'g' ∷ b':' ∷ b' ' ∷ []

abbrev pub temp_label : List ℕ
temp_label = b'T' ∷ b'e' ∷ b'm' ∷ b'p' ∷ b':' ∷ []

abbrev pub level_label : List ℕ
level_label = b'W' ∷ b'a' ∷ b't' ∷ b'e' ∷ b'r' ∷ b' ' ∷ b'l' ∷ b'e' ∷ b'v' ∷ b'e' ∷ b'l' ∷ []

abbrev pub rssi_label : List ℕ
rssi_label = b'R' ∷ b'F' ∷ b' ' ∷ b'R' ∷ b'S' ∷ b'S' ∷ b'I' ∷ b' ' ∷ []

abbrev pub unknown_label : List ℕ
unknown_label = b'u' ∷ b'n' ∷ b'k' ∷ b'n' ∷ b'o' ∷ b'w' ∷ b'n' ∷ b':' ∷ b' ' ∷ []

-- "%d bytes? % x".
abbrev pub bytes_text : List ℕ → List ℕ
bytes_text bs =
    decimal (length bs) ++ (b' ' ∷ b'b' ∷ b'y' ∷ b't' ∷ b'e' ∷ b's' ∷ b'?' ∷ b' ' ∷ spaced bs)

-- "%ds/%dr".
abbrev pub sent_received : ℕ → ℕ → List ℕ
sent_received s r = decimal s ++ (b's' ∷ b'/' ∷ (decimal r ++ (b'r' ∷ [])))

module _ (volts : ℕ → List ℕ) where
  abbrev pub level_text : List ℕ → List ℕ
  level_text bs =
      if not (length bs == 4)
      then level_label ++ (b':' ∷ b' ' ∷ bytes_text bs)
      else level_label
        ++ (b's'
            ∷ b':'
            ∷ b' '
            ∷ (volts (get_or bs 1 0 * 256 + get_or bs 0 0)
                ++ (b'V' ∷ b' ' ∷ (volts (get_or bs 3 0 * 256 + get_or bs 2 0) ++ (b'V' ∷ [])))))

  abbrev pub rssi_text : List ℕ → List ℕ
  rssi_text bs =
      if ltb (length bs) 4
      then rssi_label ++ bytes_text bs
      else (b'R' ∷ b'F' ∷ b':' ∷ b' ' ∷ sent_received (get_or bs 0 0) (get_or bs 1 0))
        ++ ((b' '
              ∷ b'E'
              ∷ b't'
              ∷ b'h'
              ∷ b':'
              ∷ b' '
              ∷ sent_received (get_or bs 2 0) (get_or bs 3 0))
            ++ counts_text 4 (drop 4 bs))

  unfoldable pub rf_format : RfMessage → List ℕ
  rf_format m =
      if m.kind == 2
      then log_label ++ trim_newline m.payload
      else if m.kind == 4
      then temp_label ++ temps_text m.payload
      else if m.kind == 7
      then level_text m.payload
      else if m.kind == 8
      then rssi_text m.payload
      else unknown_label ++ spaced m.payload
