-- ===== src/LogWriter.antt =====
-- hub/log_writer.go: a log file for every day, with a line for every message. The text of the time and
-- of the day are arguments, as are whether a file can be opened and written to.
pub mod Laws
mod Tests
use widuino.Base.{
  ℕ, ◌+◌, List, [], ◌∷◌, ◌++◌, Option, none, some, Bool, true, false, if◌then◌else◌, length,
}
use widuino.Base.Int.{pos}
use widuino.Base.Dict.{bytes_same}
use widuino.Base.Decimal.{pad_int}
use widuino.Gears.{RfMessage}
use widuino.Boot.Server.{hex_string}

-- `% x`: the bytes' digits with blanks in between.
abbrev pub spaced : List ℕ → List ℕ
spaced [] = []
spaced (b ∷ []) = hex_string (b ∷ [])
spaced (b ∷ c ∷ bs) = hex_string (b ∷ []) ++ (b' ' ∷ spaced (c ∷ bs))

unfoldable pub log_line : List ℕ → RfMessage → List ℕ
log_line t m =
    t
    ++ (b' ' ∷ hex_string (m.group ∷ []))
    ++ (b' ' ∷ pad_int 2 (pos m.node))
    ++ (b' ' ∷ hex_string (m.kind ∷ []))
    ++ (b' ' ∷ pad_int 2 (pos (length m.payload + 1)))
    ++ (b':' ∷ b' ' ∷ spaced m.payload)
    ++ (10 ∷ [])

-- "_log/" and ".wd" about the day.
unfoldable pub file_name : List ℕ → List ℕ
file_name day = b'_' ∷ b'l' ∷ b'o' ∷ b'g' ∷ b'/' ∷ (day ++ (b'.' ∷ b'w' ∷ b'd' ∷ []))

-- `log_fd`, by the name it was opened with, and `log_name`.
pub record LogState : Type 0 where
  pub log_fd : Option (List ℕ)
  pub log_name : List ℕ

abbrev pub no_file : LogState
no_file = record { log_fd = none; log_name = [] }

-- Opens the file if it is another than the last one.
unfoldable pub log_opened : (List ℕ → Bool) → List ℕ → LogState → LogState
log_opened opens name st =
    if bytes_same name st.log_name
    then st
    else if opens name
    then record { log_fd = some name; log_name = name }
    else no_file

-- Writes a line; after an error the file is opened again the next time.
abbrev pub log_written :
    Bool → List ℕ → LogState → Option (List ℕ) → LogState × List (List ℕ × List ℕ)
log_written writes line st none = (record st { log_name = [] }, [])
log_written true line st (some f) = (st, (f, line) ∷ [])
log_written false line st (some f) = (record st { log_name = [] }, [])

-- A message as it comes: the time, the day, and whether writing succeeds.
pub record Logged : Type 0 where
  pub time : List ℕ
  pub day : List ℕ
  pub writes : Bool
  pub message : RfMessage

unfoldable pub log_message : (List ℕ → Bool) → LogState → Logged → LogState × List (List ℕ × List ℕ)
log_message opens st x =
    let st' = log_opened opens (file_name x.day) st in
    log_written x.writes (log_line x.time x.message) st' st'.log_fd

unfoldable pub log_messages :
    (List ℕ → Bool) → LogState → List Logged → LogState × List (List ℕ × List ℕ)
log_messages opens st [] = (st, [])
log_messages opens st (x ∷ xs) =
    let (st', out) = log_message opens st x in
    let (st'', rest) = log_messages opens st' xs in (st'', out ++ rest)
