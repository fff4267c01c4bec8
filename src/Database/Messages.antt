-- ===== src/Database/Messages.antt =====
-- hub/database/rfmessage.go: RF messages in the store, under the time they came at.
pub mod Keys
pub mod Log
pub mod Refines
pub mod Processed
pub mod CatchUp
pub mod Order
pub mod InOrder
pub mod Rounds
pub mod Growth
pub mod HandOver
pub mod LeftOver
pub mod InStep
pub mod Turns
pub mod Settled
pub mod ExactlyOnce
pub mod Twice
mod Tests
use widuino.Base.{
  ℕ, zero, suc, ◌-◌, ◌^◌, List, [], ◌∷◌, ◌++◌, Option, none, some, Bool, true, false, leb, ◌==◌,
  if◌then◌else◌, length, drop,
}
use widuino.Base.Int.{ℤ, pos, negsuc}
use widuino.Base.Decimal.{pad_int, atoi, signed}
use widuino.Gears.{RfMessage}
use widuino.Database.{LevelDb, Codec}
use widuino.Database.Failure.{DbError}
use widuino.Database.Store.{put, iterate}
use mathlib.Core.Option

-- "raw/".
abbrev pub prefix : List ℕ
prefix = b'r' ∷ b'a' ∷ b'w' ∷ b'/' ∷ []

unfoldable pub gen_rf_key : ℤ → List ℕ
gen_rf_key at = prefix ++ pad_int 13 at

unfoldable pub parse_rf_key : List ℕ → Option ℤ
parse_rf_key str =
    if leb (length str) (length prefix)
    then none
    else Option.map signed (atoi (drop (length prefix) str))

-- math.MaxInt64.
abbrev pub max_int64 : ℤ
max_int64 = pos (2 ^ 63 - 1)

abbrev pub no_message : RfMessage
no_message = record { at = pos 0; group = 0; node = 0; do_ack = false; kind = 0; payload = [] }

abbrev pub is_zero : ℤ → Bool
is_zero (pos zero) = true
is_zero _ = false

abbrev pub is_positive : ℤ → Bool
is_positive (pos (suc n)) = true
is_positive _ = false

-- A message with no time gets the clock's.
abbrev pub stamped : ℤ → RfMessage → RfMessage
stamped now m = if is_zero m.at then record m { at = now } else m

module _ {L : Type 0} (ldb : LevelDb L) (codec : Codec RfMessage) where
  -- What `publish` is given comes last: the message, if it was stored.
  abbrev pub published : RfMessage → L × Option DbError → L × (Option DbError × Option RfMessage)
  published m (l, none) = (l, (none, some m))
  published m (l, some e) = (l, (some e, none))

  unfoldable pub put_rf_message : ℤ → L → RfMessage → L × (Option DbError × Option RfMessage)
  put_rf_message now l m =
      published (stamped now m)
        (put ldb codec l (gen_rf_key (stamped now m).at) (some (stamped now m)))

  abbrev pub and_published : Option RfMessage → L × List RfMessage → L × List RfMessage
  and_published none (l, out) = (l, out)
  and_published (some m) (l, out) = (l, m ∷ out)

  -- The goroutine of NewProcessor, over the messages that come in, each with the time of the clock.
  -- An error is logged. The messages that are published come last.
  unfoldable pub process_messages : L → List (ℤ × RfMessage) → L × List RfMessage
  process_messages l [] = (l, [])
  process_messages l ((now, m) ∷ ms) =
      let (l', result) = put_rf_message now l m in and_published result.1 (process_messages l' ms)

  -- The callback hands the message on and clears it.
  abbrev pub handled :
      {H E : Type 0}
      → (RfMessage → H → H × Option E)
      → List ℕ
      → RfMessage
      → H
      → (RfMessage × H) × Option E
  handled handle key m h = let (h', e) = handle m h in ((no_message, h'), e)

  unfoldable pub rf_iterate :
      {H E : Type 0} → ℤ → ℤ → (RfMessage → H → H × Option E) → L → H → H × Option (Option E)
  rf_iterate start end handle l h =
      iterate ldb codec (handled handle) l (gen_rf_key start)
        (gen_rf_key (if is_positive end then end else max_int64)) no_message h
