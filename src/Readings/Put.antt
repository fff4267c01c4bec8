-- ===== src/Readings/Put.antt =====
-- OLD/flow/gadgets/nodes.go, PutReadings and SplitReadings: readings as tags for the database.
use widuino.Base.{ℕ, List, [], ◌∷◌, ◌++◌, map, Option, none, some}
use widuino.Base.Int.{ℤ}
use widuino.Base.Dict.{Dict, insert, bytes_key}
use widuino.Stats.{itoa}
use widuino.Readings.{Value, int, floats, RfPacket, Message, packet, other, FlowLib}

-- The message of PutReadings: the tag's name and the map in it.
pub record Reading (F : Type 0) : Type 0 where
  pub tag : List ℕ
  pub ms : ℤ
  pub val : Dict (List ℕ) F
  pub loc : List ℕ
  pub typ : List ℕ
  pub id : List ℕ

-- "/reading/".
abbrev pub reading_prefix : List ℕ
reading_prefix = b'/' ∷ b'r' ∷ b'e' ∷ b'a' ∷ b'd' ∷ b'i' ∷ b'n' ∷ b'g' ∷ b'/' ∷ []

module _ {F T : Type 0} (lib : FlowLib F T) where
  -- The values with the signal's strength; `none` is a panic of a type assertion.
  abbrev pub with_rssi : Dict (List ℕ) F → Option (Value F T) → Option (Dict (List ℕ) F)
  with_rssi values none = some values
  with_rssi values (some (int n)) =
      some (insert (b'r' ∷ b's' ∷ b's' ∷ b'i' ∷ []) (lib.float64 n) values)
  with_rssi values (some v) = none

  abbrev pub as_of : T → Option (Value F T) → T
  as_of now none = now
  as_of now (some v) = lib.to_time (some v)

  abbrev pub reading : T → RfPacket F T → Option (Dict (List ℕ) F) → Option (Option (Reading F))
  reading now p none = none
  reading now p (some values) = some (
      some (record {
        tag = reading_prefix ++ lib.to_text p.rf12;
        ms = lib.time_to_ms (as_of now p.asof);
        val = values;
        loc = lib.to_text p.location;
        typ = lib.to_text p.decoder;
        id = lib.to_text p.rf12;
      }))

  abbrev pub of_readings : T → RfPacket F T → Option (Value F T) → Option (Option (Reading F))
  of_readings now p none = some none
  of_readings now p (some (floats values)) = reading now p (with_rssi values p.rssi)
  of_readings now p (some v) = none

  -- One round of PutReadings: the outer `none` is a panic, and the inner one a message that is dropped.
  unfoldable pub put_readings : T → Message F T → Option (Option (Reading F))
  put_readings now other = some none
  put_readings now (packet p) = of_readings now p p.readings

-- "sensor/".
abbrev pub sensor_tag : List ℕ
sensor_tag = b's' ∷ b'e' ∷ b'n' ∷ b's' ∷ b'o' ∷ b'r' ∷ b'/' ∷ []

-- "sensor/%s/%s/%d" with the value.
abbrev pub split_tag : {F : Type 0} → Reading F → List ℕ × F → List ℕ × F
split_tag r (k, v) = (sensor_tag ++ (r.loc ++ (b'/' ∷ (k ++ (b'/' ∷ itoa r.ms)))), v)

-- One round of SplitReadings; `range` is the order in which Go runs through the map.
unfoldable pub split_readings :
    {F : Type 0} → (Dict (List ℕ) F → List (List ℕ × F)) → Reading F → List (List ℕ × F)
split_readings range r = map (split_tag r) (range r.val)
