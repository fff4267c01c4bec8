-- ===== src/Database/Sensors.antt =====
-- hub/database/sensor_data.go, sensor_subscribe.go and sensor_info.go: the values of sensors, their
-- subscribers and their descriptions. A sensor's name is a byte string, and a nil map entry that is
-- dereferenced is `none`, as a Fatalf is.
pub mod Laws
pub mod CatchUp
pub mod HandOver
mod Tests
use widuino.Base.{
  ℕ, zero, suc, ◌^◌, List, [], ◌∷◌, ◌++◌, Option, none, some, Bool, true, false, not, ◌==◌,
  if◌then◌else◌, length,
}
use widuino.Base.Int.{ℤ, pos}
use widuino.Base.Dict.{Dict, lookup, insert, bytes_key}
use widuino.Base.Decimal.{pad_int}
use widuino.Gears.{SensorDataValue, SensorInfo}
use widuino.Database.{LevelDb, Codec}
use widuino.Database.Failure.{DbError}
use widuino.Database.Store.{get, put, iterate}
use widuino.Database.Subscribers.{publish_to, Removal, remove_from}
use widuino.Database.Messages.{max_int64, is_zero, is_positive}
use mathlib.Core.Option

-- "sens/" and "sensinfo".
abbrev sensor_prefix : List ℕ
sensor_prefix = b's' ∷ b'e' ∷ b'n' ∷ b's' ∷ b'/' ∷ []

abbrev sens_info_prefix : List ℕ
sens_info_prefix = b's' ∷ b'e' ∷ b'n' ∷ b's' ∷ b'i' ∷ b'n' ∷ b'f' ∷ b'o' ∷ []

unfoldable pub gen_sensor_key : List ℕ → ℤ → List ℕ
gen_sensor_key name at = sensor_prefix ++ (name ++ (b'/' ∷ pad_int 13 at))

unfoldable pub gen_sensor_info_key : List ℕ → List ℕ
gen_sensor_info_key name = sens_info_prefix ++ (b'/' ∷ name)

-- The two maps, from names to arrays of channels and of starts.
pub record SensorSubs : Type 0 where
  pub subs : Dict (List ℕ) (List ℕ)
  pub starts : Dict (List ℕ) (List ℤ)

abbrev ensured : List ℕ → Option (List ℕ) → SensorSubs → SensorSubs
ensured name none st = record { subs = insert name [] st.subs; starts = insert name [] st.starts }
ensured name (some ds) st = st

abbrev appended :
    List ℕ → ℤ → ℕ → SensorSubs → Option (List ℕ) → Option (List ℤ) → Option SensorSubs
appended name start c st (some ds) (some ss) =
    if length ds == length ss
    then some (record {
      subs = insert name (ds ++ (c ∷ [])) st.subs;
      starts = insert name (ss ++ (start ∷ [])) st.starts;
    })
    else none
appended name start c st _ _ = none

unfoldable pub add_sensor_subscriber : List ℕ → ℤ → ℕ → SensorSubs → Option SensorSubs
add_sensor_subscriber name start c st =
    let st1 = ensured name (lookup name st.subs) st in
    appended name start c st1 (lookup name st1.subs) (lookup name st1.starts)

-- The sanity check compares with the number of sensors.
abbrev checked : List ℕ → SensorSubs → Option Removal → Option (SensorSubs × Bool)
checked name st none = none
checked name st (some ((ds, ss), found)) =
    if length ds == length st.starts
    then some (record { subs = insert name ds st.subs; starts = insert name ss st.starts }, found)
    else none

abbrev removed_from :
    List ℕ → ℕ → SensorSubs → Option (List ℕ) → Option (List ℤ) → Option (SensorSubs × Bool)
removed_from name c st none ss = some (st, false)
removed_from name c st (some ds) ss =
    checked name st (remove_from c false false ds (Option.get_or ss []))

unfoldable pub remove_sensor_subscriber : List ℕ → ℕ → SensorSubs → Option (SensorSubs × Bool)
remove_sensor_subscriber name c st =
    removed_from name c st (lookup name st.subs) (lookup name st.starts)

-- `names` are the keys of the map in the order in which `range` takes them.
abbrev until_found :
    (SensorSubs → Option SensorSubs) → Option (SensorSubs × Bool) → Option SensorSubs
until_found rest none = none
until_found rest (some (st, true)) = some st
until_found rest (some (st, false)) = rest st

unfoldable pub sensor_unsubscribe : List (List ℕ) → ℕ → SensorSubs → Option SensorSubs
sensor_unsubscribe [] c st = some st
sensor_unsubscribe (n ∷ names) c st =
    until_found (sensor_unsubscribe names c) (remove_sensor_subscriber n c st)

module _ {F : Type 0} where
  abbrev value_at : SensorDataValue F → ℤ
  value_at m = m.at

  abbrev publish_in :
      SensorDataValue F → Option (List ℕ) → Option (List ℤ) → Option (List (ℕ × SensorDataValue F))
  publish_in m none ss = none
  publish_in m (some ds) ss = publish_to value_at m ds (Option.get_or ss [])

  unfoldable pub sensor_publish :
      List ℕ → SensorDataValue F → SensorSubs → Option (List (ℕ × SensorDataValue F))
  sensor_publish name m st = publish_in m (lookup name st.subs) (lookup name st.starts)

  abbrev pub stamped_value : ℤ → SensorDataValue F → SensorDataValue F
  stamped_value now m = if is_zero m.at then record m { at = now } else m

  module _ {L : Type 0} (ldb : LevelDb L) (codec : Codec (SensorDataValue F)) where
    -- What is sent comes last: nothing after an error, and `none` is a panic.
    abbrev sent_after :
        List ℕ
        → SensorSubs
        → SensorDataValue F
        → L × Option DbError
        → L × (Option DbError × Option (List (ℕ × SensorDataValue F)))
    sent_after name st m (l, some e) = (l, (some e, some []))
    sent_after name st m (l, none) = (l, (none, sensor_publish name m st))

    unfoldable pub put_sensor_value :
        ℤ
        → List ℕ
        → SensorSubs
        → L
        → SensorDataValue F
        → L × (Option DbError × Option (List (ℕ × SensorDataValue F)))
    put_sensor_value now name st l m = sent_after name st (stamped_value now m) (
        put ldb codec l (gen_sensor_key name (stamped_value now m).at) (some (stamped_value now m)))

    -- The callback leaves the value as it is.
    abbrev handled_value :
        {H E : Type 0}
        → (SensorDataValue F → H → H × Option E)
        → List ℕ
        → SensorDataValue F
        → H
        → (SensorDataValue F × H) × Option E
    handled_value handle key m h = let (h', e) = handle m h in ((m, h'), e)

    unfoldable pub sensor_iterate :
        {H E : Type 0}
        → List ℕ
        → ℤ
        → ℤ
        → SensorDataValue F
        → (SensorDataValue F → H → H × Option E)
        → L
        → H
        → H × Option (Option E)
    sensor_iterate name start end zero_value handle l h =
        iterate ldb codec (handled_value handle) l (gen_sensor_key name start)
          (gen_sensor_key name (if is_positive end then end else max_int64)) zero_value h

abbrev pub no_info : SensorInfo
no_info = record { unit = []; rate = false }

module _ {L : Type 0} (ldb : LevelDb L) (codec : Codec SensorInfo) where
  unfoldable pub put_sensor_info : L → List ℕ → SensorInfo → L × Option DbError
  put_sensor_info l name m = put ldb codec l (gen_sensor_info_key name) (some m)

  unfoldable pub get_sensor_info : L → List ℕ → SensorInfo × Option DbError
  get_sensor_info l name = get ldb codec l (gen_sensor_info_key name) no_info
