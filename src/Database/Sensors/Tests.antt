-- ===== src/Database/Sensors/Tests.antt =====
-- The theorems on sensors at a small store.
use widuino.Base.{ℕ, List, [], ◌∷◌, Option, none, some, true, ◌≡◌, refl}
use widuino.Base.Int.{pos}
use widuino.Base.Dict.{bytes_key}
use widuino.Gears.{SensorDataValue}
use widuino.Database.{Codec}
use widuino.Database.Messages.CatchUp.{Round}
use widuino.Database.Sensors.{SensorSubs}
use widuino.Database.Tests.{Table, table_db}
use widuino.Database.{in_range}
use widuino.Base.Decimal.{pad_int, low_digits, digit_count}
use widuino.Database.Store.{iterate}
use widuino.Database.Subscribers.{CatchUp, caught}
use widuino.Database.Sensors.{sensor_iterate, gen_sensor_key}
use widuino.Database.Sensors.CatchUp.{sensor_catch_up, sensor_do_catch_up}

abbrev one_sensor : SensorSubs
one_sensor = record { subs = (b't' ∷ [], 1 ∷ []) ∷ []; starts = (b't' ∷ [], pos 5 ∷ []) ∷ [] }

abbrev reading : SensorDataValue ℕ
reading = record { at = pos 9; value = 20 }

abbrev of_value_fields : List ℕ → SensorDataValue ℕ → Option (SensorDataValue ℕ)
of_value_fields (at ∷ value ∷ []) v = some (record { at = pos at; value = value })
of_value_fields _ v = none

abbrev value_codec : Codec (SensorDataValue ℕ)
value_codec = record { encode = λ m. none; decode = of_value_fields }

-- A store with one value of the sensor, at time 8.
abbrev round : Round Table
round = record { store = (gen_sensor_key (b't' ∷ []) (pos 8), 8 ∷ 21 ∷ []) ∷ []; fits = λ n. true }

one_caught :
    sensor_catch_up table_db value_codec (b't' ∷ []) reading (round ∷ []) (pos 5)
    ≡ some (record { at = pos 8; value = 21 } ∷ [], pos 9)
unfolding sensor_catch_up sensor_do_catch_up sensor_iterate iterate gen_sensor_key caught in_range
    pad_int low_digits digit_count
one_caught = refl
