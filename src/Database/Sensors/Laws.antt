-- ===== src/Database/Sensors/Laws.antt =====
-- hub/database/sensor_subscribe.go and sensor_info.go: who gets a sensor's values, and descriptions
-- that are read back.
use widuino.Base.{ℕ, ◌<◌, List, [], ◌∷◌, ◌++◌, none, some, true, false}
use widuino.Base.{
  ◌≡◌, refl, sym, ap, ◌∙◌, inl, inr, arith, Bool-cases, Option-cases, ◌==◌, length, if◌then◌else◌,
}
use widuino.Base.Int.{ℤ, lebℤ}
use widuino.Base.Dict.{Dict, lookup, insert, bytes_key, lookup-insert_self}
use widuino.Base.Dict.{bytes_same, bytes_same_iff}
use widuino.Base.Decimal.Laws.{bytes_less}
use widuino.Gears.{SensorDataValue, SensorInfo}
use widuino.Database.{LevelDb, Codec, IsLevelDb, insert_sorted}
use widuino.Database.Store.{get, put}
use widuino.Database.Subscribers.{remove_from}
use widuino.Database.Subscribers.Laws.{publish_to-snoc}
use widuino.Database.Sensors.{
  SensorSubs, add_sensor_subscriber, remove_sensor_subscriber, sensor_publish,
}
use widuino.Database.Sensors.{
  value_at, no_info, put_sensor_info, get_sensor_info, gen_sensor_info_key,
}

-- With the arrays of a sensor of one length, adding a subscriber succeeds, and what is published next
-- for the sensor is sent where it would have been, and then to the new subscriber if it starts no
-- later than the value.
pub add_sensor_subscriber-sensor_publish :
    {F : Type 0} (name : List ℕ) (start : ℤ) (c : ℕ) (st : SensorSubs) (m : SensorDataValue F)
    (ds : List ℕ) (ss : List ℤ)
    → lookup name st.subs ≡ some ds
    → lookup name st.starts ≡ some ss
    → length ds ≡ length ss
    → (st' : SensorSubs) × (out : List (ℕ × SensorDataValue F)) × (add_sensor_subscriber name start
          c st
        ≡ some st')
      × (sensor_publish name m st ≡ some out)
      × (sensor_publish name m st' ≡ some (out ++ (if lebℤ start m.at then (c, m) ∷ [] else [])))
unfolding add_sensor_subscriber sensor_publish
add_sensor_subscriber-sensor_publish name start c st m ds ss hd hs e =
    let (out, before, after) = publish_to-snoc value_at m ds ss c start e in
    let same : length ds == length ss ≡ true = ground (arith, e) in
    (
      record {
        subs = insert name (ds ++ (c ∷ [])) st.subs;
        starts = insert name (ss ++ (start ∷ [])) st.starts;
      },
      out,
      rw (hd, hd, hs, same),
      rw (hd, hs) before,
      rw
          (
            lookup-insert_self name (ds ++ (c ∷ [])) st.subs,
            lookup-insert_self name (ss ++ (start ∷ [])) st.starts,
          )
          after,
    )

starts-nonempty :
    (name : List ℕ) (m : Dict (List ℕ) (List ℤ)) (ss : List ℤ)
    → lookup name m ≡ some ss
    → 0 < length m
unfolding lookup
starts-nonempty name [] ss e = cc
starts-nonempty name (x ∷ m) ss e = omega arith

-- When the only subscriber of a sensor unsubscribes, the hub stops with a fatal error: no channel is
-- left, and their number is compared with the number of sensors.
remove_sensor_subscriber-last :
    (name : List ℕ) (c : ℕ) (s : ℤ) (st : SensorSubs)
    → lookup name st.subs ≡ some (c ∷ [])
    → lookup name st.starts ≡ some (s ∷ [])
    → remove_sensor_subscriber name c st ≡ none
unfolding remove_sensor_subscriber remove_from
remove_sensor_subscriber-last name c s st hd hs =
    let own : c == c ≡ true = ground arith in
    let some_sensor : 0 == length st.starts ≡ false =
      ground (arith, starts-nonempty name st.starts (s ∷ []) hs) in
    rw (hd, hs, own, some_sensor)

lookup-insert_sorted :
    (k d : List ℕ) (m : Dict (List ℕ) (List ℕ)) → lookup k (insert_sorted k d m) ≡ some d
unfolding insert_sorted lookup
lookup-insert_sorted k d [] = rw ((bytes_same_iff k k).1 refl)
lookup-insert_sorted k d ((j, e) ∷ m) = elim (Bool-cases (bytes_same j k)) [
  | inl hit ↦ rw (hit, lookup, (bytes_same_iff k k).1 refl)
  | inr miss ↦ elim (Bool-cases (bytes_less k j)) [
    | inl before ↦ rw (miss, before, lookup, (bytes_same_iff k k).1 refl)
    | inr behind ↦ rw (miss, behind, lookup, miss) (lookup-insert_sorted k d m)
  ]
]

-- A description that is stored without error is read back, whatever the codec, if it decodes what it
-- encodes.
get_sensor_info-put_sensor_info :
    {L : Type 0} (ldb : LevelDb L) (codec : Codec SensorInfo) (entries : L → Dict (List ℕ) (List ℕ))
    (l l' : L) (name : List ℕ) (m : SensorInfo)
    → IsLevelDb ldb entries
    → ((x : SensorInfo) (d : List ℕ) → codec.encode x ≡ some d → codec.decode d no_info ≡ some x)
    → put_sensor_info ldb codec l name m ≡ (l', none)
    → get_sensor_info ldb codec l' name ≡ (m, none)
unfolding put_sensor_info get_sensor_info put get
get_sensor_info-put_sensor_info ldb codec entries l l' name m leveldb codes e =
    elim (Option-cases (codec.encode m)) [
      | inl bad ↦ cc (rw bad at e)
      | inr (d, coded) ↦ elim (Option-cases (ldb.put l (gen_sensor_info_key name) d)) [
        | inl failed ↦ cc (rw (coded, failed) at e)
        | inr (l2, written) ↦
            let done = (rw (coded, written) at e) in
            let here : l2 ≡ l' = ap (λ r. r.0) done in
            let held : entries l' ≡ insert_sorted (gen_sensor_info_key name) d (entries l) =
              ap entries (sym here) ∙ leveldb.put_entry l l2 (gen_sensor_info_key name) d written in
            rw (
              leveldb.get_entry l' (gen_sensor_info_key name),
              held,
              lookup-insert_sorted (gen_sensor_info_key name) d (entries l),
              codes m d coded,
            )
      ]
    ]
