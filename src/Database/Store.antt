-- ===== src/Database/Store.antt =====
-- hub/database/store.go: Get, Put and Iterate.
use widuino.Base.{ℕ, List, [], ◌∷◌, ◌++◌, Option, none, some}
use widuino.Database.Failure.{DbError, not_found, get_failed, bad_data, bad_value, put_failed}
use widuino.Database.{LevelDb, Codec, Fetched, found, absent, broken}

-- The limit of a range with no end.
abbrev pub limit_of : List ℕ → List ℕ → List ℕ
limit_of from [] = from ++ (255 ∷ [])
limit_of from (c ∷ to) = c ∷ to

module _ {L V : Type 0} (ldb : LevelDb L) (codec : Codec V) where
  -- The value decoded into `value`, or why there is none.
  abbrev pub decoded : V → Option V → V × Option DbError
  decoded value none = (value, some bad_data)
  decoded value (some v) = (v, none)

  abbrev pub get_fetched : V → Fetched → V × Option DbError
  get_fetched value absent = (value, some not_found)
  get_fetched value broken = (value, some get_failed)
  get_fetched value (found d) = decoded value (codec.decode d value)

  unfoldable pub get : L → List ℕ → V → V × Option DbError
  get l key value = get_fetched value (ldb.get l key)

  abbrev pub put_written : L → Option L → L × Option DbError
  put_written l none = (l, some put_failed)
  put_written l (some l') = (l', none)

  abbrev pub put_encoded : L → List ℕ → Option (List ℕ) → L × Option DbError
  put_encoded l key none = (l, some bad_value)
  put_encoded l key (some d) = put_written l (ldb.put l key d)

  -- Putting nil deletes.
  unfoldable pub put : L → List ℕ → Option V → L × Option DbError
  put l key none = (ldb.delete l key, none)
  put l key (some value) = put_encoded l key (codec.encode value)

  module _ {H E : Type 0} (fun : List ℕ → V → H → (V × H) × Option E) where
    -- How an iteration ends: the callback's state, and the error that stopped it, the decoder's
    -- (`none`) or the callback's.
    abbrev pub Ended : Type 0
    Ended = H × Option (Option E)

    abbrev pub called : (V → H → Ended) → (V × H) × Option E → Ended
    called next ((value, h), none) = next value h
    called next ((value, h), some e) = (h, some (some e))

    abbrev pub visited : List ℕ → H → (V → H → Ended) → Option V → Ended
    visited key h next none = (h, some none)
    visited key h next (some value) = called next (fun key value h)

    abbrev pub iterate_entries : List (List ℕ × List ℕ) → V → H → Ended
    iterate_entries [] value h = (h, none)
    iterate_entries ((key, d) ∷ es) value h =
        visited key h (iterate_entries es) (codec.decode d value)

    unfoldable pub iterate : L → List ℕ → List ℕ → V → H → Ended
    iterate l from to value h = iterate_entries (ldb.range l from (limit_of from to)) value h
