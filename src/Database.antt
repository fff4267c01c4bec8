-- ===== src/Database.antt =====
-- hub/database: the message store over LevelDB and msgpack, which are third-party: interfaces here,
-- with what the hub relies on. Keys and stored data are byte strings.
pub mod Failure
pub mod Store
pub mod Messages
pub mod Subscribers
pub mod Sensors
pub mod Tests
use widuino.Base.{ℕ, List, [], ◌∷◌, Option, none, some, Bool, ◌&&◌, not, if◌then◌else◌, ◌≡◌}
use widuino.Base.Dict.{Dict, lookup, bytes_same, bytes_key}
use widuino.Base.Decimal.Laws.{bytes_less}

pub data Fetched : Type 0 where
  found : List ℕ → Fetched
  absent broken : Fetched

-- leveldb.DB: `put` is `none` when it returns an error; `range` has the entries that an iterator
-- over the range runs through, from its start on and up to, but without, its limit.
pub record LevelDb (L : Type 0) : Type 0 where
  pub get : L → List ℕ → Fetched
  pub put : L → List ℕ → List ℕ → Option L
  pub delete : L → List ℕ → L
  pub range : L → List ℕ → List ℕ → List (List ℕ × List ℕ)

-- Msgpack for one type of value: `decode` fills a value that is there already, and both are `none`
-- on an error.
pub record Codec (V : Type 0) : Type 0 where
  pub encode : V → Option (List ℕ)
  pub decode : List ℕ → V → Option V

-- ===== What LevelDB documents =====

-- Entries in the byte order of their keys, one for a key.
unfoldable pub insert_sorted : List ℕ → List ℕ → Dict (List ℕ) (List ℕ) → Dict (List ℕ) (List ℕ)
insert_sorted k d [] = (k, d) ∷ []
insert_sorted k d ((j, e) ∷ m) =
    let rest = insert_sorted k d m in
    if bytes_same j k
    then (k, d) ∷ m
    else if bytes_less k j
    then (k, d) ∷ (j, e) ∷ m
    else (j, e) ∷ rest

unfoldable pub in_range : List ℕ → List ℕ → Dict (List ℕ) (List ℕ) → Dict (List ℕ) (List ℕ)
in_range from limit [] = []
in_range from limit ((k, d) ∷ m) =
    let rest = in_range from limit m in
    if not (bytes_less k from) && bytes_less k limit then (k, d) ∷ rest else rest

abbrev pub as_fetched : Option (List ℕ) → Fetched
as_fetched none = absent
as_fetched (some d) = found d

-- A database holds a sorted map of its keys.
pub record IsLevelDb {L : Type 0} (ldb : LevelDb L) (entries : L → Dict (List ℕ) (List ℕ))
    : Type 0 where
  pub get_entry : (l : L) (k : List ℕ) → ldb.get l k ≡ as_fetched (lookup k (entries l))
  pub put_entry :
      (l l' : L) (k d : List ℕ)
      → ldb.put l k d ≡ some l'
      → entries l' ≡ insert_sorted k d (entries l)
  pub range_entries :
      (l : L) (from limit : List ℕ) → ldb.range l from limit ≡ in_range from limit (entries l)
