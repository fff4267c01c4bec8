-- ===== src/Readings.antt =====
-- OLD/flow/gadgets/nodes.go, modules.go and decoders/owTemp.go: the gadgets that turn packets of the
-- older gateway into readings. A map of a packet has a field for each of its keys, which is `none`
-- where the key is missing; the accessors of such a map in the flow library are arguments.
pub mod Put
pub mod Temps
pub mod Pipeline
mod Tests
use widuino.Base.{
  ℕ, zero, suc, ◌+◌, ◌-◌, ◌^◌, min, List, [], ◌∷◌, ◌++◌, map, Option, none, some, Bool, true, false,
}
use widuino.Base.{◌≡◌, ap, ◌↔◌, ◌==◌, ==_iff, ltb, if◌then◌else◌, length}
use widuino.Base.Int.{ℤ, pos, negsuc}
use widuino.Base.Dict.{Dict, lookup, insert, bytes_key, Key}
use widuino.Base.Decimal.{number, signed}
use widuino.Stats.{itoa, same_slot}

-- The values in a map: F is float64 and T a point in time.
pub data Value (F T : Type 0) : Type 0 where
  int : ℤ → Value F T
  text bytes : List ℕ → Value F T
  floats : Dict (List ℕ) F → Value F T
  time : T → Value F T

-- flow.PacketMap, under its keys: `module_id` is "module" and `payload` is "data".
pub record RfPacket (F T : Type 0) : Type 0 where
  pub rf12 : Option (Value F T)
  pub group : Option (Value F T)
  pub node : Option (Value F T)
  pub raw : Option (Value F T)
  pub asof : Option (Value F T)
  pub location : Option (Value F T)
  pub sketch : Option (Value F T)
  pub module_id : Option (Value F T)
  pub payload : Option (Value F T)
  pub module_name : Option (Value F T)
  pub readings : Option (Value F T)
  pub rssi : Option (Value F T)
  pub decoder : Option (Value F T)

-- A message on an input: a map, or anything else.
pub data Message (F T : Type 0) : Type 0 where
  packet : RfPacket F T → Message F T
  other : Message F T

-- What the flow library and Go's time package do: Int, Bytes, String and Time of a PacketMap, the time
-- in milliseconds, and float64 of an integer.
pub record FlowLib (F T : Type 0) : Type 0 where
  pub to_int : Option (Value F T) → ℤ
  pub to_bytes : Option (Value F T) → List ℕ
  pub to_text : Option (Value F T) → List ℕ
  pub to_time : Option (Value F T) → T
  pub time_to_ms : T → ℤ
  pub float64 : ℤ → F

-- strings.Split at commas.
abbrev pub and_char : ℕ → List (List ℕ) → List (List ℕ)
and_char c [] = (c ∷ []) ∷ []
and_char c (f ∷ fs) = if c == b',' then [] ∷ f ∷ fs else (c ∷ f) ∷ fs

unfoldable pub split_commas : List ℕ → List (List ℕ)
split_commas [] = [] ∷ []
split_commas (c ∷ s) = and_char c (split_commas s)

-- strconv.Atoi with its error left aside: 0 where there is no number, and the int64 that is nearest where
-- the number is out of range.
abbrev pub within : Bool → Option ℕ → ℤ
within negative none = pos 0
within negative (some n) = signed (negative, min n (if negative then 2 ^ 63 else 2 ^ 63 - 1))

abbrev pub atoi_id : List ℕ → ℤ
atoi_id [] = pos 0
atoi_id (c ∷ s) =
    if c == b'-'
    then within true (number s)
    else if c == b'+'
    then within false (number s)
    else within false (number (c ∷ s))

pub same_slot_iff : (a b : ℤ) → (same_slot a b ≡ true) ↔ (a ≡ b)
same_slot_iff (pos a) (pos b) = (λ e. ap pos ((==_iff a b).0 e), λ e. (==_iff a b).1 cc)
same_slot_iff (pos a) (negsuc b) = (λ e. absurd (cc e), λ e. absurd (cc e))
same_slot_iff (negsuc a) (pos b) = (λ e. absurd (cc e), λ e. absurd (cc e))
same_slot_iff (negsuc a) (negsuc b) = (λ e. ap negsuc ((==_iff a b).0 e), λ e. (==_iff a b).1 cc)

instance abbrev pub int_key : Key ℤ
int_key = record { same = same_slot; same_iff = same_slot_iff }

-- ===== NodeMap =====

-- The sketch and the location of a node, by its name.
pub record Nodes : Type 0 where
  pub node_map : Dict (List ℕ) (List ℕ)
  pub locations : Dict (List ℕ) (List ℕ)

-- One string of Info; `none` is a panic.
abbrev pub add_node : List (List ℕ) → Nodes → Option Nodes
add_node (name ∷ sketch ∷ []) nodes =
    some (record nodes { node_map = insert name sketch nodes.node_map })
add_node (name ∷ sketch ∷ loc ∷ more) nodes = some (record {
  node_map = insert name sketch nodes.node_map;
  locations = insert name loc nodes.locations;
})
add_node fields nodes = none

abbrev pub and_nodes : (Nodes → Option Nodes) → Option Nodes → Option Nodes
and_nodes more none = none
and_nodes more (some nodes) = more nodes

unfoldable pub read_info : List (List ℕ) → Nodes → Option Nodes
read_info [] nodes = some nodes
read_info (s ∷ info) nodes = and_nodes (read_info info) (add_node (split_commas s) nodes)

-- The modules by their numbers, from the strings "id,name" of ModuleMap's Info; `none` is a panic.
abbrev pub add_module : List (List ℕ) → Dict ℤ (List ℕ) → Option (Dict ℤ (List ℕ))
add_module (id ∷ name ∷ more) modules = some (insert (atoi_id id) name modules)
add_module fields modules = none

abbrev pub and_modules :
    (Dict ℤ (List ℕ) → Option (Dict ℤ (List ℕ)))
    → Option (Dict ℤ (List ℕ))
    → Option (Dict ℤ (List ℕ))
and_modules more none = none
and_modules more (some modules) = more modules

unfoldable pub read_modules : List (List ℕ) → Dict ℤ (List ℕ) → Option (Dict ℤ (List ℕ))
read_modules [] modules = some modules
read_modules (s ∷ info) modules =
    and_modules (read_modules info) (add_module (split_commas s) modules)

-- "temp" and the place in the data.
abbrev pub temp_name : ℕ → List ℕ
temp_name i = b't' ∷ b'e' ∷ b'm' ∷ b'p' ∷ itoa (pos i)

-- A message on one of the two outputs.
pub data Routed (F T : Type 0) : Type 0 where
  out rej : Message F T → Routed F T

module _ {F T : Type 0} (lib : FlowLib F T) where
  -- "RFg%di%d".
  abbrev pub node_key : RfPacket F T → List ℕ
  node_key p = b'R' ∷ b'F' ∷ b'g' ∷ (itoa (lib.to_int p.group) ++ (b'i' ∷ itoa (lib.to_int p.node)))

  abbrev pub with_location : RfPacket F T → Option (List ℕ) → RfPacket F T
  with_location p none = p
  with_location p (some loc) = record p { location = some (text loc) }

  abbrev pub with_sketch : RfPacket F T → Option (List ℕ) → Routed F T
  with_sketch p none = rej (packet p)
  with_sketch p (some sketch) = out (packet (record p { sketch = some (text sketch) }))

  unfoldable pub map_node : Nodes → Message F T → Routed F T
  map_node nodes other = rej other
  map_node nodes (packet p) =
      let key = node_key p in
      with_sketch (with_location p (lookup key nodes.locations)) (lookup key nodes.node_map)

  -- ===== ModuleIdent and ModuleMap =====

  abbrev pub identified : RfPacket F T → List ℕ → Option (Message F T)
  identified p (header ∷ id ∷ data') =
      some (packet (record p { module_id = some (int (pos id)); payload = some (bytes data') }))
  identified p raw = none

  -- `none` is a panic, on a packet of less than two bytes.
  unfoldable pub identify_module : Message F T → Option (Message F T)
  identify_module other = some other
  identify_module (packet p) = identified p (lib.to_bytes p.raw)

  abbrev pub named : RfPacket F T → Option (List ℕ) → Message F T
  named p none = packet p
  named p (some name) = packet (record p { module_name = some (text name) })

  unfoldable pub map_module : Dict ℤ (List ℕ) → Message F T → Message F T
  map_module modules other = other
  map_module modules (packet p) = named p (lookup (lib.to_int p.module_id) modules)

  -- ===== Module-OwTemp =====

  -- A reading for each byte that is not zero.
  abbrev pub add_temp : ℕ → ℕ → Dict (List ℕ) F → Dict (List ℕ) F
  add_temp i t readings =
      if ltb 0 t then insert (temp_name i) (lib.float64 (pos t)) readings else readings

  unfoldable pub temps_from : ℕ → List ℕ → Dict (List ℕ) F → Dict (List ℕ) F
  temps_from i [] readings = readings
  temps_from i (t ∷ ts) readings = temps_from (suc i) ts (add_temp i t readings)

  abbrev pub decoded_temps : RfPacket F T → List ℕ → Message F T
  decoded_temps p [] = packet p
  decoded_temps p (t ∷ ts) =
      packet (record p { readings = some (floats (temps_from 0 (t ∷ ts) [])) })

  unfoldable pub decode_ow_temp : Message F T → Message F T
  decode_ow_temp other = other
  decode_ow_temp (packet p) = decoded_temps p (lib.to_bytes p.payload)
