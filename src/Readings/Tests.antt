-- ===== src/Readings/Tests.antt =====
-- The theorem on readings at a small packet.
use widuino.Base.{ℕ, List, [], ◌∷◌, ◌++◌, Option, none, some, ◌≡◌, refl, arith}
use widuino.Base.Int.{ℤ, pos}
use widuino.Base.Dict.{Dict, lookup, bytes_key}
use widuino.Stats.Tags.{tags}
use widuino.Readings.{
  int_key, Value, int, text, bytes, time, RfPacket, Message, packet, other, FlowLib, Nodes,
  read_info, read_modules, node_key,
}
use widuino.Readings.Temps.{warm}
use widuino.Readings.Pipeline.{
  Gadget, Dispatcher, IsDispatcher, PassesSketch, ow_temp_name, IsFlowLib, pipeline, samples,
  pipeline-samples,
}
use mathlib.Core.List.{Perm}
use mathlib.Core.List.Perm

-- float64 as the integers, a time as its milliseconds.
abbrev as_int : Option (Value ℤ ℤ) → ℤ
as_int (some (int n)) = n
as_int v = pos 0

abbrev as_bytes : Option (Value ℤ ℤ) → List ℕ
as_bytes (some (bytes b)) = b
as_bytes v = []

abbrev as_text : Option (Value ℤ ℤ) → List ℕ
as_text (some (text s)) = s
as_text v = []

abbrev as_time : Option (Value ℤ ℤ) → ℤ
as_time (some (time t)) = t
as_time v = pos 0

abbrev lib : FlowLib ℤ ℤ
lib = record {
  to_int = as_int;
  to_bytes = as_bytes;
  to_text = as_text;
  to_time = as_time;
  time_to_ms = λ t. t;
  float64 = λ n. n;
}

lib-IsFlowLib : IsFlowLib lib
lib-IsFlowLib = record { bytes_value = λ b. refl; text_value = λ s. refl }

-- Node 14 of group 212, at the desk; the temperatures 70, none and 68.
abbrev temps : RfPacket ℤ ℤ
temps = record {
  rf12 = none;
  group = some (int (pos 212));
  node = some (int (pos 14));
  raw = some (bytes (14 ∷ 4 ∷ 70 ∷ 0 ∷ 68 ∷ []));
  asof = some (time (pos 9000));
  location = none;
  sketch = none;
  module_id = none;
  payload = none;
  module_name = none;
  readings = none;
  rssi = none;
  decoder = none;
}

abbrev desk : List ℕ
desk = b'd' ∷ b'e' ∷ b's' ∷ b'k' ∷ []

abbrev node_name : List ℕ
node_name = b'R' ∷ b'F' ∷ b'g' ∷ b'2' ∷ b'1' ∷ b'2' ∷ b'i' ∷ b'1' ∷ b'4' ∷ []

abbrev temp_node : List ℕ
temp_node = b't' ∷ b'e' ∷ b'm' ∷ b'p' ∷ b'N' ∷ b'o' ∷ b'd' ∷ b'e' ∷ []

abbrev nodes : Nodes
nodes = record { node_map = (node_name, temp_node) ∷ []; locations = (node_name, desk) ∷ [] }

-- What NodeMap reads from "RFg212i14,tempNode,desk".
read_nodes :
    read_info
      ((node_name ++ (b',' ∷ (temp_node ++ (b',' ∷ desk)))) ∷ [])
      (record { node_map = []; locations = [] })
    ≡ some nodes
unfolding read_info widuino.Readings.split_commas widuino.Base.Dict.insert
read_nodes = refl

abbrev modules : Dict ℤ (List ℕ)
modules = (pos 4, ow_temp_name) ∷ []

-- What ModuleMap reads from "4,OwTemp".
read_module : read_modules ((b'4' ∷ b',' ∷ ow_temp_name) ∷ []) [] ≡ some modules
unfolding read_modules widuino.Readings.split_commas widuino.Base.Dict.insert
read_module = refl

at_desk : lookup (node_key lib temps) nodes.locations ≡ some desk
unfolding lookup widuino.Base.Decimal.decimal widuino.Base.Decimal.low_digits
    widuino.Base.Decimal.digit_count
at_desk = refl

of_sketch : lookup (node_key lib temps) nodes.node_map ≡ some temp_node
unfolding lookup widuino.Base.Decimal.decimal widuino.Base.Decimal.low_digits
    widuino.Base.Decimal.digit_count
of_sketch = refl

-- A dispatcher that lets a message pass if its field names no gadget.
abbrev through : Option (Gadget ℤ ℤ) → Message ℤ ℤ → Option (Message ℤ ℤ)
through none m = some m
through (some g) m = some (g m)

abbrev gadget_of :
    (List ℕ → Option (Gadget ℤ ℤ)) → List ℕ → Option (Value ℤ ℤ) → Option (Gadget ℤ ℤ)
gadget_of registered before (some (text name)) = registered (before ++ name)
gadget_of registered before v = none

abbrev leads_through : Dispatcher ℤ ℤ
leads_through registered before field other = some other
leads_through registered before field (packet p) =
    through (gadget_of registered before (field p)) (packet p)

leads_through-IsDispatcher : IsDispatcher leads_through
leads_through-IsDispatcher registered before field p name g named there = rw (named, there) refl

abbrev no_others : List ℕ → Option (Gadget ℤ ℤ)
no_others name = none

passes_temp_node : PassesSketch lib (λ d. d) leads_through no_others temp_node
passes_temp_node q e = rw e refl

-- ModuleMap calls module 4 "OwTemp".
of_module : lookup (lib.to_int (some (int (pos 4)))) modules ≡ some ow_temp_name
unfolding lookup
of_module = refl

pipeline-samples_example :
    (sent : List (List ℕ × ℤ)) × (pipeline lib
        (λ d. d)
        leads_through
        no_others
        nodes
        modules
        (pos 1)
        (packet temps)
      ≡ some sent)
    × Perm sent (tags (samples desk 9000 (warm lib 0 (70 ∷ 0 ∷ 68 ∷ []))))
pipeline-samples_example =
    pipeline-samples lib (λ d. d) leads_through no_others nodes modules (pos 1) temps
      (time (pos 9000)) desk temp_node 14 4 70 9000 (0 ∷ 68 ∷ []) lib-IsFlowLib
      leads_through-IsDispatcher passes_temp_node (λ d. Perm.refl d) at_desk of_sketch refl
      of_module (omega arith) refl refl refl
