-- ===== src/Readings/Pipeline.antt =====
-- The gadgets of Readings, connected as OLD/flow/wcc/setup.coffee connects them: NodeMap, a dispatcher
-- on the sketch, ModuleIdent, ModuleMap, a dispatcher on the module, which leads to OwTemp or to
-- another decoder, PutReadings and SplitReadings. The dispatchers are third-party: arguments here.
use widuino.Base.{ℕ, ◌≤◌, List, [], ◌∷◌, ◌++◌, map, Option, none, some}
use widuino.Base.{◌≡◌, refl, sym, ap, subst, ◌∙◌, arith, length, append_assoc, if◌then◌else◌}
use widuino.Base.Int.{ℤ, pos}
use widuino.Base.Dict.{Dict, lookup, bytes_key, bytes_same}
use widuino.Base.Decimal.{decimal}
use widuino.Stats.{itoa}
use widuino.Stats.Tags.{Sample, tags}
use widuino.Readings.{
  Value, int, text, bytes, RfPacket, Message, packet, FlowLib, Nodes, Routed, out, rej, node_key,
  map_node, identify_module, map_module, int_key, decode_ow_temp, temps_from,
}
use widuino.Readings.Put.{
  Reading, reading_prefix, as_of, sensor_tag, put_readings, split_tag, split_readings,
}
use widuino.Readings.Temps.{warm, temps_from-warm}
use mathlib.Core.List.{Perm}
use mathlib.Core.List.Perm

-- What the accessors of the flow library are documented to return for a value of their type.
pub record IsFlowLib {F T : Type 0} (lib : FlowLib F T) : Type 0 where
  pub bytes_value : (b : List ℕ) → lib.to_bytes (some (bytes b)) ≡ b
  pub text_value : (s : List ℕ) → lib.to_text (some (text s)) ≡ s

-- A round of a gadget with one input and one output.
abbrev pub Gadget : Type 0 → Type 0 → Type 0
Gadget F T = Message F T → Message F T

-- "Sketch-", "Module-" and "OwTemp".
abbrev pub sketch_prefix : List ℕ
sketch_prefix = b'S' ∷ b'k' ∷ b'e' ∷ b't' ∷ b'c' ∷ b'h' ∷ b'-' ∷ []

abbrev pub module_prefix : List ℕ
module_prefix = b'M' ∷ b'o' ∷ b'd' ∷ b'u' ∷ b'l' ∷ b'e' ∷ b'-' ∷ []

abbrev pub ow_temp_name : List ℕ
ow_temp_name = b'O' ∷ b'w' ∷ b'T' ∷ b'e' ∷ b'm' ∷ b'p' ∷ []

-- PacketMapDispatcher of the flow library, over the registry of gadgets: its feed Prefix, its feed
-- Field as the entry of a packet, and what a message comes to on Out, `none` for nothing.
abbrev pub Dispatcher : Type 0 → Type 0 → Type 0
Dispatcher F T =
    (List ℕ → Option (Gadget F T))
    → List ℕ
    → (RfPacket F T → Option (Value F T))
    → Message F T
    → Option (Message F T)

-- What the dispatcher is there for: a packet whose field names a registered gadget, behind the prefix,
-- goes through this gadget.
abbrev pub IsDispatcher : {F T : Type 0} → Dispatcher F T → Type 0
IsDispatcher {F} {T} dispatch =
    (registry : List ℕ → Option (Gadget F T)) (before : List ℕ)
    (field : RfPacket F T → Option (Value F T)) (p : RfPacket F T) (name : List ℕ) (g : Gadget F T)
    → field p ≡ some (text name)
    → registry (before ++ name) ≡ some g
    → dispatch registry before field (packet p) ≡ some (g (packet p))

abbrev pub sketch_of : {F T : Type 0} → RfPacket F T → Option (Value F T)
sketch_of p = p.sketch

abbrev pub module_of : {F T : Type 0} → RfPacket F T → Option (Value F T)
module_of p = p.module_name

module _ {F T : Type 0} (lib : FlowLib F T) (range : Dict (List ℕ) F → List (List ℕ × F))
    (dispatch : Dispatcher F T) (others : List ℕ → Option (Gadget F T)) where
  -- The registry: OwTemp beside the gadgets of other files and of the library.
  abbrev pub registry : List ℕ → Option (Gadget F T)
  registry name =
      if bytes_same name (module_prefix ++ ow_temp_name)
      then some (decode_ow_temp lib)
      else others name

  abbrev pub after_put : Option (Option (Reading F)) → Option (List (List ℕ × F))
  after_put none = none
  after_put (some none) = some []
  after_put (some (some r)) = some (split_readings range r)

  abbrev pub after_decoder : T → Option (Message F T) → Option (List (List ℕ × F))
  after_decoder now none = some []
  after_decoder now (some m) = after_put (put_readings lib now m)

  abbrev pub after_ident : Dict ℤ (List ℕ) → T → Option (Message F T) → Option (List (List ℕ × F))
  after_ident modules now none = none
  after_ident modules now (some m) =
      after_decoder now (dispatch registry module_prefix module_of (map_module lib modules m))

  abbrev pub after_sketch : Dict ℤ (List ℕ) → T → Option (Message F T) → Option (List (List ℕ × F))
  after_sketch modules now none = some []
  after_sketch modules now (some m) = after_ident modules now (identify_module lib m)

  abbrev pub after_node : Dict ℤ (List ℕ) → T → Routed F T → Option (List (List ℕ × F))
  after_node modules now (rej m) = some []
  after_node modules now (out m) =
      after_sketch modules now (dispatch registry sketch_prefix sketch_of m)

  -- The tags that a packet comes to; `none` is a panic.
  unfoldable pub pipeline : Nodes → Dict ℤ (List ℕ) → T → Message F T → Option (List (List ℕ × F))
  pipeline nodes modules now m = after_node modules now (map_node lib nodes m)

  -- What has a sketch goes through the first dispatcher as it is.
  abbrev pub PassesSketch : List ℕ → Type 0
  PassesSketch sketch =
      (q : RfPacket F T)
      → q.sketch ≡ some (text sketch)
      → dispatch registry sketch_prefix sketch_of (packet q) ≡ some (packet q)

-- "sensor/<location>/<name>" at a time.
abbrev pub samples : {F : Type 0} → List ℕ → ℕ → List (List ℕ × F) → List (Sample F)
samples loc ms [] = []
samples loc ms ((k, v) ∷ xs) =
    record { name = sensor_tag ++ (loc ++ (b'/' ∷ k)); ms = ms; val = v } ∷ samples loc ms xs

tags-samples :
    {F : Type 0} (r : Reading F) (ms : ℕ) (xs : List (List ℕ × F))
    → r.ms ≡ pos ms
    → map (split_tag r) xs ≡ tags (samples r.loc ms xs)
tags-samples r ms [] e = refl
tags-samples r ms ((k, v) ∷ xs) e =
    let name : sensor_tag ++ (r.loc ++ (b'/' ∷ (k ++ (b'/' ∷ itoa r.ms))))
        ≡ (sensor_tag ++ (r.loc ++ (b'/' ∷ k))) ++ (b'/' ∷ decimal ms) =
      rw e (ap (λ s. sensor_tag ++ s) (sym (append_assoc r.loc (b'/' ∷ k) (b'/' ∷ decimal ms)))) in
    let rest = tags-samples r ms xs e in
    ap (λ s. (s, v) ∷ map (split_tag r) xs) name
    ∙ ap (◌∷◌ ((sensor_tag ++ (r.loc ++ (b'/' ∷ k))) ++ (b'/' ∷ decimal ms), v)) rest

module _ {F T : Type 0} (lib : FlowLib F T) (range : Dict (List ℕ) F → List (List ℕ × F))
    (dispatch : Dispatcher F T) (others : List ℕ → Option (Gadget F T)) where
  -- The packet behind ModuleMap goes to OwTemp, and its readings to PutReadings and SplitReadings.
  to_ow_temp :
      (modules : Dict ℤ (List ℕ)) (now : T) (q : RfPacket F T)
      → IsDispatcher dispatch
      → lookup (lib.to_int q.module_id) modules ≡ some ow_temp_name
      → after_decoder lib range dispatch others now (
          dispatch
            (registry lib range dispatch others)
            module_prefix
            module_of
            (map_module lib modules (packet q)))
        ≡ after_put lib range dispatch others (
            put_readings lib now
              (decode_ow_temp lib (packet (record q { module_name = some (text ow_temp_name) }))))
  unfolding map_module
  to_ow_temp modules now q leads is_temp =
      let q' : RfPacket F T = record q { module_name = some (text ow_temp_name) } in
      let there =
        leads (registry lib range dispatch others) module_prefix module_of q' ow_temp_name
          (decode_ow_temp lib) refl refl in
      rw is_temp (ap (after_decoder lib range dispatch others now) there)

  -- A packet of 1 to 66 temperatures that has a time, 1970 or later, and no signal strength, from a
  -- node whose location and sketch are known, and of a module that the map calls "OwTemp": if the
  -- dispatchers lead a packet to the gadget that it names, and the first one lets packets of this
  -- sketch pass, it comes without a panic to a tag for each temperature that is not zero, and to no
  -- other. The tag's name has the location, the place in the packet and the packet's time in it. This
  -- is so for every order in which Go runs through the map of readings, and only the order of the tags
  -- depends on it.
  pub pipeline-samples :
      (nodes : Nodes) (modules : Dict ℤ (List ℕ)) (now : T) (p : RfPacket F T) (at' : Value F T)
      (loc sketch : List ℕ) (header id t ms : ℕ) (ts : List ℕ)
      → IsFlowLib lib
      → IsDispatcher dispatch
      → PassesSketch lib range dispatch others sketch
      → ((d : Dict (List ℕ) F) → Perm (range d) d)
      → lookup (node_key lib p) nodes.locations ≡ some loc
      → lookup (node_key lib p) nodes.node_map ≡ some sketch
      → lib.to_bytes p.raw ≡ header ∷ id ∷ t ∷ ts
      → lookup (lib.to_int (some (int (pos id)))) modules ≡ some ow_temp_name
      → length ts ≤ 65
      → p.rssi ≡ none
      → p.asof ≡ some at'
      → lib.time_to_ms (lib.to_time (some at')) ≡ pos ms
      → (sent : List (List ℕ × F)) × (pipeline lib range dispatch others nodes modules now
            (packet p)
          ≡ some sent)
        × Perm sent (tags (samples loc ms (warm lib 0 (t ∷ ts))))
  unfolding pipeline map_node identify_module decode_ow_temp put_readings split_readings
  pipeline-samples nodes modules now p at' loc sketch header id t ms ts laws leads passes any_order
        there known raw is_temp fits no_rssi timed clock =
      let r : Reading F = record {
        tag = reading_prefix ++ lib.to_text p.rf12;
        ms = lib.time_to_ms (as_of lib now p.asof);
        val = temps_from lib 0 (t ∷ ts) [];
        loc = lib.to_text (some (text loc));
        typ = lib.to_text p.decoder;
        id = lib.to_text p.rf12;
      } in
      let at_ms : r.ms ≡ pos ms = rw timed clock in
      let placed : RfPacket F T = record p {
        location = some (text loc);
        sketch = some (text sketch);
      } in
      let numbered : RfPacket F T = record placed {
        module_id = some (int (pos id));
        payload = some (bytes (t ∷ ts));
      } in
      let run : pipeline lib range dispatch others nodes modules now (packet p)
          ≡ some (split_readings range r) =
        rw (there, known, passes placed refl, raw)
          (to_ow_temp modules now numbered leads is_temp
            ∙ rw (laws.bytes_value (t ∷ ts), no_rssi) refl) in
      let all : map (split_tag r) r.val ≡ tags (samples loc ms (warm lib 0 (t ∷ ts))) =
        tags-samples r ms r.val at_ms
        ∙ ap (λ l. tags (samples l ms r.val)) (laws.text_value loc)
        ∙ ap (λ d. tags (samples loc ms d)) (temps_from-warm lib (t ∷ ts) (omega (arith, fits))) in
      (
        split_readings range r,
        run,
        subst (λ l. Perm (map (split_tag r) (range r.val)) l) all
            (Perm.map (split_tag r) (any_order r.val)),
      )
