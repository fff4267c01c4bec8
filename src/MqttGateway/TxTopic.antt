-- ===== src/MqttGateway/TxTopic.antt =====
-- udp-gw/udpgw.go, `txTopicRE`: which topics match the regular expression, and their parts.
use widuino.Base.{ℕ, List, [], ◌∷◌, Option, none, some}
use widuino.Base.{not, ◌&&◌, ◌==◌, leb, if◌then◌else◌}
use widuino.Base.Dict.{nat_key}

-- The parts of a topic that match `^/rf/(\d+)/(\d+)/(t.)$`.
pub record Submatch : Type 0 where
  pub group : List ℕ
  pub node : List ℕ
  pub kind : List ℕ

abbrev pub digits_before : List ℕ → List ℕ × List ℕ
digits_before [] = ([], [])
digits_before (c ∷ s) =
    let (d, rest) = digits_before s in
    if leb b'0' c && leb c b'9' then (c ∷ d, rest) else ([], c ∷ s)

-- `\d+/`, and what follows.
abbrev pub with_slash : List ℕ × List ℕ → Option (List ℕ × List ℕ)
with_slash (c ∷ d, x ∷ rest) = if x == b'/' then some (c ∷ d, rest) else none
with_slash _ = none

-- `t.$`, where the dot takes anything but a newline.
abbrev pub last_part : List ℕ → List ℕ → List ℕ → Option Submatch
last_part group node (t ∷ c ∷ []) =
    if t == b't' && not (c == 10)
    then some (record { group = group; node = node; kind = t ∷ c ∷ [] })
    else none
last_part group node _ = none

abbrev pub node_part : List ℕ → Option (List ℕ × List ℕ) → Option Submatch
node_part group none = none
node_part group (some (node, rest)) = last_part group node rest

abbrev pub group_part : Option (List ℕ × List ℕ) → Option Submatch
group_part none = none
group_part (some (group, rest)) = node_part group (with_slash (digits_before rest))

unfoldable pub find_string_submatch : List ℕ → Option Submatch
find_string_submatch (a ∷ r ∷ f ∷ b ∷ rest) =
    if a == b'/' && (r == b'r' && (f == b'f' && b == b'/'))
    then group_part (with_slash (digits_before rest))
    else none
find_string_submatch _ = none
