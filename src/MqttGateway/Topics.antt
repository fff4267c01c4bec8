-- ===== src/MqttGateway/Topics.antt =====
-- udp-gw/udpgw.go, `txTopicRE`: the topics of a group and a node are taken apart as they were made.
use widuino.Base.{ℕ, ◌<◌, List, [], ◌∷◌, ◌++◌, some, true, false}
use widuino.Base.{◌≡◌, ◌≢◌, refl, ap, ◌∙◌, arith, All, ◌==◌, leb, length}
use widuino.Base.Decimal.{decimal}
use widuino.Base.Decimal.ReadBack.{IsDigit, decimal-IsDigit, length-decimal}
use widuino.MqttGateway.TxTopic.{
  digits_before, with_slash, find_string_submatch, group_part, node_part,
}

-- "/rf/<group>/<node>/t<c>".
abbrev pub tx_topic : ℕ → ℕ → ℕ → List ℕ
tx_topic group_id node_id c =
    b'/'
    ∷ b'r'
    ∷ b'f'
    ∷ b'/'
    ∷ (decimal group_id ++ (b'/' ∷ (decimal node_id ++ (b'/' ∷ b't' ∷ c ∷ []))))

digits_before-slash :
    (ds rest : List ℕ) → All IsDigit ds → digits_before (ds ++ (b'/' ∷ rest)) ≡ (ds, b'/' ∷ rest)
digits_before-slash [] rest h = refl
digits_before-slash (d ∷ ds) rest h =
    let low : leb 48 d ≡ true = ground (arith, h.0.0) in
    let high : leb d 57 ≡ true = ground (arith, h.0.1) in
    rw (digits_before-slash ds rest h.1, low, high) refl

with_slash-some :
    (ds rest : List ℕ) → 0 < length ds → with_slash (ds, b'/' ∷ rest) ≡ some (ds, rest)
with_slash-some [] rest h = absurd (omega arith)
with_slash-some (d ∷ ds) rest h = refl

part_before :
    (n : ℕ) (rest : List ℕ)
    → with_slash (digits_before (decimal n ++ (b'/' ∷ rest))) ≡ some (decimal n, rest)
part_before n rest =
    ap with_slash (digits_before-slash (decimal n) rest (decimal-IsDigit n))
    ∙ with_slash-some (decimal n) rest (length-decimal n)

pub find_string_submatch-tx_topic :
    (g n c : ℕ)
    → c ≢ 10
    → find_string_submatch (tx_topic g n c)
      ≡ some (record { group = decimal g; node = decimal n; kind = b't' ∷ c ∷ [] })
unfolding find_string_submatch
find_string_submatch-tx_topic g n c h =
    let other : c == 10 ≡ false = ground (arith, h) in
    ap group_part (part_before g (decimal n ++ (b'/' ∷ b't' ∷ c ∷ [])))
    ∙ ap (node_part (decimal g)) (part_before n (b't' ∷ c ∷ []))
    ∙ rw other refl
