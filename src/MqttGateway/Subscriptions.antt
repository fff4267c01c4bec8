-- ===== src/MqttGateway/Subscriptions.antt =====
-- udp-gw/udpgw.go: the topics of a group are subscribed to once, when its first packet comes.
use widuino.Base.{ℕ, List, [], ◌∷◌, ◌++◌, none, some}
use widuino.Base.{
  ◌≡◌, ◌≢◌, refl, sym, ap, ◌∙◌, inl, inr, arith, All, All-append, Bool-cases, Option-cases,
  append_assoc, append-nil, ◌==◌, ltb, length,
}
use widuino.Base.Dict.{lookup, insert, nat_key}
use widuino.Gateway.{UdpAddr}
use widuino.MqttGateway.{
  Networks, Payloads, MqttGateway, Incoming, udp_packet, mqtt_message, save_group_to_addr, decode,
  udp_server, mqtt_server, run, sub_topics,
}

abbrev pub groups : Networks → List ℕ
groups [] = []
groups ((g, addr) ∷ networks) = g ∷ groups networks

abbrev pub topics_of : List ℕ → List (List ℕ)
topics_of [] = []
topics_of (g ∷ gs) = sub_topics g ++ topics_of gs

abbrev pub IsDistinct : List ℕ → Type 0
IsDistinct [] = Unit
IsDistinct (g ∷ gs) = All (λ h. g ≢ h) gs × IsDistinct gs

topics_of-snoc : (gs : List ℕ) (g : ℕ) → topics_of (gs ++ (g ∷ [])) ≡ topics_of gs ++ sub_topics g
topics_of-snoc [] g = append-nil (sub_topics g)
topics_of-snoc (h ∷ gs) g =
    ap (λ ts. sub_topics h ++ ts) (topics_of-snoc gs g)
    ∙ sym (append_assoc (sub_topics h) (topics_of gs) (sub_topics g))

groups-insert_new :
    (g : ℕ) (addr : UdpAddr) (networks : Networks)
    → lookup g networks ≡ none
    → groups (insert g addr networks) ≡ groups networks ++ (g ∷ [])
unfolding lookup insert
groups-insert_new g addr [] e = refl
groups-insert_new g addr ((h, a) ∷ networks) e = elim (Bool-cases (h == g)) [
  | inl hit ↦ cc (rw hit at e)
  | inr miss ↦ rw miss (ap (λ gs. h ∷ gs) (groups-insert_new g addr networks (rw miss at e)))
]

groups-insert_known :
    (g : ℕ) (addr old : UdpAddr) (networks : Networks)
    → lookup g networks ≡ some old
    → groups (insert g addr networks) ≡ groups networks
unfolding lookup insert
groups-insert_known g addr old [] e = cc
groups-insert_known g addr old ((h, a) ∷ networks) e = elim (Bool-cases (h == g)) [
  | inl hit ↦ let same : g ≡ h = ground (arith, hit) in rw hit (ap (λ k. k ∷ groups networks) same)
  | inr miss ↦ rw miss (ap (λ gs. h ∷ gs) (groups-insert_known g addr old networks (rw miss at e)))
]

IsDistinct-snoc :
    (g : ℕ) (networks : Networks)
    → lookup g networks ≡ none
    → IsDistinct (groups networks)
    → IsDistinct (groups networks ++ (g ∷ []))
unfolding lookup
IsDistinct-snoc g [] e v = (tt, tt)
IsDistinct-snoc g ((h, a) ∷ networks) e v = elim (Bool-cases (h == g)) [
  | inl hit ↦ cc (rw hit at e)
  | inr miss ↦
      let apart : h ≢ g = λ same. ground (arith, miss, same) in
      (
        All-append (λ k. h ≢ k) (groups networks) (g ∷ []) v.0 (apart, tt),
        IsDistinct-snoc g networks (rw miss at e) v.1,
      )
]

-- All that is subscribed to are the topics of the known groups, each once, in the order in which
-- they came.
abbrev pub IsSubscribed : MqttGateway → Type 0
IsSubscribed u = (u.subscribed ≡ topics_of (groups u.networks)) × IsDistinct (groups u.networks)

module _ (payloads : Payloads) where
  decode-IsSubscribed :
      (now : ℕ) (src : UdpAddr) (code g flags : ℕ) (more : List ℕ) (u : MqttGateway)
      → IsSubscribed u
      → IsSubscribed (decode payloads now src (code ∷ g ∷ flags ∷ more) u)
  unfolding decode save_group_to_addr
  decode-IsSubscribed now src code g flags more u v = elim (Option-cases (lookup g u.networks)) [
    | inl new ↦ (
      rw (new, v.0, groups-insert_new g src u.networks new)
          (sym (topics_of-snoc (groups u.networks) g)),
      rw (groups-insert_new g src u.networks new) (IsDistinct-snoc g u.networks new v.1),
    )
    | inr (old, known) ↦ (
      rw (known, v.0, groups-insert_known g src old u.networks known)
          (append-nil (topics_of (groups u.networks))),
      rw (groups-insert_known g src old u.networks known) v.1,
    )
  ]

  udp_server-IsSubscribed :
      (now : ℕ) (src : UdpAddr) (pkt : List ℕ) (u : MqttGateway)
      → IsSubscribed u
      → IsSubscribed (udp_server payloads now src pkt u)
  unfolding udp_server
  udp_server-IsSubscribed now src [] u v = v
  udp_server-IsSubscribed now src (code ∷ []) u v = v
  udp_server-IsSubscribed now src (code ∷ g ∷ []) u v = v
  udp_server-IsSubscribed now src (code ∷ g ∷ flags ∷ more) u v =
      elim (Bool-cases (ltb (length (code ∷ g ∷ flags ∷ more)) 4)) [
        | inl short ↦ rw short v
        | inr long ↦ rw long (decode-IsSubscribed now src code g flags more u v)
      ]

  -- Whatever comes in, the gateway stays subscribed to the two topics of each group that it knows,
  -- subscribed to once and in the order in which the groups first came, and to nothing else.
  pub run-IsSubscribed :
      (es : List Incoming) (u : MqttGateway) → IsSubscribed u → IsSubscribed (run payloads es u)
  unfolding run mqtt_server
  run-IsSubscribed [] u v = v
  run-IsSubscribed (udp_packet now src pkt ∷ es) u v =
      run-IsSubscribed es (udp_server payloads now src pkt u)
        (udp_server-IsSubscribed now src pkt u v)
  run-IsSubscribed (mqtt_message ack topic payload ∷ es) u v =
      run-IsSubscribed es (mqtt_server payloads ack topic payload u) v
