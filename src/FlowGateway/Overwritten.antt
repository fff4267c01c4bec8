-- ===== src/FlowGateway/Overwritten.antt =====
-- OLD/flow/gadgets/udpgw.go, `Receiver`: the messages of a packet after the next packet has come.
use widuino.Base.{ℕ, zero, suc, ◌-◌, ◌%◌, ◌≤◌, List, [], ◌∷◌, ◌++◌, map, false}
use widuino.Base.{◌≡◌, refl, ap, ap₂, ◌∙◌, inl, inr, arith, Bool-cases}
use widuino.Base.{◌||◌, ◌==◌, length, take, drop, take-append}
use widuino.Gateway.{UdpAddr, Packet}
use widuino.FlowGateway.{
  Sent, recv, Slice, see, FlowGateway, buffer_len, packet_map, data_packet, receive,
}
use widuino.FlowGateway.Seen.{accepted, receive-accepted, receive-length}

take-append_short : (m : ℕ) (xs ys : List ℕ) → m ≤ length xs → take m (xs ++ ys) ≡ take m xs
take-append_short zero xs ys h = refl
take-append_short (suc m) [] ys h = absurd (omega arith)
take-append_short (suc m) (x ∷ xs) ys h = ap (◌∷◌ x) (take-append_short m xs ys (omega arith))

-- A packet that is passed on as data: its message's slice, and the buffer.
record PassedOn (u u' : FlowGateway) (now f g n : ℕ) (d : List ℕ) : Type 0 where
  outputs :
      u'.outputs
      ≡ u.outputs ++ (recv (packet_map now f g n (record { from = 2; len = suc (length d) })) ∷ [])
  buffer : u'.buffer ≡ f ∷ g ∷ n ∷ (d ++ drop (suc (suc (suc (length d)))) u.buffer)

data_packet-PassedOn :
    (u v : FlowGateway) (now f g n : ℕ) (d : List ℕ)
    → v.outputs ≡ u.outputs
    → v.buffer ≡ f ∷ g ∷ n ∷ (d ++ drop (suc (suc (suc (length d)))) u.buffer)
    → PassedOn u (data_packet now f g n (suc (suc (suc (length d)))) v) now f g n d
data_packet-PassedOn u v now f g n d eo eb =
    let len : suc (suc (suc (length d))) - 2 ≡ suc (length d) = omega arith in
    let m : Slice → List (Sent Slice) = λ s. recv (packet_map now f g n s) ∷ [] in
    let out : v.outputs ++ m (record { from = 2; len = suc (suc (suc (length d))) - 2 })
        ≡ u.outputs ++ m (record { from = 2; len = suc (length d) }) =
      ap (λ o. o ++ m (record { from = 2; len = suc (suc (suc (length d))) - 2 })) eo
      ∙ ap (λ k. u.outputs ++ m (record { from = 2; len = k })) len in
    elim (Bool-cases (f % 2 == 0)) [
      | inl even ↦ rw even (record { outputs = out; buffer = eb })
      | inr odd ↦ rw odd (record { outputs = out; buffer = eb })
    ]

receive-PassedOn :
    (u : FlowGateway) (now : ℕ) (src : UdpAddr) (f g n : ℕ) (d : List ℕ)
    → length u.buffer ≡ buffer_len
    → length d ≤ 66
    → (f == 5 || f == 8) ≡ false
    → (f == 9) ≡ false
    → PassedOn u (receive u (record { now = now; src = src; bytes = f ∷ g ∷ n ∷ d })) now f g n d
receive-PassedOn u now src f g n d whole h boot log =
    rw (receive-accepted u now src f g n d whole h, boot, log)
      (data_packet-PassedOn u (accepted u src g (f ∷ g ∷ n ∷ d)) now f g n d refl refl)

-- A gateway with its buffer of 1600 bytes that has sent nothing yet receives two data packets, the
-- second as long as the first or longer, and of 69 bytes at most. A gadget that reads the first
-- message only then reads the group, the node and the type of its own packet with the bytes of the
-- other one.
pub receive-overwritten :
    (u : FlowGateway) (now now' : ℕ) (src src' : UdpAddr) (f g n f' g' n' : ℕ) (d d' : List ℕ)
    → length u.buffer ≡ buffer_len
    → u.outputs ≡ []
    → (f == 5 || f == 8) ≡ false
    → (f == 9) ≡ false
    → (f' == 5 || f' == 8) ≡ false
    → (f' == 9) ≡ false
    → length d ≤ length d'
    → length d' ≤ 66
    → let p : Packet = record { now = now; src = src; bytes = f ∷ g ∷ n ∷ d } in
      let q : Packet = record { now = now'; src = src'; bytes = f' ∷ g' ∷ n' ∷ d' } in
      let u' = receive (receive u p) q in
      map (see u'.buffer) u'.outputs
      ≡ recv (packet_map now f g n (n' ∷ take (length d) d'))
        ∷ recv (packet_map now' f' g' n' (n' ∷ d'))
        ∷ []
receive-overwritten u now now' src src' f g n f' g' n' d d' whole none boot log boot' log' shorter
      fits =
    let p : Packet = record { now = now; src = src; bytes = f ∷ g ∷ n ∷ d } in
    let one = receive-PassedOn u now src f g n d whole (omega arith) boot log in
    let u1 = receive u p in
    let two =
      receive-PassedOn u1 now' src' f' g' n' d' (receive-length u p whole) fits boot' log' in
    let rest = drop (suc (suc (suc (length d')))) u1.buffer in
    let m : List (Sent Slice) =
      recv (packet_map now f g n (record { from = 2; len = suc (length d) })) ∷ [] in
    let m' : List (Sent Slice) =
      recv (packet_map now' f' g' n' (record { from = 2; len = suc (length d') })) ∷ [] in
    let both = two.outputs ∙ ap (λ o. o ++ m') (one.outputs ∙ ap (λ o. o ++ m) none) in
    rw (both, two.buffer)
      (ap₂
        (λ r r'.
          recv (packet_map now f g n (n' ∷ r)) ∷ recv (packet_map now' f' g' n' (n' ∷ r')) ∷ [])
        (take-append_short (length d) d' rest shorter) (take-append d' rest))
