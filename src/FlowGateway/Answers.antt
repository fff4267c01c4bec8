-- ===== src/FlowGateway/Answers.antt =====
-- OLD/flow/gadgets/udpgw.go: what a gadget reads of a boot packet, sent back by the transmitter.
use widuino.Base.{ℕ, bit_or, ◌/◌, ◌%◌, ◌≤◌, List, [], ◌∷◌, ◌++◌, map, some, true, false}
use widuino.Base.{◌≡◌, refl, sym, ap, ◌∙◌, arith, Bool-cases, inl, inr}
use widuino.Base.{◌||◌, ◌&&◌, ◌==◌, ==_iff, ltb, leb, if◌then◌else◌, length, get_or}
use widuino.Base.Dict.{lookup, nat_key}
use widuino.Base.Words.{holds_below, test_below}
use widuino.Gateway.{Packet, map_group_to_addr}
use widuino.Gateway.Receive.{datagram, send_packet-known}
use widuino.FlowGateway.{
  oob_info, oob, see, FlowGateway, buffer_len, rf12_header, bytes, transmit, receive,
}
use widuino.FlowGateway.Seen.{receive-messages}
use widuino.FlowGateway.Replies.{receive-own_group}

-- The type in a header: a byte has no room for type 8.
abbrev pub header_type : ℕ → ℕ
header_type f = if f == 5 then 5 else 0

header_fits :
    (f n : ℕ)
    → (f == 5 || f == 8) ≡ true
    → (rf12_header f n / 32 ≡ header_type f) × (rf12_header f n % 32 ≡ n % 32)
unfolding holds_below
header_fits f n boot =
    let five =
      test_below (λ m. bit_or 160 m / 32 == 5 && bit_or 160 m % 32 == m) 32 (n % 32) (omega arith)
        refl in
    let eight =
      test_below (λ m. bit_or 0 m / 32 == 0 && bit_or 0 m % 32 == m) 32 (n % 32) (omega arith)
        refl in
    elim (Bool-cases (f == 5)) [
      | inl upgrade ↦ rw ((==_iff f 5).0 upgrade) (ground (arith, five), ground (arith, five))
      | inr other ↦
          let pairing : f ≡ 8 = ground (arith, boot, other) in
          rw pairing (ground (arith, eight), ground (arith, eight))
    ]

-- With a buffer of 1600 bytes, what a gadget reads of a boot packet of type 5 or 8 and 69 bytes at
-- most, sent back while its group is the one to send to, goes to the packet's sender, with the
-- lower 5 bits of its node and its data; with its type if that is 5, and as type 0 if it is 8, for
-- which the header has no room.
pub transmit-boot_packet :
    (u : FlowGateway) (p : Packet) (f g n : ℕ) (d : List ℕ)
    → length u.buffer ≡ buffer_len
    → p.bytes ≡ f ∷ g ∷ n ∷ d
    → length d ≤ 66
    → (f == 5 || f == 8) ≡ true
    → (receive u p).group ≡ g
    → let u' = receive u p in
      (m : List ℕ) × (map (see u'.buffer) u'.outputs
        ≡ map (see u'.buffer) u.outputs ++ (oob_info n ∷ oob m ∷ []))
      × (transmit u' (bytes m) ≡ some (datagram p.src (header_type f ∷ g ∷ n % 32 ∷ d) ∷ []))
unfolding transmit map_group_to_addr
transmit-boot_packet u p f g n d whole ep fits boot own =
    let u' = receive u p in
    let short : ltb 66 (length d) ≡ false = ground (arith, fits) in
    let legal : (leb 3 (length p.bytes) && leb (length p.bytes) 69) ≡ true =
      ground (arith, ep, fits) in
    let named : get_or p.bytes 1 0 ≡ g = rw ep refl in
    let known : lookup u'.group u'.networks ≡ some p.src =
      ap (λ k. lookup k u'.networks) (own ∙ sym named) ∙ receive-own_group u p whole legal in
    let (type_of, node_of) = header_fits f n boot in
    (
      rf12_header f n ∷ d,
      receive-messages u p whole ∙ rw ep (rw (short, boot) refl),
      ap some (
          send_packet-known u'.networks p.src u'.group (rf12_header f n % 32) (rf12_header f n / 32)
            d known
          ∙ rw (type_of, own, node_of) refl),
    )
