-- ===== src/Boot/Server/Transfer.antt =====
-- A node's upgrade from hub/boot_proto.go: what the node puts together from the chunks is the image
-- that the upgrade reply announced.
use widuino.Base.{byte_lengths}
use widuino.Base.{
  ℕ, zero, suc, ◌+◌, ◌-◌, ◌*◌, ◌/◌, ◌%◌, ◌≤◌, ◌<◌, List, [], ◌∷◌, ◌++◌, Option, none, some, false,
  ◌≡◌, refl, sym, ap, ◌∙◌, inl, inr, arith,
}
use widuino.Base.{
  Bool-cases, ◌==◌, leb, min, if◌then◌else◌, length, take, drop, bit_xor, length-drop,
  take-append_more, drop-drop, take-append-drop, take-all, drop-all, append-nil, append_assoc,
}
use widuino.Base.Words.{u16}
use widuino.Base.Dict.{bytes_key, nat_key}
use widuino.Base.Outcome.{Outcome, ok, err, panic}
use widuino.Boot.Crc.{crc16}
use widuino.Boot.Whitening.{de_whiten}
use widuino.Boot.Whitening.Laws.{
  whitened, de_whiten-whitened, whitened_twice, length-whitened, whitened-append,
}
use widuino.Boot.Wire.{UpgradeRequest, UpgradeReply, DownloadReply}
use widuino.Boot.Server.{
  Booter, Files, BootError, find_software, upgrade, chunk_reply, download, empty_payload,
}
use widuino.Boot.Server.Laws.{IsServing, find_software-again}

length-empty_payload : length empty_payload ≡ 64
unfolding empty_payload
length-empty_payload = refl

-- What a node makes of the reply to its request for the chunk `ix`.
abbrev receive : ℕ → ℕ → Outcome BootError DownloadReply → Option (List ℕ)
receive id ix (ok r) =
    if r.sw_id_xor_ix == bit_xor id ix then de_whiten r.payload empty_payload else none
receive id ix (err e) = none
receive id ix panic = none

abbrev and_then : Option (List ℕ) → Option (List ℕ) → Option (List ℕ)
and_then (some chunk) (some rest) = some (chunk ++ rest)
and_then _ _ = none

-- A node asks for `n` chunks from `ix` on, one after the other.
unfoldable pub fetch : Files → Booter → ℕ → ℕ → ℕ → Option (List ℕ)
fetch files b id ix zero = some []
fetch files b id ix (suc n) =
    let (b', r) = download files b (record { sw_id = id; sw_index = ix }) in
    and_then (receive id ix r) (fetch files b' id (ix + 1) n)

chunk_at : List ℕ → ℕ → List ℕ
chunk_at sw ix = take 64 (drop (ix * 64) sw)

length-chunk_at : (sw : List ℕ) (ix : ℕ) → length (chunk_at sw ix) ≡ min 64 (length sw - ix * 64)
unfolding chunk_at
length-chunk_at sw ix = omega byte_lengths

abbrev sent : List ℕ → ℕ → List ℕ
sent sw ix = whitened 0 (chunk_at sw ix) ++ drop (length (chunk_at sw ix)) empty_payload

chunk_reply-sent :
    (sw : List ℕ) (id ix : ℕ)
    → length sw < 65536
    → ix * 64 < length sw
    → chunk_reply sw (record { sw_id = id; sw_index = ix })
      ≡ ok (record { sw_id_xor_ix = bit_xor id ix; payload = sent sw ix })
unfolding chunk_reply chunk_at
chunk_reply-sent sw id ix small inside = rw (
  (let e : ix * 64 % 65536 ≡ ix * 64 = omega arith in e),
  (let e : length sw % 65536 ≡ length sw = omega arith in e),
  (let e : leb (length sw) (ix * 64) ≡ false = ground arith in e),
  de_whiten-whitened (take 64 (drop (ix * 64) sw)) empty_payload
      (omega (byte_lengths, length-empty_payload)),
)

length-sent : (sw : List ℕ) (ix : ℕ) → length (sent sw ix) ≡ 64
length-sent sw ix =
    omega (
      byte_lengths,
      length-whitened 0 (chunk_at sw ix),
      length-empty_payload,
      length-chunk_at sw ix,
    )

-- What the node has after its de-whitening: the chunk, and something behind a short one.
received-chunk :
    (sw : List ℕ) (ix : ℕ)
    → (junk : List ℕ) × (de_whiten (sent sw ix) empty_payload ≡ some (chunk_at sw ix ++ junk))
      × (length junk ≡ 64 - length (chunk_at sw ix))
received-chunk sw ix = (
  junk,
  de_whiten-whitened (sent sw ix) empty_payload
        (omega (arith, length-sent sw ix, length-empty_payload))
      ∙ ap some (
          ap (◌++◌ (whitened 0 (sent sw ix))) (
            drop-all (length (sent sw ix)) empty_payload
              (omega (arith, length-sent sw ix, length-empty_payload)))
          ∙ append-nil (whitened 0 (sent sw ix))
          ∙ whitened-append 0 (whitened 0 (chunk_at sw ix)) unused
          ∙ ap (λ t. t ++ junk) (whitened_twice 0 (chunk_at sw ix))),
  omega (
    byte_lengths,
    length-whitened (0 + length (whitened 0 (chunk_at sw ix))) unused,
    length-empty_payload,
  ),
)
  where
    unused : List ℕ
    unused = drop (length (chunk_at sw ix)) empty_payload

    junk : List ℕ
    junk = whitened (0 + length (whitened 0 (chunk_at sw ix))) unused

receive-own :
    (id ix : ℕ) (payload : List ℕ)
    → receive id ix (ok (record { sw_id_xor_ix = bit_xor id ix; payload = payload }))
      ≡ de_whiten payload empty_payload
receive-own id ix payload = ground arith

-- One round: the chunk arrives, and the booter is as before.
fetch_step :
    (files : Files) (b : Booter) (id : ℕ) (sw : List ℕ) (ix n : ℕ)
    → find_software files b id ≡ (b, ok sw)
    → length sw < 65536
    → ix * 64 < length sw
    → fetch files b id ix (suc n)
      ≡ and_then (some (chunk_at sw ix ++ (received-chunk sw ix).0)) (fetch files b id (ix + 1) n)
unfolding fetch download
fetch_step files b id sw ix n found small inside =
    rw (found, chunk_reply-sent sw id ix small inside)
      (ap (λ o. and_then o (fetch files b id (ix + 1) n))
        (receive-own id ix (sent sw ix) ∙ (received-chunk sw ix).1))

nil_of_length {ℓ} : {A : Type ℓ} (xs : List A) → length xs ≡ 0 → xs ≡ []
nil_of_length [] e = refl
nil_of_length (x ∷ xs) e = absurd (omega arith)

-- The chunk at `ix` and the rest that follows it make up the image from there on.
chunk-rest :
    (sw : List ℕ) (ix : ℕ) (got : List ℕ)
    → ix * 64 < length sw
    → take (length sw - (ix + 1) * 64) got ≡ drop ((ix + 1) * 64) sw
    → take (length sw - ix * 64) ((chunk_at sw ix ++ (received-chunk sw ix).0) ++ got)
      ≡ drop (ix * 64) sw
chunk-rest sw ix got inside rest = elim (Bool-cases (leb 64 (length sw - ix * 64))) [
  | inl full ↦
      let none_left : length junk ≡ 0 =
        ground (arith, full, (received-chunk sw ix).2, length-chunk_at sw ix) in
      let count : length sw - ix * 64 ≡ length c + (length sw - (ix + 1) * 64) =
        ground (arith, full, length-chunk_at sw ix) in
      split _ count
      ∙ ap (λ t. c ++ take (length sw - (ix + 1) * 64) (t ++ got)) (nil_of_length junk none_left)
      ∙ ap (◌++◌ c) (rest ∙ next)
      ∙ unfold chunk_at in take-append-drop 64 (drop (ix * 64) sw)
  | inr short ↦
      let count : length sw - ix * 64 ≡ length c + 0 =
        ground (arith, short, length-chunk_at sw ix) in
      split 0 count
      ∙ append-nil c
      ∙ unfold chunk_at in
        take-all 64 (drop (ix * 64) sw) (ground (arith, short, length-drop (ix * 64) sw))
]
  where
    c : List ℕ
    c = chunk_at sw ix

    junk : List ℕ
    junk = (received-chunk sw ix).0

    split :
        (m : ℕ)
        → length sw - ix * 64 ≡ length c + m
        → take (length sw - ix * 64) ((c ++ junk) ++ got) ≡ c ++ take m (junk ++ got)
    split m e =
        ap (λ k. take k ((c ++ junk) ++ got)) e
        ∙ ap (take (length c + m)) (append_assoc c junk got)
        ∙ take-append_more c (junk ++ got) m

    next : drop ((ix + 1) * 64) sw ≡ drop 64 (drop (ix * 64) sw)
    next =
        let e : (ix + 1) * 64 ≡ ix * 64 + 64 = omega arith in
        ap (λ k. drop k sw) e ∙ sym (drop-drop (ix * 64) 64 sw)

-- The chunks from `ix` on make up the rest of the image, but for what lies behind its end.
fetch-rest :
    (files : Files) (b : Booter) (id : ℕ) (sw : List ℕ) (n ix : ℕ)
    → find_software files b id ≡ (b, ok sw)
    → length sw < 65536
    → length sw ≤ (ix + n) * 64
    → (ix + n) * 64 < length sw + 64
    → (got : List ℕ) × (fetch files b id ix n ≡ some got)
      × (take (length sw - ix * 64) got ≡ drop (ix * 64) sw)
fetch-rest files b id sw zero ix found small covers tight = (
  [],
  unfold fetch in refl,
  take-all (length sw - ix * 64) [] (omega arith) ∙ sym (drop-all (ix * 64) sw (omega arith)),
)
fetch-rest files b id sw (suc n) ix found small covers tight =
    let (got, fetched, whole) =
      fetch-rest files b id sw n (ix + 1) found small (omega arith) (omega arith) in
    let inside : ix * 64 < length sw = omega arith in
    (
      (chunk_at sw ix ++ (received-chunk sw ix).0) ++ got,
      fetch_step files b id sw ix n found small inside
          ∙ ap (and_then (some (chunk_at sw ix ++ (received-chunk sw ix).0))) fetched,
      chunk-rest sw ix got inside whole,
    )

-- A node asks for an upgrade and the booter, whose cache is in order, finds an image below 64 KB.
-- Then the reply names the node type as the image's id, and if the node asks for the chunks
-- 0, 1, … that its size calls for, every request is answered, and the announced number of bytes
-- of what the node puts together is the image, with the announced checksum.
pub fetch-upgrade :
    (files : Files) (b b' : Booter) (req : UpgradeRequest) (sw : List ℕ)
    → IsServing b
    → find_software files b req.node_type ≡ (b', ok sw)
    → length sw < 65536
    → (up : UpgradeReply) × (got : List ℕ) × (upgrade files b req ≡ (b', ok up))
      × (up.sw_id ≡ req.node_type)
      × (fetch files b' up.sw_id 0 ((up.sw_size + 3) / 4) ≡ some got)
      × (take (up.sw_size * 16) got ≡ sw)
      × (crc16 (take (up.sw_size * 16) got) ≡ up.sw_check)
unfolding upgrade
fetch-upgrade files b b' req sw serving found small =
    let (good, _, again) = find_software-again files b b' req.node_type sw serving found in
    let size : up.sw_size * 16 ≡ length sw = omega (arith, good.whole) in
    let (got, fetched, whole) =
      fetch-rest files b' req.node_type sw ((up.sw_size + 3) / 4) 0 (again files) small
        (omega (arith, size)) (omega (arith, size)) in
    let same : take (up.sw_size * 16) got ≡ sw =
      ap (λ k. take k got) (let e : up.sw_size * 16 ≡ length sw - 0 * 64 = omega (arith, size) in e)
      ∙ whole in
    (up, got, rw found, refl, fetched, same, ap crc16 same)
  where
    up : UpgradeReply
    up = record {
      node_type = req.node_type;
      sw_id = req.node_type;
      sw_size = u16 (length sw / 16);
      sw_check = crc16 sw;
    }
