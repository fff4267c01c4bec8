-- ===== src/Boot/Hex/RoundTrip.antt =====
-- `readHex` reads back what an Intel hex writer wrote.
use widuino.Base.{byte_lengths}
use widuino.Base.{ℕ, zero, suc, ◌+◌, ◌-◌, ◌*◌, ◌/◌, ◌%◌, ◌≤◌, ◌<◌, List, [], ◌∷◌, ◌++◌}
use widuino.Base.{◌≡◌, refl, sym, ap, ap₂, ◌∙◌, arith, append-nil, append_assoc}
use widuino.Base.{
  ltb, if◌then◌else◌, length, get_or, take, replicate, All, length-append, All-append, take-append,
  length-replicate,
}
use widuino.Base.Words.{u8, IsByte}
use widuino.Base.Outcome.{ok}
use widuino.Boot.Hex.Writer.{
  record_head, data_record, data_line, data_lines, as_text, joined, IsChunk, padded,
}
use widuino.Boot.Hex.TextLaws.{
  decode_string-encode_string, encode_string-IsPlain, length-encode_string, IsLine,
  scan_lines-as_text,
}
use widuino.Boot.Hex.{Image, blank, overwrite, checksum, put_data, put_record}
use widuino.Boot.Hex.{put_line, put_lines, read_cells, round_up, finish, read_hex}

pub checksum-append : (s : ℕ) (xs ys : List ℕ) → checksum s (xs ++ ys) ≡ checksum (checksum s xs) ys
unfolding checksum
checksum-append s [] ys = refl
checksum-append s (x ∷ xs) ys = checksum-append (u8 (s + x)) xs ys

pub checksum-lt : (s : ℕ) (xs : List ℕ) → s < 256 → checksum s xs < 256
unfolding checksum
checksum-lt s [] h = h
checksum-lt s (x ∷ xs) h = checksum-lt (u8 (s + x)) xs (omega arith)

checksum-data_record : (addr : ℕ) (bs : List ℕ) → checksum 0 (data_record addr bs) ≡ 0
unfolding data_record
checksum-data_record addr bs =
    checksum-append 0 (record_head addr bs) _
    ∙ unfold checksum in omega (arith, checksum-lt 0 (record_head addr bs) (omega arith))

-- The first `length xs` bytes of the array are `xs`, and `sw` ends behind them.
pub record Holds (sw : Image) (xs : List ℕ) : Type 0 where
  pub size : sw.size ≡ length xs
  pub cells : (k : ℕ) → k < length xs → sw.cells k ≡ get_or xs k 0

get_or-append_left :
    (xs ys : List ℕ) (k : ℕ) → k < length xs → get_or (xs ++ ys) k 0 ≡ get_or xs k 0
get_or-append_left [] ys k h = absurd (omega arith)
get_or-append_left (x ∷ xs) ys zero h = refl
get_or-append_left (x ∷ xs) ys (suc k) h = get_or-append_left xs ys k (omega arith)

get_or-append_right :
    (xs ys : List ℕ) (k : ℕ) → length xs ≤ k → get_or (xs ++ ys) k 0 ≡ get_or ys (k - length xs) 0
get_or-append_right [] ys k h = ap (λ t. get_or ys t 0) (omega arith)
get_or-append_right (x ∷ xs) ys zero h = absurd (omega arith)
get_or-append_right (x ∷ xs) ys (suc k) h =
    get_or-append_right xs ys k (omega arith) ∙ ap (λ t. get_or ys t 0) (omega arith)

abbrev grown : Image → ℕ → List ℕ → Image
grown sw addr bs = record { size = addr + length bs; cells = overwrite sw.cells addr bs }

grown-Holds :
    (sw : Image) (xs bs : List ℕ) → Holds sw xs → Holds (grown sw (length xs) bs) (xs ++ bs)
grown-Holds sw xs bs v = record {
  size = sym (length-append xs bs);
  cells = λ k h. ground (
    arith,
    v.cells k,
    length-append xs bs,
    get_or-append_left xs bs k,
    get_or-append_right xs bs k,
  );
}

put_data-grown :
    (sw : Image) (xs bs : List ℕ)
    → Holds sw xs
    → 2 ≤ length bs
    → length xs + length bs ≤ 65536
    → put_data sw (length xs) bs ≡ ok (grown sw (length xs) bs)
unfolding put_data
put_data-grown sw xs bs v two fits = ground (arith, v.size)

data_record-IsByte :
    (addr : ℕ) (bs : List ℕ)
    → addr < 65536
    → length bs ≤ 255
    → All IsByte bs
    → All IsByte (data_record addr bs)
unfolding data_record
data_record-IsByte addr bs h k p =
    All-append IsByte (record_head addr bs) _
      (omega arith, (omega arith, (omega arith, (omega arith, p)))) (omega arith, tt)

length-data_record : (addr : ℕ) (bs : List ℕ) → length (data_record addr bs) ≡ 5 + length bs
unfolding data_record
length-data_record addr bs =
    omega (arith, length-append bs ((256 - checksum 0 (record_head addr bs)) % 256 ∷ []))

-- A data record whose sum and length are right is put where its address says.
put_record_valid :
    (i : ℕ) (sw : Image) (n hi lo : ℕ) (tail : List ℕ)
    → checksum 0 (n ∷ hi ∷ lo ∷ 0 ∷ tail) ≡ 0
    → n + 1 ≤ length tail
    → put_record i sw (n ∷ hi ∷ lo ∷ 0 ∷ tail) ≡ put_data sw (lo + hi * 256) (take n tail)
unfolding put_record
put_record_valid i sw n hi lo tail sum long = ground (arith, sum)

put_record-data_record :
    (i : ℕ) (sw : Image) (a : ℕ) (bs : List ℕ)
    → a < 65536
    → put_record i sw (data_record a bs) ≡ put_data sw a bs
put_record-data_record i sw a bs fits =
    valid
    ∙ ap₂ (put_data sw) (let e : a % 256 + a / 256 * 256 ≡ a = omega arith in e)
        (take-append bs tail)
  where
    tail : List ℕ
    tail = (256 - checksum 0 (record_head a bs)) % 256 ∷ []

    valid :
        put_record i sw (data_record a bs)
        ≡ put_data sw (a % 256 + a / 256 * 256) (take (length bs) (bs ++ tail))
    valid =
        unfold data_record in
        put_record_valid i sw (length bs) (a / 256) (a % 256) (bs ++ tail)
          (checksum-data_record a bs) (omega byte_lengths)

-- A line of the writer puts its bytes at its address.
pub put_line-data_line :
    (i : ℕ) (sw : Image) (a : ℕ) (bs : List ℕ)
    → a < 65536
    → length bs ≤ 255
    → All IsByte bs
    → put_line i sw (data_line a bs) ≡ put_data sw a bs
unfolding put_line data_line
put_line-data_line i sw a bs fits short bytes = ground (
  arith,
  decode_string-encode_string (data_record a bs) (data_record-IsByte a bs fits short bytes),
  put_record-data_record i sw a bs fits,
)

put_line-grown :
    (i : ℕ) (sw : Image) (xs bs : List ℕ)
    → Holds sw xs
    → IsChunk bs
    → length xs + length bs ≤ 65536
    → put_line i sw (data_line (length xs) bs) ≡ ok (grown sw (length xs) bs)
put_line-grown i sw xs bs v c fits =
    put_line-data_line i sw (length xs) bs (omega (arith, c.0)) c.1 c.2
    ∙ put_data-grown sw xs bs v c.0 fits

pub put_lines-data_lines :
    (i : ℕ) (sw : Image) (xs : List ℕ) (cs : List (List ℕ))
    → Holds sw xs
    → All IsChunk cs
    → length xs + length (joined cs) ≤ 65536
    → (sw' : Image) × (put_lines i sw (data_lines (length xs) cs) ≡ ok sw')
      × Holds sw' (xs ++ joined cs)
unfolding put_lines data_lines
put_lines-data_lines i sw xs [] v h fits = (sw, refl, rw append-nil v)
put_lines-data_lines i sw xs (c ∷ cs) v h fits =
    let fits' : length xs + length c + length (joined cs) ≤ 65536 = omega byte_lengths in
    let (sw', reads, holds) =
      put_lines-data_lines (i + 1) (grown sw (length xs) c) (xs ++ c) cs (grown-Holds sw xs c v) h.1
        (omega byte_lengths) in
    (
      sw',
      rw (put_line-grown (i + 1) sw xs c v h.0 (omega arith)) (rw (length-append xs c) at reads),
      rw (append_assoc xs c (joined cs)) at holds,
    )

read_cells-eq :
    (f : ℕ → ℕ) (k : ℕ) (xs : List ℕ)
    → ((j : ℕ) → j < length xs → f (k + j) ≡ get_or xs j 0)
    → read_cells f k (length xs) ≡ xs
read_cells-eq f k [] h = refl
read_cells-eq f k (x ∷ xs) h =
    ap₂ ◌∷◌ (ap f (omega arith) ∙ h 0 (omega arith))
      (read_cells-eq f (suc k) xs (λ j p. ap f (omega arith) ∙ h (suc j) (omega arith)))

get_or-zeros : (n k : ℕ) → get_or {A = ℕ} (replicate n 0) k 0 ≡ 0
get_or-zeros zero k = refl
get_or-zeros (suc n) zero = refl
get_or-zeros (suc n) (suc k) = get_or-zeros n k

length-padded : (xs : List ℕ) → length (padded xs) ≡ round_up (length xs)
length-padded xs = ground (
  arith,
  length-append xs (replicate (round_up (length xs) - length xs) 0),
  length-replicate {A = ℕ} (round_up (length xs) - length xs) 0,
)

finish-padded : (sw : Image) (xs : List ℕ) → Holds sw xs → finish sw ≡ padded xs
unfolding finish
finish-padded sw xs v =
    ap (read_cells kept 0) (ap round_up v.size ∙ sym (length-padded xs))
    ∙ read_cells-eq kept 0 (padded xs) (λ j p. cell j)
  where
    kept : ℕ → ℕ
    kept k = if ltb k sw.size then sw.cells k else 0

    zeros : List ℕ
    zeros = replicate (round_up (length xs) - length xs) 0

    cell : (j : ℕ) → kept (0 + j) ≡ get_or (padded xs) j 0
    cell j =
        ap kept (let e : 0 + j ≡ j = omega arith in e)
        ∙ ground (
          arith,
          v.size,
          v.cells j,
          get_or-append_left xs zeros j,
          get_or-append_right xs zeros j,
          get_or-zeros (round_up (length xs) - length xs) (j - length xs),
        )

pub data_line-IsLine :
    (a : ℕ) (bs : List ℕ) → a < 65536 → length bs ≤ 255 → All IsByte bs → IsLine (data_line a bs)
unfolding data_line
data_line-IsLine a bs fits short bytes = (
  (
    (λ e. omega arith, λ e. omega arith),
    encode_string-IsPlain (data_record a bs) (data_record-IsByte a bs fits short bytes),
  ),
  omega (arith, length-encode_string (data_record a bs), length-data_record a bs),
)

pub data_lines-IsLine :
    (addr : ℕ) (cs : List (List ℕ))
    → All IsChunk cs
    → addr + length (joined cs) ≤ 65536
    → All IsLine (data_lines addr cs)
unfolding data_lines
data_lines-IsLine addr [] h fits = tt
data_lines-IsLine addr (c ∷ cs) h fits =
    let fits' : addr + length c + length (joined cs) ≤ 65536 = omega byte_lengths in
    (
      data_line-IsLine addr c (omega (arith, h.0.0)) h.0.1 h.0.2,
      data_lines-IsLine (addr + length c) cs h.1 fits',
    )

-- The text of an image cut into records of 2 to 255 bytes, 64 KB at most, reads back as the image,
-- with zeros behind it up to a multiple of 16.
pub read_hex-as_text :
    (cs : List (List ℕ))
    → All IsChunk cs
    → length (joined cs) ≤ 65536
    → read_hex (as_text (data_lines 0 cs)) ≡ ok (padded (joined cs))
unfolding read_hex
read_hex-as_text cs h fits =
    let (sw, reads, holds) =
      put_lines-data_lines 0 blank [] cs
        (record { size = refl; cells = λ k p. absurd (omega arith) }) h (omega arith) in
    rw (scan_lines-as_text (data_lines 0 cs) (data_lines-IsLine 0 cs h (omega arith)), reads)
      (ap ok (finish-padded sw (joined cs) holds))
