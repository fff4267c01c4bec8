-- ===== src/Boot/Hex/Damage.antt =====
-- `readHex` on files that the writer does not produce: a damaged byte, and a last record of one byte.
use widuino.Base.{byte_lengths}
use widuino.Base.{ℕ, ◌+◌, ◌≤◌, ◌<◌, List, [], ◌∷◌, ◌++◌}
use widuino.Base.{◌≡◌, ◌≢◌, refl, sym, ap, ap₂, ◌∙◌, arith}
use widuino.Base.{ltb, if◌then◌else◌, length, All, All-append}
use mathlib.Core.Path.{fun_ext}
use widuino.Base.Words.{u8, IsByte}
use widuino.Base.Outcome.{ok, err, first_step}
use widuino.Boot.Hex.Text.{scan_lines}
use widuino.Boot.Hex.Writer.{data_line, data_lines, as_text, joined, IsChunk}
use widuino.Boot.Hex.TextLaws.{IsLine, scan_lines-as_text}
use widuino.Boot.Hex.{bad_checksum, Image, blank, overwrite, checksum, put_data, put_record}
use widuino.Boot.Hex.{put_line, put_lines, read_cells, round_up, finish, read_hex}
use widuino.Boot.Hex.RoundTrip.{
  put_lines-data_lines, data_lines-IsLine, checksum-append, checksum-lt, put_line-data_line,
  data_line-IsLine,
}

checksum_injective :
    (s t : ℕ) (xs : List ℕ) → s < 256 → t < 256 → checksum s xs ≡ checksum t xs → s ≡ t
unfolding checksum
checksum_injective s t [] p q e = e
checksum_injective s t (x ∷ xs) p q e =
    omega (arith, checksum_injective (u8 (s + x)) (u8 (t + x)) xs (omega arith) (omega arith) e)

checksum_changes :
    (before after : List ℕ) (x y : ℕ)
    → IsByte x
    → IsByte y
    → x ≢ y
    → checksum 0 (before ++ (x ∷ after)) ≢ checksum 0 (before ++ (y ∷ after))
checksum_changes before after x y hx hy ne e =
    ne (omega (arith, checksum-lt 0 before (omega arith), mixed))
  where
    s : ℕ
    s = checksum 0 before

    mixed : u8 (s + x) ≡ u8 (s + y)
    mixed = checksum_injective (u8 (s + x)) (u8 (s + y)) after (omega arith) (omega arith) (
        unfold checksum in
        (sym (checksum-append 0 before (x ∷ after)) ∙ e ∙ checksum-append 0 before (y ∷ after)))

put_record_bad_sum :
    (i : ℕ) (sw : Image) (b : List ℕ)
    → 5 ≤ length b
    → checksum 0 b ≢ 0
    → put_record i sw b ≡ err (bad_checksum i (checksum 0 b))
unfolding put_record
put_record_bad_sum i sw b long bad = ground arith

-- A record with a right sum, in which one byte is replaced by another, is rejected for its checksum.
put_record_detects_byte :
    (i : ℕ) (sw : Image) (before after : List ℕ) (x y : ℕ)
    → 5 ≤ length (before ++ (y ∷ after))
    → checksum 0 (before ++ (x ∷ after)) ≡ 0
    → IsByte x
    → IsByte y
    → x ≢ y
    → (sum : ℕ) × (sum ≢ 0) × (put_record i sw (before ++ (y ∷ after)) ≡ err (bad_checksum i sum))
put_record_detects_byte i sw before after x y long good hx hy ne =
    let bad = λ (e : checksum 0 (before ++ (y ∷ after)) ≡ 0).
      checksum_changes before after x y hx hy ne (good ∙ sym e) in
    (checksum 0 (before ++ (y ∷ after)), bad, put_record_bad_sum i sw _ long bad)

put_lines-append :
    (i : ℕ) (sw : Image) (xs ys : List (List ℕ)) {sw' : Image}
    → put_lines i sw xs ≡ ok sw'
    → put_lines i sw (xs ++ ys) ≡ put_lines (i + length xs) sw' ys
unfolding put_lines
put_lines-append i sw [] ys e = ap₂ (λ j s. put_lines j s ys) (omega arith) (cc e)
put_lines-append i sw (x ∷ xs) ys {sw'} e =
    let (mid, first, rest) = first_step _ (put_line (i + 1) sw x) e in
    rw first (put_lines-append (i + 1) mid xs ys rest ∙ ap (λ j. put_lines j sw' ys) (omega arith))

data_lines-append :
    (addr : ℕ) (cs ds : List (List ℕ))
    → data_lines addr (cs ++ ds) ≡ data_lines addr cs ++ data_lines (addr + length (joined cs)) ds
unfolding data_lines
data_lines-append addr [] ds = ap (λ a. data_lines a ds) (omega arith)
data_lines-append addr (c ∷ cs) ds = ap (◌∷◌ (data_line addr c)) (
    data_lines-append (addr + length c) cs ds
    ∙ ap (λ a. data_lines (addr + length c) cs ++ data_lines a ds) (omega byte_lengths))

-- A record of one byte just behind `sw` is written into the array and not into `sw`.
abbrev beyond : Image → ℕ → Image
beyond sw b = record { size = sw.size; cells = overwrite sw.cells sw.size (b ∷ []) }

put_data-beyond :
    (sw : Image) (a b : ℕ) → sw.size ≡ a → a < 65536 → put_data sw a (b ∷ []) ≡ ok (beyond sw b)
unfolding put_data
put_data-beyond sw a b e h = ground arith

finish-beyond : (sw : Image) (b : ℕ) → finish (beyond sw b) ≡ finish sw
unfolding finish
finish-beyond sw b = ap (λ f. read_cells f 0 (round_up sw.size)) (fun_ext (λ k. same k))
  where
    same :
        (k : ℕ)
        → (if ltb k sw.size then overwrite sw.cells sw.size (b ∷ []) k else 0)
          ≡ (if ltb k sw.size then sw.cells k else 0)
    same k = ground arith

tail-IsLine : (a b : ℕ) → IsByte b → a < 65536 → All IsLine (data_lines a ((b ∷ []) ∷ []))
unfolding data_lines
tail-IsLine a b hb h = (data_line-IsLine a (b ∷ []) h (omega arith) (hb, tt), tt)

put_last :
    (i : ℕ) (sw : Image) (a b : ℕ)
    → IsByte b
    → a < 65536
    → sw.size ≡ a
    → put_lines i sw (data_lines a ((b ∷ []) ∷ [])) ≡ ok (beyond sw b)
unfolding put_lines data_lines
put_last i sw a b hb fits e = rw (
  put_line-data_line (i + 1) sw a (b ∷ []) fits (omega arith) (hb, tt),
  put_data-beyond sw a b e fits,
)

-- A last record of a single byte is lost: the file reads as it does without the record.
read_hex-one_byte_tail :
    (cs : List (List ℕ)) (b : ℕ)
    → All IsChunk cs
    → IsByte b
    → length (joined cs) < 65536
    → read_hex (as_text (data_lines 0 (cs ++ ((b ∷ []) ∷ []))))
      ≡ read_hex (as_text (data_lines 0 cs))
unfolding read_hex
read_hex-one_byte_tail cs b h hb fits =
    let (sw, reads, holds) =
      put_lines-data_lines 0 blank [] cs
        (record { size = refl; cells = λ k p. absurd (omega arith) }) h (omega arith) in
    let more =
      put_lines-append 0 blank (data_lines 0 cs) (data_lines (0 + n) last) reads
      ∙ put_last (0 + length (data_lines 0 cs)) sw (0 + n) b hb (omega arith)
          (omega (arith, holds.size)) in
    rw (data_lines-append 0 cs last, scan_more, scan_lines-as_text (data_lines 0 cs) short)
      (rw (more, reads) (ap ok (finish-beyond sw b)))
  where
    n : ℕ
    n = length (joined cs)

    last : List (List ℕ)
    last = (b ∷ []) ∷ []

    short : All IsLine (data_lines 0 cs)
    short = data_lines-IsLine 0 cs h (omega arith)

    scan_more :
        scan_lines (as_text (data_lines 0 cs ++ data_lines (0 + n) last))
        ≡ data_lines 0 cs ++ data_lines (0 + n) last
    scan_more =
        scan_lines-as_text _
          (All-append IsLine (data_lines 0 cs) _ short (tail-IsLine (0 + n) b hb (omega arith)))
