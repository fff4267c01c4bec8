-- ===== src/Boot/Hex/Laws.antt =====
-- hub/boot_data.go, `readHex`: what a successful read returns, and what a damaged record does.
use widuino.Base.{ℕ, zero, suc, ◌+◌, ◌-◌, ◌*◌, ◌%◌, ◌≤◌, ◌<◌, List, [], ◌∷◌, Option, none, some}
use widuino.Base.{◌≡◌, refl, ap, inl, inr, arith, Option-cases}
use widuino.Base.{ltb, if◌then◌else◌, length, get_or, take, drop, All, All-take, All-drop}
use widuino.Base.Words.{IsByte}
use widuino.Base.Outcome.{ok, first_step}
use widuino.Boot.Hex.Text.{scan_lines, decode_string, from_hex_char, pair_digits}
use widuino.Boot.Hex.{Image, blank, put_data, put_record}
use widuino.Boot.Hex.{put_line, put_lines, read_cells, round_up, finish, read_hex}

Every {ℓ κ} : {A : Type ℓ} → (A → Type κ) → Option A → Type κ
Every P none = Unit
Every P (some a) = P a

from_hex_char-lt : (c : ℕ) → Every (λ v. v < 16) (from_hex_char c)
unfolding from_hex_char Every
from_hex_char-lt c = ground arith

pair_digits-IsByte :
    (h l : Option ℕ) (rest : Option (List ℕ))
    → Every (λ v. v < 16) h
    → Every (λ v. v < 16) l
    → Every (All IsByte) rest
    → Every (All IsByte) (pair_digits h l rest)
unfolding Every
pair_digits-IsByte (some hi) (some lo) (some bs) p q r = (omega arith, r)
pair_digits-IsByte _ _ _ p q r = tt

decode_string-Every : (l : List ℕ) → Every (All IsByte) (decode_string l)
unfolding decode_string
decode_string-Every [] = unfold Every in tt
decode_string-Every (h ∷ []) = unfold Every in tt
decode_string-Every (h ∷ l ∷ rest) =
    pair_digits-IsByte (from_hex_char h) (from_hex_char l) (decode_string rest) (from_hex_char-lt h)
      (from_hex_char-lt l) (decode_string-Every rest)

decode_string-IsByte : (l bs : List ℕ) → decode_string l ≡ some bs → All IsByte bs
unfolding Every
decode_string-IsByte l bs e = rw e at (decode_string-Every l)

-- The slice stays within its array, and the array holds bytes.
pub record IsImage (sw : Image) : Type 0 where
  pub fits : sw.size ≤ 65536
  pub bytes : (k : ℕ) → sw.cells k < 256

get_or-IsByte : (bs : List ℕ) (k : ℕ) → All IsByte bs → get_or bs k 0 < 256
get_or-IsByte [] k h = omega arith
get_or-IsByte (b ∷ bs) zero h = h.0
get_or-IsByte (b ∷ bs) (suc k) h = get_or-IsByte bs k h.1

put_data-IsImage :
    (sw : Image) (addr : ℕ) (bs : List ℕ) (sw' : Image)
    → IsImage sw
    → All IsByte bs
    → put_data sw addr bs ≡ ok sw'
    → IsImage sw'
unfolding put_data
put_data-IsImage sw addr bs sw' v h e = record {
  fits = ground (arith, v.fits);
  bytes = λ k. ground (arith, v.bytes k, get_or-IsByte bs (k - addr) h);
}

put_record-IsImage :
    (i : ℕ) (sw : Image) (b : List ℕ) (sw' : Image)
    → IsImage sw
    → All IsByte b
    → put_record i sw b ≡ ok sw'
    → IsImage sw'
put_record-IsImage i sw b sw' v h e =
    unfold put_record in
    ground (
      arith,
      put_data-IsImage sw (get_or b 2 0 + get_or b 1 0 * 256) (take (get_or b 0 0) (drop 4 b)) sw' v
          (All-take IsByte (get_or b 0 0) (drop 4 b) (All-drop IsByte 4 b h)),
    )

put_line-IsImage :
    (i : ℕ) (sw : Image) (l : List ℕ) (sw' : Image)
    → IsImage sw
    → put_line i sw l ≡ ok sw'
    → IsImage sw'
put_line-IsImage i sw [] sw' v e = unfold put_line in ground arith
put_line-IsImage i sw (c ∷ l) sw' v e = elim (Option-cases (decode_string l)) [
  | inl bad ↦ unfold put_line in ground (arith, bad)
  | inr (b, good) ↦
      unfold put_line in
      ground (arith, good, put_record-IsImage i sw b sw' v (decode_string-IsByte l b good))
]

put_lines-IsImage :
    (i : ℕ) (sw : Image) (ls : List (List ℕ)) (sw' : Image)
    → IsImage sw
    → put_lines i sw ls ≡ ok sw'
    → IsImage sw'
unfolding put_lines
put_lines-IsImage i sw [] sw' v e = ground arith
put_lines-IsImage i sw (l ∷ ls) sw' v e =
    let (mid, first, rest) = first_step _ (put_line (i + 1) sw l) e in
    put_lines-IsImage (i + 1) mid ls sw' (put_line-IsImage (i + 1) sw l mid v first) rest

read_cells-IsByte : (f : ℕ → ℕ) (k n : ℕ) → ((j : ℕ) → f j < 256) → All IsByte (read_cells f k n)
read_cells-IsByte f k zero h = tt
read_cells-IsByte f k (suc n) h = (h k, read_cells-IsByte f (suc k) n h)

pub length-read_cells : (f : ℕ → ℕ) (k n : ℕ) → length (read_cells f k n) ≡ n
length-read_cells f k zero = refl
length-read_cells f k (suc n) = ap suc (length-read_cells f (suc k) n)

-- What the boot server serves: whole units of 16 bytes, 64 KB at most.
pub record IsSoftware (sw : List ℕ) : Type 0 where
  pub whole : length sw % 16 ≡ 0
  pub within : length sw ≤ 65536
  pub bytes : All IsByte sw

finish-IsSoftware : (sw : Image) → IsImage sw → IsSoftware (finish sw)
unfolding finish
finish-IsSoftware sw v = record {
  whole = ground (
    arith,
    length-read_cells (λ k. if ltb k sw.size then sw.cells k else 0) 0 (round_up sw.size),
  );
  within = ground (
    arith,
    v.fits,
    length-read_cells (λ k. if ltb k sw.size then sw.cells k else 0) 0 (round_up sw.size),
  );
  bytes = read_cells-IsByte _ 0 _ (λ k. ground (arith, v.bytes k));
}

-- A file that is read comes out as whole units of 16 bytes, at most 64 KB of them.
pub read_hex-IsSoftware : (rd sw : List ℕ) → read_hex rd ≡ ok sw → IsSoftware sw
unfolding read_hex
read_hex-IsSoftware rd sw e =
    let (img, done, e') = first_step _ (put_lines 0 blank (scan_lines rd)) e in
    let v = finish-IsSoftware img (put_lines-IsImage 0 blank (scan_lines rd) img start done) in
    let same : finish img ≡ sw = cc e' in rw same at v
  where
    start : IsImage blank
    start = record { fits = omega arith; bytes = λ k. omega arith }
