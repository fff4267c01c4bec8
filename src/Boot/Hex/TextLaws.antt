-- ===== src/Boot/Hex/TextLaws.antt =====
-- The scanner and the digit decoder invert the writer.
use widuino.Base.{ℕ, ◌+◌, ◌*◌, ◌/◌, ◌%◌, ◌<◌, List, [], ◌∷◌, ◌++◌, Option, none, some}
use widuino.Base.{Bool, true, false, ◌≡◌, ◌≢◌, refl, ap, ◌∙◌, arith, append-nil, append_assoc}
use widuino.Base.{◌==◌, length, All}
use widuino.Base.Words.{IsByte, holds_below, test_below}
use widuino.Boot.Hex.Text.{drop_cr, scan_from, scan_lines, from_hex_char, decode_string}
use widuino.Boot.Hex.Writer.{to_hex_char, encode_string, as_text}

abbrev is_digit_value : ℕ → Option ℕ → Bool
is_digit_value d none = false
is_digit_value d (some v) = d == v

digit_table : holds_below (λ d. is_digit_value d (from_hex_char (to_hex_char d))) 16 ≡ true
unfolding holds_below from_hex_char
digit_table = refl

is_digit_value→eq : (d : ℕ) (o : Option ℕ) → is_digit_value d o ≡ true → o ≡ some d
is_digit_value→eq d none h = cc
is_digit_value→eq d (some v) h = ground arith

from_hex_char-to_hex_char : (d : ℕ) → d < 16 → from_hex_char (to_hex_char d) ≡ some d
from_hex_char-to_hex_char d h = is_digit_value→eq d _ (test_below _ 16 d h digit_table)

decode_string_pair :
    (h l hi lo : ℕ) (rest bs : List ℕ)
    → from_hex_char h ≡ some hi
    → from_hex_char l ≡ some lo
    → decode_string rest ≡ some bs
    → decode_string (h ∷ l ∷ rest) ≡ some ((hi * 16 + lo) ∷ bs)
unfolding decode_string
decode_string_pair h l hi lo rest bs p q r = ground arith

pub decode_string-encode_string :
    (bs : List ℕ) → All IsByte bs → decode_string (encode_string bs) ≡ some bs
decode_string-encode_string [] h = unfold decode_string in refl
decode_string-encode_string (b ∷ bs) h =
    decode_string_pair _ _ (b / 16) (b % 16) _ bs
      (from_hex_char-to_hex_char (b / 16) (omega (arith, h.0)))
      (from_hex_char-to_hex_char (b % 16) (omega arith)) (decode_string-encode_string bs h.1)
    ∙ ap (λ (t : ℕ). some (t ∷ bs)) (let e : b / 16 * 16 + b % 16 ≡ b = omega arith in e)

-- A character that neither ends a line nor is dropped at its end.
abbrev pub IsPlain : ℕ → Type 0
IsPlain c = (c ≢ 10) × (c ≢ 13)

to_hex_char-IsPlain : (d : ℕ) → d < 16 → IsPlain (to_hex_char d)
to_hex_char-IsPlain d h = ground arith

pub encode_string-IsPlain : (bs : List ℕ) → All IsByte bs → All IsPlain (encode_string bs)
encode_string-IsPlain [] h = tt
encode_string-IsPlain (b ∷ bs) h = (
  to_hex_char-IsPlain (b / 16) (omega (arith, h.0)),
  (to_hex_char-IsPlain (b % 16) (omega arith), encode_string-IsPlain bs h.1),
)

pub length-encode_string : (bs : List ℕ) → length (encode_string bs) ≡ 2 * length bs
length-encode_string [] = refl
length-encode_string (b ∷ bs) = omega (arith, length-encode_string bs)

drop_cr-plain : (l : List ℕ) → All IsPlain l → drop_cr l ≡ l
unfolding drop_cr
drop_cr-plain [] h = refl
drop_cr-plain (c ∷ []) h = ground (arith, h.0.1)
drop_cr-plain (c ∷ d ∷ l) h = ap (◌∷◌ c) (drop_cr-plain (d ∷ l) h.1)

scan_from-line :
    (cur : List ℕ) (n : ℕ) (l rest : List ℕ)
    → All IsPlain l
    → n + length l < 65536
    → scan_from cur n (l ++ (10 ∷ rest)) ≡ drop_cr (cur ++ l) ∷ scan_from [] 0 rest
unfolding scan_from
scan_from-line cur n [] rest h fits = rw append-nil (ground arith)
scan_from-line cur n (c ∷ l) rest h fits = ground (
  arith,
  h.0.0,
  scan_from-line (cur ++ (c ∷ [])) (n + 1) l rest h.1 (omega arith),
  append_assoc cur (c ∷ []) l,
)

abbrev pub IsLine : List ℕ → Type 0
IsLine l = All IsPlain l × (length l < 65536)

-- The scanner gives back the lines that were written.
pub scan_lines-as_text : (ls : List (List ℕ)) → All IsLine ls → scan_lines (as_text ls) ≡ ls
unfolding scan_lines as_text
scan_lines-as_text [] h = refl
scan_lines-as_text (l ∷ ls) h =
    scan_from-line [] 0 l (as_text ls) h.0.0 (omega (arith, h.0.1))
    ∙ ap (λ t. t ∷ scan_from [] 0 (as_text ls)) (drop_cr-plain l h.0.0)
    ∙ ap (◌∷◌ l) (scan_lines-as_text ls h.1)
