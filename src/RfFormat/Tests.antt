-- ===== src/RfFormat/Tests.antt =====
-- The theorem on the text of messages at a small one.
use widuino.Base.{ℕ, List, [], ◌∷◌, All, refl, arith, false, ◌≡◌}
use widuino.Base.Int.{pos}
use widuino.Gears.{RfMessage}
use widuino.RfFormat.{rf_format}
use widuino.RfFormat.Line.{IsPrintable, rf_format-IsPrintable}

-- A water level, with a stand-in for the text of a voltage.
abbrev level : RfMessage
level = record {
  at = pos 7;
  group = 212;
  node = 3;
  do_ack = false;
  kind = 7;
  payload = 1 ∷ 2 ∷ 255 ∷ 3 ∷ [];
}

abbrev nothing : ℕ → List ℕ
nothing v = b'-' ∷ []

rf_format-IsPrintable_example : All IsPrintable (rf_format nothing level)
rf_format-IsPrintable_example =
    rf_format-IsPrintable nothing (λ v. ((omega arith, omega arith), tt)) level
      (omega arith, (omega arith, (omega arith, (omega arith, tt)))) refl

text :
    rf_format nothing level
    ≡ b'W' ∷ b'a' ∷ b't' ∷ b'e' ∷ b'r' ∷ b' ' ∷ b'l' ∷ b'e' ∷ b'v' ∷ b'e' ∷ b'l' ∷ b's' ∷ b':'
      ∷ b' ' ∷ b'-' ∷ b'V' ∷ b' ' ∷ b'-' ∷ b'V' ∷ []
unfolding rf_format
text = refl
