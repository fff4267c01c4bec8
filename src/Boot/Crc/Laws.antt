-- ===== src/Boot/Crc/Laws.antt =====
-- The table-driven CRC-16 is the bitwise one, and it tells images apart that differ in one byte.
use widuino.Base.{ℕ, zero, suc, ◌+◌, ◌*◌, ◌/◌, ◌%◌, ◌<◌, List, [], ◌∷◌, ◌++◌, ◌≡◌, ◌≢◌, refl, sym}
use widuino.Base.{ap, ap₂, ◌∙◌, arith, All, ◌==◌, ==_iff, bit_xor, true}
use widuino.Base.Words.{IsByte, IsU16, holds_below, test_below}
use widuino.Base.Xor.{xor_half, xor_parity, xor_comm, xor_assoc, xor_self, xor-zero}
use widuino.Base.Xor.{xor_cancel, xor_exchange, xor_width, xor_fields, xor_eq_zero}
use widuino.Boot.Crc.{table_at, crc_byte, crc_loop, crc16, crc_bit, crc_bits, crc_loop_b, crc16_b}

-- The polynomial, if the digit shifted out is 1.
abbrev poly : ℕ → ℕ
poly zero = 0
poly (suc n) = 0xA001

crc_bit-poly : (c : ℕ) → crc_bit c ≡ bit_xor (c / 2) (poly (c % 2))
unfolding crc_bit
crc_bit-poly c = ground (arith, xor-zero (c / 2))

poly_parity : (x y : ℕ) → x < 2 → y < 2 → poly ((x + y) % 2) ≡ bit_xor (poly x) (poly y)
poly_parity zero zero p q = refl
poly_parity zero (suc zero) p q = refl
poly_parity (suc zero) zero p q = refl
poly_parity (suc zero) (suc zero) p q = refl
poly_parity zero (suc (suc y)) p q = absurd (omega arith)
poly_parity (suc zero) (suc (suc y)) p q = absurd (omega arith)
poly_parity (suc (suc x)) y p q = absurd (omega arith)

poly_xor : (a b : ℕ) → poly (bit_xor a b % 2) ≡ bit_xor (poly (a % 2)) (poly (b % 2))
poly_xor a b =
    ap poly (let e : bit_xor a b % 2 ≡ (a % 2 + b % 2) % 2 = omega (arith, xor_parity a b) in e)
    ∙ poly_parity (a % 2) (b % 2) (omega arith) (omega arith)

crc_bit-xor : (a b : ℕ) → crc_bit (bit_xor a b) ≡ bit_xor (crc_bit a) (crc_bit b)
crc_bit-xor a b =
    crc_bit-poly (bit_xor a b)
    ∙ ap₂ bit_xor (xor_half a b) (poly_xor a b)
    ∙ xor_exchange (a / 2) (b / 2) (poly (a % 2)) (poly (b % 2))
    ∙ sym (ap₂ bit_xor (crc_bit-poly a) (crc_bit-poly b))

crc_bits-xor : (n a b : ℕ) → crc_bits n (bit_xor a b) ≡ bit_xor (crc_bits n a) (crc_bits n b)
unfolding crc_bits
crc_bits-xor zero a b = refl
crc_bits-xor (suc n) a b =
    ap (crc_bits n) (crc_bit-xor a b) ∙ crc_bits-xor n (crc_bit a) (crc_bit b)

crc_bit-even : (m : ℕ) → crc_bit (m * 2) ≡ m
unfolding crc_bit
crc_bit-even m = ground arith

-- Four steps drop four digits that are 0.
crc_bits-high : (q : ℕ) → crc_bits 4 (q * 16) ≡ q
unfolding crc_bits
crc_bits-high q =
    ap (λ t. crc_bit (crc_bit (crc_bit t))) (step (q * 16) (q * 8) (omega arith))
    ∙ ap (λ t. crc_bit (crc_bit t)) (step (q * 8) (q * 4) (omega arith))
    ∙ ap crc_bit (step (q * 4) (q * 2) (omega arith))
    ∙ crc_bit-even q
  where
    step : (x y : ℕ) → x ≡ y * 2 → crc_bit x ≡ y
    step x y e = ap crc_bit e ∙ crc_bit-even y

nibble_table : holds_below (λ r. crc_bits 4 r == table_at r) 16 ≡ true
unfolding holds_below crc_bits crc_bit
nibble_table = refl

crc_bits-low : (r : ℕ) → r < 16 → crc_bits 4 r ≡ table_at r
crc_bits-low r h = (==_iff _ _).0 (test_below _ 16 r h nibble_table)

-- A table lookup is worth four steps.
crc_bits-nibble : (c : ℕ) → crc_bits 4 c ≡ bit_xor (c / 16) (table_at (c % 16))
crc_bits-nibble c =
    ap (crc_bits 4) split
    ∙ crc_bits-xor 4 (c / 16 * 16) (c % 16)
    ∙ ap₂ bit_xor (crc_bits-high (c / 16)) (crc_bits-low (c % 16) (omega arith))
  where
    split : c ≡ bit_xor (c / 16 * 16) (c % 16)
    split = omega (arith, xor_fields 4 (c / 16) (c % 16) (omega arith))

crc_bits-eight : (x : ℕ) → crc_bits 8 x ≡ crc_bits 4 (crc_bits 4 x)
unfolding crc_bits
crc_bits-eight x = refl

crc_byte-bits : (crc b : ℕ) → IsByte b → crc_byte crc b ≡ crc_bits 8 (bit_xor crc b)
unfolding crc_byte
crc_byte-bits crc b h = sym (
    crc_bits-eight (bit_xor crc b)
    ∙ ap (crc_bits 4) first
    ∙ crc_bits-xor 4 low (b / 16)
    ∙ ap₂ bit_xor (crc_bits-nibble low) (crc_bits-low (b / 16) (omega arith)))
  where
    low : ℕ
    low = bit_xor (bit_xor (crc / 16) (table_at (crc % 16))) (table_at (b % 16))

    first : crc_bits 4 (bit_xor crc b) ≡ bit_xor low (b / 16)
    first =
        crc_bits-xor 4 crc b
        ∙ ap₂ bit_xor (crc_bits-nibble crc)
            (crc_bits-nibble b ∙ xor_comm (b / 16) (table_at (b % 16)))
        ∙ sym (xor_assoc (bit_xor (crc / 16) (table_at (crc % 16))) (table_at (b % 16)) (b / 16))

crc_loop-reference : (crc : ℕ) (sw : List ℕ) → All IsByte sw → crc_loop crc sw ≡ crc_loop_b crc sw
unfolding crc_loop crc_loop_b
crc_loop-reference crc [] h = refl
crc_loop-reference crc (b ∷ sw) h =
    ap (λ c. crc_loop c sw) (crc_byte-bits crc b h.0)
    ∙ crc_loop-reference (crc_bits 8 (bit_xor crc b)) sw h.1

-- On every image of bytes, `Crc16` with its table of nibbles returns what the bit-by-bit reference
-- implementation returns.
pub crc16-reference : (sw : List ℕ) → All IsByte sw → crc16 sw ≡ crc16_b sw
unfolding crc16 crc16_b
crc16-reference sw h = crc_loop-reference 0xFFFF sw h

poly-IsU16 : (x : ℕ) → poly x < 65536
poly-IsU16 zero = omega arith
poly-IsU16 (suc x) = omega arith

crc_bit-IsU16 : (c : ℕ) → IsU16 c → IsU16 (crc_bit c)
crc_bit-IsU16 c h =
    omega (arith, crc_bit-poly c, xor_width 16 (c / 2) (poly (c % 2)) (omega arith) (poly-IsU16 _))

pub crc_bits-IsU16 : (n c : ℕ) → IsU16 c → IsU16 (crc_bits n c)
unfolding crc_bits
crc_bits-IsU16 zero c h = h
crc_bits-IsU16 (suc n) c h = crc_bits-IsU16 n (crc_bit c) (crc_bit-IsU16 c h)

-- The polynomial's top digit is 1, so a step loses nothing.
crc_bit-zero : (c : ℕ) → IsU16 c → crc_bit c ≡ 0 → c ≡ 0
unfolding crc_bit
crc_bit-zero c h e = ground (arith, xor_eq_zero (c / 2) 0xA001)

crc_bits-zero : (n c : ℕ) → IsU16 c → crc_bits n c ≡ 0 → c ≡ 0
unfolding crc_bits
crc_bits-zero zero c h e = e
crc_bits-zero (suc n) c h e = crc_bit-zero c h (crc_bits-zero n (crc_bit c) (crc_bit-IsU16 c h) e)

crc_bits_injective : (n a b : ℕ) → IsU16 a → IsU16 b → crc_bits n a ≡ crc_bits n b → a ≡ b
crc_bits_injective n a b p q e = xor_eq_zero a b (
    crc_bits-zero n (bit_xor a b) (xor_width 16 a b p q)
      (crc_bits-xor n a b ∙ ap (λ t. bit_xor t (crc_bits n b)) e ∙ xor_self (crc_bits n b)))

crc_byte-IsU16 : (crc b : ℕ) → IsU16 crc → IsByte b → IsU16 (crc_byte crc b)
crc_byte-IsU16 crc b p q =
    let w = crc_bits-IsU16 8 (bit_xor crc b) (xor_width 16 crc b p (omega arith)) in
    omega (arith, crc_byte-bits crc b q)

crc_loop-IsU16 : (crc : ℕ) (sw : List ℕ) → IsU16 crc → All IsByte sw → IsU16 (crc_loop crc sw)
unfolding crc_loop
crc_loop-IsU16 crc [] p q = p
crc_loop-IsU16 crc (b ∷ sw) p q =
    crc_loop-IsU16 (crc_byte crc b) sw (crc_byte-IsU16 crc b p q.0) q.1

pub crc16-IsU16 : (sw : List ℕ) → All IsByte sw → IsU16 (crc16 sw)
unfolding crc16
crc16-IsU16 sw h = crc_loop-IsU16 0xFFFF sw (omega arith) h

xor_right_injective : (a b c : ℕ) → bit_xor a c ≡ bit_xor b c → a ≡ b
xor_right_injective a b c e = sym (xor_cancel a c) ∙ ap (λ t. bit_xor t c) e ∙ xor_cancel b c

crc_loop_injective :
    (a b : ℕ) (sw : List ℕ)
    → IsU16 a
    → IsU16 b
    → All IsByte sw
    → crc_loop a sw ≡ crc_loop b sw
    → a ≡ b
unfolding crc_loop
crc_loop_injective a b [] p q h e = e
crc_loop_injective a b (x ∷ sw) p q h e =
    let step : crc_byte a x ≡ crc_byte b x =
      crc_loop_injective (crc_byte a x) (crc_byte b x) sw (crc_byte-IsU16 a x p h.0)
        (crc_byte-IsU16 b x q h.0) h.1 e in
    xor_right_injective a b x (
      crc_bits_injective 8 (bit_xor a x) (bit_xor b x) (xor_width 16 a x p (omega (arith, h.0)))
        (xor_width 16 b x q (omega (arith, h.0)))
        (sym (crc_byte-bits a x h.0) ∙ step ∙ crc_byte-bits b x h.0))

crc_byte_injective :
    (c x y : ℕ) → IsU16 c → IsByte x → IsByte y → crc_byte c x ≡ crc_byte c y → x ≡ y
crc_byte_injective c x y p hx hy e = xor_right_injective x y c (xor_comm x c ∙ inner ∙ xor_comm c y)
  where
    inner : bit_xor c x ≡ bit_xor c y
    inner =
        crc_bits_injective 8 (bit_xor c x) (bit_xor c y) (xor_width 16 c x p (omega arith))
          (xor_width 16 c y p (omega arith)) (sym (crc_byte-bits c x hx) ∙ e ∙ crc_byte-bits c y hy)

crc_loop-append : (c : ℕ) (xs ys : List ℕ) → crc_loop c (xs ++ ys) ≡ crc_loop (crc_loop c xs) ys
unfolding crc_loop
crc_loop-append c [] ys = refl
crc_loop-append c (x ∷ xs) ys = crc_loop-append (crc_byte c x) xs ys

-- Two images of bytes that differ in exactly one byte have different checksums.
crc16_detects_byte :
    (before after : List ℕ) (x y : ℕ)
    → All IsByte before
    → All IsByte after
    → IsByte x
    → IsByte y
    → x ≢ y
    → crc16 (before ++ (x ∷ after)) ≢ crc16 (before ++ (y ∷ after))
unfolding crc16
crc16_detects_byte before after x y hb ha hx hy ne e = ne (
    crc_byte_injective c x y c_fits hx hy (
      crc_loop_injective (crc_byte c x) (crc_byte c y) after (crc_byte-IsU16 c x c_fits hx)
        (crc_byte-IsU16 c y c_fits hy) ha tails))
  where
    c : ℕ
    c = crc_loop 0xFFFF before

    c_fits : IsU16 c
    c_fits = crc_loop-IsU16 0xFFFF before (omega arith) hb

    tails : crc_loop (crc_byte c x) after ≡ crc_loop (crc_byte c y) after
    tails =
        unfold crc_loop in
        (sym (crc_loop-append 0xFFFF before (x ∷ after))
          ∙ e
          ∙ crc_loop-append 0xFFFF before (y ∷ after))
