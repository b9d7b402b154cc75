-- ===== src/TagFormat/Pack.antt =====
-- `TdfWriter::tag` writes the six bits of its four characters as a number of 24 bits.
use blaze_pk_rs.Prelude.{
  ℕ, zero, suc, ◌+◌, ◌*◌, ◌/◌, ◌%◌, ◌^◌, ◌<◌, ◌≡◌, refl, ◌∙◌, List, [], ◌∷◌, bit_and, bit_or,
  length, arith, All, get_or,
}
use blaze_pk_rs.Prelude.Bits.{bit_or_below, same_below, same_below_lem}
use blaze_pk_rs.Reader.Tagged.{shl8}
use blaze_pk_rs.Writer.Tagged.{pack}
use blaze_pk_rs.TagFormat.{six}

pub join : (k q r : ℕ) {x y : ℕ} → x ≡ q * 2 ^ k → y ≡ r → r < 2 ^ k → bit_or x y ≡ q * 2 ^ k + r
join k q r e e' h = rw (e, e') (bit_or_below k q r h)

first_part :
    (c : ℕ)
    → c < 256
    → bit_or
        (bit_or (bit_or 0 (shl8 (bit_and c 0x40) 1)) (shl8 (bit_and c 0x10) 2))
        (shl8 (bit_and c 0x0f) 2)
      ≡ six c * 4
unfolding same_below
first_part = same_below_lem _ _ 256 refl

second_part : (c : ℕ) → c < 256 → bit_or 0 (shl8 (bit_and c 0x0f) 4) ≡ c % 16 * 16
unfolding same_below
second_part = same_below_lem _ _ 256 refl

third_part : (c : ℕ) → c < 256 → bit_or 0 (shl8 (bit_and c 0x03) 6) ≡ c % 4 * 64
unfolding same_below
third_part = same_below_lem _ _ 256 refl

bit_6 : (c : ℕ) → c < 256 → bit_and c 0x40 ≡ c / 64 % 2 * 64
unfolding same_below
bit_6 = same_below_lem _ _ 256 refl

bit_4 : (c : ℕ) → c < 256 → bit_and c 0x10 ≡ c / 16 % 2 * 16
unfolding same_below
bit_4 = same_below_lem _ _ 256 refl

bits_3_2 : (c : ℕ) → c < 256 → bit_and c 0x0c ≡ c / 4 % 4 * 4
unfolding same_below
bits_3_2 = same_below_lem _ _ 256 refl

low_five : (c : ℕ) → c < 256 → bit_and c 0x1f ≡ c % 32
unfolding same_below
low_five = same_below_lem _ _ 256 refl

-- The first byte, from two characters.
byte_0 :
    (s b : ℕ)
    → b < 256
    → bit_or (bit_or (s * 4) (bit_and b 0x40 / 32)) (bit_and b 0x10 / 16) ≡ s * 4 + six b / 16
byte_0 s b h =
    let inner =
      join 2 s (b / 64 % 2 * 2) {x = s * 4} {y = bit_and b 0x40 / 32} (omega arith)
        (omega (arith, bit_6 b h)) (omega arith) in
    join 1 (s * 2 + b / 64 % 2) (b / 16 % 2) (omega (arith, inner)) (omega (arith, bit_4 b h))
      (omega arith)
    ∙ omega arith

byte_1 :
    (q b : ℕ)
    → b < 256
    → bit_or
        (bit_or (bit_or (q * 16) (bit_and b 0x40 / 8)) (bit_and b 0x10 / 4))
        (bit_and b 0x0c / 4)
      ≡ q * 16 + six b / 4
byte_1 q b h =
    let one =
      join 4 q (b / 64 % 2 * 8) {x = q * 16} {y = bit_and b 0x40 / 8} (omega arith)
        (omega (arith, bit_6 b h)) (omega arith) in
    let two =
      join 3 (q * 2 + b / 64 % 2) (b / 16 % 2 * 4) {x = bit_or (q * 16) (bit_and b 0x40 / 8)}
        {y = bit_and b 0x10 / 4} (omega (arith, one)) (omega (arith, bit_4 b h)) (omega arith) in
    join 2 (q * 4 + b / 64 % 2 * 2 + b / 16 % 2) (b / 4 % 4) (omega (arith, two))
      (omega (arith, bits_3_2 b h)) (omega arith)
    ∙ omega arith

byte_2 :
    (q b : ℕ)
    → b < 256
    → bit_or (bit_or (q * 64) (bit_and b 0x40 / 2)) (bit_and b 0x1f) ≡ q * 64 + six b
byte_2 q b h =
    let one =
      join 6 q (b / 64 % 2 * 32) {x = q * 64} {y = bit_and b 0x40 / 2} (omega arith)
        (omega (arith, bit_6 b h)) (omega arith) in
    join 5 (q * 2 + b / 64 % 2) (b % 32) (omega (arith, one)) (low_five b h) (omega arith)
    ∙ omega arith

pub IsByte-get_or : (tag : List ℕ) (i : ℕ) → All (λ b. b < 256) tag → get_or tag i 0 < 256
IsByte-get_or [] i h = omega arith
IsByte-get_or (b ∷ tag) zero h = h.0
IsByte-get_or (b ∷ tag) (suc i) h = IsByte-get_or tag i h.1

-- The four bytes, in plain arithmetic.
abbrev pub packed : ℕ → ℕ → ℕ → ℕ → ℕ → List ℕ
packed a b c d ty =
    (six a * 4 + six b / 16) ∷ (six b % 16 * 16 + six c / 4) ∷ (six c % 4 * 64 + six d) ∷ ty ∷ []

pub pack_lem :
    (tag : List ℕ) (ty : ℕ)
    → All (λ b. b < 256) tag
    → pack tag ty ≡ packed (get_or tag 0 0) (get_or tag 1 0) (get_or tag 2 0) (get_or tag 3 0) ty
unfolding pack
pack_lem [] ty h = refl
pack_lem (a ∷ []) ty h = ground (arith, first_part a h.0)
pack_lem (a ∷ b ∷ []) ty h =
    ground (arith, first_part a h.0, byte_0 (six a) b h.1.0, second_part b h.1.0)
pack_lem (a ∷ b ∷ c ∷ []) ty h = ground (
  arith,
  first_part a h.0,
  byte_0 (six a) b h.1.0,
  second_part b h.1.0,
  byte_1 (b % 16) c h.1.1.0,
  third_part c h.1.1.0,
)
pack_lem (a ∷ b ∷ c ∷ d ∷ rest) ty h = ground (
  arith,
  first_part a h.0,
  byte_0 (six a) b h.1.0,
  second_part b h.1.0,
  byte_1 (b % 16) c h.1.1.0,
  third_part c h.1.1.0,
  byte_2 (c % 4) d h.1.1.1.0,
)

pub length-pack : (tag : List ℕ) (value_type : ℕ) → length (pack tag value_type) ≡ 4
unfolding pack
length-pack tag value_type = refl
