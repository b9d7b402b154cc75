-- ===== src/TagFormat/Unpack.antt =====
-- `TdfReader::read_tag` takes four characters of six bits from the first three bytes.
use blaze_pk_rs.Prelude.{ℕ, ◌+◌, ◌*◌, ◌/◌, ◌%◌, ◌<◌, ◌≡◌, refl, ◌∙◌, bit_and, bit_or, arith}
use blaze_pk_rs.Prelude.Bits.{same_below, same_below_lem}
use blaze_pk_rs.Reader.Tagged.{shl8, unpack}
use blaze_pk_rs.TagFormat.{character}
use blaze_pk_rs.TagFormat.Pack.{join}

char_0 :
    (i : ℕ)
    → i < 256
    → bit_or
        (bit_or (bit_or (bit_or 0 (bit_and i 0x80 / 2)) (bit_and i 0x40 / 4)) (bit_and i 0x30 / 4))
        (bit_and i 0x0c / 4)
      ≡ character (i / 4)
unfolding same_below
char_0 = same_below_lem _ _ 256 refl

high_1 :
    (i : ℕ)
    → i < 256
    → bit_or (bit_or 0 (shl8 (bit_and i 0x02) 5)) (shl8 (bit_and i 0x01) 4)
      ≡ (i / 2 % 2 * 4 + i % 2) * 16
unfolding same_below
high_1 = same_below_lem _ _ 256 refl

low_1 : (i : ℕ) → i < 256 → bit_and i 0xf0 / 16 ≡ i / 16
unfolding same_below
low_1 = same_below_lem _ _ 256 refl

high_2 :
    (i : ℕ)
    → i < 256
    → bit_or
        (bit_or (bit_or 0 (shl8 (bit_and i 0x08) 3)) (shl8 (bit_and i 0x04) 2))
        (shl8 (bit_and i 0x03) 2)
      ≡ (i / 8 % 2 * 16 + i % 8) * 4
unfolding same_below
high_2 = same_below_lem _ _ 256 refl

low_2 : (i : ℕ) → i < 256 → bit_and i 0xc0 / 64 ≡ i / 64
unfolding same_below
low_2 = same_below_lem _ _ 256 refl

char_3 :
    (i : ℕ)
    → i < 256
    → bit_or (bit_or 0 (shl8 (bit_and i 0x20) 1)) (bit_and i 0x1f) ≡ character (i % 64)
unfolding same_below
char_3 = same_below_lem _ _ 256 refl

-- The four groups of six bits, each as its character.
pub unpack_lem :
    (a b c ty : ℕ)
    → a < 256
    → b < 256
    → c < 256
    → unpack (a, b, c, ty) ≡ record {
      at0 = character (a / 4);
      at1 = character (a % 4 * 16 + b / 16);
      at2 = character (b % 16 * 4 + c / 64);
      at3 = character (c % 64);
    }
unfolding unpack
unpack_lem a b c ty ha hb hc =
    λ i. record { at0 = char_0 a ha i; at1 = one i; at2 = two i; at3 = char_3 c hc i }
  where
    one :
        bit_or
          (bit_or (bit_or 0 (shl8 (bit_and a 0x02) 5)) (shl8 (bit_and a 0x01) 4))
          (bit_and b 0xf0 / 16)
        ≡ character (a % 4 * 16 + b / 16)
    one =
        join 4 (a / 2 % 2 * 4 + a % 2) (b / 16) (high_1 a ha) (low_1 b hb) (omega arith)
        ∙ omega arith

    two :
        bit_or
          (bit_or
            (bit_or (bit_or 0 (shl8 (bit_and b 0x08) 3)) (shl8 (bit_and b 0x04) 2))
            (shl8 (bit_and b 0x03) 2))
          (bit_and c 0xc0 / 64)
        ≡ character (b % 16 * 4 + c / 64)
    two =
        join 2 (b / 8 % 2 * 16 + b % 8) (c / 64) (high_2 b hb) (low_2 c hc) (omega arith)
        ∙ omega arith
