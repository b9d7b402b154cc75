-- ===== src/Reader/Tagged.antt =====
-- src/reader.rs: reading of types and of packed tags.
pub mod Safety
use blaze_pk_rs.Prelude.{ℕ, ◌*◌, ◌/◌, ◌%◌, ◌^◌, bit_and, bit_or}
use blaze_pk_rs.Tag.{Tag, TdfType, Tagged}
use blaze_pk_rs.Tag.Code.{try_from}
use blaze_pk_rs.Reader.{Reader, ◌>>=◌, pure, lift, read_byte, read_byte_4, Bytes4}

-- `byte << k` on a `u8`.
abbrev pub shl8 : ℕ → ℕ → ℕ
shl8 byte k = byte * 2 ^ k % 256

unfoldable pub read_type : Reader TdfType
read_type = do value ← read_byte; lift (try_from value)

-- The four characters in the first three bytes of a tag.
unfoldable pub unpack : Bytes4 → Tag
unpack (i0, i1, i2, i3) = record {
  at0 =
      bit_or
        (bit_or (bit_or (bit_or 0 (bit_and i0 0x80 / 2)) (bit_and i0 0x40 / 4))
          (bit_and i0 0x30 / 4))
        (bit_and i0 0x0c / 4);
  at1 =
      bit_or (bit_or (bit_or 0 (shl8 (bit_and i0 0x02) 5)) (shl8 (bit_and i0 0x01) 4))
        (bit_and i1 0xf0 / 16);
  at2 =
      bit_or
        (bit_or (bit_or (bit_or 0 (shl8 (bit_and i1 0x08) 3)) (shl8 (bit_and i1 0x04) 2))
          (shl8 (bit_and i1 0x03) 2))
        (bit_and i2 0xc0 / 64);
  at3 = bit_or (bit_or 0 (shl8 (bit_and i2 0x20) 1)) (bit_and i2 0x1f);
}

unfoldable pub read_tag : Reader Tagged
unfolding unpack
read_tag = read_byte_4 >>= λ input.
    lift (try_from input.3) >>= λ ty. pure (record { tag = unpack input; ty = ty })
