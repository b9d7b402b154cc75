-- ===== src/Types/Numbers.antt =====
-- src/types.rs: the codecs of numbers and of Booleans, the macro `forward_codec` for signed
-- integers, and f32, whose values are their 32 bits.
pub mod Laws
pub mod Widths
use blaze_pk_rs.Prelude.{ℕ, ◌+◌, ◌-◌, ◌*◌, ◌/◌, ◌%◌, ◌^◌, List, [], ◌∷◌, Bool, ltb, if◌then◌else◌}
use blaze_pk_rs.Prelude.Int.{ℤ, pos, negsuc}
use blaze_pk_rs.Tag.{TdfType}
use blaze_pk_rs.Reader.{Reader, ◌>>=◌, pure, read_byte_4, Bytes4}
use blaze_pk_rs.Reader.VarInt.{read_u8, read_u16, read_u32, read_u64, read_usize, read_bool}
use blaze_pk_rs.Writer.{Writer, write_slice, write_bool}
use blaze_pk_rs.Writer.VarInt.{write_u8, write_u16, write_u32, write_u64, write_usize}
use blaze_pk_rs.Codec.{Codec}

abbrev pub u8_codec : Codec ℕ
u8_codec = record { encode = write_u8; decode = read_u8; value_type = TdfType.var_int; size_of = 1 }

abbrev pub u16_codec : Codec ℕ
u16_codec = record {
  encode = write_u16;
  decode = read_u16;
  value_type = TdfType.var_int;
  size_of = 2;
}

abbrev pub u32_codec : Codec ℕ
u32_codec = record {
  encode = write_u32;
  decode = read_u32;
  value_type = TdfType.var_int;
  size_of = 4;
}

abbrev pub u64_codec : Codec ℕ
u64_codec = record {
  encode = write_u64;
  decode = read_u64;
  value_type = TdfType.var_int;
  size_of = 8;
}

abbrev pub usize_codec : Codec ℕ
usize_codec = record {
  encode = write_usize;
  decode = read_usize;
  value_type = TdfType.var_int;
  size_of = 8;
}

abbrev pub bool_codec : Codec Bool
bool_codec = record {
  encode = write_bool;
  decode = read_bool;
  value_type = TdfType.var_int;
  size_of = 1;
}

-- A signed integer of `w` bits as an unsigned one, `*self as $b`.
unfoldable pub to_unsigned : ℕ → ℤ → ℕ
to_unsigned w (pos n) = n % 2 ^ w
to_unsigned w (negsuc n) = 2 ^ w - 1 - n % 2 ^ w

-- The other way, `as $a`.
unfoldable pub to_signed : ℕ → ℕ → ℤ
to_signed w n = if ltb n (2 ^ (w - 1)) then pos n else negsuc (2 ^ w - 1 - n)

-- `forward_codec!` for a signed type of `w` bits, to the unsigned type of `c`.
unfoldable pub forward_codec : ℕ → Codec ℕ → Codec ℤ
unfolding to_unsigned to_signed
forward_codec w c = record {
  encode = λ value. c.encode (to_unsigned w value);
  decode = c.decode >>= λ value. pure (to_signed w value);
  value_type = c.value_type;
  size_of = c.size_of;
}

unfoldable pub i8_codec : Codec ℤ
unfolding forward_codec
i8_codec = forward_codec 8 u8_codec

unfoldable pub i16_codec : Codec ℤ
unfolding forward_codec
i16_codec = forward_codec 16 u16_codec

unfoldable pub i32_codec : Codec ℤ
unfolding forward_codec
i32_codec = forward_codec 32 u32_codec

unfoldable pub i64_codec : Codec ℤ
unfolding forward_codec
i64_codec = forward_codec 64 u64_codec

unfoldable pub isize_codec : Codec ℤ
unfolding forward_codec
isize_codec = forward_codec 64 usize_codec

unfoldable pub write_f32 : ℕ → Writer
write_f32 bits =
    write_slice
      ((bits / 2 ^ 24 % 256) ∷ (bits / 2 ^ 16 % 256) ∷ (bits / 2 ^ 8 % 256) ∷ (bits % 256) ∷ [])

-- `f32::from_be_bytes`
unfoldable pub from_be_bytes : Bytes4 → ℕ
from_be_bytes (a, b, c, d) = a * 2 ^ 24 + b * 2 ^ 16 + c * 2 ^ 8 + d

unfoldable pub read_f32 : Reader ℕ
unfolding from_be_bytes
read_f32 = read_byte_4 >>= λ bytes. pure (from_be_bytes bytes)

abbrev pub f32_codec : Codec ℕ
f32_codec = record {
  encode = write_f32;
  decode = read_f32;
  value_type = TdfType.float;
  size_of = 4;
}
