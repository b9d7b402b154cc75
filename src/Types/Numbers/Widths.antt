-- ===== src/Types/Numbers/Widths.antt =====
-- All integer types that src/types.rs declares to be variable length integers, at once.
use blaze_pk_rs.Prelude.{ℕ, ◌<◌, ◌^◌}
use blaze_pk_rs.Prelude.Int.{ℤ}
use blaze_pk_rs.Codec.{Codec}
use blaze_pk_rs.Types.Numbers.{
  u8_codec, u16_codec, u32_codec, u64_codec, usize_codec, i8_codec, i16_codec, i32_codec, i64_codec,
  isize_codec,
}
use blaze_pk_rs.Types.Numbers.Laws.{
  VarIntLawful, InRange, u8-IsVarInt, u16-IsVarInt, u32-IsVarInt, u64-IsVarInt, usize-IsVarInt,
  i8-IsVarInt, i16-IsVarInt, i32-IsVarInt, i64-IsVarInt, isize-IsVarInt,
}

-- The widths of integer types.
pub data Width : Type 0 where
  width_8 width_16 width_32 width_64 width_size : Width

abbrev pub bits : Width → ℕ
bits width_8 = 8
bits width_16 = 16
bits width_32 = 32
bits width_64 = 64
bits width_size = 64

-- u8, u16, u32, u64 and usize.
abbrev pub unsigned_codec : Width → Codec ℕ
unsigned_codec width_8 = u8_codec
unsigned_codec width_16 = u16_codec
unsigned_codec width_32 = u32_codec
unsigned_codec width_64 = u64_codec
unsigned_codec width_size = usize_codec

-- i8, i16, i32, i64 and isize.
abbrev pub signed_codec : Width → Codec ℤ
signed_codec width_8 = i8_codec
signed_codec width_16 = i16_codec
signed_codec width_32 = i32_codec
signed_codec width_64 = i64_codec
signed_codec width_size = isize_codec

-- Every value of u8, u16, u32, u64 and usize is written as a variable length integer, and decoded to
-- itself.
pub unsigned-VarIntLawful : (w : Width) (v : ℕ) → v < 2 ^ bits w → VarIntLawful (unsigned_codec w) v
unsigned-VarIntLawful width_8 v h = u8-IsVarInt.law v h
unsigned-VarIntLawful width_16 v h = u16-IsVarInt.law v h
unsigned-VarIntLawful width_32 v h = u32-IsVarInt.law v h
unsigned-VarIntLawful width_64 v h = u64-IsVarInt.law v h
unsigned-VarIntLawful width_size v h = usize-IsVarInt.law v h

-- Every value of i8, i16, i32, i64 and isize is written as a variable length integer, and decoded to
-- itself.
pub signed-VarIntLawful : (w : Width) (z : ℤ) → InRange (bits w) z → VarIntLawful (signed_codec w) z
signed-VarIntLawful width_8 z h = i8-IsVarInt.law z h
signed-VarIntLawful width_16 z h = i16-IsVarInt.law z h
signed-VarIntLawful width_32 z h = i32-IsVarInt.law z h
signed-VarIntLawful width_64 z h = i64-IsVarInt.law z h
signed-VarIntLawful width_size z h = isize-IsVarInt.law z h

-- Every value of each of the ten integer types, unsigned and signed, is written as a variable
-- length integer, and decoded to itself.
pub integer-VarIntLawful :
    (w : Width) (v : ℕ) (z : ℤ)
    → v < 2 ^ bits w
    → InRange (bits w) z
    → VarIntLawful (unsigned_codec w) v × VarIntLawful (signed_codec w) z
integer-VarIntLawful w v z h r = (unsigned-VarIntLawful w v h, signed-VarIntLawful w z r)
