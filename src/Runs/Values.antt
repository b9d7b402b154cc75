-- ===== src/Runs/Values.antt =====
-- Runs of the laws of types.
use blaze_pk_rs.Prelude.{ℕ, ◌<◌, ◌≢◌, refl, List, [], ◌∷◌, ◌++◌, All, true, inl, inr, arith}
use blaze_pk_rs.Prelude.Int.{negsuc}
use blaze_pk_rs.Tag.{Tag}
use blaze_pk_rs.Codec.{Lawful, RoundTrips}
use blaze_pk_rs.Types.{union_unset}
use blaze_pk_rs.Types.Numbers.{u8_codec, u16_codec, u32_codec, i16_codec, f32_codec, bool_codec}
use blaze_pk_rs.Types.Numbers.Laws.{
  Below, VarIntLawful, VarInt→IsLawful, u8-IsVarInt, u16-IsVarInt, u32-IsVarInt,
}
use blaze_pk_rs.Types.Numbers.Widths.{width_16, integer-VarIntLawful}
use blaze_pk_rs.Types.Lists.{
  vec_codec, var_int_list_codec, blob_codec, pair_codec, triple_codec, set, union_codec,
}
use blaze_pk_rs.Types.Lists.Laws.{FitsVec, vec-IsLawful, vec-Lawful}
use blaze_pk_rs.Types.Basic.{basic-Lawful, composed-Lawful}
use blaze_pk_rs.Types.Unions.{fits_set, union-Lawful}
use blaze_pk_rs.Types.Map.{TdfMap}
use blaze_pk_rs.Types.Map.Wire.{map_codec, map-Lawful}
use blaze_pk_rs.Types.Text.{as_bytes, encode_char, ends_in_zero, pop, write_str, read_string}
use blaze_pk_rs.Types.Text.Utf8.{IsScalar}
use blaze_pk_rs.Types.Text.Laws.{StringLawful, string-StringLawful, write_str-RoundTrips}

two_fit : FitsVec u16_codec (Below 16) (1 ∷ 65535 ∷ [])
two_fit = record {
  each = (omega arith, (omega arith, tt));
  count = omega arith;
  room = omega arith;
}

vec_example : Lawful (vec_codec u16_codec) (1 ∷ 65535 ∷ [])
vec_example = vec-Lawful (VarInt→IsLawful u16-IsVarInt) (1 ∷ 65535 ∷ []) two_fit

composed_example :
    Lawful (var_int_list_codec u16_codec) (1 ∷ 65535 ∷ [])
    × Lawful (pair_codec u16_codec u8_codec 8) (300, 7)
    × Lawful (triple_codec u16_codec u8_codec u32_codec 8) (300, 7, 70000)
composed_example =
    composed-Lawful u16-IsVarInt u8-IsVarInt u32-IsVarInt 8 (1 ∷ 65535 ∷ []) 300 7 70000 two_fit
      (omega arith) (omega arith) (omega arith)

-- The pattern is that of 1.0.
basic_example :
    Lawful bool_codec true × Lawful f32_codec 0x3f800000 × Lawful blob_codec (1 ∷ 255 ∷ [])
basic_example = basic-Lawful true 0x3f800000 (1 ∷ 255 ∷ []) (omega arith) (omega arith)

-- The tag "VALU".
abbrev valu : Tag
valu = record { at0 = 86; at1 = 65; at2 = 76; at3 = 85 }

union_example : Lawful (union_codec u16_codec 8) (set 1 valu 300)
union_example = union-Lawful u16_codec 8 (set 1 valu 300) (VarInt→IsLawful u16-IsVarInt) (
    fits_set {tag = valu} one_is_set (omega arith, (omega arith, (omega arith, (omega arith, tt))))
      (refl, (refl, (refl, (refl, tt)))) (omega arith))
  where
    one_is_set : 1 ≢ union_unset
    one_is_set e = absurd (omega (arith, e))

-- A key that stands there twice.
abbrev entries : TdfMap ℕ (List ℕ)
entries = record {
  entries =
      record { key = 9; value = 1 ∷ 65535 ∷ [] } ∷ record { key = 9; value = 1 ∷ 65535 ∷ [] } ∷ [];
}

map_example : Lawful (map_codec u8_codec (vec_codec u16_codec) 32) entries
map_example =
    map-Lawful u8_codec (vec_codec u16_codec) 32 entries (VarInt→IsLawful u8-IsVarInt)
      (vec-IsLawful (VarInt→IsLawful u16-IsVarInt))
      (record {
        each = ((omega arith, two_fit), ((omega arith, two_fit), tt));
        count = omega arith;
        room = omega arith;
      })

integer_example : VarIntLawful u16_codec 60000 × VarIntLawful i16_codec (negsuc 299)
integer_example = integer-VarIntLawful width_16 60000 (negsuc 299) (omega arith) (omega arith)

-- Characters of one to four bytes.
abbrev text : List ℕ
text = 110 ∷ 0xe9 ∷ 0x20ac ∷ 0x1f600 ∷ []

basic : (c : ℕ) → c < 0xd800 → IsScalar c
basic c h = record { below = omega arith; no_surrogate = inl h }

grinning : IsScalar 0x1f600
grinning = record { below = omega arith; no_surrogate = inr (omega arith) }

text-IsScalar : All IsScalar text
text-IsScalar = (
  basic 110 (omega arith),
  (basic 0xe9 (omega arith), (basic 0x20ac (omega arith), (grinning, tt))),
)

ended-IsScalar : All IsScalar (text ++ 0 ∷ [])
ended-IsScalar = (
  basic 110 (omega arith),
  (basic 0xe9 (omega arith), (basic 0x20ac (omega arith), (grinning, (basic 0 (omega arith), tt)))),
)

string_example : StringLawful text
unfolding as_bytes encode_char ends_in_zero
string_example = string-StringLawful text text-IsScalar refl (omega arith)

-- The zero at the end does not come back.
zero_end_example : RoundTrips (write_str (text ++ 0 ∷ [])) read_string text
unfolding as_bytes encode_char ends_in_zero pop
zero_end_example = write_str-RoundTrips (text ++ 0 ∷ []) ended-IsScalar (omega arith)
