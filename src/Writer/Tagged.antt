-- ===== src/Writer/Tagged.antt =====
-- src/writer.rs: writing of packed tags, and of tags with the value that follows.
use blaze_pk_rs.Prelude.{
  ℕ, ◌/◌, bit_and, bit_or, List, [], ◌∷◌, Bool, ltb, if◌then◌else◌, length, get_or,
}
use blaze_pk_rs.Tag.{TdfType}
use blaze_pk_rs.Tag.Code.{to_u8}
use blaze_pk_rs.Types.{union_unset}
use blaze_pk_rs.Reader.Tagged.{shl8}
use blaze_pk_rs.Writer.{
  Writer, ◌▸◌, write_byte, write_slice, write_type, write_bool, write_empty_str,
}
use blaze_pk_rs.Writer.VarInt.{write_u8, write_u16, write_u32, write_u64, write_usize}

-- The three bytes of up to four characters, and the byte of the type.
unfoldable pub pack : List ℕ → ℕ → List ℕ
pack tag value_type =
    let size = length tag in
    let t = λ (i : ℕ). get_or tag i 0 in
    let first =
      if ltb 0 size
      then bit_or (bit_or (bit_or 0 (shl8 (bit_and (t 0) 0x40) 1)) (shl8 (bit_and (t 0) 0x10) 2))
          (shl8 (bit_and (t 0) 0x0f) 2)
      else 0 in
    let output0 =
      if ltb 1 size
      then bit_or (bit_or first (bit_and (t 1) 0x40 / 32)) (bit_and (t 1) 0x10 / 16)
      else first in
    let second = if ltb 1 size then bit_or 0 (shl8 (bit_and (t 1) 0x0f) 4) else 0 in
    let output1 =
      if ltb 2 size
      then bit_or (bit_or (bit_or second (bit_and (t 2) 0x40 / 8)) (bit_and (t 2) 0x10 / 4))
          (bit_and (t 2) 0x0c / 4)
      else second in
    let third = if ltb 2 size then bit_or 0 (shl8 (bit_and (t 2) 0x03) 6) else 0 in
    let output2 =
      if ltb 3 size
      then bit_or (bit_or third (bit_and (t 3) 0x40 / 2)) (bit_and (t 3) 0x1f)
      else third in
    output0 ∷ output1 ∷ output2 ∷ value_type ∷ []

unfoldable pub tag : List ℕ → TdfType → Writer
unfolding pack to_u8
tag name value_type = write_slice (pack name (to_u8 value_type))

unfoldable pub tag_bool : List ℕ → Bool → Writer
tag_bool name value = tag name TdfType.var_int ▸ write_bool value

unfoldable pub tag_zero : List ℕ → Writer
tag_zero name = tag name TdfType.var_int ▸ write_byte 0

unfoldable pub tag_u8 : List ℕ → ℕ → Writer
tag_u8 name value = tag name TdfType.var_int ▸ write_u8 value

unfoldable pub tag_u16 : List ℕ → ℕ → Writer
tag_u16 name value = tag name TdfType.var_int ▸ write_u16 value

unfoldable pub tag_u32 : List ℕ → ℕ → Writer
tag_u32 name value = tag name TdfType.var_int ▸ write_u32 value

unfoldable pub tag_u64 : List ℕ → ℕ → Writer
tag_u64 name value = tag name TdfType.var_int ▸ write_u64 value

unfoldable pub tag_usize : List ℕ → ℕ → Writer
tag_usize name value = tag name TdfType.var_int ▸ write_usize value

unfoldable pub tag_str_empty : List ℕ → Writer
tag_str_empty name = tag name TdfType.string ▸ write_empty_str

unfoldable pub tag_empty_blob : List ℕ → Writer
tag_empty_blob name = tag name TdfType.blob ▸ write_byte 0

unfoldable pub tag_group : List ℕ → Writer
tag_group name = tag name TdfType.group

unfoldable pub tag_group_end : Writer
tag_group_end = write_byte 0

-- `gr` is what the closure writes.
unfoldable pub group : List ℕ → Writer → Writer
unfolding tag_group tag_group_end
group name gr = tag_group name ▸ gr ▸ tag_group_end

unfoldable pub tag_list_start : List ℕ → TdfType → ℕ → Writer
tag_list_start name ty size = tag name TdfType.list ▸ write_type ty ▸ write_usize size

unfoldable pub tag_union_start : List ℕ → ℕ → Writer
tag_union_start name key = tag name TdfType.union ▸ write_byte key

unfoldable pub tag_union_unset : List ℕ → Writer
unfolding tag_union_start
tag_union_unset name = tag_union_start name union_unset

unfoldable pub tag_list_empty : List ℕ → TdfType → Writer
tag_list_empty name ty = tag name TdfType.list ▸ write_type ty ▸ write_byte 0

unfoldable pub tag_var_int_list_empty : List ℕ → Writer
tag_var_int_list_empty name = tag name TdfType.var_int_list ▸ write_byte 0

unfoldable pub tag_map_start : List ℕ → TdfType → TdfType → ℕ → Writer
tag_map_start name key value size =
    tag name TdfType.map ▸ write_type key ▸ write_type value ▸ write_usize size

unfoldable pub write_map_header : TdfType → TdfType → ℕ → Writer
write_map_header key_type value_type size =
    write_type key_type ▸ write_type value_type ▸ write_usize size
