-- ===== src/Types/Lists.antt =====
-- src/types.rs: the codecs of lists, of lists of variable length integers, of blobs, of pairs and
-- triples, and of unions.
pub mod Elements
pub mod Laws
use blaze_pk_rs.Prelude.{
  ℕ, zero, suc, ◌-◌, ◌*◌, ◌^◌, List, [], ◌∷◌, ◌++◌, map, Option, none, some, Bool, true, false, not,
  ltb, ◌==◌, if◌then◌else◌, length, get_elem?,
}
use blaze_pk_rs.Tag.{Tag, TdfType, Tagged, from_slice}
use blaze_pk_rs.Error.{DecodeError, invalid_type}
use blaze_pk_rs.Reader.{Reader, ◌>>=◌, ◌>>◌, pure, throw, abort, read_byte, read_slice}
use blaze_pk_rs.Reader.VarInt.{read_usize}
use blaze_pk_rs.Reader.Tagged.{read_type, read_tag}
use blaze_pk_rs.Reader.Seek.{expect_type}
use blaze_pk_rs.Writer.{Writer, ◌▸◌, nothing, write_byte, write_slice, write_type}
use blaze_pk_rs.Writer.VarInt.{write_usize}
use blaze_pk_rs.Writer.Tagged.{tag}
use blaze_pk_rs.Codec.{Codec}
use blaze_pk_rs.Types.{union_unset}

-- `Vec::with_capacity` panics where a vector would have more than `isize::MAX` bytes.
unfoldable pub with_capacity : ℕ → ℕ → Reader (Unit {0})
with_capacity size capacity = if ltb (capacity * size) (2 ^ 63) then pure tt else abort

module _ {C : Type 0} (c : Codec C) where
  -- `for value in values { value.encode(output) }`
  unfoldable pub encode_each : List C → Writer
  encode_each [] = nothing
  encode_each (value ∷ values) = c.encode value ▸ encode_each values

  -- `for _ in 0..length { values.push(C::decode(reader)?) }`
  unfoldable pub decode_each : ℕ → Reader (List C)
  decode_each zero = pure []
  decode_each (suc length) =
      c.decode >>= λ value. decode_each length >>= λ values. pure (value ∷ values)

  -- The codec of `Vec<C>`, whose encoder slices have too.
  unfoldable pub vec_codec : Codec (List C)
  unfolding encode_each decode_each with_capacity expect_type
  vec_codec = record {
    encode = λ values. write_type c.value_type ▸ write_usize (length values) ▸ encode_each values;
    decode = read_type >>= λ value_type. expect_type c.value_type value_type >>= λ _.
        read_usize >>= λ length. with_capacity c.size_of length >>= λ _. decode_each length;
    value_type = TdfType.list;
    size_of = 24;
  }

  -- The codec of `VarIntList<C>`.
  unfoldable pub var_int_list_codec : Codec (List C)
  unfolding encode_each decode_each with_capacity
  var_int_list_codec = record {
    encode = λ values. write_usize (length values) ▸ encode_each values;
    decode = read_usize >>= λ length. with_capacity c.size_of length >>= λ _. decode_each length;
    value_type = TdfType.var_int_list;
    size_of = 24;
  }

-- `VarIntList::push`
unfoldable pub push : {T : Type 0} → T → List T → List T
push value self = self ++ value ∷ []

-- `Vec::remove` at an index within the vector.
unfoldable pub remove_at : {T : Type 0} → ℕ → List T → List T
remove_at index [] = []
remove_at zero (x ∷ xs) = xs
remove_at (suc index) (x ∷ xs) = x ∷ remove_at index xs

-- `VarIntList::remove`, with the list as it leaves it.
unfoldable pub remove : {T : Type 0} → ℕ → List T → Option T × List T
unfolding remove_at
remove index self =
    if ltb index (length self) then (get_elem? self index, remove_at index self) else (none, self)

-- `VarIntList::get`
unfoldable pub get : {T : Type 0} → ℕ → List T → Option T
get index self = get_elem? self index

-- The codec of `Blob`. `size_of` is that of a vector.
unfoldable pub blob_codec : Codec (List ℕ)
blob_codec = record {
  encode = λ bytes. write_usize (length bytes) ▸ write_slice bytes;
  decode = read_usize >>= λ length. read_slice length;
  value_type = TdfType.blob;
  size_of = 24;
}

module _ {A B : Type 0} (a : Codec A) (b : Codec B) where
  -- `Pair`. Its size in memory, padding aside.
  unfoldable pub pair_codec : ℕ → Codec (A × B)
  pair_codec size_of = record {
    encode = λ (x, y). a.encode x ▸ b.encode y;
    decode = a.decode >>= λ x. b.decode >>= λ y. pure (x, y);
    value_type = TdfType.pair;
    size_of = size_of;
  }

  unfoldable pub triple_codec : {C : Type 0} → Codec C → ℕ → Codec (A × B × C)
  triple_codec c size_of = record {
    encode = λ (x, y, z). a.encode x ▸ b.encode y ▸ c.encode z;
    decode = a.decode >>= λ x. b.decode >>= λ y. c.decode >>= λ z. pure (x, y, z);
    value_type = TdfType.triple;
    size_of = size_of;
  }

pub data Union (C : Type 0) : Type 0 where
  set : (key : ℕ) (tag : Tag) (value : C) → Union C
  unset : Union C

module _ {C : Type 0} where
  -- `Union::set`, which panics where `Tag::from` does.
  unfoldable pub set_union : ℕ → List ℕ → C → Option (Union C)
  set_union key name value = elim (from_slice name) [
    | some tag ↦ some (set key tag value)
    | none ↦ none
  ]

  unfoldable pub is_set : Union C → Bool
  is_set (set _ _ _) = true
  is_set unset = false

  unfoldable pub is_unset : Union C → Bool
  is_unset (set _ _ _) = false
  is_unset unset = true

  -- `unwrap`, where `none` is its panic.
  unfoldable pub unwrap : Union C → Option C
  unwrap (set _ _ value) = some value
  unwrap unset = none

  -- `Option::from`
  unfoldable pub from_union : Union C → Option C
  from_union (set _ _ value) = some value
  from_union unset = none

  module _ (c : Codec C) where
    unfoldable pub encode_union : Union C → Writer
    encode_union (set key t value) =
        write_byte key ▸ tag (t.at0 ∷ t.at1 ∷ t.at2 ∷ t.at3 ∷ []) c.value_type ▸ c.encode value
    encode_union unset = write_byte union_unset

    unfoldable pub decode_union : Reader (Union C)
    unfolding expect_type
    decode_union = read_byte >>= λ key.
        if key == union_unset
        then pure unset
        else (read_tag >>= λ tag. expect_type c.value_type tag.ty >>= λ _.
            c.decode >>= λ value. pure (set key tag.tag value))

    unfoldable pub union_codec : ℕ → Codec (Union C)
    unfolding encode_union decode_union
    union_codec size_of = record {
      encode = encode_union;
      decode = decode_union;
      value_type = TdfType.union;
      size_of = size_of;
    }
