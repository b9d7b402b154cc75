-- ===== src/Types/Basic.antt =====
-- src/types.rs: the types whose laws need no induction over the values inside, taken together.
use blaze_pk_rs.Prelude.{ℕ, ◌<◌, ◌^◌, List, length, Bool}
use blaze_pk_rs.Codec.{Codec, Lawful}
use blaze_pk_rs.Types.Numbers.{bool_codec, f32_codec}
use blaze_pk_rs.Types.Numbers.Laws.{IsVarInt, bool-Lawful, f32-Lawful}
use blaze_pk_rs.Types.Lists.{var_int_list_codec, blob_codec, pair_codec, triple_codec}
use blaze_pk_rs.Types.Lists.Laws.{
  FitsVec, var_int_list-Lawful, blob-Lawful, pair-Lawful, triple-Lawful,
}

-- Both Booleans, every pattern of 32 bits of an f32, those of NaN too, and every blob of less than
-- 2 ^ 63 bytes are encoded, decoded to themselves and skipped.
pub basic-Lawful :
    (value : Bool) (pattern : ℕ) (bytes : List ℕ)
    → pattern < 2 ^ 32
    → length bytes < 2 ^ 63
    → Lawful bool_codec value × Lawful f32_codec pattern × Lawful blob_codec bytes
basic-Lawful value pattern bytes h fits =
    (bool-Lawful value, f32-Lawful pattern h, blob-Lawful bytes fits)

module _ {A B D : Type 0} {a : Codec A} {b : Codec B} {d : Codec D} {FitsA : A → Type 0}
    {FitsB : B → Type 0} {FitsD : D → Type 0} where
  -- If the values of three types are written as variable length integers, decoded to themselves and
  -- skipped, then lists of the first, pairs of the first two and triples of all three are encoded,
  -- decoded to themselves and skipped, the lists where they have fewer than 2 ^ 64 elements and a
  -- vector has room for them.
  pub composed-Lawful :
      IsVarInt a FitsA
      → IsVarInt b FitsB
      → IsVarInt d FitsD
      → (size : ℕ) (values : List A) (x : A) (y : B) (z : D) → FitsVec a FitsA values
      → FitsA x
      → FitsB y
      → FitsD z
      → Lawful (var_int_list_codec a) values
        × Lawful (pair_codec a b size) (x, y)
        × Lawful (triple_codec a b d size) (x, y, z)
  composed-Lawful ha hb hd size values x y z fits fx fy fz = (
    var_int_list-Lawful ha values fits,
    pair-Lawful size x y ha hb fx fy,
    triple-Lawful size x y z ha hb hd fx fy fz,
  )
