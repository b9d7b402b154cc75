-- ===== src/Types/Tagged.antt =====
-- src/writer.rs: tags with slices, maps, pairs and triples of values.
use blaze_pk_rs.Prelude.{ℕ, List, length}
use blaze_pk_rs.Tag.{TdfType}
use blaze_pk_rs.Writer.{Writer, ◌▸◌}
use blaze_pk_rs.Writer.Tagged.{tag, tag_map_start}
use blaze_pk_rs.Codec.{Codec}
use blaze_pk_rs.Types.Lists.{vec_codec, pair_codec, triple_codec}
use blaze_pk_rs.Types.Map.{MapEntry}
use blaze_pk_rs.Types.Map.Wire.{encode_entries}

unfoldable pub tag_slice_list : {C : Type 0} → Codec C → List ℕ → List C → Writer
unfolding vec_codec
tag_slice_list c name value = tag name TdfType.list ▸ (vec_codec c).encode value

-- The tuples of a slice are entries here.
unfoldable pub tag_map_tuples :
    {K V : Type 0} → Codec K → Codec V → List ℕ → List (MapEntry K V) → Writer
unfolding tag_map_start encode_entries
tag_map_tuples k v name values =
    tag_map_start name k.value_type v.value_type (length values) ▸ encode_entries k v values

unfoldable pub tag_pair : {A B : Type 0} → Codec A → Codec B → List ℕ → A × B → Writer
unfolding pair_codec
tag_pair a b name value = tag name TdfType.pair ▸ (pair_codec a b 0).encode value

unfoldable pub tag_triple :
    {A B C : Type 0} → Codec A → Codec B → Codec C → List ℕ → A × B × C → Writer
unfolding triple_codec
tag_triple a b c name value = tag name TdfType.triple ▸ (triple_codec a b c 0).encode value
