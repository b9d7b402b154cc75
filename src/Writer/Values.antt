-- ===== src/Writer/Values.antt =====
-- src/writer.rs: writing of a tag with a value of any type that can be encoded.
use blaze_pk_rs.Prelude.{ℕ, List}
use blaze_pk_rs.Codec.{Codec}
use blaze_pk_rs.Writer.{Writer, ◌▸◌}
use blaze_pk_rs.Writer.Tagged.{tag, tag_union_start}

module _ {C : Type 0} (c : Codec C) where
  unfoldable pub tag_value : List ℕ → C → Writer
  tag_value name value = tag name c.value_type ▸ c.encode value

  unfoldable pub tag_union_value : List ℕ → ℕ → List ℕ → C → Writer
  unfolding tag_union_start
  tag_union_value name key value_tag value =
      tag_union_start name key ▸ tag value_tag c.value_type ▸ c.encode value
