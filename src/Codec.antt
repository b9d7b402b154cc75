-- ===== src/Codec.antt =====
-- src/codec.rs: the traits `Encodable`, `Decodable` and `ValueType`, and the law that joins them.
use blaze_pk_rs.Prelude.{ℕ, suc, ◌≤◌, List, length}
use blaze_pk_rs.Tag.{TdfType}
use blaze_pk_rs.Reader.{Reader}
use blaze_pk_rs.Reader.Reads.{Reads}
use blaze_pk_rs.Reader.Skip.{skip_nested}
use blaze_pk_rs.Writer.{Writer, default}
use blaze_pk_rs.Writer.Writes.{Writes}

-- The implementations of the three traits for a type. `size_of` is the size of its values in
-- memory, which bounds the capacity that a vector of them can have.
pub record Codec (A : Type 0) : Type 0 where
  pub encode : A → Writer
  pub decode : Reader A
  pub value_type : TdfType
  pub size_of : ℕ

-- `encode_bytes`
unfoldable pub encode_bytes : {A : Type 0} → Codec A → A → List ℕ
unfolding default
encode_bytes c a = (c.encode a default).buffer

-- There are bytes that `m` appends to any writer, and from which `r` reads `a` in any buffer.
pub record RoundTrips {A : Type 0} (m : Writer) (r : Reader A) (a : A) : Type 0 where
  pub bytes : List ℕ
  pub writes : Writes m bytes
  pub reads : Reads r bytes a

-- The law of a value: there are bytes that `encode` appends, from which `decode` reads the value,
-- and which a reader skips that knows only their type, if it may go as deep as there are bytes.
pub record Lawful {A : Type 0} (c : Codec A) (a : A) : Type 0 where
  pub bytes : List ℕ
  pub writes : Writes (c.encode a) bytes
  pub reads : Reads c.decode bytes a
  pub skips :
      (depth : ℕ) → length bytes ≤ depth → Reads (skip_nested (suc depth) c.value_type) bytes tt

-- The law of an implementation, for the values that `Fits` describes.
pub record IsLawful {A : Type 0} (c : Codec A) (Fits : A → Type 0) : Type 0 where
  pub law : (a : A) → Fits a → Lawful c a
