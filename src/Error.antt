-- ===== src/Error.antt =====
-- src/error.rs: the errors of decoding.
use Prim.Native.String.{String}
use blaze_pk_rs.Prelude.{ℕ}
use blaze_pk_rs.Tag.{Tag, TdfType}

pub data DecodeError : Type 0 where
  missing_tag : (tag : Tag) (ty : TdfType) → DecodeError
  invalid_tag_type : (tag : Tag) (expected actual : TdfType) → DecodeError
  invalid_type : (expected actual : TdfType) → DecodeError
  unknown_type : (ty : ℕ) → DecodeError
  unexpected_eof : (cursor wanted remaining : ℕ) → DecodeError
  other : String → DecodeError

pub data DecodeResult (A : Type 0) : Type 0 where
  ok : A → DecodeResult A
  err : DecodeError → DecodeResult A
