-- ===== src/Writer.antt =====
-- src/writer.rs: the writer, a buffer that grows at its end, and its primitive writes.
pub mod Writes
pub mod VarInt
pub mod Tagged
pub mod Values
use blaze_pk_rs.Prelude.{ℕ, Bool, true, false, List, [], ◌∷◌, ◌++◌}
use blaze_pk_rs.Tag.{TdfType}
use blaze_pk_rs.Tag.Code.{to_u8}

pub record TdfWriter : Type 0 where
  pub buffer : List ℕ

-- A method that changes the writer.
abbrev pub Writer : Type 0
Writer = TdfWriter → TdfWriter

infixl 5 ◌▸◌
-- One method, then the other.
unfoldable pub ◌▸◌ : Writer → Writer → Writer
(m ▸ k) w = k (m w)

abbrev pub nothing : Writer
nothing w = w

unfoldable pub default : TdfWriter
default = record { buffer = [] }

unfoldable pub write_byte : ℕ → Writer
write_byte value w = record { buffer = w.buffer ++ value ∷ [] }

unfoldable pub write_slice : List ℕ → Writer
write_slice value w = record { buffer = w.buffer ++ value }

unfoldable pub write_type : TdfType → Writer
unfolding to_u8
write_type ty = write_byte (to_u8 ty)

unfoldable pub write_empty_str : Writer
write_empty_str = write_slice (1 ∷ 0 ∷ [])

unfoldable pub write_bool : Bool → Writer
write_bool false = write_byte 0
write_bool true = write_byte 1

unfoldable pub clear : Writer
clear w = record { buffer = [] }
