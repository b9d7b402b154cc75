-- ===== src/Types.antt =====
-- src/types.rs: the key of a union that holds nothing. The types themselves are the children.
pub mod Numbers
pub mod Lists
pub mod Basic
pub mod Unions
pub mod Map
pub mod Text
pub mod Tagged
use blaze_pk_rs.Prelude.{ℕ}

abbrev pub union_unset : ℕ
union_unset = 0x7f
