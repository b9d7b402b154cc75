-- ===== src/Reader/Tagged/Safety.antt =====
-- Reading a type or a tag keeps what every read keeps, and takes one byte or four.
use blaze_pk_rs.Prelude.{ℕ, ◌-◌}
use blaze_pk_rs.Tag.Code.{try_from}
use blaze_pk_rs.Reader.Keeps.{
  Safe, Safe-then, Safe-lift, Safe-pure, read_byte-Safe, read_byte_4-Safe,
}
use blaze_pk_rs.Reader.Tagged.{read_type, read_tag}

pub read_type-Safe : (n : ℕ) → Safe n 1 read_type
unfolding read_type
read_type-Safe n = Safe-then 1 (read_byte-Safe n) λ value. Safe-lift (n - 1) (try_from value)

pub read_tag-Safe : (n : ℕ) → Safe n 4 read_tag
unfolding read_tag
read_tag-Safe n =
    Safe-then 4 (read_byte_4-Safe n)
      λ input. Safe-then 0 (Safe-lift (n - 4) (try_from input.3)) λ ty. Safe-pure (n - 4 - 0) _
