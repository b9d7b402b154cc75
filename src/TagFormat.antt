-- ===== src/TagFormat.antt =====
-- The format of tags, between src/writer.rs and src/reader.rs: four characters of six bits each in
-- three bytes, highest first, and the type in the fourth byte.
pub mod Pack
pub mod Unpack
pub mod RoundTrip
use blaze_pk_rs.Prelude.{ℕ, ◌+◌, ◌*◌, ◌/◌, ◌%◌, ◌<◌, List, get_or, arith, ◌≡◌}
use blaze_pk_rs.Tag.{Tag}

-- The six bits that are kept of a character: bit 6 and the five lowest.
abbrev pub six : ℕ → ℕ
six c = c / 64 % 2 * 32 + c % 32

-- The character of six bits.
abbrev pub character : ℕ → ℕ
character s = s / 32 * 64 + s % 32

-- A character as it comes back: bits 5 and 7 are lost.
abbrev pub visible : ℕ → ℕ
visible c = c / 64 % 2 * 64 + c % 32

-- The characters of a slice, as they come back.
abbrev pub visible_tag : List ℕ → Tag
visible_tag name = record {
  at0 = visible (get_or name 0 0);
  at1 = visible (get_or name 1 0);
  at2 = visible (get_or name 2 0);
  at3 = visible (get_or name 3 0);
}
