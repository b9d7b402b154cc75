-- ===== src/Tag.antt =====
-- src/tag.rs: tags and the types of tagged values.
pub mod Code
use mathlib.Core.Bool.{cond}
use Prim.Native.Nat.{min}
use blaze_pk_rs.Prelude.{
  ℕ, zero, suc, Bool, ◌&&◌, List, [], ◌∷◌, Option, none, some, length, get_or, ◌==◌, if◌then◌else◌,
}

-- The array `[u8; 4]` inside a tag.
pub record Tag : Type 0 where
  pub at0 : ℕ
  pub at1 : ℕ
  pub at2 : ℕ
  pub at3 : ℕ

pub data TdfType : Type 0 where
  var_int string blob group list map union var_int_list pair triple float : TdfType

pub record Tagged : Type 0 where
  pub tag : Tag
  pub ty : TdfType

-- The bytes of a slice in an array that starts as zeros. `none` is the panic of `copy_from_slice`
-- where the slice and the part of the array that it is copied to differ in length.
unfoldable pub from_slice : List ℕ → Option Tag
from_slice value =
    let len = min (length value) 4 in
    if length value == len
    then some (record {
      at0 = get_or value 0 0;
      at1 = get_or value 1 0;
      at2 = get_or value 2 0;
      at3 = get_or value 3 0;
    })
    else none

-- The derived equality of tags.
unfoldable pub tag_eq : Tag → Tag → Bool
tag_eq a b = a.at0 == b.at0 && a.at1 == b.at1 && a.at2 == b.at2 && a.at3 == b.at3

-- The characters that `Display` writes: the bytes that are not zero.
unfoldable pub nonzero : List ℕ → List ℕ
nonzero [] = []
nonzero (byte ∷ rest) = if byte == 0 then nonzero rest else byte ∷ nonzero rest

unfoldable pub fmt : Tag → List ℕ
unfolding nonzero
fmt t = nonzero (t.at0 ∷ t.at1 ∷ t.at2 ∷ t.at3 ∷ [])
