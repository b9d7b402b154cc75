-- ===== src/Reader/Seek.antt =====
-- src/reader.rs: the search for a tag, and the reads that start with one.
pub mod Attempt
pub mod Safety
pub mod Tries
pub mod Agrees
pub mod Finds
pub mod Fields
pub mod Missing
use blaze_pk_rs.Prelude.{
  ℕ, zero, suc, ◌-◌, List, Option, none, some, Bool, true, false, if◌then◌else◌, length,
}
use blaze_pk_rs.Tag.{Tag, TdfType, Tagged, from_slice, tag_eq}
use blaze_pk_rs.Tag.Code.{ty_eq}
use blaze_pk_rs.Error.{
  DecodeError, DecodeResult, missing_tag, invalid_tag_type, invalid_type, unexpected_eof,
  unknown_type, other,
}
use blaze_pk_rs.Reader.{
  TdfReader, Run, ok, err, panic, stuck, Reader, ◌>>=◌, ◌>>◌, pure, throw, abort,
}
use blaze_pk_rs.Reader.VarInt.{read_usize}
use blaze_pk_rs.Reader.Tagged.{read_type, read_tag}
use blaze_pk_rs.Reader.Skip.{skip_type}
use blaze_pk_rs.Codec.{Codec}

-- The result of a method, an error too, for a caller that matches on it.
unfoldable pub attempt : {A : Type 0} → Reader A → Reader (DecodeResult A)
attempt m r = elim (m r) [
  | ok a s ↦ ok (DecodeResult.ok a) s
  | err e s ↦ ok (DecodeResult.err e) s
  | panic ↦ panic
  | stuck ↦ stuck
]

-- `self.cursor = start`
unfoldable pub reset : ℕ → Reader (Unit {0})
reset start r = ok tt (record r { cursor = start })

-- `Tag::from`
unfoldable pub to_tag : List ℕ → Reader Tag
to_tag name r = elim (from_slice name) [ some t ↦ ok t r | none ↦ panic ]

-- A round of the loop of `until_tag` behind its `read_tag`; `more` are the rounds that follow.
unfoldable pub until_tag_round :
    Tag → TdfType → Reader (Unit {0}) → DecodeResult Tagged → Reader (Unit {0})
unfolding tag_eq ty_eq
until_tag_round tag ty more (DecodeResult.ok next) =
    if tag_eq next.tag tag
    then if ty_eq next.ty ty then pure tt else throw (invalid_tag_type tag ty next.ty)
    else (skip_type next.ty >>= λ _. more)
until_tag_round tag ty more (DecodeResult.err (unexpected_eof _ _ _)) = throw (missing_tag tag ty)
until_tag_round tag ty more (DecodeResult.err e) = throw e

unfoldable pub until_tag_loop : ℕ → Tag → TdfType → Reader (Unit {0})
unfolding attempt until_tag_round
until_tag_loop zero tag ty = λ r. stuck
until_tag_loop (suc fuel) tag ty =
    attempt read_tag >>= λ result. until_tag_round tag ty (until_tag_loop fuel tag ty) result

-- A round takes the four bytes of a tag, so there are no more rounds than bytes left.
unfoldable pub until_tag : List ℕ → TdfType → Reader (Unit {0})
unfolding to_tag until_tag_loop
until_tag name ty r =
    (to_tag name >>= λ tag. until_tag_loop (suc (length r.buffer - r.cursor)) tag ty) r

-- What `try_until_tag` does with the result of `skip_type`.
unfoldable pub try_skipped : Reader Bool → DecodeResult (Unit {0}) → Reader Bool
try_skipped more (DecodeResult.ok _) = more
try_skipped more (DecodeResult.err _) = pure false

-- A round of the loop of `try_until_tag`; `false` is a `break`.
unfoldable pub try_until_tag_round : Tag → TdfType → Reader Bool → DecodeResult Tagged → Reader Bool
unfolding tag_eq ty_eq attempt try_skipped
try_until_tag_round tag ty more (DecodeResult.ok next) =
    if tag_eq next.tag tag
    then if ty_eq next.ty ty then pure true else pure false
    else (attempt (skip_type next.ty) >>= λ result. try_skipped more result)
try_until_tag_round tag ty more (DecodeResult.err _) = pure false

unfoldable pub try_until_tag_loop : ℕ → Tag → TdfType → Reader Bool
unfolding attempt try_until_tag_round
try_until_tag_loop zero tag ty = λ r. stuck
try_until_tag_loop (suc fuel) tag ty = attempt read_tag >>= λ result.
    try_until_tag_round tag ty (try_until_tag_loop fuel tag ty) result

-- What stands behind that loop.
unfoldable pub try_until_tag_end : ℕ → Bool → Reader Bool
unfolding reset
try_until_tag_end start true = pure true
try_until_tag_end start false = reset start >>= λ _. pure false

unfoldable pub try_until_tag : List ℕ → TdfType → Reader Bool
unfolding to_tag try_until_tag_loop try_until_tag_end
try_until_tag name ty r =
    (to_tag name >>= λ tag.
    try_until_tag_loop (suc (length r.buffer - r.cursor)) tag ty >>= λ found.
    try_until_tag_end r.cursor found)
      r

module _ {C : Type 0} (c : Codec C) where
  unfoldable pub tag : List ℕ → Reader C
  unfolding until_tag
  tag name = until_tag name c.value_type >>= λ _. c.decode

  unfoldable pub try_tag_end : ℕ → DecodeResult C → Reader (Option C)
  unfolding reset
  try_tag_end start (DecodeResult.ok value) = pure (some value)
  try_tag_end start (DecodeResult.err (missing_tag _ _)) = reset start >>= λ _. pure none
  try_tag_end start (DecodeResult.err e) = throw e

  unfoldable pub try_tag : List ℕ → Reader (Option C)
  unfolding attempt tag try_tag_end
  try_tag name r = (attempt (tag name) >>= λ result. try_tag_end r.cursor result) r

-- The test of a type against the one expected.
unfoldable pub expect_type : TdfType → TdfType → Reader (Unit {0})
unfolding ty_eq
expect_type expected actual =
    if ty_eq actual expected then pure tt else throw (invalid_type expected actual)

unfoldable pub until_list : List ℕ → TdfType → Reader ℕ
unfolding until_tag expect_type
until_list name value_type = do
  until_tag name TdfType.list
  list_type ← read_type
  expect_type value_type list_type
  read_usize

unfoldable pub until_map : List ℕ → TdfType → TdfType → Reader ℕ
unfolding until_tag expect_type
until_map name key_type value_type = do
  until_tag name TdfType.map
  k_type ← read_type
  v_type ← read_type
  expect_type key_type k_type
  expect_type value_type v_type
  read_usize

unfoldable pub read_map_header : TdfType → TdfType → Reader ℕ
unfolding expect_type
read_map_header exp_key_type exp_value_type = do
  key_type ← read_type
  expect_type exp_key_type key_type
  value_type ← read_type
  expect_type exp_value_type value_type
  read_usize
