-- ===== src/Reader/Skip.antt =====
-- src/reader.rs: skipping of values. `go` is `skip_type`, which these methods call for the values
-- inside; its recursion takes fuel, one unit for each level of nesting.
pub mod Safety
pub mod Reads
use blaze_pk_rs.Prelude.{ℕ, zero, suc, ◌-◌, Bool, ltb, ◌==◌, if◌then◌else◌, length}
use blaze_pk_rs.Tag.{TdfType, Tagged}
use blaze_pk_rs.Reader.{
  TdfReader, ok, stuck, Reader, ◌>>=◌, ◌>>◌, pure, expect_length, advance, retreat, peek, read_byte,
}
use blaze_pk_rs.Reader.VarInt.{read_usize, skip_var_int}
use blaze_pk_rs.Reader.Tagged.{read_type, read_tag}
use blaze_pk_rs.Types.{union_unset}

-- `for _ in 0..n`
unfoldable pub repeat : ℕ → Reader (Unit {0}) → Reader (Unit {0})
repeat zero m = pure tt
repeat (suc n) m = m >>= λ _. repeat n m

unfoldable pub skip_f32 : Reader (Unit {0})
skip_f32 = do expect_length 4; advance 4

unfoldable pub skip_blob : Reader (Unit {0})
skip_blob = do size ← read_usize; expect_length size; advance size

unfoldable pub skip_group_2 : Reader (Unit {0})
skip_group_2 = do first ← read_byte; if first == 2 then pure tt else retreat

unfoldable pub skip_var_int_list : Reader (Unit {0})
unfolding repeat
skip_var_int_list = do size ← read_usize; repeat size skip_var_int

module _ (go : TdfType → Reader (Unit {0})) where
  unfoldable pub skip_tagged : Reader (Unit {0})
  skip_tagged = do tag ← read_tag; go tag.ty

  unfoldable pub skip_group_loop : ℕ → Reader (Unit {0})
  unfolding skip_tagged
  skip_group_loop zero r = stuck
  skip_group_loop (suc fuel) r =
      let round = peek >>= λ byte.
      let more = skip_tagged >>= λ _. skip_group_loop fuel in
      if byte == 0 then advance 1 else more in
      if ltb r.cursor (length r.buffer) then round r else ok tt r

  -- A round takes a byte at least.
  unfoldable pub skip_group : Reader (Unit {0})
  unfolding skip_group_loop skip_group_2
  skip_group = skip_group_2 >>= λ _. λ r. skip_group_loop (suc (length r.buffer - r.cursor)) r

  unfoldable pub skip_list : Reader (Unit {0})
  unfolding repeat
  skip_list = do ty ← read_type; size ← read_usize; repeat size (go ty)

  unfoldable pub skip_map : Reader (Unit {0})
  unfolding repeat
  skip_map = do
    key_ty ← read_type
    value_ty ← read_type
    size ← read_usize
    repeat size (go key_ty >> go value_ty)

  unfoldable pub skip_union : Reader (Unit {0})
  unfolding skip_tagged
  skip_union = do ty ← read_byte; if ty == union_unset then pure tt else skip_tagged

  unfoldable pub skip_by_type : TdfType → Reader (Unit {0})
  unfolding skip_blob skip_group skip_list skip_map skip_union skip_var_int_list skip_f32
  skip_by_type TdfType.var_int = skip_var_int
  skip_by_type TdfType.string = skip_blob
  skip_by_type TdfType.blob = skip_blob
  skip_by_type TdfType.group = skip_group
  skip_by_type TdfType.list = skip_list
  skip_by_type TdfType.map = skip_map
  skip_by_type TdfType.union = skip_union
  skip_by_type TdfType.var_int_list = skip_var_int_list
  skip_by_type TdfType.pair = skip_var_int >> skip_var_int
  skip_by_type TdfType.triple = skip_var_int >> skip_var_int >> skip_var_int
  skip_by_type TdfType.float = skip_f32

-- `skip_type` to a depth of nesting.
unfoldable pub skip_nested : ℕ → TdfType → Reader (Unit {0})
unfolding skip_by_type
skip_nested zero ty r = stuck
skip_nested (suc depth) ty r = skip_by_type (λ inner. skip_nested depth inner) ty r

-- A level of nesting takes a byte at least, so there are no more levels than bytes left.
unfoldable pub skip_type : TdfType → Reader (Unit {0})
unfolding skip_nested
skip_type ty r = skip_nested (suc (length r.buffer - r.cursor)) ty r

unfoldable pub skip : Reader (Unit {0})
unfolding skip_type skip_tagged
skip = skip_tagged skip_type
