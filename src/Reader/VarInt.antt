-- ===== src/Reader/VarInt.antt =====
-- src/reader.rs: reading and skipping of variable length integers.
pub mod Safety
use blaze_pk_rs.Prelude.{
  ℕ, zero, suc, ◌+◌, ◌-◌, ◌*◌, ◌%◌, ◌^◌, bit_and, bit_or, Bool, ltb, ◌==◌, if◌then◌else◌, length,
}
use blaze_pk_rs.Reader.{
  TdfReader, ok, stuck, Reader, ◌>>=◌, ◌>>◌, pure, abort, read_byte, peek, advance,
}

-- The loop of `impl_decode_var` at a type of `w` bits. A shift by `w` or more panics, so `shift`
-- stays far below the limit of its `u8`, and the loop makes no more than `w` rounds.
unfoldable pub decode_var_loop : (fuel w result shift : ℕ) → Reader ℕ
decode_var_loop zero w result shift = λ r. stuck
decode_var_loop (suc fuel) w result shift = read_byte >>= λ byte.
    let result' = bit_or result (bit_and byte 127 * 2 ^ shift % 2 ^ w) in
    let more = decode_var_loop fuel w result' (shift + 7) in
    if ltb shift w then if ltb byte 128 then pure result' else more else abort

unfoldable pub impl_decode_var : (w : ℕ) → Reader ℕ
impl_decode_var w = read_byte >>= λ first.
    let result = bit_and first 63 in
    if ltb first 128 then pure result else decode_var_loop (suc w) w result 6

unfoldable pub skip_var_int_loop : ℕ → Reader (Unit {0})
skip_var_int_loop zero r = stuck
skip_var_int_loop (suc fuel) r =
    let round = peek >>= λ byte. advance 1 >>= λ _.
    let more = skip_var_int_loop fuel in if ltb byte 128 then pure tt else more in
    if ltb r.cursor (length r.buffer) then round r else ok tt r

-- Each round takes a byte, so one round more than there are bytes left is enough.
unfoldable pub skip_var_int : Reader (Unit {0})
unfolding skip_var_int_loop
skip_var_int r = skip_var_int_loop (suc (length r.buffer - r.cursor)) r

unfoldable pub read_u8 : Reader ℕ
read_u8 = read_byte >>= λ first.
    let result = bit_and first 63 in
    if ltb first 128
    then pure result
    else (read_byte >>= λ byte.
        let result' = bit_or result (bit_and byte 127 * 2 ^ 6 % 2 ^ 8) in
        if ltb byte 128 then pure result' else (skip_var_int >> pure result'))

unfoldable pub read_u16 : Reader ℕ
read_u16 = impl_decode_var 16

unfoldable pub read_u32 : Reader ℕ
read_u32 = impl_decode_var 32

unfoldable pub read_u64 : Reader ℕ
read_u64 = impl_decode_var 64

unfoldable pub read_usize : Reader ℕ
read_usize = impl_decode_var 64

unfoldable pub read_bool : Reader Bool
read_bool = do value ← read_u8; pure (value == 1)
