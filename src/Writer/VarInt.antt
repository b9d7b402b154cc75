-- ===== src/Writer/VarInt.antt =====
-- src/writer.rs: writing of variable length integers.
use mathlib.Core.Logic.{dite}
use mathlib.Core.WellFounded.{Acc}
use native.Mathlib.Decide.{dec_le}
use blaze_pk_rs.Prelude.{ℕ, ◌/◌, ◌%◌, ◌≤◌, ◌<◌, bit_and, bit_or, arith, ltb, if◌then◌else◌}
use blaze_pk_rs.Prelude.Order.{lt_wf}
use blaze_pk_rs.Writer.{Writer, ◌▸◌, write_byte}

pub shift_shrinks : (c : ℕ) → 128 ≤ c → c / 128 < c
shift_shrinks c h = omega arith

-- `while cur_shift >= 128`, then the last byte.
unfoldable pub encode_var_loop : (cur_shift : ℕ) → Acc ◌<◌ cur_shift → Writer
encode_var_loop cur_shift (Acc.intro _ smaller) =
    dite (dec_le 128 cur_shift)
      (λ h.
        write_byte (bit_or (bit_and cur_shift 127) 128 % 256)
        ▸ encode_var_loop (cur_shift / 128) (smaller _ (shift_shrinks cur_shift h)))
      (λ _. write_byte (cur_shift % 256))

unfoldable pub impl_encode_var : ℕ → Writer
unfolding encode_var_loop lt_wf
impl_encode_var value =
    if ltb value 64
    then write_byte (value % 256)
    else (write_byte (bit_or (bit_and value 63 % 256) 128)
        ▸ encode_var_loop (value / 64) (lt_wf.apply (value / 64)))

unfoldable pub write_u8 : ℕ → Writer
write_u8 value =
    if ltb value 64
    then write_byte value
    else (write_byte (bit_or (bit_and value 63) 128) ▸ write_byte (value / 64))

unfoldable pub write_u16 : ℕ → Writer
write_u16 value =
    if ltb value 64
    then write_byte (value % 256)
    else let shift = value / 64 in
      (write_byte (bit_or (bit_and value 63 % 256) 128)
        ▸ write_byte (bit_or (bit_and shift 127) 128 % 256)
        ▸ write_byte (shift / 128 % 256))

unfoldable pub write_u32 : ℕ → Writer
write_u32 = impl_encode_var

unfoldable pub write_u64 : ℕ → Writer
write_u64 = impl_encode_var

unfoldable pub write_usize : ℕ → Writer
write_usize = impl_encode_var
